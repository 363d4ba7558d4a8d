-- ===== src/Http/Headers/Fields.antt =====
-- Header lines that are put together from names and values are read back.
use uestc_shixvn_mini_web_se.CString.{trim_end, strncpy_fits, skip_while}
use uestc_shixvn_mini_web_se.CString.Scan.{
  strchr-append, c_str_id, skip_while_none, Avoids-append, trim_end_none, StartsOff, Avoids,
  EndsOff,
}
use uestc_shixvn_mini_web_se.Http.Headers.{
  header_found, negotiate, http_parse_headers, header_lines, skip_while, is_blank_or_cr, header_of,
  is_sp_or_tab, max_headers, trim_value, note_length, parse_header_line, trim_name, note_connection,
  trim_behind, Request, add_header, find_crlf,
}
use uestc_shixvn_mini_web_se.Http.Headers.KeepAlive.{add_header-headers}
use uestc_shixvn_mini_web_se.Http.Request.{http_get_header, max_headers, Request, Header}
use uestc_shixvn_mini_web_se.Prelude.{
  Bytes, ℕ, zero, suc, ◌+◌, ◌≤◌, ◌<◌, ◌≡◌, refl, sym, append-nil, append_assoc, Option-cases, codes,
  ap, ◌∙◌, ◌≢◌, Bool, some, List, [], ◌∷◌, ◌++◌, arith, length, length-append, lt→ltb,
}

-- A header whose name and value fit their buffers and need no trimming.
pub record IsField (h : Header) : Type 0 where
  pub name_fits : length h.name ≤ 63
  pub name_no_colon : Avoids b':' h.name
  pub name_no_cr : Avoids 13 h.name
  pub name_no_nul : Avoids 0 h.name
  pub name_starts : StartsOff is_sp_or_tab h.name
  pub name_ends : EndsOff is_sp_or_tab h.name
  pub value_fits : length h.value ≤ 255
  pub value_no_cr : Avoids 13 h.value
  pub value_no_nul : Avoids 0 h.value
  pub value_starts : StartsOff is_sp_or_tab h.value
  pub value_ends : EndsOff is_blank_or_cr h.value

abbrev pub AreFields : List Header → Type 0
AreFields [] = Unit {0}
AreFields (h ∷ hs) = IsField h × AreFields hs

abbrev pub field_line : Header → Bytes
field_line h = h.name ++ (b':' ∷ b' ' ∷ h.value)

-- The lines of the headers, in front of what follows them.
abbrev pub fields : List Header → Bytes → Bytes
fields [] rest = rest
fields (h ∷ hs) rest = field_line h ++ (13 ∷ 10 ∷ fields hs rest)

-- What the parser does with each header in turn.
abbrev pub add_headers : List Header → Request → Request
add_headers [] req = req
add_headers (h ∷ hs) req = add_headers hs (add_header h req)

pub find_crlf-append :
    (line rest : Bytes) → Avoids 13 line → find_crlf (line ++ (13 ∷ 10 ∷ rest)) ≡ some (line, rest)
unfolding find_crlf
find_crlf-append [] rest h = refl
find_crlf-append (x ∷ []) rest h = ground (arith, find_crlf-append [] rest tt)
find_crlf-append (x ∷ y ∷ line) rest h = ground (arith, find_crlf-append (y ∷ line) rest h.1)

trim_behind_none : (p : ℕ → Bool) (s : Bytes) → EndsOff p s → trim_behind p s ≡ s
unfolding trim_end
trim_behind_none p [] h = refl
trim_behind_none p (x ∷ []) h = refl
trim_behind_none p (x ∷ y ∷ s) h = ap (◌∷◌ x) (trim_end_none p (y ∷ s) h)

add_header-length :
    (h : Header) (req : Request) → length (add_header h req).headers ≡ length req.headers + 1
unfolding add_header note_connection note_length
add_header-length h req = ground (arith, length-append req.headers (h ∷ []))

module _ (h : Header) (f : IsField h) where
  skip_while_blank : skip_while is_sp_or_tab (b' ' ∷ h.value) ≡ h.value
  unfolding skip_while
  skip_while_blank = skip_while_none is_sp_or_tab h.value f.value_starts

  header_of-field : header_of h.name (b' ' ∷ h.value) ≡ h
  unfolding trim_name trim_value
  header_of-field =
      rw (skip_while_none is_sp_or_tab h.name f.name_starts, skip_while_blank)
        (rw
          (
            trim_behind_none is_sp_or_tab h.name f.name_ends,
            trim_behind_none is_blank_or_cr h.value f.value_ends,
          )
          (rw (strncpy_fits 63 h.name f.name_fits, strncpy_fits 255 h.value f.value_fits)))

  pub field_line-no_nul : Avoids 0 (field_line h)
  field_line-no_nul =
      Avoids-append 0 h.name _ f.name_no_nul (omega arith, (omega arith, f.value_no_nul))

  parse_header_line-field :
      (req : Request)
      → length req.headers < max_headers
      → parse_header_line (field_line h) req ≡ add_header h req
  unfolding parse_header_line
  parse_header_line-field req room =
      rw
        (
          strncpy_fits 511 (field_line h) (
              omega
                (arith, length-append h.name (b':' ∷ b' ' ∷ h.value), f.name_fits, f.value_fits)),
          c_str_id (field_line h) field_line-no_nul,
          strchr-append b':' h.name (b' ' ∷ h.value) f.name_no_colon,
          header_found,
        )
        (rw (header_of-field, lt→ltb _ _ room))

  pub field_line-Avoids : Avoids 13 (field_line h)
  field_line-Avoids =
      Avoids-append 13 h.name _ f.name_no_cr (omega arith, (omega arith, f.value_no_cr))

pub field_line_ne : (h : Header) → field_line h ≢ []
field_line_ne h e =
    absurd (omega (arith, ap length e, length-append h.name (b':' ∷ b' ' ∷ h.value)))

header_lines-line :
    (line rest : Bytes) (fuel : ℕ) (req : Request)
    → line ≢ []
    → Avoids 13 line
    → header_lines (suc fuel) (line ++ (13 ∷ 10 ∷ rest)) req
      ≡ header_lines fuel rest (parse_header_line line req)
unfolding header_lines
header_lines-line [] rest fuel req ne a = absurd (ne refl)
header_lines-line (x ∷ line) rest fuel req ne a = rw (find_crlf-append (x ∷ line) rest a)

-- Fuel for the bytes that are there reads all of the lines.
header_lines-fields :
    (hs : List Header) (rest : Bytes) (fuel : ℕ) (req : Request)
    → AreFields hs
    → length req.headers + length hs ≤ max_headers
    → length (fields hs (13 ∷ 10 ∷ rest)) ≤ fuel
    → header_lines fuel (fields hs (13 ∷ 10 ∷ rest)) req ≡ add_headers hs req
unfolding header_lines
header_lines-fields [] rest zero req h room f = refl
header_lines-fields [] rest (suc fuel) req h room f = rw (find_crlf-append [] rest tt)
header_lines-fields (h ∷ hs) rest zero req g room f =
    absurd (omega (arith, length-append (field_line h) (13 ∷ 10 ∷ fields hs (13 ∷ 10 ∷ rest))))
header_lines-fields (h ∷ hs) rest (suc fuel) req g room f =
    header_lines-line (field_line h) (fields hs (13 ∷ 10 ∷ rest)) fuel req (field_line_ne h)
      (field_line-Avoids h g.0)
    ∙ rw (parse_header_line-field h g.0 req (omega arith)) (
        header_lines-fields hs rest fuel (add_header h req) g.1
          (omega (arith, add_header-length h req))
          (omega (arith, length-append (field_line h) (13 ∷ 10 ∷ fields hs (13 ∷ 10 ∷ rest)))))

negotiate-headers : (req : Request) → (negotiate req).headers ≡ req.headers
unfolding negotiate
negotiate-headers req = ground (arith, Option-cases (http_get_header req (codes "connection")))

add_headers-headers :
    (hs : List Header) (req : Request) → (add_headers hs req).headers ≡ req.headers ++ hs
add_headers-headers [] req = sym (append-nil req.headers)
add_headers-headers (h ∷ hs) req =
    add_headers-headers hs (add_header h req)
    ∙ ap (λ (t : List Header). t ++ hs) (add_header-headers h req)
    ∙ append_assoc req.headers (h ∷ []) hs

pub negotiated-headers :
    (hs : List Header) (req : Request)
    → (negotiate (add_headers hs req)).headers ≡ req.headers ++ hs
negotiated-headers hs req = negotiate-headers (add_headers hs req) ∙ add_headers-headers hs req

-- A first line without CR, then lines `Name: Value` for headers that fit, no more than there is
-- room for, an empty line, and anything behind it: the headers are added in their order, behind
-- those that are there, and the connection is negotiated from them.
pub http_parse_headers-fields :
    (first : Bytes) (hs : List Header) (rest : Bytes) (req : Request)
    → Avoids 13 first
    → AreFields hs
    → length req.headers + length hs ≤ max_headers
    → (http_parse_headers (first ++ (13 ∷ 10 ∷ fields hs (13 ∷ 10 ∷ rest))) req
        ≡ negotiate (add_headers hs req))
      × ((http_parse_headers (first ++ (13 ∷ 10 ∷ fields hs (13 ∷ 10 ∷ rest))) req).headers
          ≡ req.headers ++ hs)
unfolding http_parse_headers
http_parse_headers-fields first hs rest req a g room =
    let parsed : http_parse_headers (first ++ (13 ∷ 10 ∷ fields hs (13 ∷ 10 ∷ rest))) req
        ≡ negotiate (add_headers hs req) =
      rw (find_crlf-append first (fields hs (13 ∷ 10 ∷ rest)) a)
        (ap negotiate (header_lines-fields hs rest _ req g room (omega arith))) in
    (parsed, ap (λ (r : Request). r.headers) parsed ∙ negotiated-headers hs req)
