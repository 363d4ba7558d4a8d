-- ===== src/Http/Headers/KeepAlive.antt =====
-- Why a connection is closed after a request.
use uestc_shixvn_mini_web_se.CString.{c_str, strchr}
use uestc_shixvn_mini_web_se.Http.Headers.{
  keep_if_asked, strchr, http_parse_headers, negotiate, http_get_header, after_first_line,
  find_crlf, line_found, header_of, max_headers, note_length, parse_header_line, header_found,
  note_connection, same_name, header_lines, add_header,
}
use uestc_shixvn_mini_web_se.Http.Request.{http_get_header, max_headers, same_name, Request, Header}
use uestc_shixvn_mini_web_se.Prelude.{
  Bytes, ℕ, zero, suc, ◌≡◌, refl, sym, ap, ◌∙◌, ◌⊎◌, inl, inr, true, false, ◌&&◌, Option, none,
  some, List, [], ◌∷◌, ◌++◌, arith, ℤ, is_int, pos, negsuc, length, take, ltb, Bool-cases, codes,
}

-- Some header asks for the connection to be closed.
abbrev pub AsksToClose : List Header → Type 0
AsksToClose [] = ⊥
AsksToClose (h ∷ hs) =
    ((same_name h.name (codes "connection") ≡ true) × (same_name h.value (codes "close") ≡ true))
    ⊎ AsksToClose hs

AsksToClose-append :
    (hs ks : List Header) → AsksToClose hs ⊎ AsksToClose ks → AsksToClose (hs ++ ks)
AsksToClose-append [] ks (inl x) = absurd x
AsksToClose-append [] ks (inr x) = x
AsksToClose-append (h ∷ hs) ks (inl (inl x)) = inl x
AsksToClose-append (h ∷ hs) ks (inl (inr x)) = inr (AsksToClose-append hs ks (inl x))
AsksToClose-append (h ∷ hs) ks (inr x) = inr (AsksToClose-append hs ks (inr x))

-- The flag is down only if a header says so.
abbrev HasCause : Request → Type 0
HasCause req = req.keep_alive ≡ false → AsksToClose req.headers

pub add_header-headers :
    (h : Header) (req : Request) → (add_header h req).headers ≡ req.headers ++ h ∷ []
unfolding add_header note_connection note_length
add_header-headers h req = ground arith

add_header-HasCause : (h : Header) (req : Request) → HasCause req → HasCause (add_header h req)
unfolding add_header note_connection note_length
add_header-HasCause h req c off = rw (add_header-headers h req) (
    AsksToClose-append req.headers (h ∷ [])
      (elim (Bool-cases (same_name h.name (codes "connection"))) [
        | inr other ↦ inl (c (ground arith))
        | inl conn ↦ elim (Bool-cases (same_name h.value (codes "close"))) [
          | inl close ↦ inr (inl (conn, close))
          | inr open' ↦ inl (c (ground arith))
        ]
      ]))

line_found-keeps {ℓ} :
    (P : Request → Type ℓ) (go_on : Bytes → Request → Request) (req : Request)
    (split : Option (Bytes × Bytes))
    → ((rest line : Bytes) (r : Request) → P r → P (go_on rest (parse_header_line line r)))
    → P req
    → P (line_found go_on req split)
line_found-keeps P go_on req none step h = h
line_found-keeps P go_on req (some ([], rest)) step h = h
line_found-keeps P go_on req (some (x ∷ line, rest)) step h = step rest (x ∷ line) req h

-- What every line keeps, the loop keeps.
pub header_lines-keeps {ℓ} :
    (P : Request → Type ℓ)
    → ((line : Bytes) (r : Request) → P r → P (parse_header_line line r))
    → (fuel : ℕ) (p : Bytes) (req : Request) → P req
    → P (header_lines fuel p req)
unfolding header_lines
header_lines-keeps P step zero p req h = h
header_lines-keeps P step (suc fuel) p req h =
    line_found-keeps P (header_lines fuel) req (find_crlf p)
      (λ rest line r k. header_lines-keeps P step fuel rest _ (step line r k)) h

header_found-HasCause :
    (split : Option (Bytes × Bytes)) (req : Request)
    → HasCause req
    → HasCause (header_found req split)
header_found-HasCause none req c = c
header_found-HasCause (some (name, value)) req c =
    elim (Bool-cases (ltb (length req.headers) max_headers)) [
      | inl e ↦ rw e (add_header-HasCause (header_of name value) req c)
      | inr e ↦ rw e c
    ]

after_first_line-HasCause :
    (split : Option (Bytes × Bytes)) (req : Request)
    → HasCause req
    → HasCause (after_first_line req split)
unfolding parse_header_line
after_first_line-HasCause none req c = c
after_first_line-HasCause (some (first, rest)) req c =
    header_lines-keeps HasCause
      (λ line r d. header_found-HasCause (strchr b':' (c_str (take 511 line))) r d) (length rest)
      rest req c

abbrev pub IsVersion10 : Request → Type 0
IsVersion10 req = (req.version_major ≡ pos 1) × (req.version_minor ≡ pos 0)

-- The value of the header, if there is one, is not `keep-alive`.
abbrev pub IsNotKeepAlive : Option Bytes → Type 0
IsNotKeepAlive none = Unit {0}
IsNotKeepAlive (some v) = same_name v (codes "keep-alive") ≡ false

keep_if_asked_cases :
    (req : Request) (conn : Option Bytes)
    → (keep_if_asked req conn ≡ req)
      ⊎ (IsNotKeepAlive conn × (keep_if_asked req conn ≡ record req { keep_alive = false }))
keep_if_asked_cases req none = inr (tt, refl)
keep_if_asked_cases req (some v) = elim (Bool-cases (same_name v (codes "keep-alive"))) [
  | inl e ↦ inl (rw e)
  | inr e ↦ inr (e, rw e)
]

is_int-eq : (n : ℕ) (a : ℤ) → is_int n a ≡ true → a ≡ pos n
is_int-eq n (pos m) h = ground arith
is_int-eq n (negsuc m) h = cc

negotiate_cases :
    (req : Request)
    → (negotiate req ≡ req)
      ⊎ (IsVersion10 req
          × IsNotKeepAlive (http_get_header req (codes "connection"))
          × (negotiate req ≡ record req { keep_alive = false }))
unfolding negotiate
negotiate_cases req = elim (Bool-cases (is_int 1 req.version_major && is_int 0 req.version_minor)) [
  | inr e ↦ inl (rw e)
  | inl e ↦
      let v : IsVersion10 req =
        ground (arith, is_int-eq 1 req.version_major, is_int-eq 0 req.version_minor) in
      elim (keep_if_asked_cases req (http_get_header req (codes "connection"))) [
        | inl same ↦ inl (rw e same)
        | inr (no_keep, closed) ↦ inr (v, no_keep, rw e closed)
      ]
]

-- A connection that was to be kept is closed after the headers for one of two reasons only: a header
-- `Connection: close`, or HTTP/1.0 without a first `Connection` header that says `keep-alive`.
pub http_parse_headers-closes :
    (raw : Bytes) (req : Request)
    → req.keep_alive ≡ true
    → (http_parse_headers raw req).keep_alive ≡ false
    → AsksToClose (http_parse_headers raw req).headers
      ⊎ (IsVersion10 (http_parse_headers raw req)
          × IsNotKeepAlive (http_get_header (http_parse_headers raw req) (codes "connection")))
unfolding http_parse_headers http_get_header
http_parse_headers-closes raw req on off =
    let r = after_first_line req (find_crlf raw) in
    elim (negotiate_cases r) [
      | inl e ↦
          let off' : r.keep_alive ≡ false = sym (ap (λ (q : Request). q.keep_alive) e) ∙ off in
          inl (rw e (after_first_line-HasCause (find_crlf raw) req (λ no'. cc) off'))
      | inr (v, no_keep, e) ↦ inr (rw e (v, no_keep))
    ]
