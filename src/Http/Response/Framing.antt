-- ===== src/Http/Response/Framing.antt =====
-- A response is a message that the program's own parser reads back: a client finds the body behind
-- the first empty line, and its length in the header.
use uestc_shixvn_mini_web_se.CString.{atoi, tolower, strstr, is_digit}
use uestc_shixvn_mini_web_se.Http.Response.{
  http_build_response, fit, connection_text, response_head,
}
use uestc_shixvn_mini_web_se.Http.Request.{strcasecmp_safe, same_name, http_request_init, Header}
use uestc_shixvn_mini_web_se.CString.Format.{
  decimal, atoi-decimal, decimal-length, decimal-AreDigits, AreDigits,
}
use uestc_shixvn_mini_web_se.CString.Scan.{Avoids, Avoids-append, StartsOff, EndsOff}
use uestc_shixvn_mini_web_se.Http.Headers.{
  note_connection, note_length, http_parse_headers, is_sp_or_tab, is_blank_or_cr, add_header,
  negotiate,
}
use uestc_shixvn_mini_web_se.Http.Headers.Fields.{
  IsField, AreFields, add_headers, http_parse_headers-fields,
}
use uestc_shixvn_mini_web_se.Http.Parse.Message.{
  message, lines, blank_line, message-lines, strstr_blank,
}
use uestc_shixvn_mini_web_se.Prelude.{
  Bytes, ℕ, ◌^◌, ◌≤◌, ◌<◌, ◌≡◌, refl, sym, ap, subst, ◌∙◌, Bool, true, false, some, List, [], ◌∷◌,
  ◌++◌, append_assoc, arith, to_nat, pos, length, length-append, codes,
}

-- A header's value that fits its buffer and needs no trimming.
pub record IsValue (value : Bytes) : Type 0 where
  pub fits : length value ≤ 255
  pub no_cr : Avoids 13 value
  pub no_nul : Avoids 0 value
  pub starts : StartsOff is_sp_or_tab value
  pub ends : EndsOff is_blank_or_cr value

abbrev pub status_line : ℕ → Bytes → Bytes
status_line status status_text = codes "HTTP/1.1 " ++ (decimal status ++ (b' ' ∷ status_text))

abbrev pub response_fields : Bytes → Bytes → ℕ → Bool → List Header
response_fields date content_type body_len keep_alive =
    record { name = codes "Server"; value = codes "MiniWeb/1.4" }
    ∷ record { name = codes "Date"; value = date }
    ∷ record { name = codes "Content-Type"; value = content_type }
    ∷ record { name = codes "Content-Length"; value = decimal body_len }
    ∷ record { name = codes "Connection"; value = connection_text keep_alive }
    ∷ []

response_head-message :
    (status : ℕ) (status_text date content_type body : Bytes) (n : ℕ) (keep_alive : Bool)
    → response_head status status_text date content_type n keep_alive ++ body
      ≡ message
          (status_line status status_text)
          (response_fields date content_type n keep_alive)
          body
unfolding response_head
response_head-message status status_text date content_type body n keep_alive = simp append_assoc

digits-Avoids : (c : ℕ) (s : Bytes) → is_digit c ≡ false → AreDigits s → Avoids c s
digits-Avoids c [] h a = tt
digits-Avoids c (x ∷ s) h a = ((λ e. absurd (ground (arith, e, h, a.0))), digits-Avoids c s h a.1)

digits-StartsOff : (s : Bytes) → AreDigits s → StartsOff is_sp_or_tab s
digits-StartsOff [] a = tt
digits-StartsOff (x ∷ s) a = ground arith

digits-EndsOff : (s : Bytes) → AreDigits s → EndsOff is_blank_or_cr s
digits-EndsOff [] a = tt
digits-EndsOff (x ∷ []) a = ground arith
digits-EndsOff (x ∷ y ∷ s) a = digits-EndsOff (y ∷ s) a.1

decimal-IsValue : (n : ℕ) → n < 2 ^ 31 → IsValue (decimal n)
decimal-IsValue n h =
    let a = decimal-AreDigits n in
    record {
      fits = omega (arith, decimal-length n h);
      no_cr = digits-Avoids 13 (decimal n) refl a;
      no_nul = digits-Avoids 0 (decimal n) refl a;
      starts = digits-StartsOff (decimal n) a;
      ends = digits-EndsOff (decimal n) a;
    }

-- A name that fits and needs no trimming.
pub record IsName (name : Bytes) : Type 0 where
  pub fits : length name ≤ 63
  pub no_colon : Avoids b':' name
  pub no_cr : Avoids 13 name
  pub no_nul : Avoids 0 name
  pub starts : StartsOff is_sp_or_tab name
  pub ends : EndsOff is_sp_or_tab name

IsValue-IsField : (h : Header) → IsName h.name → IsValue h.value → IsField h
IsValue-IsField h n v = record {
  name_fits = n.fits;
  name_no_colon = n.no_colon;
  name_no_cr = n.no_cr;
  name_no_nul = n.no_nul;
  name_starts = n.starts;
  name_ends = n.ends;
  value_fits = v.fits;
  value_no_cr = v.no_cr;
  value_no_nul = v.no_nul;
  value_starts = v.starts;
  value_ends = v.ends;
}

server-IsValue : IsValue (codes "MiniWeb/1.4")
server-IsValue = record {
  fits = omega arith;
  no_cr = omega arith;
  no_nul = omega arith;
  starts = refl;
  ends = refl;
}

connection_text-IsValue : (keep_alive : Bool) → IsValue (connection_text keep_alive)
connection_text-IsValue true = record {
  fits = omega arith;
  no_cr = omega arith;
  no_nul = omega arith;
  starts = refl;
  ends = refl;
}
connection_text-IsValue false = record {
  fits = omega arith;
  no_cr = omega arith;
  no_nul = omega arith;
  starts = refl;
  ends = refl;
}

names-AreNames :
    IsName (codes "Server")
    × IsName (codes "Date")
    × IsName (codes "Content-Type")
    × IsName (codes "Content-Length")
    × IsName (codes "Connection")
names-AreNames = (
  record {
    fits = omega arith;
    no_colon = omega arith;
    no_cr = omega arith;
    no_nul = omega arith;
    starts = refl;
    ends = refl;
  },
  record {
    fits = omega arith;
    no_colon = omega arith;
    no_cr = omega arith;
    no_nul = omega arith;
    starts = refl;
    ends = refl;
  },
  record {
    fits = omega arith;
    no_colon = omega arith;
    no_cr = omega arith;
    no_nul = omega arith;
    starts = refl;
    ends = refl;
  },
  record {
    fits = omega arith;
    no_colon = omega arith;
    no_cr = omega arith;
    no_nul = omega arith;
    starts = refl;
    ends = refl;
  },
  record {
    fits = omega arith;
    no_colon = omega arith;
    no_cr = omega arith;
    no_nul = omega arith;
    starts = refl;
    ends = refl;
  },
)

response_fields-AreFields :
    (date content_type : Bytes) (n : ℕ) (keep_alive : Bool)
    → IsValue date
    → IsValue content_type
    → n < 2 ^ 31
    → AreFields (response_fields date content_type n keep_alive)
response_fields-AreFields date content_type n keep_alive d c b =
    let (s, dn, ct, cl, co) = names-AreNames in
    (
      IsValue-IsField _ s server-IsValue,
      (
        IsValue-IsField _ dn d,
        (
          IsValue-IsField _ ct c,
          (
            IsValue-IsField _ cl (decimal-IsValue n b),
            (IsValue-IsField _ co (connection_text-IsValue keep_alive), tt),
          ),
        ),
      ),
    )

-- What the parser makes of the header lines.
add_headers-response_fields :
    (date content_type : Bytes) (n : ℕ) (keep_alive : Bool)
    → negotiate (add_headers (response_fields date content_type n keep_alive) http_request_init)
      ≡ record http_request_init {
        headers = response_fields date content_type n keep_alive;
        content_length = pos (to_nat (atoi (decimal n)));
        keep_alive = keep_alive;
      }
unfolding negotiate add_header note_length note_connection same_name strcasecmp_safe tolower
    http_request_init
add_headers-response_fields date content_type n true = refl
add_headers-response_fields date content_type n false = refl

fit-eq-some :
    (size : ℕ) (head body out : Bytes)
    → fit size head body ≡ some out
    → (head ++ body ≡ out) × (length out < size)
unfolding fit
fit-eq-some size head body out h =
    let whole : head ++ body ≡ out = ground (arith, h) in
    (whole, subst (λ s. length s < size) whole (ground (arith, h, length-append head body)))

-- A response that is built fits its buffer with a NUL behind it. With a date and a content type
-- that fit a header and hold no line break, and a status text without CR, the parser of requests
-- reads its header lines back: `Content-Length` is the length of the body, the connection is kept
-- as it was asked, and the body stands behind the first empty line, whatever bytes it holds.
pub http_build_response-framed :
    (status : ℕ) (status_text content_type body : Bytes) (keep_alive : Bool) (date : Bytes)
    (size : ℕ) (out : Bytes)
    → Avoids 13 status_text
    → IsValue content_type
    → IsValue date
    → length body < 2 ^ 31
    → http_build_response status status_text content_type body keep_alive date size ≡ some out
    → (length out < size)
      × (http_parse_headers out http_request_init ≡ record http_request_init {
        headers = response_fields date content_type (length body) keep_alive;
        content_length = pos (length body);
        keep_alive = keep_alive;
      })
      × (strstr (codes "\r\n\r\n") out
          ≡ some (
            lines
                (status_line status status_text)
                (response_fields date content_type (length body) keep_alive),
            blank_line body,
          ))
unfolding http_build_response http_request_init
http_build_response-framed status status_text content_type body keep_alive date size out a c d b h =
    let (same, below) = fit-eq-some size _ body out h in
    let line = status_line status status_text in
    let hs = response_fields date content_type (length body) keep_alive in
    let m : message line hs body ≡ out =
      sym (response_head-message status status_text date content_type body (length body) keep_alive)
      ∙ same in
    let line-Avoids : Avoids 13 line =
      Avoids-append 13 (codes "HTTP/1.1 ") (decimal status ++ (b' ' ∷ status_text)) (omega arith) (
        Avoids-append 13 (decimal status) (b' ' ∷ status_text)
          (digits-Avoids 13 (decimal status) refl (decimal-AreDigits status)) (omega arith, a)) in
    let g = response_fields-AreFields date content_type (length body) keep_alive d c b in
    (
      below,
      ap (λ s. http_parse_headers s http_request_init) (sym m)
          ∙ (http_parse_headers-fields line hs body http_request_init line-Avoids g (omega arith)).0
          ∙ add_headers-response_fields date content_type (length body) keep_alive
          ∙ rw (atoi-decimal (length body)) refl,
      ap (strstr (codes "\r\n\r\n")) (sym m ∙ message-lines hs line body)
          ∙ strstr_blank hs line body g line-Avoids,
    )
