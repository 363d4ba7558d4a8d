-- ===== src/Http/Parse/RoundTrip.antt =====
-- A request that is put together from its parts is read back.
use uestc_shixvn_mini_web_se.Http.RequestLine.{http_parse_request_line}
use uestc_shixvn_mini_web_se.Http.Headers.{http_parse_headers, negotiate}
use uestc_shixvn_mini_web_se.Http.RequestLine.RoundTrip.{
  http_parse_request_line-request_line, version_text, request_line, IsTarget,
}
use uestc_shixvn_mini_web_se.Http.Parse.{
  http_parse_request-cons, parse_parts, http_parse_request_line, http_parse_request, first_line,
}
use uestc_shixvn_mini_web_se.Http.Parse.Message.{
  strstr_crlf, lines-Avoids, message-lines, blank_line, strstr_blank, lines, message,
}
use uestc_shixvn_mini_web_se.Http.Headers.Fields.{
  http_parse_headers-fields, fields, add_headers, AreFields, negotiated-headers,
}
use uestc_shixvn_mini_web_se.CString.{strncpy_fits, strstr, c_str}
use uestc_shixvn_mini_web_se.Http.Body.{is_crlf, http_parse_body, take_body, body_length}
use uestc_shixvn_mini_web_se.Http.Request.{
  max_headers, http_request_init, max_body, Header, Request,
}
use uestc_shixvn_mini_web_se.CString.Scan.{
  Avoids-append, Avoids, EndsOff, trim_end_none, c_str-append, drop-append,
}
use uestc_shixvn_mini_web_se.Prelude.{
  Bytes, ℕ, ◌≤◌, ◌<◌, ◌≡◌, refl, ap, ◌∙◌, ◌≢◌, some, List, [], ◌∷◌, ◌++◌, arith, pos, length,
  length-append, take, drop, codes,
}

-- A body that fits, whose length the headers state, and which does not end in CR or LF.
abbrev pub IsBody : Request → Bytes → Type 0
IsBody req [] = Unit {0}
IsBody req (x ∷ body) =
    (req.content_length ≡ pos (length (x ∷ body)))
    × (length (x ∷ body) < max_body)
    × EndsOff is_crlf (x ∷ body)

abbrev pub with_body : Request → Bytes → Request
with_body req [] = req
with_body req (x ∷ body) = record req { body = x ∷ body; body_expected = length (x ∷ body) }

with_body-headers : (body : Bytes) (req : Request) → (with_body req body).headers ≡ req.headers
with_body-headers [] req = refl
with_body-headers (x ∷ body) req = refl

take_all : (s : Bytes) → take (length s) s ≡ s
take_all [] = refl
take_all (x ∷ s) = ap (◌∷◌ x) (take_all s)

body_length-stated : (n : ℕ) → n < max_body → body_length (pos n) n ≡ n
unfolding body_length
body_length-stated n h = ground arith

take_body-IsBody :
    (body : Bytes) (req : Request) → IsBody req body → (take_body body req).0 ≡ with_body req body
unfolding take_body
take_body-IsBody [] req h = refl
take_body-IsBody (x ∷ body) req (stated, fits, ends) =
    rw (stated, body_length-stated (length (x ∷ body)) fits, take_all (x ∷ body))
      (rw (trim_end_none is_crlf (x ∷ body) ends) (ground arith))

http_parse_body_found :
    (raw head tail : Bytes) (req : Request)
    → strstr (codes "\r\n\r\n") (c_str raw) ≡ some (head, tail)
    → http_parse_body raw req ≡ take_body (drop 4 (drop (length head) raw)) req
unfolding http_parse_body
http_parse_body_found raw head tail req e = rw (e, http_parse_body) refl

first_line_found :
    (raw line rest : Bytes)
    → strstr (codes "\r\n") (c_str raw) ≡ some (line, rest)
    → first_line raw ≡ some line
unfolding first_line
first_line_found raw line rest e = rw (e, first_line) refl

parse_parts_found :
    (raw line : Bytes) (r : Request)
    → first_line raw ≡ some line
    → http_parse_request_line (take 511 line) http_request_init ≡ some r
    → parse_parts raw ≡ some (http_parse_body raw (http_parse_headers raw r)).0
parse_parts_found raw line r e e' = rw (e, parse_parts) (rw e' refl)

module _ (first : Bytes) (hs : List Header) (body : Bytes) where
  c_str-message :
      AreFields hs
      → Avoids 0 first
      → c_str (message first hs body) ≡ lines first hs ++ blank_line (c_str body)
  unfolding c_str
  c_str-message g a =
      ap c_str (message-lines hs first body)
      ∙ c_str-append (lines first hs) (blank_line body) (lines-Avoids hs first g a)
      ∙ ap (◌++◌ (lines first hs)) (ground arith)

  http_parse_body-message :
      (req : Request)
      → AreFields hs
      → Avoids 0 first
      → Avoids 13 first
      → IsBody req body
      → (http_parse_body (message first hs body) req).0 ≡ with_body req body
  http_parse_body-message req g a b h =
      let found =
        ap (strstr (codes "\r\n\r\n")) (c_str-message g a)
        ∙ strstr_blank hs first (c_str body) g b in
      ap (λ (r : Request × ℕ). r.0)
        (http_parse_body_found (message first hs body) (lines first hs) (blank_line (c_str body))
          req found)
      ∙ ap (λ s. (take_body s req).0)
          (ap (λ s. drop 4 (drop (length (lines first hs)) s)) (message-lines hs first body)
            ∙ ap (drop 4) (drop-append (lines first hs) (blank_line body)))
      ∙ take_body-IsBody body req h

  first_line-message :
      AreFields hs
      → Avoids 0 first
      → Avoids 13 first
      → first_line (message first hs body) ≡ some first
  unfolding c_str
  first_line-message g a b =
      let rest = fields hs (13 ∷ 10 ∷ body) in
      first_line_found (message first hs body) first (13 ∷ 10 ∷ c_str rest) (
        ap (strstr (codes "\r\n"))
          (c_str-append first (13 ∷ 10 ∷ rest) a ∙ ap (◌++◌ first) (ground arith))
        ∙ strstr_crlf first (c_str rest) b)

http_parse_request_parts : (raw : Bytes) → 0 < length raw → http_parse_request raw ≡ parse_parts raw
http_parse_request_parts [] h = absurd (omega arith)
http_parse_request_parts (x ∷ s) h = http_parse_request-cons x s

-- The request that the first line states.
abbrev pub request_of : Bytes → Bytes → ℕ → ℕ → Request
request_of method uri major minor = record http_request_init {
  method = method;
  uri = uri;
  version_major = pos major;
  version_minor = pos minor;
}

request_line-Avoids :
    (c : ℕ) (method uri : Bytes) (major minor : ℕ)
    → Avoids c method
    → Avoids c uri
    → c < 32
    → Avoids c (request_line method uri (version_text major minor))
request_line-Avoids c method uri major minor a b e =
    Avoids-append c method _ a (omega arith, Avoids-append c uri _ b (omega arith))

-- A message of a request line of at most 511 bytes (a method of at most 15, a URI that is not
-- empty, neither with a space, CR or NUL), at most 32 header lines that fit, an empty line and a
-- body: it is read back into its parts, with exactly these headers in their order, the connection
-- negotiated. The
-- body is empty or at most 4095 bytes long, has the length that the headers state, and does not end
-- in CR or LF; it may hold any byte.
pub http_parse_request-message :
    (method uri : Bytes) (major minor : ℕ) (hs : List Header) (body : Bytes)
    → IsTarget method uri
    → uri ≢ []
    → Avoids 0 method
    → Avoids 0 uri
    → major < 10
    → minor < 10
    → length (request_line method uri (version_text major minor)) ≤ 511
    → AreFields hs
    → length hs ≤ max_headers
    → IsBody (negotiate (add_headers hs (request_of method uri major minor))) body
    → (http_parse_request (message (request_line method uri (version_text major minor)) hs body)
        ≡ some (with_body (negotiate (add_headers hs (request_of method uri major minor))) body))
      × ((with_body (negotiate (add_headers hs (request_of method uri major minor))) body).headers
          ≡ hs)
unfolding http_request_init
http_parse_request-message method uri major minor hs body t ne zm zu h k short g room b =
    let first = request_line method uri (version_text major minor) in
    let raw = message first hs body in
    let z = request_line-Avoids 0 method uri major minor zm zu (omega arith) in
    let a =
      request_line-Avoids 13 method uri major minor t.method_no_cr t.uri_no_cr (omega arith) in
    (
      http_parse_request_parts raw
            (omega (arith, length-append first (13 ∷ 10 ∷ fields hs (13 ∷ 10 ∷ body))))
          ∙ parse_parts_found raw first (request_of method uri major minor)
              (first_line-message first hs body g z a)
              (ap (λ s. http_parse_request_line s http_request_init) (strncpy_fits 511 first short)
                ∙ http_parse_request_line-request_line method uri major minor http_request_init t ne
                    h k)
          ∙ ap some (
              ap (λ r. (http_parse_body raw r).0)
                (http_parse_headers-fields first hs body (request_of method uri major minor) a g
                  (omega arith)).0
              ∙ http_parse_body-message first hs body _ g z a b),
      with_body-headers body (negotiate (add_headers hs (request_of method uri major minor)))
          ∙ negotiated-headers hs (request_of method uri major minor),
    )
