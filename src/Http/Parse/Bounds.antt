-- ===== src/Http/Parse/Bounds.antt =====
-- What every request that is parsed keeps to: the sizes of its buffers.
use uestc_shixvn_mini_web_se.Http.RequestLine.{http_parse_request_line}
use uestc_shixvn_mini_web_se.CString.{c_str, strchr, strstr}
use uestc_shixvn_mini_web_se.Http.Parse.{
  http_request_init, http_parse_request_line, http_parse_request-cons, first_line, strstr,
  http_parse_request,
}
use uestc_shixvn_mini_web_se.Http.Body.{is_crlf, http_parse_body, take_body, body_length}
use uestc_shixvn_mini_web_se.Http.Headers.{
  trim_value, find_crlf, note_length, trim_name, keep_if_asked, after_first_line, header_found,
  note_connection, negotiate, add_header, header_of, http_parse_headers, parse_header_line,
}
use uestc_shixvn_mini_web_se.Http.Request.{
  http_request_init, http_get_header, same_name, max_body, max_headers, Request, Header,
}
use uestc_shixvn_mini_web_se.Http.Headers.KeepAlive.{header_lines-keeps, add_header-headers}
use uestc_shixvn_mini_web_se.Http.Sizes.{
  init-Fits, http_parse_request_line-Fits, keep_alive-Fits, trim_end_bound, take_bound, Fits,
  HeaderFits, AllFit-append,
}
use uestc_shixvn_mini_web_se.Prelude.{
  Bytes, >>=-eq-some, ℕ, ◌-◌, ◌≤◌, ◌<◌, ◌≡◌, sym, subst, ◌∙◌, inl, inr, false, ◌&&◌, Option, none,
  some, [], ◌∷◌, arith, ℤ, is_int, length, length-append, take, drop, ltb, ltb→lt, Bool-cases,
  Option-cases, codes,
}

-- The headers.
header_of-HeaderFits : (name value : Bytes) → HeaderFits (header_of name value)
header_of-HeaderFits name value = record {
  name_fits = take_bound 63 (trim_name name);
  value_fits = take_bound 255 (trim_value value);
}

module _ (h : Header) (req : Request) where
  add_header-method : (add_header h req).method ≡ req.method
  unfolding add_header note_connection note_length
  add_header-method = ground arith

  add_header-uri : (add_header h req).uri ≡ req.uri
  unfolding add_header note_connection note_length
  add_header-uri = ground arith

  add_header-body : (add_header h req).body ≡ req.body
  unfolding add_header note_connection note_length
  add_header-body = ground arith

  add_header-Fits :
      HeaderFits h → length req.headers < max_headers → Fits req → Fits (add_header h req)
  add_header-Fits g room f = record {
    method_fits = rw add_header-method f.method_fits;
    uri_fits = rw add_header-uri f.uri_fits;
    headers_fit = rw (add_header-headers h req) (omega (arith, length-append req.headers (h ∷ [])));
    each_fits = rw (add_header-headers h req) (AllFit-append req.headers h f.each_fits g);
    body_fits = rw add_header-body f.body_fits;
  }

header_found-Fits :
    (split : Option (Bytes × Bytes)) (req : Request) → Fits req → Fits (header_found req split)
header_found-Fits none req f = f
header_found-Fits (some (name, value)) req f =
    elim (Bool-cases (ltb (length req.headers) max_headers)) [
      | inl e ↦ rw e (
          add_header-Fits (header_of name value) req (header_of-HeaderFits name value)
            (ltb→lt _ _ e) f)
      | inr e ↦ rw e f
    ]

after_first_line-Fits :
    (split : Option (Bytes × Bytes)) (req : Request) → Fits req → Fits (after_first_line req split)
unfolding parse_header_line
after_first_line-Fits none req f = f
after_first_line-Fits (some (first, rest)) req f =
    header_lines-keeps Fits
      (λ line r g. header_found-Fits (strchr b':' (c_str (take 511 line))) r g) (length rest) rest
      req f

keep_if_asked-Fits :
    (req : Request) (conn : Option Bytes) → Fits req → Fits (keep_if_asked req conn)
keep_if_asked-Fits req none f = keep_alive-Fits req false f
keep_if_asked-Fits req (some v) f = elim (Bool-cases (same_name v (codes "keep-alive"))) [
  | inl e ↦ rw e f
  | inr e ↦ rw e (keep_alive-Fits req false f)
]

http_parse_headers-Fits :
    (raw : Bytes) (req : Request) → Fits req → Fits (http_parse_headers raw req)
unfolding http_parse_headers negotiate
http_parse_headers-Fits raw req f =
    let r = after_first_line req (find_crlf raw) in
    let g = after_first_line-Fits (find_crlf raw) req f in
    elim (Bool-cases (is_int 1 r.version_major && is_int 0 r.version_minor)) [
      | inl e ↦ rw e (keep_if_asked-Fits r (http_get_header r (codes "connection")) g)
      | inr e ↦ rw e g
    ]

-- The body.
body_length_bound :
    (content_length : ℤ) (available : ℕ) → body_length content_length available ≤ max_body - 1
unfolding body_length
body_length_bound content_length available = ground arith

take_body-Fits : (available : Bytes) (req : Request) → Fits req → Fits (take_body available req).0
unfolding take_body
take_body-Fits [] req f = f
take_body-Fits (x ∷ available) req f =
    let n = body_length req.content_length (length (x ∷ available)) in
    record {
      method_fits = f.method_fits;
      uri_fits = f.uri_fits;
      headers_fit = f.headers_fit;
      each_fits = f.each_fits;
      body_fits = omega (
        arith,
        trim_end_bound is_crlf (take n (x ∷ available)),
        take_bound n (x ∷ available),
        body_length_bound req.content_length (length (x ∷ available)),
      );
    }

http_parse_body-Fits : (raw : Bytes) (req : Request) → Fits req → Fits (http_parse_body raw req).0
unfolding http_parse_body
http_parse_body-Fits raw req f = elim (Option-cases (strstr (codes "\r\n\r\n") (c_str raw))) [
  | inl e ↦ rw (e, http_parse_body) f
  | inr ((head, tail), e) ↦
      rw (e, http_parse_body) (take_body-Fits (drop 4 (drop (length head) raw)) req f)
]

-- Whatever the bytes are, a request that is parsed keeps to its buffers: a method of at most 15
-- bytes, a URI of at most 1023, at most 32 headers with names of at most 63 bytes and values of at
-- most 255, and a body of at most 4095.
pub http_parse_request-Fits :
    (raw : Bytes) (req : Request) → http_parse_request raw ≡ some req → Fits req
unfolding http_parse_request
http_parse_request-Fits [] req e = absurd (ground (arith, e))
http_parse_request-Fits (x ∷ s) req e =
    let (line, found, e') =
      >>=-eq-some (first_line (x ∷ s)) _ (sym (http_parse_request-cons x s) ∙ e) in
    let (r, parsed, e'') =
      >>=-eq-some (http_parse_request_line (take 511 line) http_request_init) _ e' in
    subst Fits (ground (arith, e'')) (
      http_parse_body-Fits (x ∷ s) _ (
        http_parse_headers-Fits (x ∷ s) r
          (http_parse_request_line-Fits (take 511 line) http_request_init r init-Fits parsed)))
