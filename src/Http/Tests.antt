-- ===== src/Http/Tests.antt =====
-- Runs of the HTTP parser, and its theorems at inputs.
use uestc_shixvn_mini_web_se.Http.Body.{body_length, take_body, http_parse_body}
use uestc_shixvn_mini_web_se.CString.{
  digits_from, atoi, skip_while, trim_end, strchr, starts_with, c_str, strstr, tolower,
}
use uestc_shixvn_mini_web_se.Http.Sizes.{Fits}
use uestc_shixvn_mini_web_se.Http.Headers.{
  trim_value, trim_name, note_length, note_connection, add_header, parse_header_line, header_lines,
  find_crlf, negotiate, http_parse_headers,
}
use uestc_shixvn_mini_web_se.Http.RequestLine.{parse_version, http_parse_request_line}
use uestc_shixvn_mini_web_se.Http.Parse.{first_line, http_parse_request}
use uestc_shixvn_mini_web_se.Http.Request.{
  strcasecmp_safe, find_header, http_get_header, http_request_init, same_name, Request, Header,
}
use uestc_shixvn_mini_web_se.Http.Parse.Bounds.{http_parse_request-Fits}
use uestc_shixvn_mini_web_se.Http.Parse.RoundTrip.{
  with_body, request_of, http_parse_request-message,
}
use uestc_shixvn_mini_web_se.Http.Headers.Fields.{add_headers, IsField, http_parse_headers-fields}
use uestc_shixvn_mini_web_se.Http.Headers.KeepAlive.{
  IsNotKeepAlive, IsVersion10, AsksToClose, http_parse_headers-closes,
}
use uestc_shixvn_mini_web_se.Http.RequestLine.RoundTrip.{
  IsTarget, http_parse_request_line-request_line,
}
use uestc_shixvn_mini_web_se.Http.Request.Names.{Looks, http_get_header-Looks}
use uestc_shixvn_mini_web_se.Prelude.{
  Bytes, ◌≡◌, refl, ap, ◌≢◌, ◌⊎◌, false, none, some, [], ◌∷◌, arith, pos, negsuc, length, codes,
}

abbrev length_header : Header
length_header = record { name = codes "Content-Length"; value = codes "3" }

abbrev close_header : Header
close_header = record { name = codes "Connection"; value = codes "Close" }

abbrev posted : Bytes
posted = codes "GET /a HTTP/1.1\r\nConnection: Close\r\n\r\nabc\r\n"

abbrev posted_request : Request
posted_request = record {
  method = codes "GET";
  uri = codes "/a";
  version_major = pos 1;
  version_minor = pos 1;
  headers = close_header ∷ [];
  content_length = negsuc 0;
  keep_alive = false;
  body = codes "abc";
  body_expected = 0;
}

posted_parsed : http_parse_request posted ≡ some posted_request
unfolding http_parse_request first_line strstr c_str starts_with http_parse_request_line strchr
    http_parse_body take_body http_parse_headers trim_end negotiate find_crlf header_lines
    parse_header_line skip_while parse_version http_request_init add_header atoi digits_from tolower
    body_length note_connection note_length trim_name trim_value find_header http_get_header
    same_name strcasecmp_safe
posted_parsed = refl

no_space_refused : http_parse_request (codes "GET\r\n\r\n") ≡ none
unfolding http_parse_request first_line strstr c_str starts_with http_parse_request_line strchr
    http_parse_body take_body http_parse_headers trim_end negotiate find_crlf header_lines
    parse_header_line skip_while parse_version http_request_init add_header atoi digits_from tolower
    body_length note_connection note_length trim_name trim_value find_header http_get_header
    same_name strcasecmp_safe
no_space_refused = refl

http_get_header-Looks_example :
    Looks
      (codes "connection")
      posted_request.headers
      (http_get_header posted_request (codes "connection"))
http_get_header-Looks_example =
    http_get_header-Looks posted_request (codes "connection") (omega arith) (omega arith)

login-IsTarget : IsTarget (codes "POST") (codes "/login")
login-IsTarget = record {
  method_no_space = omega arith;
  method_no_cr = omega arith;
  method_fits = omega arith;
  uri_no_space = omega arith;
  uri_no_cr = omega arith;
  uri_fits = omega arith;
}

length_header-IsField : IsField length_header
length_header-IsField = record {
  name_fits = omega arith;
  name_no_colon = omega arith;
  name_no_cr = omega arith;
  name_no_nul = omega arith;
  name_starts = refl;
  name_ends = refl;
  value_fits = omega arith;
  value_no_cr = omega arith;
  value_no_nul = omega arith;
  value_starts = refl;
  value_ends = refl;
}

login_ne : codes "/login" ≢ []
login_ne e = absurd (omega (arith, ap length e))

http_parse_request_line-request_line_example :
    http_parse_request_line (codes "POST /login HTTP/1.0") http_request_init
    ≡ some (record http_request_init {
      method = codes "POST";
      uri = codes "/login";
      version_major = pos 1;
      version_minor = pos 0;
    })
http_parse_request_line-request_line_example =
    http_parse_request_line-request_line (codes "POST") (codes "/login") 1 0 http_request_init
      login-IsTarget login_ne (omega arith) (omega arith)

http_parse_headers-fields_example :
    (http_parse_headers
        (codes "POST /login HTTP/1.1\r\nContent-Length: 3\r\n\r\na=b")
        http_request_init
      ≡ negotiate (add_headers (length_header ∷ []) http_request_init))
    × ((http_parse_headers
          (codes "POST /login HTTP/1.1\r\nContent-Length: 3\r\n\r\na=b")
          http_request_init).headers
        ≡ length_header ∷ [])
unfolding http_request_init
http_parse_headers-fields_example =
    http_parse_headers-fields (codes "POST /login HTTP/1.1") (length_header ∷ []) (codes "a=b")
      http_request_init (omega arith) (length_header-IsField, tt) (omega arith)

abbrev closing : Bytes
closing = codes "GET / HTTP/1.1\r\nConnection: close\r\n\r\n"

http_parse_headers-closes_example :
    AsksToClose (http_parse_headers closing http_request_init).headers
    ⊎ (IsVersion10 (http_parse_headers closing http_request_init)
        × IsNotKeepAlive
            (http_get_header (http_parse_headers closing http_request_init) (codes "connection")))
unfolding http_parse_request first_line strstr c_str starts_with http_parse_request_line strchr
    http_parse_body take_body http_parse_headers trim_end negotiate find_crlf header_lines
    parse_header_line skip_while parse_version http_request_init add_header atoi digits_from tolower
    body_length note_connection note_length trim_name trim_value find_header http_get_header
    same_name strcasecmp_safe
http_parse_headers-closes_example = http_parse_headers-closes closing http_request_init refl refl

http_parse_request-Fits_example : Fits posted_request
http_parse_request-Fits_example = http_parse_request-Fits posted posted_request posted_parsed

http_parse_request-message_example :
    (http_parse_request (codes "POST /login HTTP/1.1\r\nContent-Length: 3\r\n\r\na=b")
      ≡ some (
          with_body
            (negotiate
              (add_headers (length_header ∷ []) (request_of (codes "POST") (codes "/login") 1 1)))
            (codes "a=b")))
    × ((with_body
          (negotiate
            (add_headers (length_header ∷ []) (request_of (codes "POST") (codes "/login") 1 1)))
          (codes "a=b")).headers
        ≡ length_header ∷ [])
unfolding http_parse_request first_line strstr c_str starts_with http_parse_request_line strchr
    http_parse_body take_body http_parse_headers trim_end negotiate find_crlf header_lines
    parse_header_line skip_while parse_version http_request_init add_header atoi digits_from tolower
    body_length note_connection note_length trim_name trim_value find_header http_get_header
    same_name strcasecmp_safe
http_parse_request-message_example =
    http_parse_request-message (codes "POST") (codes "/login") 1 1 (length_header ∷ [])
      (codes "a=b") login-IsTarget login_ne (omega arith) (omega arith) (omega arith) (omega arith)
      (omega arith) (length_header-IsField, tt) (omega arith) (refl, omega arith, refl)
