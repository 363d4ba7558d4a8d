-- ===== src/Http/ResponseTests.antt =====
-- Runs of the response builders and of the files, and their theorems at inputs.
use uestc_shixvn_mini_web_se.CString.{strstr, strchr, starts_with}
use uestc_shixvn_mini_web_se.CString.Format.{write_digits}
use uestc_shixvn_mini_web_se.CString.Scan.{Avoids}
use uestc_shixvn_mini_web_se.Http.Files.{http_is_safe_path, file_path}
use uestc_shixvn_mini_web_se.Http.Files.Safe.{file_path_stays_below, segments, walk}
use uestc_shixvn_mini_web_se.Http.Headers.{http_parse_headers}
use uestc_shixvn_mini_web_se.Http.Parse.Message.{lines, blank_line}
use uestc_shixvn_mini_web_se.Http.Request.{http_request_init}
use uestc_shixvn_mini_web_se.Http.Response.{
  http_build_response, response_head, fit, http_build_redirect, redirect_body, redirect_head,
  overread,
}
use uestc_shixvn_mini_web_se.Http.Response.Framing.{
  IsValue, status_line, response_fields, http_build_response-framed,
}
use uestc_shixvn_mini_web_se.Prelude.{
  Bytes, ◌<◌, ◌≡◌, refl, ◌≢◌, true, false, none, some, ◌∷◌, ◌++◌, arith, pos, length, replicate,
  codes,
}

abbrev clock : Bytes
clock = codes "Thu, 26 Nov 2026 18:00:00 GMT"

abbrev html : Bytes
html = codes "text/html"

abbrev built : Bytes
built =
    codes
      "HTTP/1.1 200 OK\r\nServer: MiniWeb/1.4\r\nDate: Thu, 26 Nov 2026 18:00:00 GMT\r\nContent-Type: text/html\r\nContent-Length: 2\r\nConnection: close\r\n\r\nhi"

built_runs : http_build_response 200 (codes "OK") html (codes "hi") false clock 4096 ≡ some built
unfolding http_build_response response_head fit write_digits
built_runs = refl

built_too_long :
    http_build_response 200 (codes "OK") html (codes "hi") false clock (length built) ≡ none
unfolding http_build_response response_head fit write_digits
built_too_long = refl

abbrev long_location : Bytes
long_location = replicate 300 97

redirect_overread : http_build_redirect 301 long_location clock 4096 ≡ overread
unfolding http_build_redirect redirect_body redirect_head fit write_digits
redirect_overread = refl

ok-Avoids : Avoids 13 (codes "OK")
ok-Avoids = omega arith

html-IsValue : IsValue html
html-IsValue = record {
  fits = omega arith;
  no_cr = omega arith;
  no_nul = omega arith;
  starts = refl;
  ends = refl;
}

clock-IsValue : IsValue clock
clock-IsValue = record {
  fits = omega arith;
  no_cr = omega arith;
  no_nul = omega arith;
  starts = refl;
  ends = refl;
}

http_build_response-framed_example :
    (length built < 4096)
    × (http_parse_headers built http_request_init ≡ record http_request_init {
      headers = response_fields clock html 2 false;
      content_length = pos 2;
      keep_alive = false;
    })
    × (strstr (codes "\r\n\r\n") built
        ≡ some (
          lines (status_line 200 (codes "OK")) (response_fields clock html 2 false),
          blank_line (codes "hi"),
        ))
http_build_response-framed_example =
    http_build_response-framed 200 (codes "OK") html (codes "hi") false clock 4096 built ok-Avoids
      html-IsValue clock-IsValue (omega arith) built_runs

safe_path : http_is_safe_path (codes "//img/a..png") ≡ false
unfolding http_is_safe_path strstr starts_with
safe_path = refl

logo_safe : http_is_safe_path (codes "//img/logo.png") ≡ true
unfolding http_is_safe_path strstr starts_with strchr
logo_safe = refl

file_path_stays_below_example :
    (rest : Bytes) × (file_path (codes "www") (codes "//img/logo.png")
      ≡ codes "www" ++ (b'/' ∷ rest))
    × (walk 0 (segments rest) ≢ none)
file_path_stays_below_example =
    file_path_stays_below (codes "www") (codes "//img/logo.png") (omega arith) logo_safe
