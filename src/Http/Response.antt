-- ===== src/Http/Response.antt =====
-- The response builders of src/http_parser.c, and src/http_response.c. The text of the clock,
-- `strftime` of `gmtime` of now, is an argument.
pub mod Framing
use uestc_shixvn_mini_web_se.CString.Format.{decimal}
use uestc_shixvn_mini_web_se.Prelude.{
  Bytes, ◌>>=◌, >>=-eq-some, ℕ, zero, suc, ◌+◌, ◌-◌, ◌*◌, ◌/◌, ◌%◌, ◌^◌, ◌≤◌, ◌<◌, min, bit_or, ◌≡◌,
  refl, sym, ap, subst, ◌∙◌, ◌≢◌, ◌↔◌, ◌⊎◌, inl, inr, Bool, true, false, not, ◌&&◌, ◌||◌, Option,
  none, some, List, [], ◌∷◌, ◌++◌, map, append-nil, append_assoc, arith, ℤ, sub_ℕ, to_nat, is_int,
  pos, negsuc, length, get_elem?, set, length-append, length-set, get_elem?-set_self,
  get_elem?-set_ne, get_or, take, drop, replicate, take-append-drop, length-take, length-drop,
  length-replicate, length-map, get_or-set, get_or-beyond, passes, passes-at, ltb, leb, ◌==◌,
  if◌then◌else◌, ltb→lt, lt→ltb, leb→le, ==_iff, tests, Bool-cases, Option-cases, codes,
}

abbrev pub connection_text : Bool → Bytes
connection_text true = codes "Keep-Alive"
connection_text false = codes "close"

-- The status line and the header lines, with the empty line behind them.
unfoldable pub response_head : ℕ → Bytes → Bytes → Bytes → ℕ → Bool → Bytes
response_head status status_text date content_type body_len keep_alive =
    codes "HTTP/1.1 "
    ++ (decimal status
        ++ (b' '
            ∷ (status_text
                ++ (codes "\r\nServer: MiniWeb/1.4\r\nDate: "
                    ++ (date
                        ++ (codes "\r\nContent-Type: "
                            ++ (content_type
                                ++ (codes "\r\nContent-Length: "
                                    ++ (decimal body_len
                                        ++ (codes "\r\nConnection: "
                                            ++ (connection_text keep_alive
                                                ++ codes "\r\n\r\n")))))))))))

-- Head and body go into a buffer of `size` bytes, with a NUL behind them. `none` is the result -1.
unfoldable pub fit : ℕ → Bytes → Bytes → Option Bytes
fit size head body =
    if leb size (length head)
    then none
    else if leb (size - length head) (length body)
    then none
    else some (head ++ body)

unfoldable pub http_build_response : ℕ → Bytes → Bytes → Bytes → Bool → Bytes → ℕ → Option Bytes
http_build_response status status_text content_type body keep_alive date size =
    fit size (response_head status status_text date content_type (length body) keep_alive) body

unfoldable pub redirect_body : ℕ → Bytes → Bytes
redirect_body status location =
    codes "<!DOCTYPE html>\n<html>\n<head><title>"
    ++ (decimal status
        ++ (codes " Redirect</title></head>\n<body>\n<h1>"
            ++ (decimal status
                ++ (codes " Moved</h1>\n<p>The document has moved to <a href=\""
                    ++ (location
                        ++ (codes "\">" ++ (location ++ codes "</a>.</p>\n</body>\n</html>\n")))))))

abbrev pub redirect_text : ℕ → Bytes
redirect_text status = if status == 301 then codes "MOVED PERMANENTLY" else codes "FOUND"

unfoldable pub redirect_head : ℕ → Bytes → Bytes → ℕ → Bytes
redirect_head status location date body_len =
    codes "HTTP/1.1 "
    ++ (decimal status
        ++ (b' '
            ∷ (redirect_text status
                ++ (codes "\r\nServer: MiniWeb/1.4\r\nDate: "
                    ++ (date
                        ++ (codes "\r\nContent-Type: text/html; charset=utf-8\r\nContent-Length: "
                            ++ (decimal body_len
                                ++ (codes "\r\nLocation: "
                                    ++ (location
                                        ++ codes "\r\nConnection: Keep-Alive\r\n\r\n")))))))))

-- The body is written into an array of 512 bytes. With more, `memcpy` reads bytes behind the array,
-- of which nothing is known: `overread`.
pub data Redirect : Type 0 where
  refused overread : Redirect
  sent : Bytes → Redirect

abbrev pub redirect_sent : Option Bytes → Bool → Redirect
redirect_sent none fits = refused
redirect_sent (some out) true = sent out
redirect_sent (some out) false = overread

unfoldable pub http_build_redirect : ℕ → Bytes → Bytes → ℕ → Redirect
http_build_redirect status location date size =
    let body = redirect_body status location in
    redirect_sent (fit size (redirect_head status location date (length body)) body)
      (leb (length body) 511)

-- `build_hello_response` of src/http_response.c.
abbrev hello_text : Bytes
hello_text =
    codes "HTTP/1.1 200 OK\r\nContent-Type: text/html\r\nContent-Length: 12\r\n\r\nHello, Web!\n"

unfoldable pub build_hello_response : ℕ → Option Bytes
build_hello_response size = if leb size (length hello_text) then none else some hello_text
