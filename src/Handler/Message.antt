-- ===== src/Handler/Message.antt =====
-- What src/request_handler.c reads of the bytes of a request: the request line, the header fields
-- that it looks for, and the body.
use uestc_shixvn_mini_web_se.CString.{
  cut, strncpy, strchr, strstr, starts_with, starts_with_case, skip_while, trim_end, c_str, atoi,
}
use uestc_shixvn_mini_web_se.Handler.{HandlerRequest}
use uestc_shixvn_mini_web_se.Handler.Credentials.{copy_until}
use uestc_shixvn_mini_web_se.Prelude.{
  Bytes, ℕ, ◌-◌, Bool, not, ◌&&◌, ◌||◌, Option, none, some, [], ◌∷◌, map, ℤ, pos, negsuc, length,
  drop, ltb, leb, ◌==◌, if◌then◌else◌, codes,
}

abbrev is_header_blank : ℕ → Bool
is_header_blank c = c == b' ' || c == 9

abbrev ends_value : ℕ → Bool
ends_value c = c == 0 || (c == 13 || c == 10)

abbrev pub is_line_end : ℕ → Bool
is_line_end c = c == 13 || c == 10

abbrev is_one_space : ℕ → Bool
is_one_space c = c == b' '

abbrev split_target : Option (Bytes × Bytes) → Option (Bytes × Bytes)
split_target none = none
split_target (some (method, behind)) = some (method, cut b' ' (skip_while is_one_space behind))

-- The method and the path.
unfoldable pub parse_http_request_line : Bytes → Option (Bytes × Bytes)
parse_http_request_line line = split_target (strchr b' ' line)

-- The copy of the first line, at most 511 bytes.
unfoldable pub first_request_line : Bytes → Bytes
first_request_line raw = cut b'\n' (cut b'\r' (strncpy 511 raw))

abbrev if_any : Bytes → Option Bytes
if_any [] = none
if_any (c ∷ s) = some (c ∷ s)

abbrev body_behind : Option (Bytes × Bytes) → Option Bytes
body_behind none = none
body_behind (some (head, found)) = if_any (trim_end is_line_end (drop 4 found))

-- The CR and LF that are cut off are overwritten in the message too. They stand at its end, where
-- they end a value as the NULs do.
unfoldable pub extract_body : Bytes → Option Bytes
extract_body raw = body_behind (strstr (codes "\r\n\r\n") raw)

-- What stands behind the colons of the two headers.
pub record ContentHeaders : Type 0 where
  pub ct_start : Option Bytes
  pub cl_start : Option Bytes

-- The last letter of "Content-Length" is compared as it is, the others in any case.
unfoldable pub note_content : ℕ → Bytes → ContentHeaders → ContentHeaders
note_content c s r =
    if not (is_line_end c)
    then r
    else if starts_with_case (codes "content-type:") s
    then record r { ct_start = some (drop 13 s) }
    else if starts_with_case (codes "content-lengt") s && starts_with (codes "h:") (drop 13 s)
    then record r { cl_start = some (drop 15 s) }
    else r

-- The loop goes on while more than 14 bytes are left.
unfoldable pub scan_content : Bytes → ContentHeaders → ContentHeaders
scan_content [] r = r
scan_content (c ∷ s) r =
    let rest = scan_content s (note_content c s r) in if ltb 13 (length s) then rest else r

abbrev header_value : ℕ → Bytes → Bytes
header_value n s = copy_until ends_value n (skip_while is_header_blank s)

abbrev type_value : Option Bytes → Bytes
type_value none = []
type_value (some s) = trim_end is_header_blank (header_value 63 s)

abbrev at_least_0 : ℤ → ℤ
at_least_0 (pos n) = pos n
at_least_0 (negsuc n) = pos 0

abbrev length_value : Option Bytes → ℤ
length_value none = negsuc 0
length_value (some s) = at_least_0 (atoi (c_str (skip_while is_header_blank s)))

abbrev or_else : Option (Bytes × Bytes) → Option (Bytes × Bytes) → Option (Bytes × Bytes)
or_else (some found) other = some found
or_else none other = other

abbrev cookie_value : Option (Bytes × Bytes) → Bytes
cookie_value none = []
cookie_value (some (before, found)) = header_value 511 (drop 7 found)

-- The name is looked for in the whole message, in two spellings.
unfoldable pub cookie_header : Bytes → Bytes
cookie_header raw =
    cookie_value (or_else (strstr (codes "Cookie:") raw) (strstr (codes "cookie:") raw))

abbrev authorization_value : Option (Bytes × Bytes) → Bytes
authorization_value none = []
authorization_value (some (before, found)) =
    trim_end is_header_blank (header_value 255 (drop 14 found))

unfoldable pub authorization_header : Bytes → Bytes
authorization_header raw =
    authorization_value
      (or_else (strstr (codes "Authorization:") raw) (strstr (codes "authorization:") raw))

-- What stands behind the first "Host:" at the start of a line; more than 6 bytes must be left.
unfoldable pub scan_host : Bytes → Option Bytes
scan_host [] = none
scan_host (c ∷ s) =
    let rest = scan_host s in
    if not (ltb 5 (length s))
    then none
    else if is_line_end c && starts_with_case (codes "host:") s
    then some (drop 5 s)
    else rest

abbrev host_value : Option Bytes → Bytes
host_value none = []
host_value (some s) = cut b':' (trim_end is_header_blank (header_value 255 s))

-- The host without its port.
unfoldable pub host_header : Bytes → Bytes
host_header raw = host_value (scan_host raw)

abbrev pub toupper : ℕ → ℕ
toupper c = if leb b'a' c && leb c b'z' then c - 32 else c

abbrev body_text : Option Bytes → Bytes
body_text none = []
body_text (some body) = strncpy 511 body

-- `raw` is what is received; the string functions see it up to its first NUL.
unfoldable pub fill_request : Bytes → Bytes → Bytes → HandlerRequest
fill_request raw method path =
    let content = scan_content raw (record { ct_start = none; cl_start = none }) in
    record {
      method = map toupper (strncpy 15 method);
      path = strncpy 255 path;
      body = body_text (extract_body (c_str raw));
      keep_alive = 0;
      content_type = type_value content.ct_start;
      content_length_hdr = length_value content.cl_start;
      authorization = authorization_header (c_str raw);
      cookie = cookie_header (c_str raw);
    }
