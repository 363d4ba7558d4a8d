-- ===== src/Http/Headers.antt =====
-- `http_parse_headers` of src/http_parser.c, over the `raw_len` bytes that were received.
pub mod Fields
pub mod KeepAlive
use mathlib.Core.Option
use uestc_shixvn_mini_web_se.Http.Request.{max_headers, http_get_header, same_name, Request, Header}
use uestc_shixvn_mini_web_se.CString.{c_str, atoi, strchr, strncpy, skip_while, trim_end}
use uestc_shixvn_mini_web_se.Prelude.{
  Bytes, ◌>>=◌, >>=-eq-some, ℕ, zero, suc, ◌+◌, ◌-◌, ◌*◌, ◌/◌, ◌%◌, ◌^◌, ◌≤◌, ◌<◌, min, bit_or, ◌≡◌,
  refl, sym, ap, subst, ◌∙◌, ◌≢◌, ◌↔◌, ◌⊎◌, inl, inr, Bool, true, false, not, ◌&&◌, ◌||◌, Option,
  none, some, List, [], ◌∷◌, ◌++◌, map, append-nil, append_assoc, arith, ℤ, sub_ℕ, to_nat, is_int,
  pos, negsuc, length, get_elem?, set, length-append, length-set, get_elem?-set_self,
  get_elem?-set_ne, get_or, take, drop, replicate, take-append-drop, length-take, length-drop,
  length-replicate, length-map, get_or-set, get_or-beyond, passes, passes-at, ltb, leb, ◌==◌,
  if◌then◌else◌, ltb→lt, lt→ltb, leb→le, ==_iff, tests, Bool-cases, Option-cases, codes,
}

-- `while (p < end - 1 && !(p[0] == '\r' && p[1] == '\n')) p++`: the line, and what follows its CRLF.
unfoldable pub find_crlf : Bytes → Option (Bytes × Bytes)
find_crlf [] = none
find_crlf (x ∷ []) = none
find_crlf (x ∷ y ∷ s) =
    let rest = find_crlf (y ∷ s) in
    if x == 13 && y == 10
    then some ([], s)
    else Option.map (λ (a : Bytes × Bytes). (x ∷ a.0, a.1)) rest

abbrev pub is_sp_or_tab : ℕ → Bool
is_sp_or_tab c = c == b' ' || c == 9

abbrev pub is_blank_or_cr : ℕ → Bool
is_blank_or_cr c = c == b' ' || (c == 9 || c == 13)

-- The loop `while (e > s && …) *e-- = '\0'` never removes the first byte.
abbrev pub trim_behind : (ℕ → Bool) → Bytes → Bytes
trim_behind p [] = []
trim_behind p (x ∷ s) = x ∷ trim_end p s

unfoldable pub trim_name : Bytes → Bytes
trim_name s = trim_behind is_sp_or_tab (skip_while is_sp_or_tab s)

unfoldable pub trim_value : Bytes → Bytes
trim_value s = trim_behind is_blank_or_cr (skip_while is_sp_or_tab s)

-- `Content-Length` and `Connection` are read off as they come.
unfoldable pub note_length : Header → Request → Request
note_length h req =
    if same_name h.name (codes "content-length")
    then record req { content_length = pos (to_nat (atoi h.value)) }
    else req

unfoldable pub note_connection : Header → Request → Request
note_connection h req =
    if same_name h.name (codes "connection")
    then (if same_name h.value (codes "close")
        then record req { keep_alive = false }
        else if same_name h.value (codes "keep-alive")
        then record req { keep_alive = true }
        else req)
    else req

abbrev pub header_of : Bytes → Bytes → Header
header_of name value = record {
  name = strncpy 63 (trim_name name);
  value = strncpy 255 (trim_value value);
}

unfoldable pub add_header : Header → Request → Request
add_header h req =
    note_connection h (note_length h (record req { headers = req.headers ++ h ∷ [] }))

-- With 32 headers already, one more is passed over.
abbrev pub header_found : Request → Option (Bytes × Bytes) → Request
header_found req none = req
header_found req (some (name, value)) =
    if ltb (length req.headers) max_headers then add_header (header_of name value) req else req

-- One line: its first 511 bytes, up to a NUL.
unfoldable pub parse_header_line : Bytes → Request → Request
parse_header_line line req = header_found req (strchr b':' (c_str (take 511 line)))

-- A round of the loop: an empty line ends it, and so does a line without CRLF, which is incomplete.
abbrev pub line_found : (Bytes → Request → Request) → Request → Option (Bytes × Bytes) → Request
line_found go_on req none = req
line_found go_on req (some ([], rest)) = req
line_found go_on req (some (x ∷ line, rest)) = go_on rest (parse_header_line (x ∷ line) req)

-- The loop over the lines. Every round takes a line off the bytes, so that as much fuel as there
-- are bytes is enough.
unfoldable pub header_lines : ℕ → Bytes → Request → Request
header_lines zero p req = req
header_lines (suc fuel) p req = line_found (header_lines fuel) req (find_crlf p)

-- The connection is closed unless the header says `keep-alive`.
abbrev pub keep_if_asked : Request → Option Bytes → Request
keep_if_asked req none = record req { keep_alive = false }
keep_if_asked req (some conn) =
    if not (same_name conn (codes "keep-alive")) then record req { keep_alive = false } else req

-- HTTP/1.0 closes the connection unless it is asked to keep it.
unfoldable pub negotiate : Request → Request
negotiate req =
    if is_int 1 req.version_major && is_int 0 req.version_minor
    then keep_if_asked req (http_get_header req (codes "connection"))
    else req

abbrev pub after_first_line : Request → Option (Bytes × Bytes) → Request
after_first_line req none = req
after_first_line req (some (first, rest)) = header_lines (length rest) rest req

-- The request line is skipped up to its CRLF.
unfoldable pub http_parse_headers : Bytes → Request → Request
http_parse_headers raw req = negotiate (after_first_line req (find_crlf raw))
