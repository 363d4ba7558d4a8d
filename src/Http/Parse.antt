-- ===== src/Http/Parse.antt =====
-- `http_parse_request` of src/http_parser.c: a buffer of `raw_len` bytes, behind which a NUL stands.
pub mod Bounds
pub mod Message
pub mod RoundTrip
use mathlib.Core.Option
use uestc_shixvn_mini_web_se.Http.Headers.{http_parse_headers}
use uestc_shixvn_mini_web_se.Http.Body.{http_parse_body}
use uestc_shixvn_mini_web_se.Http.RequestLine.{http_parse_request_line}
use uestc_shixvn_mini_web_se.Http.Request.{http_request_init, Request}
use uestc_shixvn_mini_web_se.CString.{strchr, c_str, strstr}
use uestc_shixvn_mini_web_se.Prelude.{
  Bytes, ◌>>=◌, >>=-eq-some, ℕ, zero, suc, ◌+◌, ◌-◌, ◌*◌, ◌/◌, ◌%◌, ◌^◌, ◌≤◌, ◌<◌, min, bit_or, ◌≡◌,
  refl, sym, ap, subst, ◌∙◌, ◌≢◌, ◌↔◌, ◌⊎◌, inl, inr, Bool, true, false, not, ◌&&◌, ◌||◌, Option,
  none, some, List, [], ◌∷◌, ◌++◌, map, append-nil, append_assoc, arith, ℤ, sub_ℕ, to_nat, is_int,
  pos, negsuc, length, get_elem?, set, length-append, length-set, get_elem?-set_self,
  get_elem?-set_ne, get_or, take, drop, replicate, take-append-drop, length-take, length-drop,
  length-replicate, length-map, get_or-set, get_or-beyond, passes, passes-at, ltb, leb, ◌==◌,
  if◌then◌else◌, ltb→lt, lt→ltb, leb→le, ==_iff, tests, Bool-cases, Option-cases, codes,
}

-- The first line, ended by CRLF or else by LF.
unfoldable pub first_line : Bytes → Option Bytes
first_line raw = elim (strstr (codes "\r\n") (c_str raw)) [
  | some (line, rest) ↦ some line
  | none ↦ Option.map (λ (a : Bytes × Bytes). a.0) (strchr 10 (c_str raw))
]

-- What is parsed of bytes that are there. At most 511 bytes of the first line are read.
abbrev pub parse_parts : Bytes → Option Request
parse_parts raw = first_line raw >>= (λ line.
    http_parse_request_line (take 511 line) http_request_init >>= λ req.
    some (http_parse_body raw (http_parse_headers raw req)).0)

-- `none` is the result -1.
unfoldable pub http_parse_request : Bytes → Option Request
http_parse_request raw = if length raw == 0 then none else parse_parts raw

pub http_parse_request-cons : (x : ℕ) (s : Bytes) → http_parse_request (x ∷ s) ≡ parse_parts (x ∷ s)
unfolding http_parse_request
http_parse_request-cons x s = ground arith
