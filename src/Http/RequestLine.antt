-- ===== src/Http/RequestLine.antt =====
-- `http_parse_request_line` of src/http_parser.c.
pub mod RoundTrip
use uestc_shixvn_mini_web_se.Http.Request.{max_uri, Request}
use uestc_shixvn_mini_web_se.CString.{cut, starts_with, strncpy, skip_while, atoi, strchr}
use uestc_shixvn_mini_web_se.Prelude.{
  Bytes, ◌>>=◌, >>=-eq-some, ℕ, zero, suc, ◌+◌, ◌-◌, ◌*◌, ◌/◌, ◌%◌, ◌^◌, ◌≤◌, ◌<◌, min, bit_or, ◌≡◌,
  refl, sym, ap, subst, ◌∙◌, ◌≢◌, ◌↔◌, ◌⊎◌, inl, inr, Bool, true, false, not, ◌&&◌, ◌||◌, Option,
  none, some, List, [], ◌∷◌, ◌++◌, map, append-nil, append_assoc, arith, ℤ, sub_ℕ, to_nat, is_int,
  pos, negsuc, length, get_elem?, set, length-append, length-set, get_elem?-set_self,
  get_elem?-set_ne, get_or, take, drop, replicate, take-append-drop, length-take, length-drop,
  length-replicate, length-map, get_or-set, get_or-beyond, passes, passes-at, ltb, leb, ◌==◌,
  if◌then◌else◌, ltb→lt, lt→ltb, leb→le, ==_iff, tests, Bool-cases, Option-cases, codes,
}

abbrev pub is_sp : ℕ → Bool
is_sp c = c == b' '

abbrev pub minor_version : Request → Option (Bytes × Bytes) → Request
minor_version req none = req
minor_version req (some (before, behind)) = record req { version_minor = atoi behind }

-- What follows the URI: `HTTP/`, a number, a dot and a number.
unfoldable pub parse_version : Bytes → Request → Request
parse_version p req =
    let p' = skip_while is_sp p in
    if starts_with (codes "HTTP/") p'
    then (let v = drop 5 p' in
        minor_version (record req { version_major = atoi v }) (strchr b'.' v))
    else req

-- What follows the method.
abbrev pub parse_uri : Bytes → Option (Bytes × Bytes) → Request → Request
parse_uri rest none req = record req { uri = strncpy (max_uri - 1) rest }
parse_uri rest (some (uri, p)) req =
    let req' = record req { uri = strncpy (max_uri - 1) uri } in
    elim p [ [] ↦ req' | x ∷ s ↦ parse_version (x ∷ s) req' ]

-- `none` is the result -1; the request is then left as it was.
unfoldable pub http_parse_request_line : Bytes → Request → Option Request
http_parse_request_line line req = strchr b' ' (cut 13 line) >>= λ split.
    let rest = skip_while is_sp split.1 in
    some (parse_uri rest (strchr b' ' rest) (record req { method = strncpy 15 split.0 }))
