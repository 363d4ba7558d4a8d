-- ===== src/Http/Request.antt =====
-- include/http_parser.h and the lookup of headers in src/http_parser.c. A string of the request is
-- its bytes before the NUL; the pointers that the functions test against NULL are never NULL here.
pub mod Names
use uestc_shixvn_mini_web_se.CString.{tolower}
use uestc_shixvn_mini_web_se.Prelude.{
  Bytes, ◌>>=◌, >>=-eq-some, ℕ, zero, suc, ◌+◌, ◌-◌, ◌*◌, ◌/◌, ◌%◌, ◌^◌, ◌≤◌, ◌<◌, min, bit_or, ◌≡◌,
  refl, sym, ap, subst, ◌∙◌, ◌≢◌, ◌↔◌, ◌⊎◌, inl, inr, Bool, true, false, not, ◌&&◌, ◌||◌, Option,
  none, some, List, [], ◌∷◌, ◌++◌, map, append-nil, append_assoc, arith, ℤ, sub_ℕ, to_nat, is_int,
  pos, negsuc, length, get_elem?, set, length-append, length-set, get_elem?-set_self,
  get_elem?-set_ne, get_or, take, drop, replicate, take-append-drop, length-take, length-drop,
  length-replicate, length-map, get_or-set, get_or-beyond, passes, passes-at, ltb, leb, ◌==◌,
  if◌then◌else◌, ltb→lt, lt→ltb, leb→le, ==_iff, tests, Bool-cases, Option-cases, codes,
}

pub record Header : Type 0 where
  pub name : Bytes
  pub value : Bytes

-- `body` holds the first `body_len` bytes of the array.
pub record Request : Type 0 where
  pub method : Bytes
  pub uri : Bytes
  pub version_major : ℤ
  pub version_minor : ℤ
  pub headers : List Header
  pub content_length : ℤ
  pub keep_alive : Bool
  pub body : Bytes
  pub body_expected : ℕ

abbrev pub max_headers : ℕ
max_headers = 32

abbrev pub max_body : ℕ
max_body = 4096

abbrev pub max_uri : ℕ
max_uri = 1024

unfoldable pub http_request_init : Request
http_request_init = record {
  method = [];
  uri = [];
  version_major = pos 1;
  version_minor = pos 1;
  headers = [];
  content_length = negsuc 0;
  keep_alive = true;
  body = [];
  body_expected = 0;
}

-- `(unsigned char)*a`, at the NUL too.
abbrev pub first_byte : Bytes → ℕ
first_byte [] = 0
first_byte (x ∷ s) = x

unfoldable pub strcasecmp_safe : Bytes → Bytes → ℤ
strcasecmp_safe [] b = sub_ℕ 0 (first_byte b)
strcasecmp_safe (x ∷ a) [] = sub_ℕ x 0
strcasecmp_safe (x ∷ a) (y ∷ b) =
    let rest = strcasecmp_safe a b in
    if tolower x == tolower y then rest else sub_ℕ (tolower x) (tolower y)

abbrev pub is_zero : ℤ → Bool
is_zero (pos zero) = true
is_zero _ = false

-- `strcasecmp_safe(a, b) == 0`.
unfoldable pub same_name : Bytes → Bytes → Bool
same_name a b = is_zero (strcasecmp_safe a b)

-- The loop of `http_get_header`.
unfoldable pub find_header : List Header → Bytes → Option Bytes
find_header [] name = none
find_header (h ∷ hs) name =
    let rest = find_header hs name in if same_name h.name name then some h.value else rest

unfoldable pub http_get_header : Request → Bytes → Option Bytes
http_get_header req name = find_header req.headers name
