-- ===== src/Http/Files.antt =====
-- The files that src/http_parser.c serves. The file system is an argument: the contents of the
-- regular file that a path leads to, or `none` where `fopen` fails.
pub mod Safe
use uestc_shixvn_mini_web_se.CString.{str_eq, strncpy, strchr, strstr, skip_while}
use uestc_shixvn_mini_web_se.Http.Request.{same_name}
use uestc_shixvn_mini_web_se.Prelude.{
  Bytes, ◌>>=◌, >>=-eq-some, ℕ, zero, suc, ◌+◌, ◌-◌, ◌*◌, ◌/◌, ◌%◌, ◌^◌, ◌≤◌, ◌<◌, min, bit_or, ◌≡◌,
  refl, sym, ap, subst, ◌∙◌, ◌≢◌, ◌↔◌, ◌⊎◌, inl, inr, Bool, true, false, not, ◌&&◌, ◌||◌, Option,
  none, some, List, [], ◌∷◌, ◌++◌, map, append-nil, append_assoc, arith, ℤ, sub_ℕ, to_nat, is_int,
  pos, negsuc, length, get_elem?, set, length-append, length-set, get_elem?-set_self,
  get_elem?-set_ne, get_or, take, drop, replicate, take-append-drop, length-take, length-drop,
  length-replicate, length-map, get_or-set, get_or-beyond, passes, passes-at, ltb, leb, ◌==◌,
  if◌then◌else◌, ltb→lt, lt→ltb, leb→le, ==_iff, tests, Bool-cases, Option-cases, codes,
}

-- `strrchr(path, '.')`: from the last dot on.
unfoldable pub extension : Bytes → Option Bytes
extension [] = none
extension (c ∷ s) = elim (extension s) [
  | some ext ↦ some ext
  | none ↦ if c == b'.' then some (c ∷ s) else none
]

abbrev plain_text : Bytes
plain_text = codes "text/plain; charset=utf-8"

-- The comparisons in their order: each an extension and its type.
abbrev pub content_types : List (Bytes × Bytes)
content_types =
    (codes ".html", codes "text/html; charset=utf-8")
    ∷ (codes ".htm", codes "text/html; charset=utf-8")
    ∷ (codes ".css", codes "text/css; charset=utf-8")
    ∷ (codes ".js", codes "application/javascript")
    ∷ (codes ".json", codes "application/json")
    ∷ (codes ".png", codes "image/png")
    ∷ (codes ".jpg", codes "image/jpeg")
    ∷ (codes ".jpeg", codes "image/jpeg")
    ∷ (codes ".gif", codes "image/gif")
    ∷ (codes ".svg", codes "image/svg+xml")
    ∷ (codes ".ico", codes "image/x-icon")
    ∷ (codes ".xml", codes "application/xml")
    ∷ (codes ".pdf", codes "application/pdf")
    ∷ []

unfoldable pub type_of : List (Bytes × Bytes) → Bytes → Bytes
type_of [] ext = plain_text
type_of ((e, t) ∷ types) ext = let rest = type_of types ext in if same_name ext e then t else rest

unfoldable pub http_content_type_from_path : Bytes → Bytes
http_content_type_from_path path = elim (extension path) [
  | none ↦ plain_text
  | some ext ↦ type_of content_types ext
]

abbrev pub is_slash : ℕ → Bool
is_slash c = c == b'/'

-- The path of the file that a URI names, in a buffer of 512 bytes.
unfoldable pub file_path : Bytes → Bytes → Bytes
file_path www_root uri =
    if str_eq uri (codes "/")
    then take 511 (www_root ++ codes "/index.html")
    else take 511 (www_root ++ (b'/' ∷ skip_while is_slash uri))

-- An empty file, and one that does not fit the buffer, is not served.
abbrev pub serve : ℕ → Bytes → Option Bytes → Option (Bytes × Bytes)
serve buf_size path none = none
serve buf_size path (some content) =
    if length content == 0
    then none
    else if leb buf_size (length content)
    then none
    else some (content, http_content_type_from_path path)

-- The bytes and their type; `none` is the result -1.
unfoldable pub http_serve_file : (Bytes → Option Bytes) → Bytes → Bytes → ℕ → Option (Bytes × Bytes)
http_serve_file files www_root uri buf_size =
    if buf_size == 0
    then none
    else serve buf_size (file_path www_root uri) (files (file_path www_root uri))

abbrev pub is_some {ℓ} : {A : Type ℓ} → Option A → Bool
is_some none = false
is_some (some a) = true

abbrev starts_with_tilde : Bytes → Bool
starts_with_tilde [] = false
starts_with_tilde (c ∷ s) = c == b'~'

-- The loop that looks for a NUL before the NUL finds none.
unfoldable pub http_is_safe_path : Bytes → Bool
http_is_safe_path uri =
    if is_some (strstr (codes "..") uri)
    then false
    else if starts_with_tilde uri
    then false
    else not (is_some (strchr b'\\' uri))
