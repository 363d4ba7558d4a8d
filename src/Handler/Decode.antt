-- ===== src/Handler/Decode.antt =====
-- Form fields and paths of src/request_handler.c: URL decoding, and the checks of search fields. A
-- byte is a number below 256.
pub mod Memory
pub mod InPlace
pub mod RoundTrip
use uestc_shixvn_mini_web_se.CString.{strchr, is_digit}
use uestc_shixvn_mini_web_se.Http.Files.{is_some}
use uestc_shixvn_mini_web_se.Prelude.{
  Bytes, ◌>>=◌, >>=-eq-some, ℕ, zero, suc, ◌+◌, ◌-◌, ◌*◌, ◌/◌, ◌%◌, ◌^◌, ◌≤◌, ◌<◌, min, bit_or, ◌≡◌,
  refl, sym, ap, subst, ◌∙◌, ◌≢◌, ◌↔◌, ◌⊎◌, inl, inr, Bool, true, false, not, ◌&&◌, ◌||◌, Option,
  none, some, List, [], ◌∷◌, ◌++◌, map, append-nil, append_assoc, arith, ℤ, sub_ℕ, to_nat, is_int,
  pos, negsuc, length, get_elem?, set, length-append, length-set, get_elem?-set_self,
  get_elem?-set_ne, get_or, take, drop, replicate, take-append-drop, length-take, length-drop,
  length-replicate, length-map, get_or-set, get_or-beyond, passes, passes-at, ltb, leb, ◌==◌,
  if◌then◌else◌, ltb→lt, lt→ltb, leb→le, ==_iff, tests, Bool-cases, Option-cases, codes,
}

abbrev pub isxdigit : ℕ → Bool
isxdigit c = is_digit c || ((leb b'a' c && leb c b'f') || (leb b'A' c && leb c b'F'))

-- `strtol` of two hexadecimal digits, cast to `char`, a digit at a time.
unfoldable pub hex_value : ℕ → ℕ
hex_value c = if is_digit c then c - b'0' else if leb b'a' c then c - 87 else c - 55

-- The byte that the two digits behind a '%' stand for, and what follows them.
unfoldable pub escaped : Bytes → Option (ℕ × Bytes)
escaped (a ∷ b ∷ s) =
    if isxdigit a && isxdigit b then some (16 * hex_value a + hex_value b, s) else none
escaped _ = none

-- What one round of the loop does: it returns -1, leaves the loop, or writes a byte and goes on.
pub data Next : Type 0 where
  invalid ended : Next
  char : ℕ → Bytes → Next

abbrev pub or_invalid : Option (ℕ × Bytes) → Next
or_invalid none = invalid
or_invalid (some (x, s)) = char x s

unfoldable pub next_char : ℕ → Bytes → Next
next_char c s =
    if c == b'%'
    then or_invalid (escaped s)
    else if c == b'+'
    then char b' ' s
    else if c == b'&'
    then ended
    else char c s

-- The bytes written, at most `room`, and whether the result is 0.
unfoldable pub decode_chars : ℕ → Bytes → Bool × Bytes
decode_chars zero s = (true, [])
decode_chars (suc room) [] = (true, [])
decode_chars (suc room) (c ∷ s) = elim (next_char c s) [
  | invalid ↦ (false, [])
  | ended ↦ (true, [])
  | char x rest ↦ let more = decode_chars room rest in (more.0, x ∷ more.1)
]

-- The NUL behind the bytes is only written where the result is 0.
unfoldable pub url_decode : Bytes → ℕ → Bool × Bytes
url_decode src dst_size = if dst_size == 0 then (false, []) else decode_chars (dst_size - 1) src

-- A string in memory with its NUL, and whether that memory may be written to: a literal may not.
pub record Str : Type 0 where
  pub memory : Bytes
  pub writable : Bool

abbrev pub array_of : Bytes → Str
array_of s = record { memory = s ++ 0 ∷ []; writable = true }

abbrev pub literal : Bytes → Str
literal s = record { memory = s ++ 0 ∷ []; writable = false }

abbrev pub byte_at : Str → ℕ → ℕ
byte_at str i = get_or str.memory i 0

-- `none` is a fault: memory that may not be written to, or that is not the string's.
abbrev pub store : Str → ℕ → ℕ → Option Str
store str i v =
    if str.writable && ltb i (length str.memory)
    then some (record str { memory = set str.memory i v })
    else none

abbrev pub is_escape : Str → ℕ → Bool
is_escape str p =
    byte_at str p == b'%' && (isxdigit (byte_at str (p + 1)) && isxdigit (byte_at str (p + 2)))

-- The loop of `url_decode_path`, from what `p` and `q` point to on, with the NUL at its end.
unfoldable pub decode_from : ℕ → Str → ℕ → ℕ → Option Str
decode_from zero str p q = none
decode_from (suc fuel) str p q = elim (byte_at str p == 0) [
  | true ↦ store str q 0
  | false ↦ elim (is_escape str p) [
    | true ↦
        store str q (16 * hex_value (byte_at str (p + 1)) + hex_value (byte_at str (p + 2)))
        >>= λ str'. decode_from fuel str' (p + 3) (q + 1)
    | false ↦ store str q (byte_at str p) >>= λ str'. decode_from fuel str' (p + 1) (q + 1)
  ]
]

-- In place. No loop has more rounds than the string has bytes with its NUL.
unfoldable pub url_decode_path : Str → Option Str
url_decode_path str = decode_from (length str.memory) str 0 0

-- The digits of a number that holds nothing but digits and hyphens.
unfoldable pub phone_digits : Bytes → Option ℕ
phone_digits [] = some 0
phone_digits (c ∷ s) =
    let rest = phone_digits s in
    if is_digit c then (rest >>= λ n. some (n + 1)) else if c == b'-' then rest else none

abbrev pub phone_fits : ℕ → Option ℕ → Bool
phone_fits len none = false
phone_fits len (some digits) = leb 1 len && (leb len 20 && leb 1 digits)

unfoldable pub validate_phone : Bytes → Bool
validate_phone phone =
    if length phone == 0 then true else phone_fits (length phone) (phone_digits phone)

abbrev pub has_domain : Option (Bytes × Bytes) → Bool
has_domain none = true
has_domain (some (local_part, domain)) =
    if is_some (strchr b'@' domain) then false else leb 1 (length domain)

unfoldable pub validate_email : Bytes → Bool
validate_email email =
    if length email == 0
    then true
    else if is_some (strchr b' ' email)
    then false
    else has_domain (strchr b'@' email)
