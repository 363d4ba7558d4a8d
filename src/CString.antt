-- ===== src/CString.antt =====
-- The C string functions that the program calls, on strings without their terminating NUL.
pub mod Scan
pub mod Format
use mathlib.Core.Option
use uestc_shixvn_mini_web_se.Prelude.{
  Bytes, ◌>>=◌, >>=-eq-some, ℕ, zero, suc, ◌+◌, ◌-◌, ◌*◌, ◌/◌, ◌%◌, ◌^◌, ◌≤◌, ◌<◌, min, bit_or, ◌≡◌,
  refl, sym, ap, subst, ◌∙◌, ◌≢◌, ◌↔◌, ◌⊎◌, inl, inr, Bool, true, false, not, ◌&&◌, ◌||◌, Option,
  none, some, List, [], ◌∷◌, ◌++◌, map, append-nil, append_assoc, arith, ℤ, sub_ℕ, to_nat, pos,
  negsuc, length, get_elem?, set, length-append, length-set, get_elem?-set_self, get_elem?-set_ne,
  get_or, take, drop, replicate, take-append-drop, length-take, length-drop, length-replicate,
  length-map, get_or-set, get_or-beyond, passes, passes-at, ltb, leb, ◌==◌, if◌then◌else◌, ltb→lt,
  lt→ltb, leb→le, ==_iff, tests, Bool-cases, Option-cases, codes,
}

-- `strcmp(a, b) == 0`.
unfoldable pub str_eq : Bytes → Bytes → Bool
str_eq [] [] = true
str_eq (x ∷ a) (y ∷ b) = x == y && str_eq a b
str_eq _ _ = false

pub str_eq_iff : (a b : Bytes) → (str_eq a b ≡ true) ↔ (a ≡ b)
unfolding str_eq
str_eq_iff (x ∷ a) (y ∷ b) = ground (arith, str_eq_iff a b)
str_eq_iff _ _ = ground arith

-- The bytes of a C string are not zero.
abbrev pub IsCString : Bytes → Type 0
IsCString [] = Unit {0}
IsCString (x ∷ s) = (x ≢ 0) × IsCString s

-- `strncpy(dst, src, n)` into a buffer of n + 1 bytes whose last byte is NUL.
abbrev pub strncpy : ℕ → Bytes → Bytes
strncpy n src = take n src

pub strncpy_fits : (n : ℕ) (s : Bytes) → length s ≤ n → strncpy n s ≡ s
strncpy_fits zero [] h = refl
strncpy_fits zero (x ∷ s) h = absurd (omega arith)
strncpy_fits (suc n) [] h = refl
strncpy_fits (suc n) (x ∷ s) h = ap (◌∷◌ x) (strncpy_fits n s (omega arith))

-- The string that starts a buffer: the bytes before the first NUL.
unfoldable pub c_str : Bytes → Bytes
c_str [] = []
c_str (x ∷ s) = if x == 0 then [] else x ∷ c_str s

-- `strchr(s, c)`: what stands before and behind the first `c`.
unfoldable pub strchr : ℕ → Bytes → Option (Bytes × Bytes)
strchr c [] = none
strchr c (x ∷ s) =
    let rest = strchr c s in
    if x == c then some ([], s) else Option.map (λ (a : Bytes × Bytes). (x ∷ a.0, a.1)) rest

-- `strncmp(s, p, strlen(p)) == 0`.
unfoldable pub starts_with : Bytes → Bytes → Bool
starts_with [] s = true
starts_with (p ∷ ps) [] = false
starts_with (p ∷ ps) (x ∷ s) = x == p && starts_with ps s

-- `strstr(s, p)`: what stands before the first `p`, and what starts with it.
unfoldable pub strstr : Bytes → Bytes → Option (Bytes × Bytes)
strstr p [] = if starts_with p [] then some ([], []) else none
strstr p (x ∷ s) =
    let rest = strstr p s in
    if starts_with p (x ∷ s)
    then some ([], x ∷ s)
    else Option.map (λ (a : Bytes × Bytes). (x ∷ a.0, a.1)) rest

-- `while (p(*s)) s++`.
unfoldable pub skip_while : (ℕ → Bool) → Bytes → Bytes
skip_while p [] = []
skip_while p (x ∷ s) = let rest = skip_while p s in if p x then rest else x ∷ s

abbrev pub push_unless : Bool → ℕ → Bytes → Bytes
push_unless true x [] = []
push_unless dropped x s = x ∷ s

-- The string without the longest end of bytes that pass the test.
unfoldable pub trim_end : (ℕ → Bool) → Bytes → Bytes
trim_end p [] = []
trim_end p (x ∷ s) = push_unless (p x) x (trim_end p s)

unfoldable pub tolower : ℕ → ℕ
tolower c = if leb b'A' c && leb c b'Z' then c + 32 else c

abbrev pub is_digit : ℕ → Bool
is_digit c = leb b'0' c && leb c b'9'

abbrev pub is_space : ℕ → Bool
is_space c = c == b' ' || (leb 9 c && leb c 13)

-- The value of the digits that start a string, from the value of those before.
unfoldable pub digits_from : ℕ → Bytes → ℕ
digits_from n [] = n
digits_from n (c ∷ s) =
    let more = digits_from (n * 10 + (c - b'0')) s in if is_digit c then more else n

abbrev pub negate : ℕ → ℤ
negate zero = pos 0
negate (suc n) = negsuc n

-- `atoi`, of values that fit an `int`: it is not defined on others.
abbrev pub signed : Bytes → ℤ
signed [] = pos 0
signed (c ∷ s) =
    if c == b'-'
    then negate (digits_from 0 s)
    else if c == b'+'
    then pos (digits_from 0 s)
    else pos (digits_from 0 (c ∷ s))

unfoldable pub atoi : Bytes → ℤ
atoi s = signed (skip_while is_space s)

-- `strncasecmp(s, p, strlen(p)) == 0`.
unfoldable pub starts_with_case : Bytes → Bytes → Bool
starts_with_case [] s = true
starts_with_case (p ∷ ps) [] = false
starts_with_case (p ∷ ps) (c ∷ s) = tolower c == tolower p && starts_with_case ps s

-- `strcasecmp(s, p) == 0`.
unfoldable pub str_case_eq : Bytes → Bytes → Bool
str_case_eq p s = length s == length p && starts_with_case p s

-- `char *p = strchr(s, c); if (p) *p = '\0';`.
abbrev pub cut : ℕ → Bytes → Bytes
cut c line = elim (strchr c line) [ none ↦ line | some (before, behind) ↦ before ]
