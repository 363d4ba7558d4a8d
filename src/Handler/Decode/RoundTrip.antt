-- ===== src/Handler/Decode/RoundTrip.antt =====
-- Fields that are percent-encoded are decoded to what they were.
use uestc_shixvn_mini_web_se.Base64.RoundTrip.{AreBytes}
use uestc_shixvn_mini_web_se.CString.{is_digit}
use uestc_shixvn_mini_web_se.Handler.Decode.{
  isxdigit, hex_value, escaped, char, or_invalid, next_char, decode_chars, url_decode, array_of,
  url_decode_path,
}
use uestc_shixvn_mini_web_se.CString.{IsCString}
use uestc_shixvn_mini_web_se.Handler.Decode.InPlace.{decode_path, url_decode_path-decode_path}
use uestc_shixvn_mini_web_se.Prelude.{
  Bytes, ℕ, zero, suc, ◌+◌, ◌-◌, ◌*◌, ◌/◌, ◌%◌, ◌≤◌, ◌<◌, ◌≡◌, refl, ap, ◌∙◌, inl, inr, Bool, true,
  false, ◌&&◌, ◌||◌, some, [], ◌∷◌, ◌++◌, arith, length, passes, passes-at, ltb, leb, ◌==◌,
  if◌then◌else◌, Bool-cases,
}

abbrev upper_hex_digit : ℕ → ℕ
upper_hex_digit n = if ltb n 10 then n + b'0' else n + 55

-- Letters, digits and `-` are written as they are, and every other byte as '%' with two digits.
abbrev is_plain : ℕ → Bool
is_plain c = is_digit c || (c == b'-' || ((leb b'a' c && leb c b'z') || (leb b'A' c && leb c b'Z')))

unfoldable pub percent_encode : Bytes → Bytes
percent_encode [] = []
percent_encode (c ∷ s) =
    let rest = percent_encode s in
    if is_plain c
    then c ∷ rest
    else b'%' ∷ upper_hex_digit (c / 16) ∷ upper_hex_digit (c % 16) ∷ rest

-- In a form a space may also be written as '+'.
unfoldable pub form_encode : Bytes → Bytes
form_encode [] = []
form_encode (c ∷ s) =
    let rest = form_encode s in
    if c == b' '
    then b'+' ∷ rest
    else if is_plain c
    then c ∷ rest
    else b'%' ∷ upper_hex_digit (c / 16) ∷ upper_hex_digit (c % 16) ∷ rest

abbrev digit_test : ℕ → Bool
digit_test n = isxdigit (upper_hex_digit n) && (hex_value (upper_hex_digit n) == n)

digit_tests : passes digit_test 16 ≡ true
unfolding passes hex_value
digit_tests = refl

digit_lem :
    (n : ℕ) → n < 16 → (isxdigit (upper_hex_digit n) ≡ true) × (hex_value (upper_hex_digit n) ≡ n)
digit_lem n h =
    let t : digit_test n ≡ true = passes-at digit_test 16 n h digit_tests in ground (arith, t)

halves : (c : ℕ) → c < 256 → (c / 16 < 16) × (c % 16 < 16) × (16 * (c / 16) + c % 16 ≡ c)
halves c h = (omega arith, omega arith, omega arith)

escaped-hex :
    (c : ℕ) (s : Bytes)
    → c < 256
    → escaped (upper_hex_digit (c / 16) ∷ upper_hex_digit (c % 16) ∷ s) ≡ some (c, s)
unfolding escaped
escaped-hex c s h =
    let (hi, lo, whole) = halves c h in
    rw (digit_lem (c / 16) hi).0 (
      rw (digit_lem (c % 16) lo).0
        (rw (digit_lem (c / 16) hi).1 (rw (digit_lem (c % 16) lo).1 (rw whole refl))))

-- What stands behind the field: nothing, or the next one.
abbrev pub EndsField : Bytes → Type 0
EndsField [] = Unit {0}
EndsField (c ∷ s) = c ≡ b'&'

decode_chars-end : (room : ℕ) (rest : Bytes) → EndsField rest → decode_chars room rest ≡ (true, [])
unfolding decode_chars next_char
decode_chars-end zero rest e = refl
decode_chars-end (suc room) [] e = refl
decode_chars-end (suc room) (c ∷ rest) e = rw e refl

decode_chars-char :
    (c : ℕ) (s rest : Bytes) (x room : ℕ) (out : Bytes)
    → next_char c s ≡ char x rest
    → decode_chars room rest ≡ (true, out)
    → decode_chars (suc room) (c ∷ s) ≡ (true, x ∷ out)
unfolding decode_chars
decode_chars-char c s rest x room out e h = rw (decode_chars, e) (rw h refl)

decode_chars-form_encode :
    (s rest : Bytes) (room : ℕ)
    → AreBytes s
    → EndsField rest
    → length s ≤ room
    → decode_chars room (form_encode s ++ rest) ≡ (true, s)
unfolding form_encode next_char
decode_chars-form_encode [] rest room b e h = decode_chars-end room rest e
decode_chars-form_encode (c ∷ s) rest zero b e h = absurd (omega (arith, h))
decode_chars-form_encode (c ∷ s) rest (suc room) b e h =
    let more = decode_chars-form_encode s rest room b.1 e (omega arith) in
    elim (Bool-cases (c == b' ')) [
      | inl space ↦ rw space (
          decode_chars-char b'+' (form_encode s ++ rest) (form_encode s ++ rest) c room s
            (ground (arith, space)) more)
      | inr other ↦ rw other (elim (Bool-cases (is_plain c)) [
        | inl plain ↦ rw plain (
            decode_chars-char c (form_encode s ++ rest) (form_encode s ++ rest) c room s
              (ground (arith, plain)) more)
        | inr rare ↦ rw rare (
            decode_chars-char b'%' _ (form_encode s ++ rest) c room s
              (ap or_invalid (escaped-hex c (form_encode s ++ rest) b.0)) more)
      ])
    ]

-- A field of bytes that is encoded for a form, with the next field behind it or nothing, is decoded
-- to what it was if the buffer has room for it and a NUL.
pub url_decode-form_encode :
    (s rest : Bytes) (dst_size : ℕ)
    → AreBytes s
    → EndsField rest
    → length s < dst_size
    → url_decode (form_encode s ++ rest) dst_size ≡ (true, s)
unfolding url_decode
url_decode-form_encode s rest dst_size b e h = elim (Bool-cases (dst_size == 0)) [
  | inl z ↦ absurd (ground (arith, z, h))
  | inr nz ↦ rw nz (decode_chars-form_encode s rest (dst_size - 1) b e (omega arith))
]

decode_path-other :
    (c : ℕ) (s : Bytes) → (c == b'%') ≡ false → decode_path (c ∷ s) ≡ c ∷ decode_path s
unfolding decode_path
decode_path-other c [] h = refl
decode_path-other c (a ∷ []) h = refl
decode_path-other c (a ∷ b ∷ s) h = rw (decode_path, h) refl

decode_path-hex :
    (c : ℕ) (s : Bytes)
    → c < 256
    → decode_path (b'%' ∷ upper_hex_digit (c / 16) ∷ upper_hex_digit (c % 16) ∷ s)
      ≡ c ∷ decode_path s
unfolding decode_path
decode_path-hex c s h =
    let (hi, lo, whole) = halves c h in
    rw (decode_path, (digit_lem (c / 16) hi).0)
      (rw (digit_lem (c % 16) lo).0
        (rw (digit_lem (c / 16) hi).1 (rw (digit_lem (c % 16) lo).1 (rw whole refl))))

decode_path-percent_encode : (s : Bytes) → AreBytes s → decode_path (percent_encode s) ≡ s
unfolding percent_encode decode_path
decode_path-percent_encode [] b = refl
decode_path-percent_encode (c ∷ s) b =
    let more = decode_path-percent_encode s b.1 in
    elim (Bool-cases (is_plain c)) [
      | inl plain ↦
          rw plain
            (decode_path-other c (percent_encode s) (ground (arith, plain)) ∙ ap (◌∷◌ c) more)
      | inr rare ↦ rw rare (decode_path-hex c (percent_encode s) b.0 ∙ ap (◌∷◌ c) more)
    ]

percent_encode-IsCString : (s : Bytes) → AreBytes s → IsCString (percent_encode s)
unfolding percent_encode
percent_encode-IsCString [] b = tt
percent_encode-IsCString (c ∷ s) b = ground (arith, percent_encode-IsCString s b.1)

-- A path segment of bytes that is percent-encoded is decoded in place to what it was.
pub url_decode_path-percent_encode :
    (s : Bytes)
    → AreBytes s
    → (rest : Bytes) × (url_decode_path (array_of (percent_encode s))
        ≡ some (record { memory = s ++ 0 ∷ rest; writable = true }))
url_decode_path-percent_encode s b =
    rw (decode_path-percent_encode s b) at
      (url_decode_path-decode_path (percent_encode s) (percent_encode-IsCString s b))
