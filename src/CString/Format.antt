-- ===== src/CString/Format.antt =====
-- `%d` of `snprintf`, and that `atoi` reads it back.
use uestc_shixvn_mini_web_se.CString.{digits_from, atoi, is_space, is_digit}
use uestc_shixvn_mini_web_se.CString.Scan.{skip_while_none}
use uestc_shixvn_mini_web_se.Prelude.{
  Bytes, ℕ, zero, suc, ◌+◌, ◌*◌, ◌/◌, ◌%◌, ◌^◌, ◌≤◌, ◌<◌, ◌≡◌, ap, ◌∙◌, inl, inr, true, [], ◌∷◌,
  arith, pos, length, ◌==◌, if◌then◌else◌, Bool-cases,
}

-- The digits of n, in front of those that are written. There are no more than n + 1 of them.
unfoldable pub write_digits : ℕ → ℕ → Bytes → Bytes
write_digits zero n out = out
write_digits (suc fuel) n out =
    let more = write_digits fuel (n / 10) ((n % 10 + b'0') ∷ out) in
    if n / 10 == 0 then (n % 10 + b'0') ∷ out else more

abbrev pub decimal : ℕ → Bytes
decimal n = write_digits (suc n) n []

digits_from-write_digits :
    (fuel n : ℕ) (out : Bytes)
    → n < fuel
    → digits_from 0 (write_digits fuel n out) ≡ digits_from n out
unfolding digits_from write_digits
digits_from-write_digits zero n out h = absurd (omega arith)
digits_from-write_digits (suc fuel) n out h =
    let step : digits_from (n / 10) ((n % 10 + b'0') ∷ out) ≡ digits_from n out = ground arith in
    elim (Bool-cases (n / 10 == 0)) [
      | inl e ↦ rw e (ground (arith, step))
      | inr e ↦
          rw e
            (digits_from-write_digits fuel (n / 10) ((n % 10 + b'0') ∷ out) (ground arith) ∙ step)
    ]

-- What is written starts with a digit.
abbrev pub StartsWithDigit : Bytes → Type 0
StartsWithDigit [] = ⊥
StartsWithDigit (c ∷ s) = is_digit c ≡ true

write_digits-StartsWithDigit :
    (fuel n : ℕ) (out : Bytes) → n < fuel → StartsWithDigit (write_digits fuel n out)
unfolding write_digits
write_digits-StartsWithDigit zero n out h = absurd (omega arith)
write_digits-StartsWithDigit (suc fuel) n out h = elim (Bool-cases (n / 10 == 0)) [
  | inl e ↦ rw e (ground arith)
  | inr e ↦ rw e (write_digits-StartsWithDigit fuel (n / 10) ((n % 10 + b'0') ∷ out) (ground arith))
]

-- `atoi` of a text that starts with a digit.
atoi_digits : (s : Bytes) → StartsWithDigit s → atoi s ≡ pos (digits_from 0 s)
unfolding atoi
atoi_digits [] h = absurd h
atoi_digits (c ∷ s) h = rw (skip_while_none is_space (c ∷ s) (ground arith)) (ground arith)

pub atoi-decimal : (n : ℕ) → atoi (decimal n) ≡ pos n
unfolding digits_from
atoi-decimal n =
    atoi_digits (decimal n) (write_digits-StartsWithDigit (suc n) n [] (omega arith))
    ∙ ap pos (digits_from-write_digits (suc n) n [] (omega arith))

-- Only digits are written.
abbrev pub AreDigits : Bytes → Type 0
AreDigits [] = Unit {0}
AreDigits (c ∷ s) = (is_digit c ≡ true) × AreDigits s

write_digits-AreDigits :
    (fuel n : ℕ) (out : Bytes) → AreDigits out → AreDigits (write_digits fuel n out)
unfolding write_digits
write_digits-AreDigits zero n out h = h
write_digits-AreDigits (suc fuel) n out h = elim (Bool-cases (n / 10 == 0)) [
  | inl e ↦ rw e (ground arith, h)
  | inr e ↦ rw e (write_digits-AreDigits fuel (n / 10) ((n % 10 + b'0') ∷ out) (ground arith, h))
]

pub decimal-AreDigits : (n : ℕ) → AreDigits (decimal n)
decimal-AreDigits n = write_digits-AreDigits (suc n) n [] tt

-- 10 ^ (k + 1).
abbrev power : ℕ → ℕ
power zero = 10
power (suc k) = power k * 10

-- A number below 10 ^ (k + 1) has at most k + 1 digits.
write_digits-length :
    (k fuel n : ℕ) (out : Bytes)
    → n < power k
    → length (write_digits fuel n out) ≤ length out + suc k
unfolding write_digits
write_digits-length k zero n out h = omega arith
write_digits-length zero (suc fuel) n out h = ground arith
write_digits-length (suc k) (suc fuel) n out h =
    ground (arith, write_digits-length k fuel (n / 10) ((n % 10 + b'0') ∷ out))

pub decimal-length : (n : ℕ) → n < 2 ^ 31 → length (decimal n) ≤ 10
decimal-length n h = omega (arith, write_digits-length 9 (suc n) n [] (omega arith))
