-- ===== src/Base64/Alphabet.antt =====
-- RFC 4648: the alphabet and the encoder, against which src/base64.c is stated; and the sextets.
use uestc_shixvn_mini_web_se.Prelude.{
  ℕ, ◌+◌, ◌-◌, ◌*◌, ◌/◌, ◌%◌, ◌<◌, true, false, [], ◌∷◌, Bytes, ◌≡◌, arith, ltb, ◌==◌,
  if◌then◌else◌,
}
use uestc_shixvn_mini_web_se.Base64.{is_blank, is_base64, base64_table}

-- The character of a sextet.
unfoldable pub alphabet : ℕ → ℕ
alphabet x =
    if ltb x 26
    then x + 65
    else if ltb x 52
    then x + 71
    else if ltb x 62
    then x - 4
    else if x == 62
    then b'+'
    else b'/'

-- The encoder with padding.
unfoldable pub encode : Bytes → Bytes
unfolding alphabet
encode [] = []
encode (a ∷ []) = alphabet (a / 4) ∷ alphabet (a % 4 * 16) ∷ b'=' ∷ b'=' ∷ []
encode (a ∷ b ∷ []) =
    alphabet (a / 4) ∷ alphabet (a % 4 * 16 + b / 16) ∷ alphabet (b % 16 * 4) ∷ b'=' ∷ []
encode (a ∷ b ∷ c ∷ bs) =
    alphabet (a / 4)
    ∷ alphabet (a % 4 * 16 + b / 16)
    ∷ alphabet (b % 16 * 4 + c / 64)
    ∷ alphabet (c % 64)
    ∷ encode bs

-- A character of the alphabet passes every test of the loop, and the table takes it back.
pub record IsLetter (x : ℕ) : Type 0 where
  pub not_blank : is_blank (alphabet x) ≡ false
  pub not_pad : (alphabet x == b'=') ≡ false
  pub is_valid : is_base64 (alphabet x) ≡ true
  pub table_inverts : base64_table (alphabet x) ≡ x

pub alphabet-IsLetter : (x : ℕ) → x < 64 → IsLetter x
unfolding alphabet is_blank is_base64 base64_table
alphabet-IsLetter x h = record {
  not_blank = ground arith;
  not_pad = ground arith;
  is_valid = ground arith;
  table_inverts = ground arith;
}
