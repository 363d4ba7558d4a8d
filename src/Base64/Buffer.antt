-- ===== src/Base64/Buffer.antt =====
-- What the writes of src/base64.c do to a buffer, of which `out` is written.
use uestc_shixvn_mini_web_se.Prelude.{
  ℕ, ◌+◌, ◌*◌, ◌/◌, ◌%◌, ◌<◌, true, some, [], ◌∷◌, ◌++◌, Bytes, ◌≡◌, refl, ap, arith, ◌==◌, passes,
  passes-at, ==_iff, length, set, length-append, append_assoc,
}
use uestc_shixvn_mini_web_se.Base64.{store, byte0, byte1, byte2, Decoder, put, put_if_room}

-- The bits that `|` joins do not overlap: all 4096 pairs of sextets, for each byte of a group.
byte0_table : passes (λ x. passes (λ y. byte0 x y == x * 4 + y / 16) 64) 64 ≡ true
unfolding passes byte0
byte0_table = refl

byte1_table : passes (λ x. passes (λ y. byte1 x y == x % 16 * 16 + y / 4) 64) 64 ≡ true
unfolding passes byte1
byte1_table = refl

byte2_table : passes (λ x. passes (λ y. byte2 x y == x % 4 * 64 + y) 64) 64 ≡ true
unfolding passes byte2
byte2_table = refl

module _ (x y : ℕ) (hx : x < 64) (hy : y < 64) where
  pub byte0_lem : byte0 x y ≡ x * 4 + y / 16
  byte0_lem = (==_iff _ _).0 (passes-at _ 64 y hy (passes-at _ 64 x hx byte0_table))

  pub byte1_lem : byte1 x y ≡ x % 16 * 16 + y / 4
  byte1_lem = (==_iff _ _).0 (passes-at _ 64 y hy (passes-at _ 64 x hx byte1_table))

  pub byte2_lem : byte2 x y ≡ x % 4 * 64 + y
  byte2_lem = (==_iff _ _).0 (passes-at _ 64 y hy (passes-at _ 64 x hx byte2_table))

set-append :
    (out : Bytes) (y : ℕ) (rest : Bytes) (b : ℕ)
    → set (out ++ y ∷ rest) (length out) b ≡ out ++ b ∷ rest
set-append [] y rest b = refl
set-append (x ∷ out) y rest b = ap (◌∷◌ x) (set-append out y rest b)

pub store-append :
    (out : Bytes) (y : ℕ) (rest : Bytes) (b : ℕ)
    → store (out ++ y ∷ rest) (length out) b ≡ some (out ++ b ∷ rest)
unfolding store
store-append out y rest b = ground (arith, length-append out (y ∷ rest), set-append out y rest b)

-- The decoder has written `out`, `rest` is left, and `buf` is pending.
abbrev pub at : Bytes → Bytes → Bytes → Decoder
at out rest buf = record { dst = out ++ rest; j = length out; buf = buf }

module _ (out : Bytes) (y : ℕ) (rest : Bytes) (buf : Bytes) (b : ℕ) where
  pub at-snoc :
      at (out ++ b ∷ []) rest buf ≡ record { dst = out ++ b ∷ rest; j = length out + 1; buf = buf }
  at-snoc = ground (arith, append_assoc out (b ∷ []) rest, length-append out (b ∷ []))

  pub put-at : put (at out (y ∷ rest) buf) b ≡ some (at (out ++ b ∷ []) rest buf)
  unfolding put
  put-at = ground (arith, store-append out y rest b, at-snoc)

  pub put_if_room-at :
      0 < length rest → put_if_room (at out (y ∷ rest) buf) b ≡ some (at (out ++ b ∷ []) rest buf)
  unfolding put_if_room
  put_if_room-at h = ground (arith, put-at, length-append out (y ∷ rest))

pub put_if_room-full :
    (out : Bytes) (y : ℕ) (buf : Bytes) (b : ℕ)
    → put_if_room (at out (y ∷ []) buf) b ≡ some (at out (y ∷ []) buf)
unfolding put_if_room
put_if_room-full out y buf b = ground (arith, length-append out (y ∷ []))
