-- ===== src/Base64.antt =====
-- src/base64.c: the decoder of HTTP Basic credentials. `dst` is the caller's buffer, of
-- `dst_size` bytes; a write outside it is the fault `none` of `store`.
pub mod Alphabet
pub mod Buffer
pub mod Bounds
pub mod Groups
pub mod RoundTrip
mod Tests
use uestc_shixvn_mini_web_se.Prelude.{
  ℕ, ◌+◌, ◌-◌, ◌*◌, ◌/◌, ◌%◌, bit_or, Bool, not, ◌&&◌, ◌||◌, Option, none, some, List, [], ◌∷◌,
  ◌++◌, Bytes, ◌>>=◌, length, set, ltb, leb, ◌==◌, if◌then◌else◌,
}

-- `dst[j] = b`; `none` is a write outside the buffer.
unfoldable pub store : Bytes → ℕ → ℕ → Option Bytes
store dst j b = if ltb j (length dst) then some (set dst j b) else none

abbrev pub in_range : ℕ → ℕ → ℕ → Bool
in_range c lo hi = leb lo c && leb c hi

-- `base64_table`.
unfoldable pub base64_table : ℕ → ℕ
base64_table c =
    if in_range c b'A' b'Z'
    then c - 65
    else if in_range c b'a' b'z'
    then c - 71
    else if in_range c b'0' b'9'
    then c + 4
    else if c == b'+'
    then 62
    else if c == b'/'
    then 63
    else 0

-- The characters that pass the validation.
unfoldable pub is_base64 : ℕ → Bool
is_base64 c = not (
    leb 128 c
    || (not (c == b'+')
        && (not (c == b'/')
            && (not (in_range c b'A' b'Z')
                && (not (in_range c b'a' b'z') && not (in_range c b'0' b'9'))))))

unfoldable pub is_blank : ℕ → Bool
is_blank c = c == b' ' || (c == 9 || (c == 13 || c == 10))

-- The three bytes of a group, with the cast to `char`.
unfoldable pub byte0 : ℕ → ℕ → ℕ
byte0 b0 b1 = bit_or (b0 * 4) (b1 / 16) % 256

unfoldable pub byte1 : ℕ → ℕ → ℕ
byte1 b1 b2 = bit_or (b1 * 16) (b2 / 4) % 256

unfoldable pub byte2 : ℕ → ℕ → ℕ
byte2 b2 b3 = bit_or (b2 * 64) b3 % 256

-- The locals of the loop: the buffer, `j`, and the first `buf_len` entries of `buf`.
pub record Decoder : Type 0 where
  pub dst : Bytes
  pub j : ℕ
  pub buf : List ℕ

-- `dst[j++] = b`.
unfoldable pub put : Decoder → ℕ → Option Decoder
unfolding store
put d b = elim (store d.dst d.j b) [
  | none ↦ none
  | some m ↦ some (record d { dst = m; j = d.j + 1 })
]

-- `if (j < dst_size - 1) dst[j++] = b`.
unfoldable pub put_if_room : Decoder → ℕ → Option Decoder
put_if_room d b = if ltb d.j (length d.dst - 1) then put d b else some d

-- A full group of four is written out, and `buf_len` reset.
unfoldable pub flush : Decoder → List ℕ → Option Decoder
flush d (b0 ∷ b1 ∷ b2 ∷ b3 ∷ []) = do
  d ← put d (byte0 b0 b1)
  d ← put_if_room d (byte1 b1 b2)
  d ← put_if_room d (byte2 b2 b3)
  some (record d { buf = [] })
flush d buf = some (record d { buf = buf })

-- What one round of the loop does: it leaves the loop, returns -1, writes out of bounds, or goes on.
pub data Turn : Type 0 where
  stop reject crash : Turn
  again : Decoder → Turn

abbrev pub or_crash : Option Decoder → Turn
or_crash none = crash
or_crash (some d) = again d

unfoldable pub turn : Decoder → ℕ → Turn
unfolding is_blank is_base64 base64_table flush
turn d c =
    if not (ltb d.j (length d.dst - 1))
    then stop
    else if is_blank c
    then again d
    else if c == b'='
    then stop
    else if not (is_base64 c)
    then reject
    else or_crash (flush d (d.buf ++ base64_table c ∷ []))

-- The call's result: a write out of bounds, -1, or `j`; with the buffer as it is left.
pub data Decoded : Type 0 where
  fault : Decoded
  failed : Bytes → Decoded
  decoded : ℕ → Bytes → Decoded

abbrev pub terminate : Option Decoder → Decoded
terminate none = fault
terminate (some d) = elim (store d.dst d.j 0) [ none ↦ fault | some m ↦ decoded d.j m ]

-- The bytes left in `buf` when the loop ends.
unfoldable pub leftover : Decoder → List ℕ → Option Decoder
leftover d (b0 ∷ b1 ∷ []) = put d (byte0 b0 b1)
leftover d (b0 ∷ b1 ∷ b2 ∷ buf) = put d (byte0 b0 b1) >>= λ d. put_if_room d (byte1 b1 b2)
leftover d buf = some d

unfoldable pub finish : Decoder → Decoded
unfolding leftover store
finish d = terminate (leftover d d.buf)

unfoldable pub decode_loop : Bytes → Decoder → Decoded
unfolding turn finish
decode_loop [] d = finish d
decode_loop (c ∷ cs) d = elim (turn d c) [
  | stop ↦ finish d
  | reject ↦ failed d.dst
  | crash ↦ fault
  | again e ↦ decode_loop cs e
]

-- `dst_size` is the length of `dst`.
unfoldable pub base64_decode : Bytes → Bytes → Decoded
unfolding decode_loop
base64_decode src dst =
    if length dst == 0 then failed dst else decode_loop src (record { dst = dst; j = 0; buf = [] })
