-- ===== src/Base64/RoundTrip.antt =====
-- src/base64.c decodes what an RFC 4648 encoder wrote, up to the size of the buffer.
use uestc_shixvn_mini_web_se.Base64.Groups.{
  flush-three, flush-two, flush-one, loop-group, decode_loop-pad, push2, decode_loop-full, push1,
  finish-at, push0, byte0_lem',
}
use uestc_shixvn_mini_web_se.Prelude.{
  ℕ, suc, ◌+◌, ◌*◌, ◌/◌, ◌%◌, ◌<◌, some, [], ◌∷◌, ◌++◌, Bytes, ◌≡◌, refl, arith, length,
  length-append, append_assoc, take, drop, ◌∙◌, zero, List,
}
use uestc_shixvn_mini_web_se.Base64.{
  byte0, byte1, Decoder, put_if_room, Decoded, decoded, terminate, leftover, finish, decode_loop,
  base64_decode,
}
use uestc_shixvn_mini_web_se.Base64.Alphabet.{alphabet, encode}
use uestc_shixvn_mini_web_se.Base64.Buffer.{
  byte0_lem, byte1_lem, at, put-at, put_if_room-at, put_if_room-full, store-append,
}

abbrev pub AreBytes : Bytes → Type 0
AreBytes [] = Unit {0}
AreBytes (b ∷ bs) = (b < 256) × AreBytes bs

-- What is decoded into a buffer of which `out` is written, and `y` and `rest` are left.
abbrev pub fills : Bytes → Bytes → Bytes → Decoded
fills bs out rest =
    let t = take (length rest) bs in
    decoded (length out + length t) (out ++ (t ++ (0 ∷ drop (length t) rest)))

terminate-at :
    (out rest buf : Bytes) (y : ℕ)
    → terminate (some (at out (y ∷ rest) buf)) ≡ decoded (length out) (out ++ 0 ∷ rest)
terminate-at out rest buf y = rw (store-append out y rest 0, terminate)

-- The bytes of an unfinished group.
module _ (out rest : Bytes) (y z a : ℕ) (ha : a < 256) where
  finish-two :
      finish (at out (y ∷ z ∷ rest) (a / 4 ∷ (a % 4 * 16) ∷ []))
      ≡ decoded (length (out ++ a ∷ [])) ((out ++ a ∷ []) ++ 0 ∷ rest)
  unfolding finish leftover
  finish-two =
      let e : byte0 (a / 4) (a % 4 * 16) ≡ a =
        omega (arith, byte0_lem (a / 4) (a % 4 * 16) (omega arith) (omega arith)) in
      rw (e, put-at out y (z ∷ rest) (a / 4 ∷ (a % 4 * 16) ∷ []) a)
        (terminate-at (out ++ a ∷ []) rest (a / 4 ∷ (a % 4 * 16) ∷ []) z)

  module _ (b : ℕ) (hb : b < 256) where
    abbrev triple : List ℕ
    triple = a / 4 ∷ (a % 4 * 16 + b / 16) ∷ (b % 16 * 4) ∷ []

    byte1_last : byte1 (a % 4 * 16 + b / 16) (b % 16 * 4) ≡ b
    byte1_last =
        omega (arith, byte1_lem (a % 4 * 16 + b / 16) (b % 16 * 4) (omega arith) (omega arith))

    finish-triple :
        (d : Decoder)
        → put_if_room (at (out ++ a ∷ []) (z ∷ rest) triple) b ≡ some d
        → finish (at out (y ∷ z ∷ rest) triple) ≡ terminate (some d)
    unfolding finish leftover
    finish-triple d e = rw (byte0_lem' a b ha hb, byte1_last, put-at out y (z ∷ rest) triple a, e)

snoc2 :
    (out s : Bytes) (a b : ℕ)
    → (((out ++ a ∷ []) ++ b ∷ []) ++ s ≡ out ++ (a ∷ b ∷ s))
      × (length ((out ++ a ∷ []) ++ b ∷ []) ≡ length out + 2)
snoc2 out s a b = (
  append_assoc (out ++ a ∷ []) (b ∷ []) s ∙ append_assoc out (a ∷ []) (b ∷ s),
  omega (arith, length-append (out ++ a ∷ []) (b ∷ []), length-append out (a ∷ [])),
)

-- Two letters and a third, then padding.
loop-pair :
    (out rest : Bytes) (y z a b : ℕ) (ha : a < 256) (hb : b < 256)
    → decode_loop
        (alphabet (a / 4) ∷ alphabet (a % 4 * 16 + b / 16) ∷ alphabet (b % 16 * 4) ∷ b'=' ∷ [])
        (at out (y ∷ z ∷ rest) [])
      ≡ finish (at out (y ∷ z ∷ rest) (triple out rest y z a ha b hb))
loop-pair out rest y z a b ha hb =
    push0 out rest y z (a / 4) _ (omega arith)
    ∙ push1 out rest y z (a % 4 * 16 + b / 16) _ (omega arith) (a / 4)
    ∙ push2 out rest y z (b % 16 * 4) _ (omega arith) (a / 4) (a % 4 * 16 + b / 16)
    ∙ decode_loop-pad [] out rest _ y z

take-nil : (n : ℕ) → take {A = ℕ} n [] ≡ []
take-nil zero = refl
take-nil (suc n) = refl

loop-nil : (d : Decoder) → decode_loop [] d ≡ finish d
unfolding decode_loop
loop-nil d = refl

loop-encode :
    (bs out : Bytes) (y : ℕ) (rest : Bytes)
    → AreBytes bs
    → decode_loop (encode bs) (at out (y ∷ rest) []) ≡ fills bs out rest
unfolding encode
loop-encode [] out y rest h =
    loop-nil (at out (y ∷ rest) []) ∙ finish-at out rest y ∙ ground (arith, take-nil (length rest))
loop-encode (a ∷ []) out y [] h = decode_loop-full _ out y ∙ ground arith
loop-encode (a ∷ []) out y (z ∷ rest) h =
    push0 out rest y z (a / 4) _ (omega arith)
    ∙ push1 out rest y z (a % 4 * 16) _ (omega arith) (a / 4)
    ∙ decode_loop-pad _ out rest _ y z
    ∙ finish-two out rest y z a h.0
    ∙ ground (
      arith,
      length-append out (a ∷ []),
      append_assoc out (a ∷ []) (0 ∷ rest),
      take-nil (length rest),
    )
loop-encode (a ∷ b ∷ []) out y [] h = decode_loop-full _ out y ∙ ground arith
loop-encode (a ∷ b ∷ []) out y (z ∷ []) h =
    loop-pair out [] y z a b h.0 h.1.0
    ∙ finish-triple out [] y z a h.0 b h.1.0 _ (put_if_room-full (out ++ a ∷ []) z _ b)
    ∙ terminate-at (out ++ a ∷ []) [] (triple out [] y z a h.0 b h.1.0) z
    ∙ ground (arith, length-append out (a ∷ []), append_assoc out (a ∷ []) (0 ∷ []))
loop-encode (a ∷ b ∷ []) out y (z ∷ u ∷ rest) h =
    loop-pair out (u ∷ rest) y z a b h.0 h.1.0
    ∙ finish-triple out (u ∷ rest) y z a h.0 b h.1.0 _
        (put_if_room-at (out ++ a ∷ []) z (u ∷ rest) _ b (omega arith))
    ∙ terminate-at ((out ++ a ∷ []) ++ b ∷ []) rest (triple out (u ∷ rest) y z a h.0 b h.1.0) u
    ∙ ground (arith, snoc2 out (0 ∷ rest) a b, take-nil (length rest))
loop-encode (a ∷ b ∷ c ∷ bs) out y [] h = decode_loop-full _ out y ∙ ground arith
loop-encode (a ∷ b ∷ c ∷ bs) out y (z ∷ []) h =
    loop-group out a b c h.0 h.1.0 h.1.1.0 y z [] (encode bs) _
      (flush-one out a b c h.0 h.1.0 h.1.1.0 y z)
    ∙ decode_loop-full _ (out ++ a ∷ []) z
    ∙ ground (arith, length-append out (a ∷ []), append_assoc out (a ∷ []) (0 ∷ []))
loop-encode (a ∷ b ∷ c ∷ bs) out y (z ∷ u ∷ []) h =
    loop-group out a b c h.0 h.1.0 h.1.1.0 y z (u ∷ []) (encode bs) _
      (flush-two out a b c h.0 h.1.0 h.1.1.0 y z u)
    ∙ decode_loop-full _ ((out ++ a ∷ []) ++ b ∷ []) u
    ∙ ground (arith, snoc2 out (0 ∷ []) a b)
loop-encode (a ∷ b ∷ c ∷ bs) out y (z ∷ u ∷ v ∷ rest) h =
    loop-group out a b c h.0 h.1.0 h.1.1.0 y z (u ∷ v ∷ rest) (encode bs) _
      (flush-three out a b c h.0 h.1.0 h.1.1.0 y z u v rest)
    ∙ loop-encode bs (((out ++ a ∷ []) ++ b ∷ []) ++ c ∷ []) v rest h.1.1.1
    ∙ ground (
      arith,
      snoc2 out (c ∷ (take (length rest) bs ++ (0 ∷ drop (length (take (length rest) bs)) rest))) a
          b,
      length-append ((out ++ a ∷ []) ++ b ∷ []) (c ∷ []),
      append_assoc ((out ++ a ∷ []) ++ b ∷ []) (c ∷ [])
          (take (length rest) bs ++ (0 ∷ drop (length (take (length rest) bs)) rest)),
    )

-- Decoding an RFC 4648 encoding of bytes into a buffer of n > 0 bytes writes the first n - 1 of
-- them (all, if there are no more), a NUL behind them, leaves the rest of the buffer as it was,
-- and returns how many it wrote. No write falls outside the buffer.
pub base64_decode-encode :
    (bs : Bytes) (y : ℕ) (rest : Bytes)
    → AreBytes bs
    → base64_decode (encode bs) (y ∷ rest) ≡ fills bs [] rest
unfolding base64_decode
base64_decode-encode bs y rest h = ground (arith, loop-encode bs [] y rest h)
