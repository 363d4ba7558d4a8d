-- ===== src/Base64/Groups.antt =====
-- A group of four letters, and how the loop of src/base64.c takes it.
use uestc_shixvn_mini_web_se.Prelude.{
  ℕ, ◌+◌, ◌-◌, ◌*◌, ◌/◌, ◌%◌, ◌<◌, some, [], ◌∷◌, ◌++◌, Bytes, ◌≡◌, ap, arith, length,
  length-append, ◌∙◌, List,
}
use uestc_shixvn_mini_web_se.Base64.{
  byte0, byte1, byte2, Decoder, flush, turn, or_crash, decoded, finish, decode_loop,
}
use uestc_shixvn_mini_web_se.Base64.Alphabet.{alphabet, alphabet-IsLetter}
use uestc_shixvn_mini_web_se.Base64.Buffer.{
  byte0_lem, byte1_lem, byte2_lem, at, put-at, put_if_room-at, put_if_room-full, store-append,
}

-- A letter is pushed when there is room.
turn-alphabet :
    (x : ℕ) (d : Decoder)
    → x < 64
    → d.j < length d.dst - 1
    → turn d (alphabet x) ≡ or_crash (flush d (d.buf ++ x ∷ []))
unfolding turn
turn-alphabet x d h room =
    let l = alphabet-IsLetter x h in
    rw (l.not_blank, l.not_pad, l.is_valid, l.table_inverts) (ground arith)

-- The NUL stands behind what is written.
pub finish-at :
    (out rest : Bytes) (y : ℕ)
    → finish (at out (y ∷ rest) []) ≡ decoded (length out) (out ++ 0 ∷ rest)
unfolding finish
finish-at out rest y = ground (arith, store-append out y rest 0)

-- Nothing is read when there is none.
pub decode_loop-full :
    (cs out : Bytes) (y : ℕ)
    → decode_loop cs (at out (y ∷ []) []) ≡ decoded (length out) (out ++ 0 ∷ [])
unfolding decode_loop turn
decode_loop-full [] out y = finish-at out [] y
decode_loop-full (c ∷ cs) out y = ground (arith, length-append out (y ∷ []), finish-at out [] y)

module _ (out rest : Bytes) (y z x : ℕ) (cs : Bytes) (hx : x < 64) where
  turn-at :
      (buf : List ℕ)
      → turn (at out (y ∷ z ∷ rest) buf) (alphabet x)
        ≡ or_crash (flush (at out (y ∷ z ∷ rest) buf) (buf ++ x ∷ []))
  turn-at buf = turn-alphabet x _ hx (omega (arith, length-append out (y ∷ z ∷ rest)))

  -- A letter that completes no group is kept in `buf`.
  pub push0 :
      decode_loop (alphabet x ∷ cs) (at out (y ∷ z ∷ rest) [])
      ≡ decode_loop cs (at out (y ∷ z ∷ rest) (x ∷ []))
  unfolding decode_loop flush
  push0 = rw (turn-at [], decode_loop)

  pub push1 :
      (p : ℕ)
      → decode_loop (alphabet x ∷ cs) (at out (y ∷ z ∷ rest) (p ∷ []))
        ≡ decode_loop cs (at out (y ∷ z ∷ rest) (p ∷ x ∷ []))
  unfolding decode_loop flush
  push1 p = rw (turn-at (p ∷ []), decode_loop)

  pub push2 :
      (p q : ℕ)
      → decode_loop (alphabet x ∷ cs) (at out (y ∷ z ∷ rest) (p ∷ q ∷ []))
        ≡ decode_loop cs (at out (y ∷ z ∷ rest) (p ∷ q ∷ x ∷ []))
  unfolding decode_loop flush
  push2 p q = rw (turn-at (p ∷ q ∷ []), decode_loop)

  pub push3 :
      (p q r : ℕ) (d : Decoder)
      → flush (at out (y ∷ z ∷ rest) (p ∷ q ∷ r ∷ [])) (p ∷ q ∷ r ∷ x ∷ []) ≡ some d
      → decode_loop (alphabet x ∷ cs) (at out (y ∷ z ∷ rest) (p ∷ q ∷ r ∷ [])) ≡ decode_loop cs d
  unfolding decode_loop
  push3 p q r d e = rw (turn-at (p ∷ q ∷ r ∷ []) ∙ ap or_crash e, decode_loop)

-- Padding ends the loop.
pub decode_loop-pad :
    (cs out rest buf : Bytes) (y z : ℕ)
    → decode_loop (b'=' ∷ cs) (at out (y ∷ z ∷ rest) buf) ≡ finish (at out (y ∷ z ∷ rest) buf)
unfolding decode_loop turn
decode_loop-pad cs out rest buf y z = ground (arith, length-append out (y ∷ z ∷ rest))

module _ (a b : ℕ) (ha : a < 256) (hb : b < 256) where
  pub byte0_lem' : byte0 (a / 4) (a % 4 * 16 + b / 16) ≡ a
  byte0_lem' = omega (arith, byte0_lem (a / 4) (a % 4 * 16 + b / 16) (omega arith) (omega arith))

  byte1_lem' : (c : ℕ) → c < 256 → byte1 (a % 4 * 16 + b / 16) (b % 16 * 4 + c / 64) ≡ b
  byte1_lem' c hc =
      omega
        (arith, byte1_lem (a % 4 * 16 + b / 16) (b % 16 * 4 + c / 64) (omega arith) (omega arith))

  byte2_lem' : byte2 (a % 16 * 4 + b / 64) (b % 64) ≡ b
  byte2_lem' = omega (arith, byte2_lem (a % 16 * 4 + b / 64) (b % 64) (omega arith) (omega arith))

-- Three bytes are written if they fit, and else as many as do.
module _ (out : Bytes) (a b c : ℕ) (ha : a < 256) (hb : b < 256) (hc : c < 256) (y z : ℕ) where
  abbrev group : List ℕ
  group = a / 4 ∷ (a % 4 * 16 + b / 16) ∷ (b % 16 * 4 + c / 64) ∷ c % 64 ∷ []

  abbrev pending : List ℕ
  pending = a / 4 ∷ (a % 4 * 16 + b / 16) ∷ (b % 16 * 4 + c / 64) ∷ []

  pub flush-one : flush (at out (y ∷ z ∷ []) pending) group ≡ some (at (out ++ a ∷ []) (z ∷ []) [])
  unfolding flush
  flush-one = rw (
    byte0_lem' a b ha hb,
    byte1_lem' a b ha hb c hc,
    put-at out y (z ∷ []) pending a,
    put_if_room-full (out ++ a ∷ []) z pending b,
    put_if_room-full (out ++ a ∷ []) z pending (byte2 (b % 16 * 4 + c / 64) (c % 64)),
  )

  pub flush-two :
      (u : ℕ)
      → flush (at out (y ∷ z ∷ u ∷ []) pending) group
        ≡ some (at ((out ++ a ∷ []) ++ b ∷ []) (u ∷ []) [])
  unfolding flush
  flush-two u = rw (
    byte0_lem' a b ha hb,
    byte1_lem' a b ha hb c hc,
    put-at out y (z ∷ u ∷ []) pending a,
    put_if_room-at (out ++ a ∷ []) z (u ∷ []) pending b (omega arith),
    put_if_room-full ((out ++ a ∷ []) ++ b ∷ []) u pending (byte2 (b % 16 * 4 + c / 64) (c % 64)),
  )

  pub flush-three :
      (u v : ℕ) (rest : Bytes)
      → flush (at out (y ∷ z ∷ u ∷ v ∷ rest) pending) group
        ≡ some (at (((out ++ a ∷ []) ++ b ∷ []) ++ c ∷ []) (v ∷ rest) [])
  unfolding flush
  flush-three u v rest = rw (
    byte0_lem' a b ha hb,
    byte1_lem' a b ha hb c hc,
    byte2_lem' b c hb hc,
    put-at out y (z ∷ u ∷ v ∷ rest) pending a,
    put_if_room-at (out ++ a ∷ []) z (u ∷ v ∷ rest) pending b (omega arith),
    put_if_room-at ((out ++ a ∷ []) ++ b ∷ []) u (v ∷ rest) pending c (omega arith),
  )

  -- The loop takes the four letters of a group.
  pub loop-group :
      (rest : Bytes) (cs : Bytes) (d : Decoder)
      → flush (at out (y ∷ z ∷ rest) pending) group ≡ some d
      → decode_loop
          (alphabet (a / 4)
            ∷ alphabet (a % 4 * 16 + b / 16)
            ∷ alphabet (b % 16 * 4 + c / 64)
            ∷ alphabet (c % 64)
            ∷ cs)
          (at out (y ∷ z ∷ rest) [])
        ≡ decode_loop cs d
  loop-group rest cs d e =
      push0 out rest y z (a / 4) _ (omega arith)
      ∙ push1 out rest y z (a % 4 * 16 + b / 16) _ (omega arith) (a / 4)
      ∙ push2 out rest y z (b % 16 * 4 + c / 64) _ (omega arith) (a / 4) (a % 4 * 16 + b / 16)
      ∙ push3 out rest y z (c % 64) cs (omega arith) _ _ _ d e
