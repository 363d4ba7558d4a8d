-- ===== src/Base64/Bounds.antt =====
-- The writes of src/base64.c stay inside the buffer, whatever text is decoded.
use uestc_shixvn_mini_web_se.Prelude.{
  ℕ, ◌+◌, ◌-◌, ◌<◌, ◌≤◌, none, some, [], ◌∷◌, ◌++◌, Bytes, ◌≡◌, ◌>>=◌, ◌⊎◌, inl, refl, arith,
  length, length-set, get_elem?, get_elem?-set_self, Option, List,
}
use uestc_shixvn_mini_web_se.Base64.{
  store, Decoder, put, put_if_room, flush, turn, Turn, stop, reject, crash, again, Decoded, fault,
  failed, decoded, leftover, finish, decode_loop, base64_decode, base64_table, byte0, byte1, byte2,
  terminate, or_crash,
}

-- The state of a decoder whose buffer has `n` bytes: there is room while a group is pending.
pub record IsSafe (n : ℕ) (d : Decoder) : Type 0 where
  pub size : length d.dst ≡ n
  pub inside : d.j < n
  pub short : length d.buf ≤ 3
  pub room : (d.buf ≡ []) ⊎ (d.j < n - 1)

-- The outcome wrote nothing outside, and a decoded text ends in a NUL inside the buffer.
abbrev pub StaysInside : ℕ → Decoded → Type 0
StaysInside n fault = ⊥
StaysInside n (failed m) = length m ≡ n
StaysInside n (decoded k m) = (length m ≡ n) × (k < n) × (get_elem? m k ≡ some 0)

abbrev Puts : Decoder → ℕ → Option Decoder → Type 0
Puts d k none = ⊥
Puts d k (some e) = (length e.dst ≡ length d.dst) × (e.j ≡ d.j + k) × (e.buf ≡ d.buf)

put-Puts : (d : Decoder) (b : ℕ) → d.j < length d.dst → Puts d 1 (put d b)
unfolding put store
put-Puts d b h = ground (arith, length-set d.dst d.j b)

terminate-StaysInside :
    (d : Decoder) → d.j < length d.dst → StaysInside (length d.dst) (terminate (some d))
unfolding store
terminate-StaysInside d h = ground (arith, length-set d.dst d.j 0, get_elem?-set_self d.dst d.j 0)

-- What a write that is made, or left out for want of room, yields.
abbrev Within : ℕ → Option Decoder → Type 0
Within n none = ⊥
Within n (some e) = (length e.dst ≡ n) × (e.j < n)

put-Within : (n : ℕ) (d : Decoder) (b : ℕ) → length d.dst ≡ n → d.j < n - 1 → Within n (put d b)
unfolding put store
put-Within n d b e h = ground (arith, length-set d.dst d.j b)

put_if_room-Within :
    (n : ℕ) (d : Decoder) (b : ℕ) → length d.dst ≡ n → d.j < n → Within n (put_if_room d b)
unfolding put_if_room
put_if_room-Within n d b e h = ground (arith, put-Within n d b)

bind-Within :
    (n : ℕ) (m : Option Decoder) (f : Decoder → Option Decoder)
    → Within n m
    → ((d : Decoder) → length d.dst ≡ n → d.j < n → Within n (f d))
    → Within n (m >>= f)
bind-Within n none f h k = h
bind-Within n (some d) f h k = k d h.0 h.1

leftover-Within :
    (n : ℕ) (d : Decoder) (buf : List ℕ)
    → length d.dst ≡ n
    → d.j < n
    → (buf ≡ []) ⊎ (d.j < n - 1)
    → Within n (leftover d buf)
unfolding leftover
leftover-Within n d [] e h r = (e, h)
leftover-Within n d (b0 ∷ []) e h r = (e, h)
leftover-Within n d (b0 ∷ b1 ∷ []) e h r = put-Within n d (byte0 b0 b1) e (ground arith)
leftover-Within n d (b0 ∷ b1 ∷ b2 ∷ buf) e h r =
    bind-Within n _ _ (put-Within n d (byte0 b0 b1) e (ground arith))
      λ d' e' h'. put_if_room-Within n d' (byte1 b1 b2) e' h'

terminate-Within : (n : ℕ) (m : Option Decoder) → Within n m → StaysInside n (terminate m)
unfolding store
terminate-Within n none h = h
terminate-Within n (some d) h =
    ground (arith, length-set d.dst d.j 0, get_elem?-set_self d.dst d.j 0)

finish-StaysInside : (n : ℕ) (d : Decoder) → IsSafe n d → StaysInside n (finish d)
unfolding finish
finish-StaysInside n d s = terminate-Within n _ (leftover-Within n d d.buf s.size s.inside s.room)

abbrev SafeTurn : ℕ → Turn → Type 0
SafeTurn n crash = ⊥
SafeTurn n (again d) = IsSafe n d
SafeTurn n stop = Unit {0}
SafeTurn n reject = Unit {0}

bind-SafeTurn :
    (n : ℕ) (m : Option Decoder) (f : Decoder → Option Decoder)
    → Within n m
    → ((d : Decoder) → length d.dst ≡ n → d.j < n → SafeTurn n (or_crash (f d)))
    → SafeTurn n (or_crash (m >>= f))
bind-SafeTurn n none f h k = h
bind-SafeTurn n (some d) f h k = k d h.0 h.1

flush-SafeTurn :
    (n : ℕ) (d : Decoder) (buf : List ℕ) (c : ℕ)
    → length d.dst ≡ n
    → d.j < n - 1
    → length buf ≤ 3
    → SafeTurn n (or_crash (flush d (buf ++ c ∷ [])))
unfolding flush
flush-SafeTurn n d [] c e h s = ground arith
flush-SafeTurn n d (p ∷ []) c e h s = ground arith
flush-SafeTurn n d (p ∷ q ∷ []) c e h s = ground arith
flush-SafeTurn n d (p ∷ q ∷ r ∷ []) c e h s =
    bind-SafeTurn n _ _ (put-Within n d (byte0 p q) e h) λ d1 e1 h1.
      bind-SafeTurn n _ _ (put_if_room-Within n d1 (byte1 q r) e1 h1) λ d2 e2 h2.
        bind-SafeTurn n _ _ (put_if_room-Within n d2 (byte2 r c) e2 h2)
          λ d3 e3 h3. record { size = e3; inside = h3; short = omega arith; room = inl refl }
flush-SafeTurn n d (p ∷ q ∷ r ∷ t ∷ buf) c e h s = absurd (omega arith)

turn-SafeTurn : (n : ℕ) (d : Decoder) (c : ℕ) → IsSafe n d → SafeTurn n (turn d c)
unfolding turn
turn-SafeTurn n d c s = ground (arith, flush-SafeTurn n d d.buf (base64_table c))

loop-StaysInside :
    (n : ℕ) (src : Bytes) (d : Decoder) → IsSafe n d → StaysInside n (decode_loop src d)
unfolding decode_loop
loop-StaysInside n [] d s = finish-StaysInside n d s
loop-StaysInside n (c ∷ cs) d s = go (turn d c) (turn-SafeTurn n d c s) (loop-StaysInside n cs)
  where
    go :
        (t : Turn)
        → SafeTurn n t
        → ((e : Decoder) → IsSafe n e → StaysInside n (decode_loop cs e))
        → StaysInside n (elim t [
          | stop ↦ finish d
          | reject ↦ failed d.dst
          | crash ↦ fault
          | again e ↦ decode_loop cs e
        ])
    go stop h ih = finish-StaysInside n d s
    go reject h ih = s.size
    go crash h ih = h
    go (again e) h ih = ih e h

-- Whatever text is decoded, no write falls outside the buffer, which keeps its size; a result that
-- is not an error is below the size, and the byte at it is the terminating NUL.
pub base64_decode-StaysInside : (src dst : Bytes) → StaysInside (length dst) (base64_decode src dst)
unfolding base64_decode
base64_decode-StaysInside src [] = refl
base64_decode-StaysInside src (y ∷ rest) = ground (
  arith,
  loop-StaysInside (length (y ∷ rest)) src (record { dst = y ∷ rest; j = 0; buf = [] })
      (record { size = refl; inside = omega arith; short = omega arith; room = inl refl }),
)
