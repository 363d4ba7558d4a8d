-- ===== src/Handler/Decode/Memory.antt =====
-- The memory that `url_decode_path` of src/request_handler.c reads and writes: one access, and one
-- round of its loop.
use uestc_shixvn_mini_web_se.Handler.Decode.{hex_value, Str, byte_at, store, is_escape, decode_from}
use uestc_shixvn_mini_web_se.Prelude.{
  Bytes, ℕ, suc, ◌+◌, ◌*◌, ◌<◌, ◌≡◌, refl, ap, ◌∙◌, true, false, some, [], ◌∷◌, ◌++◌, append_assoc,
  arith, length, length-append, get_or, set, ◌==◌, lt→ltb,
}

abbrev pub writable_str : Bytes → Str
writable_str m = record { memory = m; writable = true }

get_or-append : (xs ys : Bytes) (k : ℕ) → get_or (xs ++ ys) (length xs + k) 0 ≡ get_or ys k 0
get_or-append [] ys k = ground arith
get_or-append (x ∷ xs) ys k =
    let step : suc (length xs) + k ≡ suc (length xs + k) = omega arith in
    rw step (get_or-append xs ys k)

set-append : (xs : Bytes) (y v : ℕ) (ys : Bytes) → set (xs ++ y ∷ ys) (length xs) v ≡ xs ++ v ∷ ys
set-append [] y v ys = refl
set-append (x ∷ xs) y v ys = ap (◌∷◌ x) (set-append xs y v ys)

-- The bytes that have been read and not written over, with one more, less the one that is written.
unfoldable pub shift : Bytes → ℕ → Bytes
shift [] c = []
shift (g ∷ gap) c = gap ++ c ∷ []

pub length-shift : (gap : Bytes) (c : ℕ) → length (shift gap c) ≡ length gap
unfolding shift
length-shift [] c = refl
length-shift (g ∷ gap) c = omega (arith, length-append gap (c ∷ []))

write_lem :
    (out : Bytes) (y v : ℕ) (ys : Bytes)
    → store (writable_str (out ++ y ∷ ys)) (length out) v ≡ some (writable_str (out ++ v ∷ ys))
write_lem out y v ys =
    let inside : length out < length (out ++ y ∷ ys) = omega (arith, length-append out (y ∷ ys)) in
    rw (lt→ltb _ _ inside) (rw (set-append out y v ys) refl)

-- A byte is written where `q` points to, before or at the one that has been read.
pub store_lem :
    (out gap : Bytes) (c v : ℕ) (s : Bytes)
    → store (writable_str (out ++ (gap ++ c ∷ s))) (length out) v
      ≡ some (writable_str ((out ++ v ∷ []) ++ (shift gap c ++ s)))
unfolding shift
store_lem out [] c v s = rw (append_assoc out (v ∷ []) s) (write_lem out c v s)
store_lem out (g ∷ gap) c v s =
    rw (append_assoc gap (c ∷ []) s)
      (rw (append_assoc out (v ∷ []) (gap ++ c ∷ s)) (write_lem out g v (gap ++ c ∷ s)))

-- What `p` points to.
pub byte_at_lem :
    (out gap s : Bytes) (k : ℕ)
    → byte_at (writable_str (out ++ (gap ++ s))) (length out + length gap + k) ≡ get_or s k 0
byte_at_lem out gap s k =
    let sum : length out + length gap + k ≡ length out + (length gap + k) = omega arith in
    rw sum (get_or-append out (gap ++ s) (length gap + k) ∙ get_or-append gap s k)

pub byte_at_here :
    (out gap s : Bytes)
    → byte_at (writable_str (out ++ (gap ++ s))) (length out + length gap) ≡ get_or s 0 0
byte_at_here out gap s =
    let sum : length out + length gap ≡ length out + length gap + 0 = omega arith in
    rw sum (byte_at_lem out gap s 0)

-- The rounds of the loop.
module _ (fuel : ℕ) (str : Str) (p q : ℕ) where
  pub decode_from-end : byte_at str p ≡ 0 → decode_from (suc fuel) str p q ≡ store str q 0
  unfolding decode_from
  decode_from-end e = rw (decode_from, e) refl

  pub decode_from-plain :
      (str' : Str)
      → (byte_at str p == 0) ≡ false
      → is_escape str p ≡ false
      → store str q (byte_at str p) ≡ some str'
      → decode_from (suc fuel) str p q ≡ decode_from fuel str' (p + 1) (q + 1)
  unfolding decode_from
  decode_from-plain str' nz plain stored = rw (decode_from, nz, plain, stored) refl

  pub decode_from-escape :
      (str' : Str)
      → (byte_at str p == 0) ≡ false
      → is_escape str p ≡ true
      → store str q (16 * hex_value (byte_at str (p + 1)) + hex_value (byte_at str (p + 2)))
        ≡ some str'
      → decode_from (suc fuel) str p q ≡ decode_from fuel str' (p + 3) (q + 1)
  unfolding decode_from
  decode_from-escape str' nz escaped stored = rw (decode_from, nz, escaped, stored) refl
