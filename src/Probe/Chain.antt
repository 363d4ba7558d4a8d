-- ===== src/Probe/Chain.antt =====
-- Insertion into a free slot: what was found before is still found, and the new entry is found.
use uestc_shixvn_mini_web_se.Prelude.{
  ℕ, zero, suc, ◌<◌, Bool, true, Option, none, some, ◌≡◌, ◌⊎◌, inl, inr, refl, arith, [], ◌∷◌,
  length, set, Bool-cases, Option-cases, ◌==◌, if◌then◌else◌,
}
use uestc_shixvn_mini_web_se.Probe.{Slots, hash_size, slot, next, hit, probe, probe_free}
use uestc_shixvn_mini_web_se.Probe.Search.{probe_free-empty}

pub slot-set :
    (t : Slots) (f h : ℕ) (v : Option ℕ)
    → f < length t
    → slot (set t f v) h ≡ (if h == f then v else slot t h)
slot-set [] f h v b = absurd (omega arith)
slot-set (x ∷ t) zero zero v b = refl
slot-set (x ∷ t) zero (suc h) v b = ground arith
slot-set (x ∷ t) (suc f) zero v b = ground arith
slot-set (x ∷ t) (suc f) (suc h) v b = ground (arith, slot-set t f h v)

module _ (t : Slots) (f i : ℕ) (inside : f < length t) where
  -- A hit is not disturbed by an entry in a slot that was free.
  pub probe-set_free :
      (p : ℕ → Bool) (fuel h k j : ℕ)
      → slot t f ≡ none
      → probe p fuel t h ≡ hit k j
      → probe p fuel (set t f (some i)) h ≡ hit k j
  unfolding probe
  probe-set_free p zero h k j free e = cc
  probe-set_free p (suc fuel) h k j free e =
      ground (arith, slot-set t f h (some i), probe-set_free p fuel (next h) k j)

  -- The loop that looked for a free slot passes nothing but entries; so a search for the new entry
  -- comes to it, or to an earlier one that fits.
  pub probe-inserted :
      (p : ℕ → Bool) (fuel h : ℕ)
      → h < hash_size
      → p i ≡ true
      → probe_free fuel t h ≡ some f
      → (k : ℕ) × (j : ℕ) × (probe p fuel (set t f (some i)) h ≡ hit k j) × (p j ≡ true)
  unfolding probe_free probe
  probe-inserted p zero h b fits e = cc
  probe-inserted p (suc fuel) h b fits e = elim (Option-cases (slot t h)) [
    | inl free ↦ (f, i, ground (arith, slot-set t f h (some i)), fits)
    | inr (j, taken) ↦ elim (Bool-cases (p j)) [
      | inl found ↦
          (h, j, ground (arith, slot-set t f h (some i), probe_free-empty fuel t (next h) f), found)
      | inr other ↦
          let (k, l, found, fits') =
            probe-inserted p fuel (next h) (omega arith) fits (ground arith) in
          (k, l, ground (arith, slot-set t f h (some i), probe_free-empty fuel t (next h) f), fits')
    ]
  ]

-- The slot that is looked at after `n` steps from `h`.
abbrev pub ahead : ℕ → ℕ → ℕ
ahead h zero = h
ahead h (suc n) = ahead (next h) n

-- On the way from `h` on, entry `j` stands before entry `i`.
abbrev pub Before : Slots → ℕ → ℕ → ℕ → Type 0
Before t h j i =
    (a : ℕ) × (b : ℕ) × (a < b) × (slot t (ahead h a) ≡ some j) × (slot t (ahead h b) ≡ some i)

probe-ahead :
    (p : ℕ → Bool) (fuel : ℕ) (t : Slots) (h k i : ℕ)
    → probe p fuel t h ≡ hit k i
    → (b : ℕ) × (slot t (ahead h b) ≡ some i)
unfolding probe
probe-ahead p zero t h k i e = cc
probe-ahead p (suc fuel) t h k i e = elim (Option-cases (slot t h)) [
  | inl free ↦ absurd (ground arith)
  | inr (j, taken) ↦ elim (Bool-cases (p j)) [
    | inl yes' ↦ (0, ground arith)
    | inr no' ↦ let (b, there) = probe-ahead p fuel t (next h) k i (ground arith) in (suc b, there)
  ]
]

-- Where one search finds an entry that a second one accepts, so does the second: that entry, or one
-- that stands before it and that the first one passes over.
pub probe-accepts :
    (p q : ℕ → Bool) (fuel : ℕ) (t : Slots) (h k i : ℕ)
    → probe p fuel t h ≡ hit k i
    → q i ≡ true
    → (l : ℕ) × (j : ℕ) × (probe q fuel t h ≡ hit l j)
      × (q j ≡ true)
      × ((p j ≡ true) ⊎ Before t h j i)
unfolding probe
probe-accepts p q zero t h k i e fits = cc
probe-accepts p q (suc fuel) t h k i e fits = elim (Option-cases (slot t h)) [
  | inl free ↦ absurd (ground arith)
  | inr (j, taken) ↦ elim (Bool-cases (p j)) [
    | inl both ↦
        let accepts : q j ≡ true = ground (arith, fits) in
        (h, j, ground (arith, accepts), accepts, inl both)
    | inr passed ↦
        let further : probe p fuel t (next h) ≡ hit k i = ground arith in
        elim (Bool-cases (q j)) [
          | inl yes' ↦
              let (b, there) = probe-ahead p fuel t (next h) k i further in
              (h, j, ground arith, yes', inr (0, suc b, omega arith, taken, there))
          | inr no' ↦
              let (l, m, found, fits', where_it_is) =
                probe-accepts p q fuel t (next h) k i further fits in
              (
                l,
                m,
                ground arith,
                fits',
                elim where_it_is [
                  | inl both ↦ inl both
                  | inr (a, b, less, at_a, at_b) ↦
                      inr (suc a, suc b, omega (arith, less), at_a, at_b)
                ],
              )
        ]
  ]
]
