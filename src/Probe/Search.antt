-- ===== src/Probe/Search.antt =====
-- What a probing loop finds, and that it ends where a slot is free.
use uestc_shixvn_mini_web_se.Prelude.{
  ℕ, zero, suc, ◌+◌, ◌-◌, ◌%◌, ◌<◌, Bool, true, none, some, ◌≡◌, ◌≢◌, inl, inr, arith, Option-cases,
}
use uestc_shixvn_mini_web_se.Probe.{
  Slots, hash_size, slot, next, Found, endless, hit, probe, probe_free,
}

-- How many steps lead from `h` to `k`.
abbrev pub distance : ℕ → ℕ → ℕ
distance h k = (k + hash_size - h) % hash_size

abbrev pub Hits : (ℕ → Bool) → Slots → Found → Type 0
Hits p t (hit h i) = (slot t h ≡ some i) × (p i ≡ true) × (h < hash_size)
Hits p t _ = Unit {0}

pub probe-Hits :
    (p : ℕ → Bool) (fuel : ℕ) (t : Slots) (h : ℕ) → h < hash_size → Hits p t (probe p fuel t h)
unfolding probe
probe-Hits p zero t h b = tt
probe-Hits p (suc fuel) t h b = ground (arith, probe-Hits p fuel t (next h))

-- The loop ends if a slot within its fuel is free.
pub probe-ends :
    (p : ℕ → Bool) (fuel : ℕ) (t : Slots) (h k : ℕ)
    → h < hash_size
    → k < hash_size
    → slot t k ≡ none
    → distance h k < fuel
    → probe p fuel t h ≢ endless
unfolding probe
probe-ends p zero t h k hh hk free near = absurd (omega arith)
probe-ends p (suc fuel) t h k hh hk free near =
    ground (arith, probe-ends p fuel t (next h) k, Option-cases (slot t h))

pub probe_free-ends :
    (fuel : ℕ) (t : Slots) (h k : ℕ)
    → h < hash_size
    → k < hash_size
    → slot t k ≡ none
    → distance h k < fuel
    → (f : ℕ) × (probe_free fuel t h ≡ some f) × (f < hash_size) × (slot t f ≡ none)
unfolding probe_free
probe_free-ends zero t h k hh hk free near = absurd (omega arith)
probe_free-ends (suc fuel) t h k hh hk free near = elim (Option-cases (slot t h)) [
  | inl e ↦ (h, rw (e, probe_free), hh, e)
  | inr (i, e) ↦
      let (f, found, below, empty) =
        probe_free-ends fuel t (next h) k (omega arith) hk free (ground arith) in
      (f, rw (e, probe_free) found, below, empty)
]

-- What it finds is free.
pub probe_free-empty :
    (fuel : ℕ) (t : Slots) (h f : ℕ)
    → h < hash_size
    → probe_free fuel t h ≡ some f
    → (slot t f ≡ none) × (f < hash_size)
unfolding probe_free
probe_free-empty zero t h f b e = cc
probe_free-empty (suc fuel) t h f b e = ground (arith, probe_free-empty fuel t (next h) f)
