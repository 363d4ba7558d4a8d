-- ===== src/Probe/Endless.antt =====
-- A table with no free slot: the loops that wait for one never end.
use uestc_shixvn_mini_web_se.Prelude.{ℕ, zero, suc, ◌<◌, Bool, false, none, some, ◌≡◌, refl, arith}
use uestc_shixvn_mini_web_se.Probe.{Slots, hash_size, slot, next, endless, probe, probe_free}

-- Every slot holds an index.
abbrev pub IsFull : Slots → Type 0
IsFull t = (h : ℕ) → h < hash_size → (i : ℕ) × (slot t h ≡ some i)

pub probe_free-IsFull :
    (fuel : ℕ) (t : Slots) (h : ℕ) → IsFull t → h < hash_size → probe_free fuel t h ≡ none
unfolding probe_free
probe_free-IsFull zero t h full b = refl
probe_free-IsFull (suc fuel) t h full b =
    let (i, e) = full h b in
    rw (e, probe_free) (probe_free-IsFull fuel t (next h) full (omega arith))

-- A search for what no entry fits does not end either.
pub probe-IsFull :
    (p : ℕ → Bool) (fuel : ℕ) (t : Slots) (h : ℕ)
    → IsFull t
    → ((k i : ℕ) → slot t k ≡ some i → p i ≡ false)
    → h < hash_size
    → probe p fuel t h ≡ endless
unfolding probe
probe-IsFull p zero t h full none_fits b = refl
probe-IsFull p (suc fuel) t h full none_fits b =
    let (i, e) = full h b in
    let other = none_fits h i e in ground (arith, probe-IsFull p fuel t (next h) full none_fits)
