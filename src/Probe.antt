-- ===== src/Probe.antt =====
-- The open-addressing tables of src/session.c and src/route_table.c: 256 slots, each -1 (`none`)
-- or an index, probed one after the other. `endless` is a loop that has not ended within its fuel.
pub mod Search
pub mod Chain
pub mod Endless
use uestc_shixvn_mini_web_se.Prelude.{
  ℕ, zero, suc, ◌+◌, ◌*◌, ◌%◌, ◌^◌, Bool, true, false, Option, none, some, List, [], ◌∷◌, Bytes,
  get_or, set, if◌then◌else◌,
}

abbrev pub Slots : Type 0
Slots = List (Option ℕ)

-- `SESSION_HASH_SIZE` and `HASH_SIZE`.
abbrev pub hash_size : ℕ
hash_size = 256

-- One round of djb2 on an `unsigned int`: `h = ((h << 5) + h) + c`.
unfoldable pub djb2_step : ℕ → ℕ → ℕ
djb2_step h c = (h * 32 % 2 ^ 32 + h + c) % 2 ^ 32

unfoldable pub djb2 : ℕ → Bytes → ℕ
unfolding djb2_step
djb2 h [] = h
djb2 h (c ∷ s) = djb2 (djb2_step h c) s

-- `g_hash[h]`.
abbrev pub slot : Slots → ℕ → Option ℕ
slot t h = get_or t h none

-- `h = (h + 1) & (HASH_SIZE - 1)`.
abbrev pub next : ℕ → ℕ
next h = (h + 1) % hash_size

pub data Found : Type 0 where
  endless absent : Found
  hit : ℕ → ℕ → Found

-- `while (g_hash[h] != -1) { if (p(g_hash[h])) …; h = next(h); }`: where the loop stops.
unfoldable pub probe : (ℕ → Bool) → ℕ → Slots → ℕ → Found
probe p zero t h = endless
probe p (suc fuel) t h = elim (slot t h) [
  | none ↦ absent
  | some i ↦ elim (p i) [ true ↦ hit h i | false ↦ probe p fuel t (next h) ]
]

-- `while (g_hash[h] != -1) h = next(h);`: the free slot that it finds.
unfoldable pub probe_free : ℕ → Slots → ℕ → Option ℕ
probe_free zero t h = none
probe_free (suc fuel) t h = elim (slot t h) [ none ↦ some h | some i ↦ probe_free fuel t (next h) ]
