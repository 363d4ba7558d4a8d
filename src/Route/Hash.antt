-- ===== src/Route/Hash.antt =====
-- The hash table of the routes: it has room, and what is inserted is found.
use uestc_shixvn_mini_web_se.Probe.Chain.{slot-set, probe-set_free, probe-inserted}
use uestc_shixvn_mini_web_se.Probe.Search.{probe_free-ends, probe_free-empty}
use uestc_shixvn_mini_web_se.Probe.{hit, probe, hash_size, probe_free, slot, Slots}
use uestc_shixvn_mini_web_se.Route.{hash_all, hash_insert, hash_key, Slots, RouteEntry}
use uestc_shixvn_mini_web_se.Prelude.{
  Bytes, >>=-eq-some, ℕ, zero, suc, ◌+◌, ◌<◌, ◌≡◌, refl, sym, ap, subst, ◌∙◌, Bool, true, none,
  some, List, [], ◌∷◌, arith, length, get_elem?, set, length-set, ◌⊎◌, inl, inr, replicate,
}

-- How many slots are free.
abbrev pub free_slots : Slots → ℕ
free_slots [] = 0
free_slots (none ∷ t) = suc (free_slots t)
free_slots (some i ∷ t) = free_slots t

free_slots-set :
    (t : Slots) (f i : ℕ)
    → f < length t
    → slot t f ≡ none
    → suc (free_slots (set t f (some i))) ≡ free_slots t
free_slots-set [] f i b e = absurd (omega arith)
free_slots-set (none ∷ t) zero i b e = refl
free_slots-set (some j ∷ t) zero i b e = absurd (ground (arith, e))
free_slots-set (none ∷ t) (suc f) i b e = omega (arith, free_slots-set t f i (omega arith) e)
free_slots-set (some j ∷ t) (suc f) i b e = omega (arith, free_slots-set t f i (omega arith) e)

pub free_slots-some : (t : Slots) → 0 < free_slots t → (k : ℕ) × (k < length t) × (slot t k ≡ none)
free_slots-some [] h = absurd (omega arith)
free_slots-some (none ∷ t) h = (0, omega arith, refl)
free_slots-some (some j ∷ t) h = let (k, b, e) = free_slots-some t h in (suc k, omega arith, e)

pub hash_key_below : (method path : Bytes) → hash_key method path < hash_size
unfolding hash_key
hash_key_below method path = omega arith

-- What an insertion did.
hash_insert-set :
    (e : RouteEntry) (i : ℕ) (t t' : Slots)
    → hash_insert e i t ≡ some t'
    → (f : ℕ) × (probe_free hash_size t (hash_key e.method e.path) ≡ some f)
      × (slot t f ≡ none)
      × (f < hash_size)
      × (set t f (some i) ≡ t')
unfolding hash_insert
hash_insert-set e i t t' h =
    let (f, found, r) = >>=-eq-some (probe_free hash_size t (hash_key e.method e.path)) _ h in
    let (free, below) =
      probe_free-empty hash_size t (hash_key e.method e.path) f (hash_key_below e.method e.path)
        found in
    (f, found, free, below, ground (arith, r))

hash_insert_returns :
    (e : RouteEntry) (i : ℕ) (t : Slots)
    → length t ≡ hash_size
    → 0 < free_slots t
    → (t' : Slots) × (hash_insert e i t ≡ some t')
      × (length t' ≡ hash_size)
      × (suc (free_slots t') ≡ free_slots t)
unfolding hash_insert
hash_insert_returns e i t sized room =
    let h = hash_key e.method e.path in
    let (k, inside, free) = free_slots-some t room in
    let (f, found, below, empty) =
      probe_free-ends hash_size t h k (hash_key_below e.method e.path) (omega arith) free
        (omega arith) in
    (
      set t f (some i),
      rw (found, hash_insert) refl,
      length-set t f (some i) ∙ sized,
      free_slots-set t f i (omega arith) empty,
    )

-- Fewer entries than free slots are all inserted.
pub hash_all_returns :
    (i : ℕ) (es : List RouteEntry) (t : Slots)
    → length t ≡ hash_size
    → length es < free_slots t
    → (t' : Slots) × (hash_all i es t ≡ some t')
      × (length t' ≡ hash_size)
      × (free_slots t' + length es ≡ free_slots t)
unfolding hash_all
hash_all_returns i [] t sized room = (t, refl, sized, omega arith)
hash_all_returns i (e ∷ es) t sized room =
    let (t1, done, sized1, free1) = hash_insert_returns e i t sized (omega arith) in
    let (t2, all_done, sized2, free2) = hash_all_returns (suc i) es t1 sized1 (omega arith) in
    (t2, rw (done, hash_all) all_done, sized2, omega arith)

pub get_or-replicate-none : (n k : ℕ) → slot (replicate n none) k ≡ none
get_or-replicate-none zero k = refl
get_or-replicate-none (suc n) zero = refl
get_or-replicate-none (suc n) (suc k) = get_or-replicate-none n k

-- An index in the table was there before, or is that of an entry that was inserted.
pub hash_all-below :
    (i : ℕ) (es : List RouteEntry) (t t' : Slots) (h j : ℕ)
    → length t ≡ hash_size
    → hash_all i es t ≡ some t'
    → slot t' h ≡ some j
    → (slot t h ≡ some j) ⊎ (j < i + length es)
unfolding hash_all
hash_all-below i [] t t' h j sized e at = inl (ground (arith, e, at))
hash_all-below i (r ∷ es) t t' h j sized e at =
    let (t1, done, e') = >>=-eq-some (hash_insert r i t) _ e in
    let (f, place, free, below, same) = hash_insert-set r i t t1 done in
    let sized1 : length t1 ≡ hash_size = sym (ap length same) ∙ length-set t f (some i) ∙ sized in
    elim (hash_all-below (suc i) es t1 t' h j sized1 e' at) [
      | inr later ↦ inr (omega (arith, later))
      | inl there ↦
          let set_there : slot (set t f (some i)) h ≡ some j = rw (← same) at there in
          let inside : f < length t = omega (arith, below, sized) in
          ground (arith, slot-set t f h (some i) inside, set_there)
    ]

-- A search for the method and path comes to an entry that passes the test.
abbrev pub Finds : (ℕ → Bool) → Bytes → Bytes → Slots → Type 0
Finds q method path t =
    (k : ℕ) × (j : ℕ) × (probe q hash_size t (hash_key method path) ≡ hit k j) × (q j ≡ true)

module _ (q : ℕ → Bool) (method path : Bytes) where
  hash_all-Finds :
      (i : ℕ) (es : List RouteEntry) (t t' : Slots)
      → length t ≡ hash_size
      → hash_all i es t ≡ some t'
      → Finds q method path t
      → Finds q method path t'
  unfolding hash_all
  hash_all-Finds i [] t t' sized e (k, j, found, fits) = (k, j, ground (arith, found, e), fits)
  hash_all-Finds i (r ∷ es) t t' sized e (k, j, found, fits) =
      let (t1, done, e') = >>=-eq-some (hash_insert r i t) _ e in
      let (f, place, free, below, same) = hash_insert-set r i t t1 done in
      hash_all-Finds (suc i) es t1 t' (sym (ap length same) ∙ length-set t f (some i) ∙ sized) e' (
        k,
        j,
        subst (λ u. probe q hash_size u (hash_key method path) ≡ hit k j) same
            (probe-set_free t f i (omega arith) q hash_size (hash_key method path) k j free found),
        fits,
      )

  -- The n-th of the entries has the method and the path, and its index passes the test.
  pub hash_all-Finds_new :
      (i : ℕ) (es : List RouteEntry) (t t' : Slots) (n : ℕ) (e : RouteEntry)
      → length t ≡ hash_size
      → hash_all i es t ≡ some t'
      → get_elem? es n ≡ some e
      → e.method ≡ method
      → e.path ≡ path
      → q (i + n) ≡ true
      → Finds q method path t'
  unfolding hash_all
  hash_all-Finds_new i [] t t' n e sized h at m p fits = cc
  hash_all-Finds_new i (r ∷ es) t t' zero e sized h at m p fits =
      let (t1, done, h') = >>=-eq-some (hash_insert r i t) _ h in
      let (f, place, free, below, same) = hash_insert-set r i t t1 done in
      let key : hash_key r.method r.path ≡ hash_key method path = ground (arith, at, m, p) in
      let (k, j, found, ok) =
        probe-inserted t f i (omega arith) q hash_size (hash_key method path)
          (hash_key_below method path) (subst (λ n. q n ≡ true) (omega arith) fits)
          (subst (λ n. probe_free hash_size t n ≡ some f) key place) in
      hash_all-Finds (suc i) es t1 t' (sym (ap length same) ∙ length-set t f (some i) ∙ sized) h'
        (k, j, subst (λ u. probe q hash_size u (hash_key method path) ≡ hit k j) same found, ok)
  hash_all-Finds_new i (r ∷ es) t t' (suc n) e sized h at m p fits =
      let (t1, done, h') = >>=-eq-some (hash_insert r i t) _ h in
      let (f, place, free, below, same) = hash_insert-set r i t t1 done in
      hash_all-Finds_new (suc i) es t1 t' n e
        (sym (ap length same) ∙ length-set t f (some i) ∙ sized) h' at m p
        (subst (λ n. q n ≡ true) (omega arith) fits)
