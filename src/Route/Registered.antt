-- ===== src/Route/Registered.antt =====
-- Routes that were added are found, and no search runs for ever.
use uestc_shixvn_mini_web_se.Route.Find.{find_from, route_table_find}
use uestc_shixvn_mini_web_se.Probe.{hit, endless, slot, Slots, Found, hash_size, absent}
use uestc_shixvn_mini_web_se.Probe.Search.{probe-ends}
use uestc_shixvn_mini_web_se.Route.Hash.{
  hash_all_returns, free_slots, free_slots-some, hash_key_below,
}
use uestc_shixvn_mini_web_se.Route.{
  is_duplicate, hash_key, matched, new_entry, has_path, compare_method, HandlerType, hash_lookup,
  looping, MatchType, with_hash, added, route_table_init, hash_init, Found, Outcome, hash_size,
  route_table_add, Added, max_routes, hash_all, RouteEntry, RouteTable, missing, different_method,
  refused, never_returns, match_exact, match_prefix,
}
use uestc_shixvn_mini_web_se.Prelude.{
  Bytes, ℕ, zero, suc, ◌+◌, ◌≤◌, ◌<◌, ◌≡◌, refl, ap, subst, ◌≢◌, inl, inr, Option, none, some, List,
  [], ◌∷◌, ◌++◌, arith, length, length-append, replicate, length-replicate, leb, Bool-cases,
}

-- The hash table is the one that the exact entries give, and there are not too many of them.
pub record IsBuilt (rt : RouteTable) : Type 0 where
  pub hash_is_built : hash_all 0 rt.exact hash_init ≡ some rt.hash
  pub exact_fits : length rt.exact ≤ max_routes

pub route_table_init-IsBuilt : IsBuilt route_table_init
unfolding hash_all
route_table_init-IsBuilt = record { hash_is_built = refl; exact_fits = omega arith }

free_slots-replicate : (n : ℕ) → free_slots (replicate n none) ≡ n
free_slots-replicate zero = refl
free_slots-replicate (suc n) = ap suc (free_slots-replicate n)

hash_all-hash_init :
    (es : List RouteEntry)
    → length es ≤ max_routes
    → (t : Slots) × (hash_all 0 es hash_init ≡ some t)
      × (length t ≡ hash_size)
      × (free_slots t + length es ≡ free_slots hash_init)
hash_all-hash_init es fits =
    hash_all_returns 0 es hash_init (length-replicate {A = Option ℕ} hash_size none)
      (omega (arith, free_slots-replicate hash_size))

-- What an addition leaves.
abbrev pub Keeps : (RouteTable → Type 0) → Added → Type 0
Keeps P refused = Unit {0}
Keeps P never_returns = ⊥
Keeps P (added rt) = P rt

with_hash-IsBuilt :
    (rt : RouteTable)
    → length rt.exact ≤ max_routes
    → Keeps IsBuilt (with_hash rt (hash_all 0 rt.exact hash_init))
with_hash-IsBuilt rt fits =
    let (t, done, sized, room) = hash_all-hash_init rt.exact fits in
    rw done (record { hash_is_built = done; exact_fits = fits })

-- From a table whose hash table was built from at most 128 exact routes, `route_table_add` always
-- returns, and the table that it leaves is such a table again, whatever is added.
pub route_table_add-IsBuilt :
    (rt : RouteTable) (method path : Bytes) (match_type : MatchType) (handler : HandlerType)
    (auth_realm required_role : Bytes)
    → IsBuilt rt
    → Keeps IsBuilt (route_table_add rt method path match_type handler auth_realm required_role)
unfolding route_table_add
route_table_add-IsBuilt rt method path match_exact handler auth_realm required_role b =
    let e = new_entry method path match_exact handler auth_realm required_role in
    elim (Bool-cases (leb max_routes (length rt.exact))) [
      | inl full ↦ rw full tt
      | inr room ↦ elim (Bool-cases (is_duplicate method path rt.exact)) [
        | inl twice ↦ rw room (rw twice tt)
        | inr fresh ↦ rw room (
            rw fresh (
              with_hash-IsBuilt (record rt { exact = rt.exact ++ e ∷ [] })
                (ground (arith, length-append rt.exact (e ∷ [])))))
      ]
    ]
route_table_add-IsBuilt rt method path match_prefix handler auth_realm required_role b =
    elim (Bool-cases (leb max_routes (length rt.prefix))) [
      | inl full ↦ rw full tt
      | inr room ↦ elim (Bool-cases (is_duplicate method path rt.prefix)) [
        | inl twice ↦ rw room (rw twice tt)
        | inr fresh ↦
            rw room
              (rw fresh (record { hash_is_built = b.hash_is_built; exact_fits = b.exact_fits }))
      ]
    ]

-- The hash table of such a table has room.
IsBuilt-room : (rt : RouteTable) → IsBuilt rt → (k : ℕ) × (k < hash_size) × (slot rt.hash k ≡ none)
IsBuilt-room rt b =
    let (t, done, sized, room) = hash_all-hash_init rt.exact b.exact_fits in
    let same : t ≡ rt.hash = ground (arith, done, b.hash_is_built) in
    let (k, inside, free) =
      free_slots-some t (omega (arith, free_slots-replicate hash_size, b.exact_fits)) in
    (k, omega arith, subst (λ u. slot u k ≡ none) same free)

find_from-returns :
    (rt : RouteTable) (method path : Bytes) (o : Outcome)
    → o ≢ looping
    → find_from rt method path o ≢ none
find_from-returns rt method path looping h = absurd (h refl)
find_from-returns rt method path missing h = ground arith
find_from-returns rt method path different_method h = ground arith
find_from-returns rt method path (matched i) h = ground arith

compare_method-returns :
    (es : List RouteEntry) (method : Bytes) (f : Found)
    → f ≢ endless
    → compare_method es method f ≢ looping
compare_method-returns es method endless h = absurd (h refl)
compare_method-returns es method absent h = ground arith
compare_method-returns es method (hit k i) h = ground arith

-- In such a table every lookup returns.
pub route_table_find_returns :
    (rt : RouteTable) (method path : Bytes) → IsBuilt rt → route_table_find rt method path ≢ none
unfolding route_table_find hash_lookup
route_table_find_returns rt method path b =
    let (k, inside, free) = IsBuilt-room rt b in
    find_from-returns rt method path _ (
      compare_method-returns rt.exact method _ (
        probe-ends (has_path rt.exact path) hash_size rt.hash (hash_key method path) k
          (hash_key_below method path) inside free (omega arith)))
