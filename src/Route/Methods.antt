-- ===== src/Route/Methods.antt =====
-- Requests for a known path with another method.
use uestc_shixvn_mini_web_se.Route.Find.{find_from, empty_result, scan_prefixes, route_table_find}
use uestc_shixvn_mini_web_se.Probe.{hash_size, absent, probe, probe_free, slot}
use uestc_shixvn_mini_web_se.Route.{
  has_path, compare_method, hash_key, hash_init, hash_lookup, hash_insert, hash_all, probe,
  probe_free, Slots, RouteEntry, RouteTable,
}
use uestc_shixvn_mini_web_se.Route.Registered.{IsBuilt}
use uestc_shixvn_mini_web_se.Route.Hash.{get_or-replicate-none, hash_key_below}
use uestc_shixvn_mini_web_se.Probe.Chain.{slot-set}
use uestc_shixvn_mini_web_se.Prelude.{
  Bytes, ℕ, suc, ◌<◌, ◌≡◌, refl, ap, subst, ◌∙◌, ◌≢◌, Bool, Option, none, some, [], ◌∷◌, arith,
  length, set, length-replicate,
}

probe_free_here : (fuel h : ℕ) (t : Slots) → slot t h ≡ none → probe_free (suc fuel) t h ≡ some h
unfolding probe_free
probe_free_here fuel h t e = rw (e, probe_free) refl

probe_here :
    (p : ℕ → Bool) (fuel h : ℕ) (t : Slots) → slot t h ≡ none → probe p (suc fuel) t h ≡ absent
unfolding probe
probe_here p fuel h t e = rw (e, probe) refl

pub hash_all-one :
    (e : RouteEntry)
    → hash_all 0 (e ∷ []) hash_init ≡ some (set hash_init (hash_key e.method e.path) (some 0))
unfolding hash_all hash_insert
hash_all-one e =
    rw
      (probe_free_here 255 (hash_key e.method e.path) hash_init
        (get_or-replicate-none hash_size (hash_key e.method e.path)))
      refl

-- A table of one exact route and no prefixes: a request for its path with another method gets
-- neither the entry nor 405, but the empty result, which the caller answers by 404, unless the two
-- keys fall on the same slot.
pub route_table_find-misses_405 :
    (rt : RouteTable) (e : RouteEntry) (method : Bytes)
    → IsBuilt rt
    → rt.exact ≡ e ∷ []
    → rt.prefix ≡ []
    → hash_key method e.path ≢ hash_key e.method e.path
    → route_table_find rt method e.path ≡ some empty_result
unfolding route_table_find hash_lookup scan_prefixes
route_table_find-misses_405 rt e method b one no_prefix apart =
    let built : hash_all 0 (e ∷ []) hash_init ≡ some rt.hash =
      subst (λ es. hash_all 0 es hash_init ≡ some rt.hash) one b.hash_is_built in
    let h : set hash_init (hash_key e.method e.path) (some 0) ≡ rt.hash =
      ground (arith, built, hash_all-one e) in
    let inside : hash_key e.method e.path < length hash_init =
      omega
        (arith, hash_key_below e.method e.path, length-replicate {A = Option ℕ} hash_size none) in
    let free : slot rt.hash (hash_key method e.path) ≡ none =
      subst (λ t. slot t (hash_key method e.path) ≡ none) h
        (slot-set hash_init (hash_key e.method e.path) (hash_key method e.path) (some 0) inside
          ∙ ground (arith, get_or-replicate-none hash_size (hash_key method e.path))) in
    ap (λ f. find_from rt method e.path (compare_method rt.exact method f))
      (probe_here (has_path rt.exact e.path) 255 (hash_key method e.path) rt.hash free)
    ∙ rw no_prefix refl
