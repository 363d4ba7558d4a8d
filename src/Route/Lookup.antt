-- ===== src/Route/Lookup.antt =====
-- What a lookup returns: only what fits the request, and whatever was registered for it.
use uestc_shixvn_mini_web_se.CString.{str_eq_iff, str_eq}
use uestc_shixvn_mini_web_se.Probe.{Found, endless, absent, hit, hash_size}
use uestc_shixvn_mini_web_se.Probe.Search.{probe-Hits, Hits}
use uestc_shixvn_mini_web_se.Probe.Chain.{Before}
use uestc_shixvn_mini_web_se.Route.{
  hash_key, compare_method, hash_lookup, has_path, str_eq, entry_at, RouteEntry, RouteTable,
  Outcome, looping, missing, different_method, matched,
}
use uestc_shixvn_mini_web_se.Route.Find.{
  first_405, build_allow_for_path, empty_result, find_from, capture, route_table_find,
  scan_prefixes, path_matches_prefix, FindResult,
}
use uestc_shixvn_mini_web_se.Route.Hash.{hash_key_below}
use uestc_shixvn_mini_web_se.Prelude.{
  Bytes, ℕ, ◌<◌, ◌≡◌, refl, subst, ◌∙◌, ◌≢◌, ◌⊎◌, inl, inr, Bool, true, false, ◌&&◌, none, some,
  List, [], ◌∷◌, arith, length, take, drop, Bool-cases,
}

-- The entry is of the method, and either has the path or is a prefix of it, of which the rest is
-- captured, as far as it fits.
abbrev pub Answers : Bytes → Bytes → FindResult → RouteEntry → Type 0
Answers method path r e =
    (e.method ≡ method)
    × (((e.path ≡ path) × (r.captured ≡ []))
        ⊎ ((path_matches_prefix e.path path ≡ true)
            × (r.captured ≡ take 255 (drop (length e.path) path))))

abbrev IsSound : Bytes → Bytes → FindResult → Type 0
IsSound method path r = (e : RouteEntry) → r.entry ≡ some e → Answers method path r e

capture-path_matches_prefix :
    (pattern' path captured : Bytes)
    → path_matches_prefix pattern' path ≡ true
    → capture pattern' path captured ≡ take 255 (drop (length pattern') path)
unfolding path_matches_prefix capture
capture-path_matches_prefix [] path captured h = absurd (ground (arith, h))
capture-path_matches_prefix (x ∷ s) path captured h = rw h refl

first_405-entry :
    (entries : List RouteEntry) (e : RouteEntry) (r : FindResult)
    → (first_405 entries e r).entry ≡ r.entry
first_405-entry entries e r = ground arith

found-IsSound :
    (method path : Bytes) (r : FindResult) (x : RouteEntry)
    → r.entry ≡ some x
    → Answers method path r x
    → IsSound method path r
found-IsSound method path r x h a e found =
    let same : x ≡ e = ground (arith, h, found) in subst (Answers method path r) same a

-- While no entry is found the scan goes on.
scan_prefixes-IsSound :
    (entries es : List RouteEntry) (method path : Bytes) (r : FindResult)
    → r.entry ≡ none
    → IsSound method path (scan_prefixes entries es method path r)
unfolding scan_prefixes
scan_prefixes-IsSound entries [] method path r h = λ e found. absurd (ground (arith, h, found))
scan_prefixes-IsSound entries (x ∷ es) method path r h =
    let r' : FindResult = record r { captured = capture x.path path r.captured } in
    elim (Bool-cases (path_matches_prefix x.path path)) [
      | inr other ↦ rw other (scan_prefixes-IsSound entries es method path r' h)
      | inl fits ↦ elim (Bool-cases (str_eq x.method method)) [
        | inr wrong' ↦ rw fits (
            rw wrong'
              (scan_prefixes-IsSound entries es method path _ (first_405-entry entries x r' ∙ h)))
        | inl same ↦ rw fits (
            rw same (
              found-IsSound method path (record r' { entry = some x; is_405 = false }) x refl
                (
                  (str_eq_iff x.method method).0 same,
                  inr (fits, capture-path_matches_prefix x.path path r.captured fits),
                )))
      ]
    ]

abbrev IsMatch : RouteTable → Bytes → Bytes → Outcome → Type 0
IsMatch rt method path (matched i) =
    ((entry_at rt.exact i).method ≡ method) × ((entry_at rt.exact i).path ≡ path)
IsMatch rt method path _ = Unit {0}

compare_method-IsMatch :
    (rt : RouteTable) (method path : Bytes) (f : Found)
    → Hits (has_path rt.exact path) rt.hash f
    → IsMatch rt method path (compare_method rt.exact method f)
compare_method-IsMatch rt method path endless h = tt
compare_method-IsMatch rt method path absent h = tt
compare_method-IsMatch rt method path (hit k i) h =
    elim (Bool-cases (str_eq (entry_at rt.exact i).method method)) [
      | inl same ↦ rw same ((str_eq_iff _ method).0 same, (str_eq_iff _ path).0 h.1)
      | inr other ↦ rw other tt
    ]

find_from-IsSound :
    (rt : RouteTable) (method path : Bytes) (o : Outcome) (r : FindResult)
    → IsMatch rt method path o
    → find_from rt method path o ≡ some r
    → IsSound method path r
find_from-IsSound rt method path looping r m h = cc
find_from-IsSound rt method path (matched i) r m h =
    let r' : FindResult = record empty_result { entry = some (entry_at rt.exact i) } in
    let same : r' ≡ r = ground (arith, h) in
    subst (IsSound method path) same
      (found-IsSound method path r' (entry_at rt.exact i) refl (m.0, inl (m.1, refl)))
find_from-IsSound rt method path different_method r m h =
    let r' : FindResult = record empty_result {
      is_405 = true;
      allow = build_allow_for_path rt.exact path;
    } in
    let same : r' ≡ r = ground (arith, h) in
    let s : IsSound method path r' = λ e found. absurd (ground (arith, found)) in
    subst (IsSound method path) same s
find_from-IsSound rt method path missing r m h =
    let same : scan_prefixes rt.prefix rt.prefix method path empty_result ≡ r = ground (arith, h) in
    subst (IsSound method path) same
      (scan_prefixes-IsSound rt.prefix rt.prefix method path empty_result refl)

-- An entry that a lookup returns has the method of the request, and its path, or else is a prefix
-- of the path, and then what follows the prefix is captured, up to 255 bytes.
pub route_table_find-Answers :
    (rt : RouteTable) (method path : Bytes) (r : FindResult) (e : RouteEntry)
    → route_table_find rt method path ≡ some r
    → r.entry ≡ some e
    → Answers method path r e
unfolding route_table_find hash_lookup
route_table_find-Answers rt method path r e h found =
    find_from-IsSound rt method path _ r
      (compare_method-IsMatch rt method path _ (
        probe-Hits (has_path rt.exact path) hash_size rt.hash (hash_key method path)
          (hash_key_below method path)))
      h e found

-- What a request for a registered route comes to: an entry with its method and path, or 405, because
-- of entry `j`, which has the path and another method and stands before the entry with both.
abbrev pub IsReached : RouteTable → Bytes → Bytes → FindResult → Type 0
IsReached rt method path r =
    ((e : RouteEntry) × (r.entry ≡ some e) × (e.method ≡ method) × (e.path ≡ path))
    ⊎ ((r.is_405 ≡ true)
        × (j : ℕ) × (i : ℕ) × (j < length rt.exact)
        × ((entry_at rt.exact j).path ≡ path)
        × ((entry_at rt.exact j).method ≢ method)
        × ((entry_at rt.exact i).path ≡ path)
        × ((entry_at rt.exact i).method ≡ method)
        × Before rt.hash (hash_key method path) j i)

-- Method and path both fit.
abbrev has_both : List RouteEntry → Bytes → Bytes → ℕ → Bool
has_both es method path i = str_eq (entry_at es i).path path && str_eq (entry_at es i).method method
