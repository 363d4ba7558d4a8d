-- ===== src/Users/Remove.antt =====
-- Unlinking a node takes its user out of the list, and nothing else.
use uestc_shixvn_mini_web_se.Users.{Elem, ListNode, zero_node, node_at, walk_prev, unlink}
use uestc_shixvn_mini_web_se.Users.Refines.{
  NotIn, AreDistinct, IsList, KeepsNodes, IsList-KeepsNodes, first_where,
}
use uestc_shixvn_mini_web_se.Prelude.{
  ℕ, zero, suc, ◌≤◌, ◌<◌, ◌≡◌, refl, sym, ap, subst, ◌∙◌, ◌≢◌, inl, inr, Bool, true, false, ◌&&◌,
  Option, none, some, List, [], ◌∷◌, arith, length, set, length-set, get_or-set, ◌==◌,
  if◌then◌else◌, ==_iff, Bool-cases,
}

unfoldable pub remove_first : (Elem → Bool) → List Elem → List Elem
remove_first f [] = []
remove_first f (u ∷ us) = let rest = remove_first f us in if f u then us else u ∷ rest

-- The slots without that of the first user that passes.
unfoldable pub removed : (Elem → Bool) → List ℕ → List Elem → List ℕ
removed f (i ∷ is) (u ∷ us) = let rest = removed f is us in if f u then is else i ∷ rest
removed f is us = is

pub node_at-set :
    (pool : List ListNode) (j i : ℕ) (x : ListNode)
    → j ≢ i
    → node_at (set pool j x) i ≡ node_at pool i
node_at-set pool j i x ne = ground (arith, get_or-set pool j i x zero_node, ne)

pub node_at-set_self :
    (pool : List ListNode) (j : ℕ) (x : ListNode) → j < length pool → node_at (set pool j x) j ≡ x
node_at-set_self pool j x h = ground (arith, get_or-set pool j j x zero_node, h)

module _ (pool : List ListNode) (q d : ℕ) where
  pub length-unlink : length (unlink q d pool) ≡ length pool
  unfolding unlink
  length-unlink = length-set _ d _ ∙ length-set pool q _

  pub unlink_other : (k : ℕ) → q ≢ k → d ≢ k → node_at (unlink q d pool) k ≡ node_at pool k
  unfolding unlink
  unlink_other k nq nd = node_at-set _ d k _ nd ∙ node_at-set pool q k _ nq

  unlink_prev :
      q < length pool
      → d ≢ q
      → node_at (unlink q d pool) q
        ≡ record (node_at pool q) { next_off = (node_at pool d).next_off }
  unfolding unlink
  unlink_prev h ne = node_at-set _ d q _ ne ∙ node_at-set_self pool q _ h

  unlink-KeepsNodes : (is : List ℕ) → NotIn q is → NotIn d is → KeepsNodes pool (unlink q d pool) is
  unlink-KeepsNodes [] nq nd = tt
  unlink-KeepsNodes (i ∷ is) nq nd =
      (unlink_other i (λ e. nq.0 (sym e)) (λ e. nd.0 (sym e)), unlink-KeepsNodes is nq.1 nd.1)

unlink_fields :
    (pool : List ListNode) (q d i : ℕ)
    → i < length pool
    → d ≢ i
    → ((node_at (unlink q d pool) i).used ≡ (node_at pool i).used)
      × ((node_at (unlink q d pool) i).data_of ≡ (node_at pool i).data_of)
unlink_fields pool q d i h ne = elim (Bool-cases (q == i)) [
  | inl e ↦
      let same : q ≡ i = (==_iff q i).0 e in
      let node =
        subst
          (λ k.
            node_at (unlink k d pool) i
            ≡ record (node_at pool i) { next_off = (node_at pool d).next_off })
          (sym same) (unlink_prev pool i d h ne) in
      (ap (λ n. n.used) node, ap (λ n. n.data_of) node)
  | inr e ↦
      let other : q ≢ i = λ x. cc (e, (==_iff q i).1 x) in
      let node = unlink_other pool q d i other ne in
      (ap (λ n. n.used) node, ap (λ n. n.data_of) node)
]

-- The found pair: the node before is `p` or in the list, the found one is in the list, and
-- unlinking it leaves the list behind `p` without its user.
pub record Removes (f : Elem → Bool) (pool : List ListNode) (p : ℕ) (is : List ℕ) (us : List Elem)
    (q d : ℕ) : Type 0 where
  pub before : (k : ℕ) → k ≢ p → NotIn k is → q ≢ k
  pub inside : (k : ℕ) → NotIn k is → d ≢ k
  pub not_itself : q ≢ d
  pub shorter :
      IsList
        (unlink q d pool)
        (node_at (unlink q d pool) p).next_off
        (removed f is us)
        (remove_first f us)

abbrev pub FoundPair :
    (Elem → Bool) → List ListNode → ℕ → List ℕ → List Elem → Option (ℕ × ℕ) → Type 0
FoundPair f pool p is us none = first_where f us ≡ none
FoundPair f pool p is us (some (q, d)) = Removes f pool p is us q d × (first_where f us ≢ none)

module _ (f : Elem → Bool) (pool : List ListNode) where
  Removes-here :
      (p i : ℕ) (is : List ℕ) (u : Elem) (us : List Elem)
      → p < length pool
      → NotIn p (i ∷ is)
      → AreDistinct (i ∷ is)
      → IsList pool (node_at pool i).next_off is us
      → f u ≡ true
      → Removes f pool p (i ∷ is) (u ∷ us) p i
  unfolding removed remove_first
  Removes-here p i is u us h np dis rest e = record {
    before = λ k ne out same. ne (sym same);
    inside = λ k out. out.0;
    not_itself = λ same. np.0 (sym same);
    shorter = rw e (
        subst (λ n. IsList (unlink p i pool) n.next_off is us) (sym (unlink_prev pool p i h np.0))
          (IsList-KeepsNodes pool (unlink p i pool) (node_at pool i).next_off is us
            (omega (arith, length-unlink pool p i)) (unlink-KeepsNodes pool p i is np.1 dis.0)
            rest));
  }

  Removes-later :
      (p i q d : ℕ) (is : List ℕ) (u : Elem) (us : List Elem)
      → NotIn p (i ∷ is)
      → NotIn i is
      → IsList pool (node_at pool p).next_off (i ∷ is) (u ∷ us)
      → f u ≡ false
      → Removes f pool i is us q d
      → Removes f pool p (i ∷ is) (u ∷ us) q d
  unfolding removed remove_first
  Removes-later p i q d is u us np ni (here, below, used, data_of, rest) e r =
      let away : node_at (unlink q d pool) p ≡ node_at pool p =
        unlink_other pool q d p (r.before p (λ x. np.0 (sym x)) np.1) (r.inside p np.1) in
      let di : d ≢ i = r.inside i ni in
      let kept = unlink_fields pool q d i below di in
      record {
        before = λ k ne out. r.before k (λ x. out.0 (sym x)) out.1;
        inside = λ k out. r.inside k out.1;
        not_itself = r.not_itself;
        shorter = rw e (
          ap (λ n. n.next_off) away ∙ here,
          omega (arith, length-unlink pool q d, below),
          kept.0 ∙ used,
          kept.1 ∙ data_of,
          r.shorter,
        );
      }

  found_here :
      (p i : ℕ) (is : List ℕ) (u : Elem) (us : List Elem)
      → p < length pool
      → NotIn p (i ∷ is)
      → AreDistinct (i ∷ is)
      → IsList pool (node_at pool i).next_off is us
      → f u ≡ true
      → FoundPair f pool p (i ∷ is) (u ∷ us) (some (p, i))
  unfolding first_where
  found_here p i is u us h np dis rest e =
      (Removes-here p i is u us h np dis rest e, ground (arith, e))

  found_later :
      (p i : ℕ) (is : List ℕ) (u : Elem) (us : List Elem) (r : Option (ℕ × ℕ))
      → NotIn p (i ∷ is)
      → NotIn i is
      → IsList pool (node_at pool p).next_off (i ∷ is) (u ∷ us)
      → f u ≡ false
      → FoundPair f pool i is us r
      → FoundPair f pool p (i ∷ is) (u ∷ us) r
  unfolding first_where
  found_later p i is u us none np ni l e r = rw e r
  found_later p i is u us (some (q, d)) np ni l e r =
      (Removes-later p i q d is u us np ni l e r.0, rw e r.1)

  -- The loop of the deletion finds the first user that passes, or that there is none.
  pub walk_prev-FoundPair :
      (fuel p : ℕ) (is : List ℕ) (us : List Elem)
      → p < length pool
      → NotIn p is
      → AreDistinct is
      → length is ≤ fuel
      → IsList pool (node_at pool p).next_off is us
      → (r : Option (ℕ × ℕ)) × (walk_prev
            (λ node. node.used && f node.data_of)
            fuel
            pool
            p
            (node_at pool p).next_off
          ≡ some r)
        × FoundPair f pool p is us r
  unfolding walk_prev first_where
  walk_prev-FoundPair fuel p [] [] hp np dis h l = (none, rw l refl, refl)
  walk_prev-FoundPair fuel p [] (u ∷ us) hp np dis h l = absurd l
  walk_prev-FoundPair fuel p (i ∷ is) [] hp np dis h l = absurd l
  walk_prev-FoundPair zero p (i ∷ is) (u ∷ us) hp np dis h l = absurd (omega (arith, h))
  walk_prev-FoundPair (suc fuel) p (i ∷ is) (u ∷ us) hp np dis h l =
      let (here, below, used, data_of, rest) = l in
      elim (Bool-cases (f u)) [
        | inl e ↦ (
          some (p, i),
          rw here (rw (used, data_of, e) refl),
          found_here p i is u us hp np dis rest e,
        )
        | inr e ↦
            let (r, found, pair) =
              walk_prev-FoundPair fuel i is us below dis.0 dis.1 (omega (arith, h)) rest in
            (r, rw here (rw (used, data_of, e) found), found_later p i is u us r np dis.0 l e pair)
      ]
