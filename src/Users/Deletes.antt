-- ===== src/Users/Deletes.antt =====
-- Deleting a user, as an operation on a list of users.
use uestc_shixvn_mini_web_se.Users.{
  Elem, Index, Shared, deleted, missing, delete_found, user_store_delete, unlink,
}
use uestc_shixvn_mini_web_se.Users.Operations.{Represents, named}
use uestc_shixvn_mini_web_se.Users.Refines.{NotIn, AreDistinct, first_where}
use uestc_shixvn_mini_web_se.Users.Remove.{
  remove_first, removed, Removes, FoundPair, walk_prev-FoundPair, length-unlink,
}
use uestc_shixvn_mini_web_se.Prelude.{
  Bytes, ℕ, ◌-◌, ◌≤◌, ◌≡◌, refl, ◌≢◌, inl, inr, Bool, Option, none, some, List, [], ◌∷◌, arith,
  length, Bool-cases,
}

NotIn-removed :
    (f : Elem → Bool) (k : ℕ) (is : List ℕ) (us : List Elem)
    → NotIn k is
    → NotIn k (removed f is us)
unfolding removed
NotIn-removed f k [] us n = n
NotIn-removed f k (i ∷ is) [] n = n
NotIn-removed f k (i ∷ is) (u ∷ us) n = elim (Bool-cases (f u)) [
  | inl e ↦ rw e n.1
  | inr e ↦ rw e (n.0, NotIn-removed f k is us n.1)
]

AreDistinct-removed :
    (f : Elem → Bool) (is : List ℕ) (us : List Elem)
    → AreDistinct is
    → AreDistinct (removed f is us)
unfolding removed
AreDistinct-removed f [] us d = d
AreDistinct-removed f (i ∷ is) [] d = d
AreDistinct-removed f (i ∷ is) (u ∷ us) d = elim (Bool-cases (f u)) [
  | inl e ↦ rw e d.1
  | inr e ↦ rw e (NotIn-removed f i is us d.0, AreDistinct-removed f is us d.1)
]

length-removed :
    (f : Elem → Bool) (is : List ℕ) (us : List Elem) → length (removed f is us) ≤ length is
unfolding removed
length-removed f [] us = omega arith
length-removed f (i ∷ is) [] = omega arith
length-removed f (i ∷ is) (u ∷ us) = elim (Bool-cases (f u)) [
  | inl e ↦ rw e (omega arith)
  | inr e ↦ rw e (omega (arith, length-removed f is us))
]

module _ {T : Type 0} (ix : Index T) (name : Bytes) (shared : Shared T) (is : List ℕ)
    (us : List Elem) (rep : Represents shared is us) where
  abbrev shrunk : ℕ → ℕ → Shared T
  shrunk q d = record shared {
    list_pool = unlink q d shared.list_pool;
    tree = ix.bst_delete shared.tree name;
    size = shared.size - 1;
  }

  shrunk-Represents :
      (q d : ℕ)
      → Removes (named name) shared.list_pool shared.head_off is us q d
      → Represents (shrunk q d) (removed (named name) is us) (remove_first (named name) us)
  shrunk-Represents q d r =
      let same = length-unlink shared.list_pool q d in
      record {
        list = r.shorter;
        distinct = AreDistinct-removed (named name) is us rep.distinct;
        apart = NotIn-removed (named name) shared.head_off is us rep.apart;
        head_inside = omega (arith, same, rep.head_inside);
        fits = omega (arith, same, rep.fits, length-removed (named name) is us);
      }

  unfoldable Deletes : Option (ℕ × ℕ) → Type 0
  Deletes r =
      (first_where (named name) us ≡ none
        → delete_found ix name shared (some r) ≡ (shared, missing))
      × (first_where (named name) us ≢ none
          → (shared' : Shared T) × (delete_found ix name shared (some r) ≡ (shared', deleted))
            × Represents shared' (removed (named name) is us) (remove_first (named name) us)
            × (shared'.tree ≡ ix.bst_delete shared.tree name)
            × (shared'.size ≡ shared.size - 1))

  delete_found-Deletes :
      (r : Option (ℕ × ℕ))
      → FoundPair (named name) shared.list_pool shared.head_off is us r
      → Deletes r
  unfolding Deletes
  delete_found-Deletes none h = ((λ absent. refl), λ present. absurd (present h))
  delete_found-Deletes (some (q, d)) (removes, there) = (
    (λ absent. absurd (there absent)),
    λ present. (shrunk q d, refl, shrunk-Represents q d removes, refl, refl),
  )

-- Deleting a user by name from shared memory that holds a list of users: if nobody has the name,
-- nothing changes and the result is -1. Otherwise the result is 0, the first user of the name is no
-- longer in the list, the others are left in their order, the name is deleted from the index, and
-- `size` is one less.
pub user_store_delete-Represents :
    {T : Type 0} (ix : Index T) (name : Bytes) (shared : Shared T) (is : List ℕ) (us : List Elem)
    → Represents shared is us
    → (first_where (named name) us ≡ none → user_store_delete ix name shared ≡ (shared, missing))
      × (first_where (named name) us ≢ none
          → (shared' : Shared T) × (user_store_delete ix name shared ≡ (shared', deleted))
            × Represents shared' (removed (named name) is us) (remove_first (named name) us)
            × (shared'.tree ≡ ix.bst_delete shared.tree name)
            × (shared'.size ≡ shared.size - 1))
unfolding user_store_delete Deletes
user_store_delete-Represents ix name shared is us rep =
    let (r, found, pair) =
      walk_prev-FoundPair (named name) shared.list_pool (length shared.list_pool) shared.head_off is
        us rep.head_inside rep.apart rep.distinct rep.fits rep.list in
    rw found (delete_found-Deletes ix name shared is us rep r pair)
