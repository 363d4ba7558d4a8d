-- ===== src/Users/Refines.antt =====
-- The linked list of the users is a list of users: what the operations do to it.
use uestc_shixvn_mini_web_se.Users.{Elem, ListNode, node_at, walk_list}
use uestc_shixvn_mini_web_se.Prelude.{
  ℕ, zero, suc, ◌≤◌, ◌<◌, ◌≡◌, refl, ap, ◌≢◌, inl, inr, Bool, true, ◌&&◌, Option, none, some, List,
  [], ◌∷◌, arith, length, if◌then◌else◌, Bool-cases,
}

abbrev pub NotIn : ℕ → List ℕ → Type 0
NotIn j [] = Unit {0}
NotIn j (i ∷ is) = (i ≢ j) × NotIn j is

abbrev pub AreDistinct : List ℕ → Type 0
AreDistinct [] = Unit {0}
AreDistinct (i ∷ is) = NotIn i is × AreDistinct is

-- From an offset on, the list runs through the slots `is` and holds the users `us`, all in use.
abbrev pub IsList : List ListNode → Option ℕ → List ℕ → List Elem → Type 0
IsList pool o [] [] = o ≡ none
IsList pool o [] (u ∷ us) = ⊥
IsList pool o (i ∷ is) [] = ⊥
IsList pool o (i ∷ is) (u ∷ us) =
    (o ≡ some i)
    × (i < length pool)
    × ((node_at pool i).used ≡ true)
    × ((node_at pool i).data_of ≡ u)
    × IsList pool (node_at pool i).next_off is us

-- The slot of the first user that passes.
unfoldable pub located : (Elem → Bool) → List ℕ → List Elem → Option ℕ
located f (i ∷ is) (u ∷ us) = let rest = located f is us in if f u then some i else rest
located f _ _ = none

pub walk_list-located :
    (f : Elem → Bool) (fuel : ℕ) (pool : List ListNode) (o : Option ℕ) (is : List ℕ)
    (us : List Elem)
    → IsList pool o is us
    → length is ≤ fuel
    → walk_list (λ node. node.used && f node.data_of) fuel pool o ≡ some (located f is us)
unfolding walk_list located
walk_list-located f fuel pool o [] [] l h = rw l refl
walk_list-located f fuel pool o [] (u ∷ us) l h = absurd l
walk_list-located f fuel pool o (i ∷ is) [] l h = absurd l
walk_list-located f zero pool o (i ∷ is) (u ∷ us) l h = absurd (omega (arith, h))
walk_list-located f (suc fuel) pool o (i ∷ is) (u ∷ us) (here, below, used, data_of, rest) h =
    let more = walk_list-located f fuel pool (node_at pool i).next_off is us rest (omega arith) in
    rw here (rw (used, data_of, more) (ground arith))

-- The slots keep their nodes.
abbrev pub KeepsNodes : List ListNode → List ListNode → List ℕ → Type 0
KeepsNodes pool pool' [] = Unit {0}
KeepsNodes pool pool' (i ∷ is) = (node_at pool' i ≡ node_at pool i) × KeepsNodes pool pool' is

pub IsList-KeepsNodes :
    (pool pool' : List ListNode) (o : Option ℕ) (is : List ℕ) (us : List Elem)
    → length pool ≤ length pool'
    → KeepsNodes pool pool' is
    → IsList pool o is us
    → IsList pool' o is us
IsList-KeepsNodes pool pool' o [] [] h k l = l
IsList-KeepsNodes pool pool' o [] (u ∷ us) h k l = absurd l
IsList-KeepsNodes pool pool' o (i ∷ is) [] h k l = absurd l
IsList-KeepsNodes pool pool' o (i ∷ is) (u ∷ us) h (same, k) (here, below, used, data_of, rest) =
    rw same (
      here,
      omega arith,
      used,
      data_of,
      IsList-KeepsNodes pool pool' (node_at pool i).next_off is us h k rest,
    )

unfoldable pub first_where : (Elem → Bool) → List Elem → Option Elem
first_where f [] = none
first_where f (u ∷ us) = let rest = first_where f us in if f u then some u else rest

abbrev pub elem_at : List ListNode → Option ℕ → Option Elem
elem_at pool none = none
elem_at pool (some i) = some (node_at pool i).data_of

pub located-first_where :
    (f : Elem → Bool) (pool : List ListNode) (o : Option ℕ) (is : List ℕ) (us : List Elem)
    → IsList pool o is us
    → elem_at pool (located f is us) ≡ first_where f us
unfolding located first_where
located-first_where f pool o [] [] l = refl
located-first_where f pool o [] (u ∷ us) l = absurd l
located-first_where f pool o (i ∷ is) [] l = absurd l
located-first_where f pool o (i ∷ is) (u ∷ us) (here, below, used, data_of, rest) =
    elim (Bool-cases (f u)) [
      | inl e ↦ rw e (ap some data_of)
      | inr e ↦ rw e (located-first_where f pool (node_at pool i).next_off is us rest)
    ]
