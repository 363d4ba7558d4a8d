-- ===== src/Tree/Find.antt =====
-- Searching the tree of the users by name.
use uestc_shixvn_mini_web_se.CString.{str_eq, str_eq_iff}
use uestc_shixvn_mini_web_se.Users.{ListNode}
use uestc_shixvn_mini_web_se.Prelude.{
  Bytes, ℕ, zero, suc, ◌+◌, ◌≤◌, ◌≡◌, refl, sym, ◌≢◌, ◌⊎◌, inl, inr, true, false, Option, none,
  some, List, [], ◌∷◌, length, Bool-cases, arith,
}
use uestc_shixvn_mini_web_se.Tree.{str_lt, Bst, bst_at, user_name, bst_find_from, bst_find}

-- The tree of slots, with the list slots of its users.
pub data Shape : Type 0 where
  leaf : Shape
  branch : Shape → ℕ → ℕ → Shape → Shape

-- The nodes from a slot on have the shape.
abbrev pub IsTree : Bst → ℕ → Shape → Type 0
IsTree tree x leaf = x ≡ zero
IsTree tree x (branch l i u r) =
    (x ≡ suc i)
    × ((bst_at tree (suc i)).user_off ≡ some u)
    × IsTree tree (bst_at tree (suc i)).left_off l
    × IsTree tree (bst_at tree (suc i)).right_off r

abbrev pub Every : (ℕ → Type 0) → Shape → Type 0
Every P leaf = Unit {0}
Every P (branch l i u r) = Every P l × P u × Every P r

abbrev pub Holds : ℕ → Shape → Type 0
Holds v leaf = ⊥
Holds v (branch l i u r) = Holds v l ⊎ (v ≡ u) ⊎ Holds v r

-- No name on the left comes after the node's, none on the right before it; a name may occur again.
abbrev pub IsOrdered : List ListNode → Shape → Type 0
IsOrdered users leaf = Unit {0}
IsOrdered users (branch l i u r) =
    Every (λ v. str_lt (user_name users u) (user_name users v) ≡ false) l
    × Every (λ v. str_lt (user_name users v) (user_name users u) ≡ false) r
    × IsOrdered users l
    × IsOrdered users r

unfoldable pub tree_size : Shape → ℕ
tree_size leaf = zero
tree_size (branch l i u r) = tree_size l + tree_size r + 1

-- The result is a user of the tree with the name, or the tree has none.
abbrev pub IsFound : List ListNode → Bytes → Shape → Option ℕ → Type 0
IsFound users name t none = Every (λ v. user_name users v ≢ name) t
IsFound users name t (some v) = Holds v t × (user_name users v ≡ name)

str_lt-total : (a b : Bytes) → str_lt a b ≡ false → a ≢ b → str_lt b a ≡ true
unfolding str_lt
str_lt-total [] [] h d = absurd (d refl)
str_lt-total [] (y ∷ b) h d = absurd (ground (arith, h))
str_lt-total (x ∷ a) [] h d = refl
str_lt-total (x ∷ a) (y ∷ b) h d =
    let apart : a ≡ b → x ≢ y = λ p q. d (rw (p, q) refl) in
    ground (arith, h, str_lt-total a b, apart)

Every-map : (P Q : ℕ → Type 0) → ((v : ℕ) → P v → Q v) → (t : Shape) → Every P t → Every Q t
Every-map P Q f leaf e = e
Every-map P Q f (branch l i u r) (el, eu, er) = (Every-map P Q f l el, f u eu, Every-map P Q f r er)

module _ (users : List ListNode) (name : Bytes) where
  -- A user that the name goes past on the left is not on the right.
  none-right :
      (u : ℕ) (t : Shape)
      → str_lt name (user_name users u) ≡ true
      → Every (λ v. str_lt (user_name users v) (user_name users u) ≡ false) t
      → Every (λ v. user_name users v ≢ name) t
  none-right u t h =
      Every-map (λ v. str_lt (user_name users v) (user_name users u) ≡ false)
        (λ v. user_name users v ≢ name) (λ v e same. ground (arith, h, e, same)) t

  none-left :
      (u : ℕ) (t : Shape)
      → str_lt (user_name users u) name ≡ true
      → Every (λ v. str_lt (user_name users u) (user_name users v) ≡ false) t
      → Every (λ v. user_name users v ≢ name) t
  none-left u t h =
      Every-map (λ v. str_lt (user_name users u) (user_name users v) ≡ false)
        (λ v. user_name users v ≢ name) (λ v e same. ground (arith, h, e, same)) t

  IsFound-left :
      (l r : Shape) (i u : ℕ) (o : Option ℕ)
      → name ≢ user_name users u
      → Every (λ v. user_name users v ≢ name) r
      → IsFound users name l o
      → IsFound users name (branch l i u r) o
  IsFound-left l r i u none d e f = (f, (λ p. d (sym p)), e)
  IsFound-left l r i u (some v) d e (h, f) = (inl h, f)

  IsFound-right :
      (l r : Shape) (i u : ℕ) (o : Option ℕ)
      → name ≢ user_name users u
      → Every (λ v. user_name users v ≢ name) l
      → IsFound users name r o
      → IsFound users name (branch l i u r) o
  IsFound-right l r i u none d e f = (e, (λ p. d (sym p)), f)
  IsFound-right l r i u (some v) d e (h, f) = (inr (inr h), f)

  abbrev pub Found : ℕ → Bst → ℕ → Shape → Type 0
  Found fuel tree x t =
      (o : Option ℕ) × (bst_find_from fuel users name tree x ≡ some o) × IsFound users name t o

  find_from-IsFound :
      (fuel : ℕ) (tree : Bst) (x : ℕ) (t : Shape)
      → IsTree tree x t
      → IsOrdered users t
      → tree_size t ≤ fuel
      → Found fuel tree x t
  unfolding bst_find_from tree_size
  find_from-IsFound zero tree x leaf here ord h = (none, rw here refl, tt)
  find_from-IsFound (suc fuel) tree x leaf here ord h = (none, rw here refl, tt)
  find_from-IsFound zero tree x (branch l i u r) s ord h = absurd (omega (arith, h))
  find_from-IsFound (suc fuel) tree x (branch l i u r) (here, user, sl, sr) (ol, or, dl, dr) h =
      elim (Bool-cases (str_eq name (user_name users u))) [
        | inl same ↦
            let named : name ≡ user_name users u = (str_eq_iff name (user_name users u)).0 same in
            (some u, rw here (rw user (ground (arith, same))), (inr (inl refl), sym named))
        | inr other ↦
            let d : name ≢ user_name users u =
              λ p. ground (arith, other, (str_eq_iff name (user_name users u)).1 p) in
            elim (Bool-cases (str_lt name (user_name users u))) [
              | inl before ↦
                  let (o, e, f) =
                    find_from-IsFound fuel tree (bst_at tree (suc i)).left_off l sl dl
                      (omega (arith, h)) in
                  (
                    o,
                    rw here (rw (user, before) (ground (arith, other, e))),
                    IsFound-left l r i u o d (none-right u r before or) f,
                  )
              | inr beyond ↦
                  let after = str_lt-total name (user_name users u) beyond d in
                  let (o, e, f) =
                    find_from-IsFound fuel tree (bst_at tree (suc i)).right_off r sr dr
                      (omega (arith, h)) in
                  (
                    o,
                    rw here (rw (user, beyond) (ground (arith, other, e))),
                    IsFound-right l r i u o d (none-left u l after ol) f,
                  )
            ]
      ]

-- In a tree of the users in order, `bst_find` ends, with a user of the name if the tree has one and
-- with none otherwise, if the tree has at most as many nodes as the pool.
pub bst_find-IsFound :
    (users : List ListNode) (name : Bytes) (tree : Bst) (t : Shape)
    → IsTree tree tree.root_off t
    → IsOrdered users t
    → tree_size t ≤ length tree.nodes
    → (o : Option ℕ) × (bst_find users name tree ≡ some o) × IsFound users name t o
unfolding bst_find
bst_find-IsFound users name tree t =
    find_from-IsFound users name (length tree.nodes) tree tree.root_off t
