-- ===== src/Users/Adds.antt =====
-- Adding a user, as an operation on a list of users.
use uestc_shixvn_mini_web_se.Users.{
  Elem, ListNode, zero_node, pool_nodes, Index, Shared, node_at, first_user, user_store_find,
  list_alloc, link_front, added, exists, enter_new, add_elem,
}
use uestc_shixvn_mini_web_se.Users.Operations.{Represents, named, users_read}
use uestc_shixvn_mini_web_se.Users.Refines.{
  NotIn, IsList, KeepsNodes, IsList-KeepsNodes, first_where, elem_at,
}
use uestc_shixvn_mini_web_se.Users.Remove.{node_at-set, node_at-set_self}
use uestc_shixvn_mini_web_se.Prelude.{
  ℕ, zero, suc, ◌+◌, ◌<◌, ◌≡◌, refl, sym, ap, subst, ◌∙◌, ◌≢◌, true, false, Option, none, some,
  List, [], ◌∷◌, ◌++◌, arith, length, length-append, length-set, leb,
}

node_at-append :
    (pool xs : List ListNode) (k : ℕ) → k < length pool → node_at (pool ++ xs) k ≡ node_at pool k
node_at-append [] xs k h = absurd (omega (arith, h))
node_at-append (n ∷ pool) xs zero h = refl
node_at-append (n ∷ pool) xs (suc k) h = node_at-append pool xs k (omega (arith, h))

module _ (elem : Elem) (head : ℕ) (pool : List ListNode) (x : ListNode)
    (inside : head < length pool) where
  abbrev linked : List ListNode
  linked = link_front elem head (length pool) (pool ++ x ∷ [])

  length-linked : length linked ≡ length pool + 1
  unfolding link_front
  length-linked =
      length-set _ head _
      ∙ length-set (pool ++ x ∷ []) (length pool) _
      ∙ length-append pool (x ∷ [])

  linked_head : node_at linked head ≡ record (node_at pool head) { next_off = some (length pool) }
  unfolding link_front
  linked_head =
      node_at-set_self _ head _ (
        omega
          (arith, inside, length-set (pool ++ x ∷ []) (length pool) _, length-append pool (x ∷ [])))
      ∙ ap (λ (n : ListNode). record n { next_off = some (length pool) })
          (node_at-set (pool ++ x ∷ []) (length pool) head _ (omega (arith, inside))
            ∙ node_at-append pool (x ∷ []) head inside)

  linked_new :
      node_at linked (length pool)
      ≡ record { data_of = elem; next_off = (node_at pool head).next_off; used = true }
  unfolding link_front
  linked_new =
      node_at-set _ head (length pool) _ (omega (arith, inside))
      ∙ node_at-set_self (pool ++ x ∷ []) (length pool) _
          (omega (arith, length-append pool (x ∷ [])))
      ∙ ap {A = ListNode} {B = ListNode}
          (λ n. record { data_of = elem; next_off = n.next_off; used = true })
          (node_at-append pool (x ∷ []) head inside)

  linked_other : (k : ℕ) → k < length pool → head ≢ k → node_at linked k ≡ node_at pool k
  unfolding link_front
  linked_other k h ne =
      node_at-set _ head k _ ne
      ∙ node_at-set (pool ++ x ∷ []) (length pool) k _ (omega (arith, h))
      ∙ node_at-append pool (x ∷ []) k h

  linked-KeepsNodes :
      (o : Option ℕ) (is : List ℕ) (us : List Elem)
      → IsList pool o is us
      → NotIn head is
      → KeepsNodes pool linked is
  linked-KeepsNodes o [] us l n = tt
  linked-KeepsNodes o (i ∷ is) [] l n = absurd l
  linked-KeepsNodes o (i ∷ is) (u ∷ us) (here, below, used, data_of, rest) n = (
    linked_other i below (λ e. n.0 (sym e)),
    linked-KeepsNodes (node_at pool i).next_off is us rest n.1,
  )

IsList-NotIn :
    (pool : List ListNode) (o : Option ℕ) (is : List ℕ) (us : List Elem)
    → IsList pool o is us
    → NotIn (length pool) is
IsList-NotIn pool o [] us l = tt
IsList-NotIn pool o (i ∷ is) [] l = absurd l
IsList-NotIn pool o (i ∷ is) (u ∷ us) (here, below, used, data_of, rest) =
    (omega (arith, below), IsList-NotIn pool (node_at pool i).next_off is us rest)

module _ {T : Type 0} (ix : Index T) (elem : Elem) (shared : Shared T) (is : List ℕ)
    (us : List Elem) (rep : Represents shared is us) where
  abbrev fresh : ListNode
  fresh = record zero_node { used = true }

  abbrev grown : Shared T
  grown = record shared {
    list_pool = linked elem shared.head_off shared.list_pool fresh rep.head_inside;
    tree = ix.bst_insert shared.tree (length shared.list_pool) elem;
    size = shared.size + 1;
  }

  grown-Represents : Represents grown (length shared.list_pool ∷ is) (elem ∷ us)
  grown-Represents =
      let pool = shared.list_pool in
      let longer = length-linked elem shared.head_off pool fresh rep.head_inside in
      let new = linked_new elem shared.head_off pool fresh rep.head_inside in
      record {
        list = (
          ap (λ n. n.next_off) (linked_head elem shared.head_off pool fresh rep.head_inside),
          omega (arith, longer),
          ap (λ n. n.used) new,
          ap (λ n. n.data_of) new,
          subst (λ n. IsList grown.list_pool n.next_off is us) (sym new)
              (IsList-KeepsNodes pool grown.list_pool (first_user shared) is us
                (omega (arith, longer))
                (linked-KeepsNodes elem shared.head_off pool fresh rep.head_inside
                  (first_user shared) is us rep.list rep.apart)
                rep.list),
        );
        distinct = (IsList-NotIn pool (first_user shared) is us rep.list, rep.distinct);
        apart = (omega (arith, rep.head_inside), rep.apart);
        head_inside = omega (arith, longer, rep.head_inside);
        fits = omega (arith, longer, rep.fits);
      }

  -- The search_list of the addition, by what the list of users says.
  found_none :
      first_where (named elem.name) us ≡ none → user_store_find elem.name shared ≡ some none
  found_none absent =
      let ((o, found, same), _, _) = users_read shared is us elem.name [] [] [] rep in
      found ∙ ap some (no_elem o (same ∙ absent))
    where
      no_elem : (o : Option ℕ) → elem_at shared.list_pool o ≡ none → o ≡ none
      no_elem none e = refl
      no_elem (some i) e = cc

  found_some :
      first_where (named elem.name) us ≢ none
      → (i : ℕ) × (user_store_find elem.name shared ≡ some (some i))
  found_some present =
      let ((o, found, same), _, _) = users_read shared is us elem.name [] [] [] rep in
      let (i, e) = some_elem o (λ e. present (sym same ∙ e)) in (i, found ∙ ap some e)
    where
      some_elem : (o : Option ℕ) → elem_at shared.list_pool o ≢ none → (i : ℕ) × (o ≡ some i)
      some_elem none ne = absurd (ne refl)
      some_elem (some i) ne = (i, refl)

-- Adding a user to shared memory that holds a list of users. If a user has the name, nothing changes
-- and the result is 1. Otherwise, while both pools have a free slot, the result is 0, the user is put
-- before the others, in the first free slot, it is entered into the index, and `size` counts it.
pub add_elem-Represents :
    {T : Type 0} (ix : Index T) (elem : Elem) (shared : Shared T) (is : List ℕ) (us : List Elem)
    → Represents shared is us
    → length shared.list_pool < pool_nodes
    → ix.tree_next_free shared.tree < pool_nodes
    → (first_where (named elem.name) us ≢ none → add_elem ix elem shared ≡ (shared, exists))
      × (first_where (named elem.name) us ≡ none
          → (shared' : Shared T) × (add_elem ix elem shared ≡ (shared', added))
            × Represents shared' (length shared.list_pool ∷ is) (elem ∷ us)
            × (shared'.tree ≡ ix.bst_insert shared.tree (length shared.list_pool) elem)
            × (shared'.size ≡ shared.size + 1))
unfolding add_elem list_alloc
add_elem-Represents ix elem shared is us rep room tree_room = (
  (λ present.
      let (i, found) = found_some ix elem shared is us rep present in
      ap (enter_new ix elem shared) found),
  λ absent.
      let full : leb pool_nodes (length shared.list_pool) ≡ false = ground (arith, room) in
      let tree_full : leb pool_nodes (ix.tree_next_free shared.tree) ≡ false =
        ground (arith, tree_room) in
      (
        grown ix elem shared is us rep,
        ap (enter_new ix elem shared) (found_none ix elem shared is us rep absent)
            ∙ rw full (rw tree_full refl),
        grown-Represents ix elem shared is us rep,
        refl,
        refl,
      ),
)
