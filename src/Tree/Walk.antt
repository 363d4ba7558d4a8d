-- ===== src/Tree/Walk.antt =====
-- The walk in order of src/user_index.c that writes the users into a buffer (`bst_format_users`).
use uestc_shixvn_mini_web_se.Users.{Elem, ListNode, node_at}
use uestc_shixvn_mini_web_se.Prelude.{
  Bytes, ℕ, zero, suc, ◌+◌, ◌-◌, ◌≤◌, ◌<◌, ◌≡◌, true, false, ◌||◌, Option, none, some, List, ◌++◌,
  ◌>>=◌, >>=-eq-some, length, take, length-take, length-append, leb, ltb, ◌==◌, if◌then◌else◌,
  codes, arith, refl, Bool-cases, inl, inr, subst,
}
use uestc_shixvn_mini_web_se.Tree.{BstNode, Bst, bst_at}
use uestc_shixvn_mini_web_se.Tree.Find.{Shape, leaf, branch, IsTree, tree_size}

-- `total` and `offset`, and the string that stands in the buffer.
pub record Listing : Type 0 where
  pub total : ℕ
  pub offset : ℕ
  pub text : Bytes

abbrev pub elem_line : Elem → Bytes
elem_line u =
    u.name
    ++ codes " "
    ++ u.password
    ++ codes " "
    ++ u.birthdate
    ++ codes " "
    ++ u.phone
    ++ codes " "
    ++ u.mobile
    ++ codes " "
    ++ u.email
    ++ codes "\n"

-- `snprintf` at the offset; a line that does not fit is cut off, and the offset stays before it.
abbrev pub write_line : ℕ → Bytes → Listing → Listing
write_line buf_size line l = record {
  total = l.total + 1;
  offset = if ltb (length line) (buf_size - l.offset) then l.offset + length line else l.offset;
  text = take l.offset l.text ++ take (buf_size - l.offset - 1) line;
}

abbrev pub format_used : ℕ → ListNode → Listing → Listing
format_used buf_size node l =
    if node.used then write_line buf_size (elem_line node.data_of) l else l

abbrev pub format_off : ℕ → List ListNode → Option ℕ → Listing → Listing
format_off buf_size users none l = l
format_off buf_size users (some u) l = format_used buf_size (node_at users u) l

abbrev pub format_user : ℕ → List ListNode → BstNode → Listing → Listing
format_user buf_size users node l =
    if node.taken then format_off buf_size users node.user_off l else l

unfoldable pub bst_format_node : ℕ → ℕ → List ListNode → Bst → ℕ → Listing → Option Listing
bst_format_node zero buf_size users tree x l =
    if x == zero || leb (buf_size - 200) l.offset then some l else none
bst_format_node (suc fuel) buf_size users tree x l =
    elim (x == zero || leb (buf_size - 200) l.offset) [
      | true ↦ some l
      | false ↦ bst_format_node fuel buf_size users tree (bst_at tree x).left_off l >>= λ before.
          bst_format_node fuel buf_size users tree (bst_at tree x).right_off
            (format_user buf_size users (bst_at tree x) before)
    ]

unfoldable pub bst_format_users : ℕ → List ListNode → Bst → Listing → Option Listing
bst_format_users buf_size users tree l =
    bst_format_node (length tree.nodes) buf_size users tree tree.root_off l

-- The offset and the string stay inside the buffer.
abbrev pub FitsIn : ℕ → Listing → Type 0
FitsIn buf_size l = (l.offset < buf_size) × (length l.text < buf_size)

write_line-FitsIn :
    (buf_size : ℕ) (line : Bytes) (l : Listing)
    → FitsIn buf_size l
    → FitsIn buf_size (write_line buf_size line l)
write_line-FitsIn buf_size line l (o, t) = (
  ground (arith, o),
  rw (length-append (take l.offset l.text) (take (buf_size - l.offset - 1) line)) (
      rw (length-take l.offset l.text, length-take (buf_size - l.offset - 1) line)
        (ground (arith, o, t))),
)

format_off-FitsIn :
    (buf_size : ℕ) (users : List ListNode) (o : Option ℕ) (l : Listing)
    → FitsIn buf_size l
    → FitsIn buf_size (format_off buf_size users o l)
format_off-FitsIn buf_size users none l f = f
format_off-FitsIn buf_size users (some u) l f = elim (Bool-cases (node_at users u).used) [
  | inr free ↦ rw free f
  | inl used ↦ rw used (write_line-FitsIn buf_size (elem_line (node_at users u).data_of) l f)
]

format_user-FitsIn :
    (buf_size : ℕ) (users : List ListNode) (node : BstNode) (l : Listing)
    → FitsIn buf_size l
    → FitsIn buf_size (format_user buf_size users node l)
format_user-FitsIn buf_size users node l f = elim (Bool-cases node.taken) [
  | inr free ↦ rw free f
  | inl taken ↦ rw taken (format_off-FitsIn buf_size users node.user_off l f)
]

-- What the walk writes stays inside the buffer, if what was in it did.
bst_format_node-FitsIn :
    (fuel buf_size : ℕ) (users : List ListNode) (tree : Bst) (x : ℕ) (l l' : Listing)
    → FitsIn buf_size l
    → bst_format_node fuel buf_size users tree x l ≡ some l'
    → FitsIn buf_size l'
unfolding bst_format_node
bst_format_node-FitsIn zero buf_size users tree x l l' f e =
    elim (Bool-cases (x == zero || leb (buf_size - 200) l.offset)) [
      | inl stop ↦ let same : l ≡ l' = ground (arith, stop, e) in subst (FitsIn buf_size) same f
      | inr on ↦ absurd (ground (arith, on, e))
    ]
bst_format_node-FitsIn (suc fuel) buf_size users tree x l l' f e =
    let node = bst_at tree x in
    let walk = bst_format_node fuel buf_size users tree in
    let after = λ (b : Listing). walk node.right_off (format_user buf_size users node b) in
    elim (Bool-cases (x == zero || leb (buf_size - 200) l.offset)) [
      | inl stop ↦ let same : l ≡ l' = ground (arith, stop, e) in subst (FitsIn buf_size) same f
      | inr on ↦
          let went : (walk node.left_off l >>= after) ≡ some l' = rw (bst_format_node, on) at e in
          let (b, left, right) = >>=-eq-some (walk node.left_off l) after went in
          let fb = bst_format_node-FitsIn fuel buf_size users tree node.left_off l b f left in
          bst_format_node-FitsIn fuel buf_size users tree node.right_off
            (format_user buf_size users node b) l' (format_user-FitsIn buf_size users node b fb)
            right
    ]

bst_format_node_ends :
    (fuel buf_size : ℕ) (users : List ListNode) (tree : Bst) (x : ℕ) (t : Shape) (l : Listing)
    → IsTree tree x t
    → tree_size t ≤ fuel
    → (l' : Listing) × (bst_format_node fuel buf_size users tree x l ≡ some l')
unfolding bst_format_node tree_size
bst_format_node_ends zero buf_size users tree x leaf l here h = (l, rw here refl)
bst_format_node_ends (suc fuel) buf_size users tree x leaf l here h = (l, rw here refl)
bst_format_node_ends zero buf_size users tree x (branch a i u c) l s h = absurd (omega (arith, h))
bst_format_node_ends (suc fuel) buf_size users tree x (branch a i u c) l (here, user, sa, sc) h =
    let node = bst_at tree (suc i) in
    let (b, left) =
      bst_format_node_ends fuel buf_size users tree node.left_off a l sa (omega (arith, h)) in
    let (d, right) =
      bst_format_node_ends fuel buf_size users tree node.right_off c
        (format_user buf_size users node b) sc (omega (arith, h)) in
    elim (Bool-cases (suc i == zero || leb (buf_size - 200) l.offset)) [
      | inl stop ↦ (l, rw here (rw (bst_format_node, stop) refl))
      | inr on ↦ (d, rw here (rw (bst_format_node, on, left) right))
    ]

-- The walk over a tree with at most as many nodes as the pool ends, and the offset and the string
-- stay inside the buffer if they did before.
pub bst_format_users-FitsIn :
    (buf_size : ℕ) (users : List ListNode) (tree : Bst) (t : Shape) (l : Listing)
    → IsTree tree tree.root_off t
    → tree_size t ≤ length tree.nodes
    → FitsIn buf_size l
    → (l' : Listing) × (bst_format_users buf_size users tree l ≡ some l') × FitsIn buf_size l'
unfolding bst_format_users
bst_format_users-FitsIn buf_size users tree t l s h f =
    let (l', e) =
      bst_format_node_ends (length tree.nodes) buf_size users tree tree.root_off t l s h in
    (l', e, bst_format_node-FitsIn (length tree.nodes) buf_size users tree tree.root_off l l' f e)
