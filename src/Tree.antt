-- ===== src/Tree.antt =====
-- src/user_index.c: the red-black tree that indexes the users by name, in its pool. An offset is the
-- index of a slot of the pool; slot 0 is the sentinel `g_nil`. The users are read from the list pool.
pub mod Delete
pub mod Find
pub mod Walk
mod Tests
use uestc_shixvn_mini_web_se.CString.{str_eq}
use uestc_shixvn_mini_web_se.Users.{ListNode, node_at, pool_nodes}
use uestc_shixvn_mini_web_se.Prelude.{
  Bytes, ℕ, zero, suc, ◌+◌, ◌-◌, Bool, true, false, not, Option, none, some, List, [], ◌∷◌, length,
  set, get_or, ◌++◌, leb, ltb, ◌==◌, if◌then◌else◌,
}

-- `strcmp(a, b) < 0`.
unfoldable pub str_lt : Bytes → Bytes → Bool
str_lt [] [] = false
str_lt [] (y ∷ b) = true
str_lt (x ∷ a) [] = false
str_lt (x ∷ a) (y ∷ b) = let rest = str_lt a b in if x == y then rest else ltb x y

pub data Color : Type 0 where
  red black : Color

abbrev pub is_red : Color → Bool
is_red red = true
is_red black = false

pub record BstNode : Type 0 where
  pub user_off : Option ℕ
  pub left_off : ℕ
  pub right_off : ℕ
  pub parent_off : ℕ
  pub color : Color
  pub taken : Bool

abbrev pub zero_bst : BstNode
zero_bst = record {
  user_off = none;
  left_off = zero;
  right_off = zero;
  parent_off = zero;
  color = red;
  taken = false;
}

pub record Bst : Type 0 where
  pub nodes : List BstNode
  pub root_off : ℕ
  pub bst_size : ℕ

abbrev pub bst_at : Bst → ℕ → BstNode
bst_at tree i = get_or tree.nodes i zero_bst

abbrev pub put_node : ℕ → BstNode → Bst → Bst
put_node i node tree = record tree { nodes = set tree.nodes i node }

abbrev pub set_left : ℕ → ℕ → Bst → Bst
set_left i v tree = put_node i (record (bst_at tree i) { left_off = v }) tree

abbrev pub set_right : ℕ → ℕ → Bst → Bst
set_right i v tree = put_node i (record (bst_at tree i) { right_off = v }) tree

abbrev pub set_parent : ℕ → ℕ → Bst → Bst
set_parent i v tree = put_node i (record (bst_at tree i) { parent_off = v }) tree

abbrev pub set_color : ℕ → Color → Bst → Bst
set_color i v tree = put_node i (record (bst_at tree i) { color = v }) tree

-- The child `x` of its parent becomes `y`; the left one is looked at first.
unfoldable pub relink_left_first : ℕ → ℕ → Bst → Bst
relink_left_first x y tree =
    let p = (bst_at tree x).parent_off in
    if p == zero
    then record tree { root_off = y }
    else if x == (bst_at tree p).left_off
    then set_left p y tree
    else set_right p y tree

unfoldable pub relink_right_first : ℕ → ℕ → Bst → Bst
relink_right_first x y tree =
    let p = (bst_at tree x).parent_off in
    if p == zero
    then record tree { root_off = y }
    else if x == (bst_at tree p).right_off
    then set_right p y tree
    else set_left p y tree

abbrev pub adopt : ℕ → ℕ → Bst → Bst
adopt child x tree = if child == zero then tree else set_parent child x tree

unfoldable pub rbt_left_rotate : ℕ → Bst → Bst
rbt_left_rotate x tree =
    let y = (bst_at tree x).right_off in
    let moved = set_right x (bst_at tree y).left_off tree in
    let adopted = adopt (bst_at moved y).left_off x moved in
    let raised = set_parent y (bst_at adopted x).parent_off adopted in
    let linked = relink_left_first x y raised in set_parent x y (set_left y x linked)

unfoldable pub rbt_right_rotate : ℕ → Bst → Bst
rbt_right_rotate x tree =
    let y = (bst_at tree x).left_off in
    let moved = set_left x (bst_at tree y).right_off tree in
    let adopted = adopt (bst_at moved y).right_off x moved in
    let raised = set_parent y (bst_at adopted x).parent_off adopted in
    let linked = relink_right_first x y raised in set_parent x y (set_right y x linked)

-- A red uncle `y`: both turn black, and the loop goes on from the grandparent.
abbrev pub recolor : ℕ → ℕ → ℕ → Bst → ℕ × Bst
recolor zp y zpp tree = (zpp, set_color zpp red (set_color y black (set_color zp black tree)))

abbrev pub turn_right : ℕ → Bst → ℕ × Bst
turn_right z tree =
    let zp = (bst_at tree z).parent_off in
    let zpp = (bst_at tree zp).parent_off in
    (z, rbt_right_rotate zpp (set_color zpp red (set_color zp black tree)))

abbrev pub turn_left : ℕ → Bst → ℕ × Bst
turn_left z tree =
    let zp = (bst_at tree z).parent_off in
    let zpp = (bst_at tree zp).parent_off in
    (z, rbt_left_rotate zpp (set_color zpp red (set_color zp black tree)))

unfoldable pub fixup_left : ℕ → ℕ → ℕ → Bst → ℕ × Bst
fixup_left z zp zpp tree =
    let y = (bst_at tree zpp).right_off in
    if is_red (bst_at tree y).color
    then recolor zp y zpp tree
    else if z == (bst_at tree zp).right_off
    then turn_right zp (rbt_left_rotate zp tree)
    else turn_right z tree

unfoldable pub fixup_right : ℕ → ℕ → ℕ → Bst → ℕ × Bst
fixup_right z zp zpp tree =
    let y = (bst_at tree zpp).left_off in
    if is_red (bst_at tree y).color
    then recolor zp y zpp tree
    else if z == (bst_at tree zp).left_off
    then turn_left zp (rbt_right_rotate zp tree)
    else turn_left z tree

-- One round of the loop of `rbt_insert_fixup`: the next `z`, and the tree.
abbrev pub fixup_round : ℕ → Bst → ℕ × Bst
fixup_round z tree =
    let zp = (bst_at tree z).parent_off in
    let zpp = (bst_at tree zp).parent_off in
    if zp == (bst_at tree zpp).left_off then fixup_left z zp zpp tree else fixup_right z zp zpp tree

-- `none` is a loop that does not end within the fuel.
unfoldable pub rbt_insert_fixup : ℕ → ℕ → Bst → Option Bst
rbt_insert_fixup zero z tree = none
rbt_insert_fixup (suc fuel) z tree =
    let next = fixup_round z tree in
    let rest = rbt_insert_fixup fuel next.0 next.1 in
    if is_red (bst_at tree (bst_at tree z).parent_off).color
    then rest
    else some (set_color tree.root_off black tree)

abbrev pub user_name : List ListNode → ℕ → Bytes
user_name users u = (node_at users u).data_of.name

-- `xu && strcmp(name, xu->data.name) < 0`.
abbrev pub goes_left : List ListNode → Bytes → Option ℕ → Bool
goes_left users name none = false
goes_left users name (some u) = str_lt name (user_name users u)

-- The loop of `bst_insert`: `y`, the last node on the way down from `x`.
unfoldable pub descend : ℕ → List ListNode → Bytes → Bst → ℕ → ℕ → Option ℕ
descend zero users name tree y x = if x == zero then some y else none
descend (suc fuel) users name tree y x =
    let node = bst_at tree x in
    let rest =
      descend fuel users name tree x
        (if goes_left users name node.user_off then node.left_off else node.right_off) in
    if x == zero then some y else rest

-- The new node `z` is hung under `y`.
unfoldable pub hang : List ListNode → Bytes → ℕ → Bst → ℕ → Bst
hang users name z tree y =
    let placed = set_parent z y tree in
    if y == zero
    then record placed { root_off = z }
    else if goes_left users name (bst_at placed y).user_off
    then set_left y z placed
    else set_right y z placed

abbrev pub grow : Bst → Bst
grow tree = record tree { bst_size = tree.bst_size + 1 }

abbrev pub hang_at : List ListNode → Bytes → ℕ → Bst → Option ℕ → Option Bst
hang_at users name z tree none = none
hang_at users name z tree (some y) =
    rbt_insert_fixup (length tree.nodes) z (grow (hang users name z tree y))

-- The node that the caller allocated last is put into the tree, under the name of its user.
unfoldable pub bst_insert : List ListNode → ℕ → Bst → Option Bst
bst_insert users user tree =
    let z = length tree.nodes - 1 in
    let node = record (bst_at tree z) { left_off = zero; right_off = zero; color = red } in
    let cleared = put_node z node tree in
    hang_at users (user_name users user) z cleared
      (descend (length tree.nodes) users (user_name users user) cleared zero tree.root_off)

abbrev pub tree_alloc : Bst → Option Bst
tree_alloc tree =
    if leb pool_nodes (length tree.nodes)
    then none
    else some (record tree { nodes = tree.nodes ++ record zero_bst { taken = true } ∷ [] })

-- The allocated node is filled in for the user and put into the tree.
abbrev pub index_at : List ListNode → ℕ → Bst → Option Bst → Option (Option Bst)
index_at users user tree none = none
index_at users user tree (some tree') =
    let z = length tree.nodes in
    let filled = record (bst_at tree' z) {
      user_off = some user;
      left_off = zero;
      right_off = zero;
      parent_off = zero;
      color = red;
    } in
    some (bst_insert users user (put_node z filled tree'))

-- What `user_store_add` does to the tree for the user in slot `user`: `none` is a full pool.
abbrev pub index_user : List ListNode → ℕ → Bst → Option (Option Bst)
index_user users user tree = index_at users user tree (tree_alloc tree)

abbrev pub found_at : List ListNode → Bytes → Option ℕ → Option (Option ℕ) → Option (Option ℕ)
found_at users name none rest = some none
found_at users name (some u) rest = if str_eq name (user_name users u) then some (some u) else rest

-- The loop of `bst_find`.
unfoldable pub bst_find_from : ℕ → List ListNode → Bytes → Bst → ℕ → Option (Option ℕ)
bst_find_from zero users name tree x = if x == zero then some none else none
bst_find_from (suc fuel) users name tree x =
    let node = bst_at tree x in
    let rest =
      bst_find_from fuel users name tree
        (if goes_left users name node.user_off then node.left_off else node.right_off) in
    if x == zero then some none else found_at users name node.user_off rest

unfoldable pub bst_find : List ListNode → Bytes → Bst → Option (Option ℕ)
bst_find users name tree = bst_find_from (length tree.nodes) users name tree tree.root_off
