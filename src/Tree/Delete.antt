-- ===== src/Tree/Delete.antt =====
-- `bst_delete` of src/user_index.c, with its loop that restores the colours.
use uestc_shixvn_mini_web_se.CString.{str_eq}
use uestc_shixvn_mini_web_se.Users.{ListNode}
use uestc_shixvn_mini_web_se.Prelude.{
  Bytes, ℕ, zero, suc, ◌-◌, Bool, true, false, not, ◌&&◌, Option, none, some, List, length, ◌==◌,
  if◌then◌else◌,
}
use uestc_shixvn_mini_web_se.Tree.{
  Color, red, black, is_red, Bst, bst_at, set_left, set_right, set_parent, set_color,
  relink_left_first, put_node, rbt_left_rotate, rbt_right_rotate, user_name, goes_left,
}

-- The loop of `bst_delete` down to the node of the name: 0 if there is none.
abbrev pub stops_at : List ListNode → Bytes → Option ℕ → Bool
stops_at users name none = true
stops_at users name (some u) = str_eq name (user_name users u)

unfoldable pub node_of : ℕ → List ListNode → Bytes → Bst → ℕ → Option ℕ
node_of zero users name tree x = if x == zero then some zero else none
node_of (suc fuel) users name tree x =
    let node = bst_at tree x in
    let rest =
      node_of fuel users name tree
        (if goes_left users name node.user_off then node.left_off else node.right_off) in
    if x == zero then some zero else if stops_at users name node.user_off then some x else rest

unfoldable pub rbt_minimum : ℕ → Bst → ℕ → Option ℕ
rbt_minimum zero tree x = none
rbt_minimum (suc fuel) tree x =
    let rest = rbt_minimum fuel tree (bst_at tree x).left_off in
    if (bst_at tree x).left_off == zero then some x else rest

abbrev pub rbt_transplant : ℕ → ℕ → Bst → Bst
rbt_transplant u v tree =
    let linked = relink_left_first u v tree in set_parent v (bst_at linked u).parent_off linked

abbrev pub is_black : Bst → ℕ → Bool
is_black tree x = not (is_red (bst_at tree x).color)

-- Sibling `w` of `x`, a left child, once it is black.
unfoldable pub sibling_right : ℕ → Bst → ℕ × Bst
sibling_right x tree =
    let xp = (bst_at tree x).parent_off in
    let w = (bst_at tree xp).right_off in
    let lifted =
      if is_black tree (bst_at tree w).right_off
      then rbt_right_rotate w (set_color w red (set_color (bst_at tree w).left_off black tree))
      else tree in
    let xp' = (bst_at lifted x).parent_off in
    let w' = (bst_at lifted xp').right_off in
    let painted = set_color xp' black (set_color w' (bst_at lifted xp').color lifted) in
    let turned = rbt_left_rotate xp' (set_color (bst_at painted w').right_off black painted) in
    if is_black tree (bst_at tree w).left_off && is_black tree (bst_at tree w).right_off
    then (xp, set_color w red tree)
    else (turned.root_off, turned)

unfoldable pub sibling_left : ℕ → Bst → ℕ × Bst
sibling_left x tree =
    let xp = (bst_at tree x).parent_off in
    let w = (bst_at tree xp).left_off in
    let lifted =
      if is_black tree (bst_at tree w).left_off
      then rbt_left_rotate w (set_color w red (set_color (bst_at tree w).right_off black tree))
      else tree in
    let xp' = (bst_at lifted x).parent_off in
    let w' = (bst_at lifted xp').left_off in
    let painted = set_color xp' black (set_color w' (bst_at lifted xp').color lifted) in
    let turned = rbt_right_rotate xp' (set_color (bst_at painted w').left_off black painted) in
    if is_black tree (bst_at tree w).right_off && is_black tree (bst_at tree w).left_off
    then (xp, set_color w red tree)
    else (turned.root_off, turned)

-- A red sibling is turned above first.
unfoldable pub delete_round : ℕ → Bst → ℕ × Bst
delete_round x tree =
    let xp = (bst_at tree x).parent_off in
    let r = (bst_at tree xp).right_off in
    let l = (bst_at tree xp).left_off in
    if x == l
    then sibling_right x (
        if is_black tree r
        then tree
        else rbt_left_rotate xp (set_color xp red (set_color r black tree)))
    else sibling_left x (
        if is_black tree l
        then tree
        else rbt_right_rotate xp (set_color xp red (set_color l black tree)))

unfoldable pub rbt_delete_fixup : ℕ → ℕ → Bst → Option Bst
rbt_delete_fixup zero x tree = none
rbt_delete_fixup (suc fuel) x tree =
    let next = delete_round x tree in
    let rest = rbt_delete_fixup fuel next.0 next.1 in
    if not (x == tree.root_off) && is_black tree x then rest else some (set_color x black tree)

-- Node `z` is out of the tree, and `x` has taken a place whose colour was `color`.
abbrev pub release_node : ℕ → Bst → Bst
release_node z tree = put_node z (record (bst_at tree z) { taken = false }) tree

abbrev pub settle : ℕ → ℕ → Color → Bst → Option Bst
settle z x red tree = some (release_node z tree)
settle z x black tree = rbt_delete_fixup (length tree.nodes) x (release_node z tree)

-- The node with two children: `y`, the least on its right, takes its place.
unfoldable pub replace_by : ℕ → ℕ → Bst → Option Bst
replace_by z y tree =
    let x = (bst_at tree y).right_off in
    let freed =
      if (bst_at tree y).parent_off == z
      then set_parent x y tree
      else let moved =
          set_right y (bst_at (rbt_transplant y x tree) z).right_off (rbt_transplant y x tree) in
        set_parent (bst_at moved y).right_off y moved in
    let placed = rbt_transplant z y freed in
    let joined = set_left y (bst_at placed z).left_off placed in
    let owned = set_parent (bst_at joined y).left_off y joined in
    settle z x (bst_at tree y).color (set_color y (bst_at owned z).color owned)

abbrev pub replace_least : ℕ → Bst → Option ℕ → Option Bst
replace_least z tree none = none
replace_least z tree (some y) = replace_by z y tree

unfoldable pub delete_node : ℕ → Bst → Option Bst
delete_node z tree =
    let node = bst_at tree z in
    if node.left_off == zero
    then settle z node.right_off node.color (rbt_transplant z node.right_off tree)
    else if node.right_off == zero
    then settle z node.left_off node.color (rbt_transplant z node.left_off tree)
    else replace_least z tree (rbt_minimum (length tree.nodes) tree node.right_off)

abbrev pub shrink : Option Bst → Option Bst
shrink none = none
shrink (some tree) = some (record tree { bst_size = tree.bst_size - 1 })

-- The result is 0, the tree without the name, or -1: the name is not there. `none` in it is a loop
-- that does not end within the fuel.
abbrev pub delete_at : Bst → Option ℕ → Option (Bool × Bst)
delete_at tree none = none
delete_at tree (some z) =
    if z == zero
    then some (false, tree)
    else elim (shrink (delete_node z tree)) [ none ↦ none | some tree' ↦ some (true, tree') ]

unfoldable pub bst_delete : List ListNode → Bytes → Bst → Option (Bool × Bst)
bst_delete users name tree =
    delete_at tree (node_of (length tree.nodes) users name tree tree.root_off)
