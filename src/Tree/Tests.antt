-- ===== src/Tree/Tests.antt =====
-- Runs of the tree of the users, and its theorem at an input.
use uestc_shixvn_mini_web_se.Users.{ListNode, zero_node, zero_elem}
use uestc_shixvn_mini_web_se.Prelude.{
  Bytes, ℕ, zero, ◌≡◌, refl, true, false, Option, none, some, List, [], ◌∷◌, ◌>>=◌, arith, codes,
}
use uestc_shixvn_mini_web_se.Tree.{
  Color, red, black, BstNode, zero_bst, Bst, str_lt, index_user, bst_insert, bst_find,
  bst_find_from, descend, hang, rbt_insert_fixup, fixup_left, fixup_right, rbt_left_rotate,
  rbt_right_rotate, relink_left_first, relink_right_first,
}
use uestc_shixvn_mini_web_se.Tree.Delete.{
  bst_delete, node_of, rbt_minimum, sibling_right, sibling_left, delete_round, rbt_delete_fixup,
  replace_by, delete_node,
}
use uestc_shixvn_mini_web_se.CString.{str_eq}
use uestc_shixvn_mini_web_se.Tree.Walk.{
  Listing, FitsIn, bst_format_node, bst_format_users, bst_format_users-FitsIn,
}
use uestc_shixvn_mini_web_se.Tree.Find.{
  IsTree, Shape, leaf, branch, IsFound, tree_size, bst_find-IsFound,
}

abbrev called : Bytes → ListNode
called name = record zero_node { data_of = record zero_elem { name = name }; used = true }

abbrev five_users : List ListNode
five_users =
    zero_node
    ∷ called (codes "ann")
    ∷ called (codes "bob")
    ∷ called (codes "cy")
    ∷ called (codes "dan")
    ∷ called (codes "eve")
    ∷ []

abbrev no_tree : Bst
no_tree = record {
  nodes = record zero_bst { color = black; taken = true } ∷ [];
  root_off = zero;
  bst_size = zero;
}

abbrev enter : ℕ → Bst → Option Bst
enter u tree = elim (index_user five_users u tree) [ none ↦ none | some result ↦ result ]

abbrev three_tree : Option Bst
three_tree = enter 1 no_tree >>= λ one. enter 2 one >>= λ two. enter 3 two

abbrev five_tree : Option Bst
five_tree = three_tree >>= λ three. enter 4 three >>= λ four. enter 5 four

abbrev child : ℕ → ℕ → ℕ → ℕ → Color → BstNode
child u l r p color = record {
  user_off = some u;
  left_off = l;
  right_off = r;
  parent_off = p;
  color = color;
  taken = true;
}

abbrev grown_tree : Bst
grown_tree = record {
  nodes =
      record zero_bst { color = black; taken = true }
      ∷ child 1 0 0 2 black
      ∷ child 2 1 4 0 black
      ∷ child 3 0 0 4 red
      ∷ child 4 3 5 2 black
      ∷ child 5 0 0 4 red
      ∷ [];
  root_off = 2;
  bst_size = 5;
}

-- Names that come in order are rotated into a balanced tree.
five_tree_grows : five_tree ≡ some grown_tree
unfolding bst_insert descend hang rbt_insert_fixup fixup_left fixup_right rbt_left_rotate
    rbt_right_rotate relink_left_first relink_right_first str_lt
five_tree_grows = refl

deletion_restores :
    (bst_delete five_users (codes "bob") grown_tree >>= λ r.
    bst_delete five_users (codes "ann") r.1)
    ≡ some (
      true,
      record {
        nodes =
            record zero_bst { color = black; taken = true; parent_off = 3 }
            ∷ record (child 1 0 0 3 black) { taken = false }
            ∷ record (child 2 1 4 0 black) { taken = false }
            ∷ child 3 0 0 4 black
            ∷ child 4 3 5 0 black
            ∷ child 5 0 0 4 black
            ∷ [];
        root_off = 4;
        bst_size = 3;
      },
    )
unfolding bst_delete node_of rbt_minimum sibling_right sibling_left delete_round rbt_delete_fixup
    replace_by delete_node rbt_left_rotate rbt_right_rotate relink_left_first relink_right_first
    str_lt str_eq
deletion_restores = refl

deletion_misses : bst_delete five_users (codes "al") grown_tree ≡ some (false, grown_tree)
unfolding bst_delete node_of str_lt str_eq
deletion_misses = refl

find_runs :
    (bst_find five_users (codes "cy") grown_tree ≡ some (some 3))
    × (bst_find five_users (codes "al") grown_tree ≡ some none)
unfolding bst_find bst_find_from str_lt str_eq
find_runs = (refl, refl)

abbrev grown_shape : Shape
grown_shape =
    branch (branch leaf 0 1 leaf) 1 2 (branch (branch leaf 2 3 leaf) 3 4 (branch leaf 4 5 leaf))

grown_IsTree : IsTree grown_tree 2 grown_shape
grown_IsTree = (
  refl,
  refl,
  (refl, refl, refl, refl),
  (refl, refl, (refl, refl, refl, refl), (refl, refl, refl, refl)),
)

bst_find-IsFound_example :
    (o : Option ℕ) × (bst_find five_users (codes "dan") grown_tree ≡ some o)
    × IsFound five_users (codes "dan") grown_shape o
unfolding str_lt tree_size
bst_find-IsFound_example =
    bst_find-IsFound five_users (codes "dan") grown_tree grown_shape grown_IsTree
      (
        (tt, refl, tt),
        ((tt, refl, tt), refl, (tt, refl, tt)),
        (tt, tt, tt, tt),
        ((tt, refl, tt), (tt, refl, tt), (tt, tt, tt, tt), (tt, tt, tt, tt)),
      )
      (omega arith)

abbrev no_text : Listing
no_text = record { total = 0; offset = 0; text = [] }

-- The users in the order of their names.
format_runs :
    bst_format_users 1000 five_users grown_tree no_text
    ≡ some (record {
      total = 5;
      offset = 44;
      text = codes "ann     \nbob     \ncy     \ndan     \neve     \n";
    })
unfolding bst_format_users bst_format_node
format_runs = refl

bst_format_users-FitsIn_example :
    (l' : Listing) × (bst_format_users 1000 five_users grown_tree no_text ≡ some l')
    × FitsIn 1000 l'
unfolding tree_size
bst_format_users-FitsIn_example =
    bst_format_users-FitsIn 1000 five_users grown_tree grown_shape no_text grown_IsTree
      (omega arith) (omega arith, omega arith)
