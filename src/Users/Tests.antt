-- ===== src/Users/Tests.antt =====
-- Runs of the user store, and its theorems at inputs.
use uestc_shixvn_mini_web_se.CString.{str_eq}
use uestc_shixvn_mini_web_se.Users.{
  Elem, zero_elem, ListNode, zero_node, Index, Shared, walk_list, user_store_find,
  user_store_lookup_name, user_store_auth, list_alloc, link_front, added, exists, add_elem, deleted,
  missing, user_store_delete,
}
use uestc_shixvn_mini_web_se.Users.Adds.{add_elem-Represents}
use uestc_shixvn_mini_web_se.Users.Csv.{strtok_from, parse_csv_line, user_store_add}
use uestc_shixvn_mini_web_se.Users.Deletes.{user_store_delete-Represents}
use uestc_shixvn_mini_web_se.Users.Operations.{
  Represents, users_read, named, logs_in, knows, its_name, is_there,
}
use uestc_shixvn_mini_web_se.Users.Refines.{first_where, elem_at}
use uestc_shixvn_mini_web_se.Users.Remove.{remove_first, removed}
use uestc_shixvn_mini_web_se.Prelude.{
  ℕ, ◌+◌, ◌≡◌, refl, ◌≢◌, true, Option, none, some, [], ◌∷◌, arith, codes,
}

-- An index that only counts its slots.
abbrev counter : Index ℕ
counter = record {
  tree_next_free = λ n. n;
  bst_insert = λ n i elem. n + 1;
  bst_delete = λ n name. n;
}

abbrev ann_elem : Elem
ann_elem = record zero_elem {
  name = codes "ann";
  password = codes "pw";
  birthdate = codes "2000-01-01";
  mobile = codes "139";
  phone = codes "1";
}

abbrev bob_elem : Elem
bob_elem = record zero_elem { name = codes "bob"; password = codes "x"; birthdate = codes "2001" }

abbrev node : Elem → Option ℕ → ListNode
node elem next = record { data_of = elem; next_off = next; used = true }

abbrev head_node : Option ℕ → ListNode
head_node next = record zero_node { next_off = next; used = true }

-- The head, bob, and ann, who was added last.
abbrev two_users : Shared ℕ
two_users = record {
  list_pool = head_node (some 2) ∷ node bob_elem none ∷ node ann_elem (some 1) ∷ [];
  head_off = 0;
  size = 2;
  tree = 3;
}

-- The empty field is skipped: what was meant as the e-mail address is stored as the mobile number.
parsed_ann : parse_csv_line (codes "ann,pw,2000-01-01,1,,139") ≡ some ann_elem
unfolding parse_csv_line strtok_from
parsed_ann = refl

added_ann :
    user_store_add counter (codes "ann,pw,2000-01-01,1,139") (record two_users {
      list_pool = head_node (some 1) ∷ node bob_elem none ∷ [];
      size = 1;
      tree = 2;
    })
    ≡ (two_users, added)
unfolding user_store_add parse_csv_line strtok_from add_elem user_store_find walk_list str_eq
    list_alloc link_front
added_ann = refl

two_users-Represents : Represents two_users (2 ∷ 1 ∷ []) (ann_elem ∷ bob_elem ∷ [])
two_users-Represents = record {
  list = (refl, omega arith, refl, refl, (refl, omega arith, refl, refl, refl));
  distinct = (omega arith, (tt, tt));
  apart = omega arith;
  head_inside = omega arith;
  fits = omega arith;
}

users_read_example :
    ((o : Option ℕ) × (user_store_find (codes "bob") two_users ≡ some o)
      × (elem_at two_users.list_pool o
          ≡ first_where (named (codes "bob")) (ann_elem ∷ bob_elem ∷ [])))
    × (user_store_lookup_name (codes "139") two_users
        ≡ some (its_name (first_where (logs_in (codes "139")) (ann_elem ∷ bob_elem ∷ []))))
    × (user_store_auth (codes "139") (codes "pw") two_users
        ≡ some
            (is_there (first_where (knows (codes "139") (codes "pw")) (ann_elem ∷ bob_elem ∷ []))))
users_read_example =
    users_read two_users (2 ∷ 1 ∷ []) (ann_elem ∷ bob_elem ∷ []) (codes "bob") (codes "139")
      (codes "139") (codes "pw") two_users-Represents

abbrev eve : Elem
eve = record zero_elem { name = codes "eve" }

add_elem-Represents_example :
    (first_where (named eve.name) (ann_elem ∷ bob_elem ∷ []) ≢ none
      → add_elem counter eve two_users ≡ (two_users, exists))
    × (first_where (named eve.name) (ann_elem ∷ bob_elem ∷ []) ≡ none
        → (shared' : Shared ℕ) × (add_elem counter eve two_users ≡ (shared', added))
          × Represents shared' (3 ∷ 2 ∷ 1 ∷ []) (eve ∷ ann_elem ∷ bob_elem ∷ [])
          × (shared'.tree ≡ 4)
          × (shared'.size ≡ 3))
add_elem-Represents_example =
    add_elem-Represents counter eve two_users (2 ∷ 1 ∷ []) (ann_elem ∷ bob_elem ∷ [])
      two_users-Represents (omega arith) (omega arith)

user_store_delete-Represents_example :
    (first_where (named (codes "ann")) (ann_elem ∷ bob_elem ∷ []) ≡ none
      → user_store_delete counter (codes "ann") two_users ≡ (two_users, missing))
    × (first_where (named (codes "ann")) (ann_elem ∷ bob_elem ∷ []) ≢ none
        → (shared' : Shared ℕ) × (user_store_delete counter (codes "ann") two_users
            ≡ (shared', deleted))
          × Represents shared'
              (removed (named (codes "ann")) (2 ∷ 1 ∷ []) (ann_elem ∷ bob_elem ∷ []))
              (remove_first (named (codes "ann")) (ann_elem ∷ bob_elem ∷ []))
          × (shared'.tree ≡ 3)
          × (shared'.size ≡ 1))
user_store_delete-Represents_example =
    user_store_delete-Represents counter (codes "ann") two_users (2 ∷ 1 ∷ [])
      (ann_elem ∷ bob_elem ∷ []) two_users-Represents
