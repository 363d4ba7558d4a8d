-- ===== src/Users.antt =====
-- src/user_store.c and include/user_store.h: the users in shared memory. An offset is the index of a
-- slot of its pool, and offset 0 is `none`. The pools are their slots up to the next free one. Every
-- operation is modelled as it runs under the store's mutex.
pub mod Csv
pub mod Refines
pub mod Remove
pub mod Operations
pub mod Adds
pub mod Deletes
mod Tests
use uestc_shixvn_mini_web_se.CString.{str_eq}
use uestc_shixvn_mini_web_se.Prelude.{
  Bytes, ◌>>=◌, >>=-eq-some, ℕ, zero, suc, ◌+◌, ◌-◌, ◌*◌, ◌/◌, ◌%◌, ◌^◌, ◌≤◌, ◌<◌, min, bit_or, ◌≡◌,
  refl, sym, ap, subst, ◌∙◌, ◌≢◌, ◌↔◌, ◌⊎◌, inl, inr, Bool, true, false, not, ◌&&◌, ◌||◌, Option,
  none, some, List, [], ◌∷◌, ◌++◌, map, append-nil, append_assoc, arith, ℤ, sub_ℕ, to_nat, is_int,
  pos, negsuc, length, get_elem?, set, length-append, length-set, get_elem?-set_self,
  get_elem?-set_ne, get_or, take, drop, replicate, take-append-drop, length-take, length-drop,
  length-replicate, length-map, get_or-set, get_or-beyond, passes, passes-at, ltb, leb, ◌==◌,
  if◌then◌else◌, ltb→lt, lt→ltb, leb→le, ==_iff, tests, Bool-cases, Option-cases, codes,
}

pub record Elem : Type 0 where
  pub name : Bytes
  pub password : Bytes
  pub birthdate : Bytes
  pub phone : Bytes
  pub mobile : Bytes
  pub email : Bytes

abbrev pub zero_elem : Elem
zero_elem = record { name = []; password = []; birthdate = []; phone = []; mobile = []; email = [] }

pub record ListNode : Type 0 where
  pub data_of : Elem
  pub next_off : Option ℕ
  pub used : Bool

abbrev pub zero_node : ListNode
zero_node = record { data_of = zero_elem; next_off = none; used = false }

-- `USER_STORE_POOL_NODES`.
abbrev pub pool_nodes : ℕ
pool_nodes = 201000

-- The operations on the index of the users by name, on its state: the number of tree slots in use
-- that `tree_alloc` compares; what taking a tree slot for a user's list slot, and `bst_insert` of it,
-- make of the state; and what `bst_delete` of a name makes of it.
pub record Index (T : Type 0) : Type 0 where
  pub tree_next_free : T → ℕ
  pub bst_insert : T → ℕ → Elem → T
  pub bst_delete : T → Bytes → T

-- The header's fields with the list pool; the sentinel that heads the list has slot 0.
pub record Shared (T : Type 0) : Type 0 where
  pub list_pool : List ListNode
  pub head_off : ℕ
  pub size : ℕ
  pub tree : T

abbrev pub node_at : List ListNode → ℕ → ListNode
node_at pool i = get_or pool i zero_node

-- The list from an offset on, up to the first node that passes: `none` is a list that does not end.
unfoldable pub walk_list : (ListNode → Bool) → ℕ → List ListNode → Option ℕ → Option (Option ℕ)
walk_list test fuel pool none = some none
walk_list test zero pool (some i) = none
walk_list test (suc fuel) pool (some i) =
    let rest = walk_list test fuel pool (node_at pool i).next_off in
    if test (node_at pool i) then some (some i) else rest

abbrev pub first_user : {T : Type 0} → Shared T → Option ℕ
first_user shared = (node_at shared.list_pool shared.head_off).next_off

abbrev pub search_list : {T : Type 0} → (ListNode → Bool) → Shared T → Option (Option ℕ)
search_list test shared =
    walk_list test (length shared.list_pool) shared.list_pool (first_user shared)

abbrev pub has_name : Bytes → ListNode → Bool
has_name name node = node.used && str_eq node.data_of.name name

abbrev pub has_login : Bytes → ListNode → Bool
has_login login_id node =
    node.used && (str_eq node.data_of.mobile login_id || str_eq node.data_of.name login_id)

abbrev pub has_password : Bytes → Bytes → ListNode → Bool
has_password mobile password node =
    node.used && (str_eq node.data_of.mobile mobile && str_eq node.data_of.password password)

unfoldable pub user_store_find : {T : Type 0} → Bytes → Shared T → Option (Option ℕ)
user_store_find name shared = search_list (has_name name) shared

abbrev pub user_name_at : {T : Type 0} → Shared T → Option ℕ → Option Bytes
user_name_at shared none = none
user_name_at shared (some i) = some (node_at shared.list_pool i).data_of.name

unfoldable pub user_store_lookup_name : {T : Type 0} → Bytes → Shared T → Option (Option Bytes)
user_store_lookup_name login_id shared =
    search_list (has_login login_id) shared >>= λ found. some (user_name_at shared found)

abbrev pub is_found : Option ℕ → Bool
is_found none = false
is_found (some i) = true

unfoldable pub user_store_auth : {T : Type 0} → Bytes → Bytes → Shared T → Option Bool
user_store_auth mobile password shared =
    search_list (has_password mobile password) shared >>= λ found. some (is_found found)

-- The slot that `list_alloc` hands out, and the pool with it.
unfoldable pub list_alloc : List ListNode → Option (ℕ × List ListNode)
list_alloc pool =
    if leb pool_nodes (length pool)
    then none
    else some (length pool, pool ++ record zero_node { used = true } ∷ [])

-- The node is filled in and put behind the head.
unfoldable pub link_front : Elem → ℕ → ℕ → List ListNode → List ListNode
link_front elem head i pool =
    let next = (node_at pool head).next_off in
    let pool' = set pool i (record { data_of = elem; next_off = next; used = true }) in
    set pool' head (record (node_at pool' head) { next_off = some i })

-- What `user_store_add` returns: 0, 1 or -1, or its walk of the list does not end.
pub data AddResult : Type 0 where
  added exists rejected endless : AddResult

abbrev pub index_new : {T : Type 0} → Index T → Elem → ℕ → Shared T → Shared T × AddResult
index_new ix elem i shared =
    if leb pool_nodes (ix.tree_next_free shared.tree)
    then (shared, rejected)
    else (record shared { tree = ix.bst_insert shared.tree i elem; size = shared.size + 1 }, added)

abbrev pub enter_user :
    {T : Type 0} → Index T → Elem → Shared T → Option (ℕ × List ListNode) → Shared T × AddResult
enter_user ix elem shared none = (shared, rejected)
enter_user ix elem shared (some (i, pool)) =
    index_new ix elem i (record shared { list_pool = link_front elem shared.head_off i pool })

abbrev pub enter_new :
    {T : Type 0} → Index T → Elem → Shared T → Option (Option ℕ) → Shared T × AddResult
enter_new ix elem shared none = (shared, endless)
enter_new ix elem shared (some (some i)) = (shared, exists)
enter_new ix elem shared (some none) = enter_user ix elem shared (list_alloc shared.list_pool)

-- A user that is parsed.
unfoldable pub add_elem : {T : Type 0} → Index T → Elem → Shared T → Shared T × AddResult
add_elem ix elem shared = enter_new ix elem shared (user_store_find elem.name shared)

-- The loop of `user_store_delete`: the node that passes, and the one before it.
unfoldable pub walk_prev :
    (ListNode → Bool) → ℕ → List ListNode → ℕ → Option ℕ → Option (Option (ℕ × ℕ))
walk_prev test fuel pool prev none = some none
walk_prev test zero pool prev (some i) = none
walk_prev test (suc fuel) pool prev (some i) =
    let rest = walk_prev test fuel pool i (node_at pool i).next_off in
    if test (node_at pool i) then some (some (prev, i)) else rest

unfoldable pub unlink : ℕ → ℕ → List ListNode → List ListNode
unlink prev i pool =
    let pool' =
      set pool prev (record (node_at pool prev) { next_off = (node_at pool i).next_off }) in
    set pool' i (record (node_at pool' i) { used = false })

-- What `user_store_delete` returns: 0 or -1, or its walk of the list does not end.
pub data DeleteResult : Type 0 where
  deleted missing unending : DeleteResult

abbrev pub delete_found :
    {T : Type 0} → Index T → Bytes → Shared T → Option (Option (ℕ × ℕ)) → Shared T × DeleteResult
delete_found ix name shared none = (shared, unending)
delete_found ix name shared (some none) = (shared, missing)
delete_found ix name shared (some (some (prev, i))) = (
  record shared {
    list_pool = unlink prev i shared.list_pool;
    tree = ix.bst_delete shared.tree name;
    size = shared.size - 1;
  },
  deleted,
)

unfoldable pub user_store_delete :
    {T : Type 0} → Index T → Bytes → Shared T → Shared T × DeleteResult
user_store_delete ix name shared = delete_found ix name shared (
    walk_prev (has_name name) (length shared.list_pool) shared.list_pool shared.head_off
      (first_user shared))
