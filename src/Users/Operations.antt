-- ===== src/Users/Operations.antt =====
-- The operations on the users in shared memory, as operations on a list of users.
use uestc_shixvn_mini_web_se.CString.{str_eq}
use uestc_shixvn_mini_web_se.Users.{
  Elem, Shared, walk_list, first_user, user_store_find, user_store_lookup_name, user_store_auth,
  user_name_at, is_found,
}
use uestc_shixvn_mini_web_se.Users.Refines.{
  NotIn, AreDistinct, IsList, located, walk_list-located, first_where, elem_at, located-first_where,
}
use uestc_shixvn_mini_web_se.Prelude.{
  Bytes, ℕ, ◌≤◌, ◌<◌, ◌≡◌, ap, Bool, true, false, ◌&&◌, ◌||◌, Option, none, some, List, length,
}

-- The list behind the head holds the users, each in a slot of its own.
pub record Represents {T : Type 0} (shared : Shared T) (is : List ℕ) (us : List Elem) : Type 0 where
  pub list : IsList shared.list_pool (first_user shared) is us
  pub distinct : AreDistinct is
  pub apart : NotIn shared.head_off is
  pub head_inside : shared.head_off < length shared.list_pool
  pub fits : length is ≤ length shared.list_pool

abbrev pub named : Bytes → Elem → Bool
named name u = str_eq u.name name

abbrev pub logs_in : Bytes → Elem → Bool
logs_in login_id u = str_eq u.mobile login_id || str_eq u.name login_id

abbrev pub knows : Bytes → Bytes → Elem → Bool
knows mobile password u = str_eq u.mobile mobile && str_eq u.password password

abbrev pub is_there : Option Elem → Bool
is_there none = false
is_there (some u) = true

abbrev pub its_name : Option Elem → Option Bytes
its_name none = none
its_name (some u) = some u.name

module _ {T : Type 0} (shared : Shared T) (is : List ℕ) (us : List Elem)
    (rep : Represents shared is us) where
  searched :
      (f : Elem → Bool)
      → (o : Option ℕ) × (walk_list
            (λ node. node.used && f node.data_of)
            (length shared.list_pool)
            shared.list_pool
            (first_user shared)
          ≡ some o)
        × (elem_at shared.list_pool o ≡ first_where f us)
  searched f = (
    located f is us,
    walk_list-located f (length shared.list_pool) shared.list_pool (first_user shared) is us
        rep.list rep.fits,
    located-first_where f shared.list_pool (first_user shared) is us rep.list,
  )

  is_found-elem_at :
      (o : Option ℕ) (e : Option Elem) → elem_at shared.list_pool o ≡ e → is_found o ≡ is_there e
  is_found-elem_at none e h = ap is_there h
  is_found-elem_at (some i) e h = ap is_there h

  user_name_at-elem_at :
      (o : Option ℕ) (e : Option Elem)
      → elem_at shared.list_pool o ≡ e
      → user_name_at shared o ≡ its_name e
  user_name_at-elem_at none e h = ap its_name h
  user_name_at-elem_at (some i) e h = ap its_name h

-- On shared memory that holds a list of users, the three searches return, and answer as searches of
-- the list do: `user_store_find` with the first user of the name, `user_store_lookup_name` with the
-- name of the first user whose mobile number or name it is, and `user_store_auth` with whether a
-- user has the mobile number and the password.
pub users_read :
    {T : Type 0} (shared : Shared T) (is : List ℕ) (us : List Elem) (name login_id : Bytes)
    (mobile password : Bytes)
    → Represents shared is us
    → ((o : Option ℕ) × (user_store_find name shared ≡ some o)
        × (elem_at shared.list_pool o ≡ first_where (named name) us))
      × (user_store_lookup_name login_id shared
          ≡ some (its_name (first_where (logs_in login_id) us)))
      × (user_store_auth mobile password shared
          ≡ some (is_there (first_where (knows mobile password) us)))
unfolding user_store_find user_store_lookup_name user_store_auth
users_read shared is us name login_id mobile password rep =
    let (o1, login_found, login_same) = searched shared is us rep (logs_in login_id) in
    let (o2, auth_found, auth_same) = searched shared is us rep (knows mobile password) in
    (
      searched shared is us rep (named name),
      rw login_found (ap some (user_name_at-elem_at shared is us rep o1 _ login_same)),
      rw auth_found (ap some (is_found-elem_at shared is us rep o2 _ auth_same)),
    )
