-- ===== src/Handler/Credentials.antt =====
-- The credentials of src/request_handler.c: the password file, the roles, and the session's id in a
-- cookie.
use uestc_shixvn_mini_web_se.CString.{cut, str_eq, strncpy, strchr, strstr}
use uestc_shixvn_mini_web_se.Handler.{AuthUser, UserStore, Server}
use uestc_shixvn_mini_web_se.Prelude.{
  Bytes, ℕ, zero, suc, ◌-◌, Bool, true, false, ◌&&◌, ◌||◌, Option, none, some, List, [], ◌∷◌, drop,
  ◌==◌, if◌then◌else◌, codes,
}

abbrev pub max_auth_users : ℕ
max_auth_users = 64

abbrev pub split_roles : Bytes → Option (Bytes × Bytes) → Option AuthUser
split_roles username none = none
split_roles username (some (password, role)) = some (record {
  username = strncpy 63 username;
  password = strncpy 63 password;
  role = strncpy 31 role;
})

abbrev pub split_line : Option (Bytes × Bytes) → Option AuthUser
split_line none = none
split_line (some (username, behind)) = split_roles username (strchr b':' behind)

-- A line that is empty, a comment or without two colons is left out.
abbrev pub from_text : Bytes → Option AuthUser
from_text [] = none
from_text (c ∷ line) = if c == b'#' then none else split_line (strchr b':' (c ∷ line))

unfoldable pub auth_line : Bytes → Option AuthUser
auth_line line = from_text (cut b'\n' (cut b'\r' line))

abbrev pub with_user : Option AuthUser → List AuthUser → List AuthUser
with_user none users = users
with_user (some u) users = u ∷ users

abbrev pub counted : Option AuthUser → ℕ
counted none = 0
counted (some u) = 1

-- The lines are those that `fgets` returns; `room` more users fit the array.
unfoldable pub auth_load_lines : ℕ → List Bytes → List AuthUser
auth_load_lines room [] = []
auth_load_lines room (line ∷ lines) =
    let rest = auth_load_lines (room - counted (auth_line line)) lines in
    if room == 0 then [] else with_user (auth_line line) rest

-- Without the file the users stay as they are, and the result is -1.
unfoldable pub auth_load_file : Option (List Bytes) → List AuthUser → Bool × List AuthUser
auth_load_file none users = (false, users)
auth_load_file (some lines) users = (true, auth_load_lines max_auth_users lines)

abbrev pub is_user : Bytes → Bytes → AuthUser → Bool
is_user username password u = str_eq u.username username && str_eq u.password password

-- The role of the first user of the file with the name and the password.
unfoldable pub file_role : Bytes → Bytes → List AuthUser → Option Bytes
file_role username password [] = none
file_role username password (u ∷ users) =
    let rest = file_role username password users in
    if is_user username password u then some u.role else rest

abbrev or_user : Option Bytes → Bool → Option Bytes
or_user (some role) known = some role
or_user none true = some (codes "user")
or_user none false = none

unfoldable pub auth_lookup : {U : Type 0} → UserStore U → Server U → Bytes → Bytes → Option Bytes
auth_lookup store server username password =
    or_user (file_role username password server.auth_users)
      (store.user_store_auth server.users username password)

unfoldable pub auth_role_matches : Bytes → Bytes → Bool
auth_role_matches user_role [] = true
auth_role_matches user_role (c ∷ required_role) =
    if str_eq user_role (codes "admin") then true else str_eq user_role (c ∷ required_role)

-- The bytes that are copied: up to a stop or the string's end, and at most n.
unfoldable pub copy_until : (ℕ → Bool) → ℕ → Bytes → Bytes
copy_until stops zero s = []
copy_until stops (suc n) [] = []
copy_until stops (suc n) (c ∷ s) =
    let rest = copy_until stops n s in if stops c then [] else c ∷ rest

abbrev pub ends_cookie : ℕ → Bool
ends_cookie c = c == b';' || c == b' '

abbrev session_text : Option (Bytes × Bytes) → Option Bytes
session_text none = none
session_text (some (before, found)) = some (copy_until ends_cookie 64 (drop 11 found))

-- The id in a `Cookie` header. The loop that copies it advances the index where it stores a byte
-- and reads the byte at the index before that.
unfoldable pub cookie_session : Bytes → Option Bytes
cookie_session cookie = session_text (strstr (codes "session_id=") cookie)
