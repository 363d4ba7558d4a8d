-- ===== src/Handler/Passwords.antt =====
-- The password file is read back as it was written.
use uestc_shixvn_mini_web_se.CString.{cut, strchr, strncpy_fits}
use uestc_shixvn_mini_web_se.CString.Scan.{
  cut-append, cut-Avoids, Avoids, Avoids-append, strchr-append,
}
use uestc_shixvn_mini_web_se.Handler.{AuthUser}
use uestc_shixvn_mini_web_se.Handler.Credentials.{
  split_line, split_roles, auth_line, auth_load_lines, auth_load_file, from_text, max_auth_users,
}
use uestc_shixvn_mini_web_se.Prelude.{
  Bytes, ℕ, zero, suc, ◌-◌, ◌≤◌, ◌≡◌, refl, sym, ap, ◌∙◌, ◌≢◌, true, some, List, [], ◌∷◌, ◌++◌, map,
  append_assoc, arith, length, codes,
}

-- A user whose fields fit, without colons in the first two, without line ends, and whose name does
-- not start a comment.
abbrev pub IsWord : ℕ → Bytes → Type 0
IsWord n s = Avoids b'\n' s × Avoids b'\r' s × (length s ≤ n)

abbrev pub IsNoComment : Bytes → Type 0
IsNoComment [] = Unit {0}
IsNoComment (c ∷ s) = c ≢ b'#'

pub record IsWritable (u : AuthUser) : Type 0 where
  pub username_word : IsWord 63 u.username
  pub password_word : IsWord 63 u.password
  pub role_word : IsWord 31 u.role
  pub no_colons : Avoids b':' u.username × Avoids b':' u.password
  pub no_comment : IsNoComment u.username

-- The line of a user, as `fgets` returns it.
abbrev pub user_line : AuthUser → Bytes
user_line u = u.username ++ b':' ∷ (u.password ++ b':' ∷ (u.role ++ codes "\n"))

abbrev pub AreWritable : List AuthUser → Type 0
AreWritable [] = Unit {0}
AreWritable (u ∷ users) = IsWritable u × AreWritable users

abbrev fields : AuthUser → Bytes
fields u = u.username ++ b':' ∷ (u.password ++ b':' ∷ u.role)

user_line-fields : (u : AuthUser) → user_line u ≡ fields u ++ codes "\n"
user_line-fields u = sym (
    append_assoc u.username (b':' ∷ (u.password ++ b':' ∷ u.role)) (codes "\n")
    ∙ ap (λ s. u.username ++ b':' ∷ s) (append_assoc u.password (b':' ∷ u.role) (codes "\n")))

fields-Avoids :
    (c : ℕ) (u : AuthUser)
    → c ≢ b':'
    → Avoids c u.username
    → Avoids c u.password
    → Avoids c u.role
    → Avoids c (fields u)
fields-Avoids c u ne a b d =
    Avoids-append c u.username _ a
      ((λ e. ne (sym e)), Avoids-append c u.password _ b ((λ e. ne (sym e)), d))

from_text-split :
    (name behind : Bytes)
    → IsNoComment name
    → from_text (name ++ b':' ∷ behind) ≡ split_line (strchr b':' (name ++ b':' ∷ behind))
from_text-split [] behind h = refl
from_text-split (c ∷ name) behind h = ground (arith, h)

from_text-fields : (u : AuthUser) → IsWritable u → from_text (fields u) ≡ some u
from_text-fields u w =
    from_text-split u.username (u.password ++ b':' ∷ u.role) w.no_comment
    ∙ ap split_line (strchr-append b':' u.username (u.password ++ b':' ∷ u.role) w.no_colons.0)
    ∙ ap (split_roles u.username) (strchr-append b':' u.password u.role w.no_colons.1)
    ∙ rw
        (
          strncpy_fits 63 u.username w.username_word.2,
          strncpy_fits 63 u.password w.password_word.2,
          strncpy_fits 31 u.role w.role_word.2,
        )
        refl

auth_line-user_line : (u : AuthUser) → IsWritable u → auth_line (user_line u) ≡ some u
unfolding auth_line
auth_line-user_line u w =
    let no_cr : Avoids b'\r' (fields u ++ codes "\n") =
      Avoids-append b'\r' (fields u) (codes "\n")
        (fields-Avoids b'\r' u (omega arith) w.username_word.1 w.password_word.1 w.role_word.1)
        (omega arith, tt) in
    let no_lf : Avoids b'\n' (fields u) =
      fields-Avoids b'\n' u (omega arith) w.username_word.0 w.password_word.0 w.role_word.0 in
    ap auth_line (user_line-fields u)
    ∙ ap (λ s. from_text (cut b'\n' s)) (cut-Avoids b'\r' (fields u ++ codes "\n") no_cr)
    ∙ ap from_text (cut-append b'\n' (fields u) [] no_lf)
    ∙ from_text-fields u w

auth_load_lines-user_line :
    (room : ℕ) (users : List AuthUser)
    → AreWritable users
    → length users ≤ room
    → auth_load_lines room (map user_line users) ≡ users
unfolding auth_load_lines
auth_load_lines-user_line room [] w h = refl
auth_load_lines-user_line zero (u ∷ users) w h = absurd (omega (arith, h))
auth_load_lines-user_line (suc room) (u ∷ users) w h =
    rw (auth_line-user_line u w.0)
      (ground (arith, auth_load_lines-user_line (suc room - 1) users w.1 (omega (arith, h))))

-- Loading a password file whose lines are those of at most 64 users yields the users, in their
-- order, whatever was loaded before. The fields must fit, the names must not start a comment, and
-- names and passwords must be without colons and line ends, roles without line ends.
pub auth_load_file-user_line :
    (users before : List AuthUser)
    → AreWritable users
    → length users ≤ max_auth_users
    → auth_load_file (some (map user_line users)) before ≡ (true, users)
unfolding auth_load_file
auth_load_file-user_line users before w h =
    ap (λ loaded. (true, loaded)) (auth_load_lines-user_line max_auth_users users w h)
