-- ===== src/Handler/Authorized.antt =====
-- A handler whose route asks for a role only runs for a request that proves one.
use uestc_shixvn_mini_web_se.Base64.{base64_decode, Decoded, fault, failed, decoded}
use uestc_shixvn_mini_web_se.CString.{str_eq, str_eq_iff, strchr, c_str, starts_with_case}
use uestc_shixvn_mini_web_se.Handler.{HandlerRequest, UserStore, Server, Outside}
use uestc_shixvn_mini_web_se.Handler.Credentials.{auth_lookup, auth_role_matches, cookie_session}
use uestc_shixvn_mini_web_se.Handler.Dispatch.{
  role_at, look_up, session_role, Basic, out_of_bounds, bad_base64, role_is, basic_role,
  zero_buffer, admitted, check_role, check_basic, check_session, check_credentials, authorize,
  from_decoded, lookup_split,
}
use uestc_shixvn_mini_web_se.Route.{RouteEntry}
use uestc_shixvn_mini_web_se.Session.{SessionStore, session_at, session_lookup}
use uestc_shixvn_mini_web_se.Session.Lookup.{IsLive, session_lookup-IsLive}
use uestc_shixvn_mini_web_se.Prelude.{
  Bytes, ◌>>=◌, >>=-eq-some, ℕ, ◌≡◌, refl, sym, ap, ◌∙◌, ◌≢◌, inl, inr, true, Option, none, some,
  [], arith, drop, Bool-cases, codes,
}

-- How a request proves that its user has a role: its cookie names a session that is in use and has
-- not expired, or its `Authorization` header holds a name and a password that `auth_lookup` accepts.
pub data Proves {U : Type 0} (store : UserStore U) (outside : Outside) (server : Server U)
    (req : HandlerRequest) (role : Bytes) : Type 0 where
  by_session :
      (sid : Bytes) (i : ℕ)
      → cookie_session req.cookie ≡ some sid
      → IsLive server.sessions sid outside.lookup_time i
      → (session_at server.sessions i).role ≡ role
      → Proves store outside server req role
  by_password :
      (username password dst : Bytes) (n : ℕ)
      → starts_with_case (codes "Basic ") req.authorization ≡ true
      → base64_decode (drop 6 req.authorization) zero_buffer ≡ decoded n dst
      → strchr b':' (c_str dst) ≡ some (username, password)
      → auth_lookup store server username password ≡ some role
      → Proves store outside server req role

abbrev HasSession : ℕ → SessionStore → Option Bytes → Bytes → Type 0
HasSession now st o role =
    (sid : Bytes) × (i : ℕ) × (o ≡ some sid) × IsLive st sid now i × ((session_at st i).role ≡ role)

role_at-HasSession :
    (now : ℕ) (st st' : SessionStore) (sid role : Bytes) (r : SessionStore × Option ℕ)
    → session_lookup sid now st ≡ some r
    → role_at r ≡ (st', some role)
    → HasSession now st (some sid) role
role_at-HasSession now st st' sid role (st1, none) e h = cc
role_at-HasSession now st st' sid role (st1, some i) e h =
    let (same, live, _) = session_lookup-IsLive sid now i st st1 e in
    (sid, i, refl, live, ap (λ s. (session_at s i).role) (sym same) ∙ cc)

look_up-HasSession :
    (now : ℕ) (st st' : SessionStore) (o : Option Bytes) (role : Bytes)
    → look_up now st o ≡ some (st', some role)
    → HasSession now st o role
look_up-HasSession now st st' none role e = cc
look_up-HasSession now st st' (some sid) role e =
    let (r, found, same) = >>=-eq-some (session_lookup sid now st) _ {b = (st', some role)} e in
    role_at-HasSession now st st' sid role r found cc

abbrev HasPassword : {U : Type 0} → UserStore U → Server U → Decoded → Bytes → Type 0
HasPassword store server d role =
    (username : Bytes) × (password : Bytes) × (dst : Bytes) × (n : ℕ) × (d ≡ decoded n dst)
    × (strchr b':' (c_str dst) ≡ some (username, password))
    × (auth_lookup store server username password ≡ some role)

lookup_split-some :
    {U : Type 0} (store : UserStore U) (server : Server U) (o : Option (Bytes × Bytes))
    (role : Bytes)
    → lookup_split store server o ≡ some role
    → (username : Bytes) × (password : Bytes) × (o ≡ some (username, password))
      × (auth_lookup store server username password ≡ some role)
lookup_split-some store server none role e = cc
lookup_split-some store server (some (username, password)) role e = (username, password, refl, e)

from_decoded-HasPassword :
    {U : Type 0} (store : UserStore U) (server : Server U) (d : Decoded) (role : Bytes)
    → from_decoded store server d ≡ role_is (some role)
    → HasPassword store server d role
from_decoded-HasPassword store server fault role e = cc
from_decoded-HasPassword store server (failed dst) role e = cc
from_decoded-HasPassword store server (decoded n dst) role e =
    let (username, password, split, accepted) =
      lookup_split-some store server (strchr b':' (c_str dst)) role cc in
    (username, password, dst, n, refl, split, accepted)

module _ {U : Type 0} (store : UserStore U) (outside : Outside) (server : Server U)
    (req : HandlerRequest) where
  basic_role-Proves :
      (role : Bytes)
      → basic_role store server req.authorization ≡ role_is (some role)
      → Proves store outside server req role
  unfolding basic_role
  basic_role-Proves role e =
      elim (Bool-cases (starts_with_case (codes "Basic ") req.authorization)) [
        | inl named ↦
            let (username, password, dst, n, d, split, accepted) =
              from_decoded-HasPassword store server
                (base64_decode (drop 6 req.authorization) zero_buffer) role
                (ground (arith, e, named)) in
            by_password username password dst n named d split accepted
        | inr not_basic ↦ absurd (ground (arith, e, not_basic))
      ]

  -- What the check of a role comes to: the user's role satisfies the required one, or the reply.
  check_role-admitted :
      (entry : RouteEntry) (size : ℕ) (o : Option Bytes)
      → check_role outside entry req size o ≡ admitted
      → (role : Bytes) × (o ≡ some role) × (auth_role_matches role entry.required_role ≡ true)
  check_role-admitted entry size none e = cc
  check_role-admitted entry size (some role) e = (
    role,
    refl,
    elim (Bool-cases (auth_role_matches role entry.required_role)) [
      | inl fits ↦ fits
      | inr other ↦ absurd (ground (arith, e, other))
    ],
  )

  check_basic-admitted :
      (entry : RouteEntry) (size : ℕ) (b : Basic)
      → check_basic outside entry req size b ≡ admitted
      → (role : Bytes) × (b ≡ role_is (some role))
        × (auth_role_matches role entry.required_role ≡ true)
  check_basic-admitted entry size out_of_bounds e = cc
  check_basic-admitted entry size bad_base64 e = cc
  check_basic-admitted entry size (role_is o) e =
      let (role, same, fits) = check_role-admitted entry size o e in (role, ap role_is same, fits)

-- The sessions have no part in it.
lookup_split_same :
    {U : Type 0} (store : UserStore U) (server : Server U) (st : SessionStore)
    (o : Option (Bytes × Bytes))
    → lookup_split store (record server { sessions = st }) o ≡ lookup_split store server o
unfolding auth_lookup
lookup_split_same store server st none = refl
lookup_split_same store server st (some (username, password)) = refl

from_decoded_same :
    {U : Type 0} (store : UserStore U) (server : Server U) (st : SessionStore) (d : Decoded)
    → from_decoded store (record server { sessions = st }) d ≡ from_decoded store server d
from_decoded_same store server st fault = refl
from_decoded_same store server st (failed dst) = refl
from_decoded_same store server st (decoded n dst) =
    ap role_is (lookup_split_same store server st (strchr b':' (c_str dst)))

basic_role_same :
    {U : Type 0} (store : UserStore U) (server : Server U) (st : SessionStore) (a : Bytes)
    → basic_role store (record server { sessions = st }) a ≡ basic_role store server a
unfolding basic_role
basic_role_same store server st a =
    rw (from_decoded_same store server st (base64_decode (drop 6 a) zero_buffer)) refl

-- What an admitted request has proved.
abbrev pub MayEnter :
    {U : Type 0} → UserStore U → Outside → Server U → HandlerRequest → Bytes → Type 0
MayEnter store outside server req required_role =
    (role : Bytes) × Proves store outside server req role
    × (auth_role_matches role required_role ≡ true)

check_session-MayEnter :
    {U : Type 0} (store : UserStore U) (outside : Outside) (server : Server U) (st : SessionStore)
    (entry : RouteEntry) (req : HandlerRequest) (size : ℕ) (o : Option Bytes)
    → look_up outside.lookup_time server.sessions (cookie_session req.cookie) ≡ some (st, o)
    → check_session store outside (record server { sessions = st }) entry req size o ≡ admitted
    → MayEnter store outside server req entry.required_role
check_session-MayEnter store outside server st entry req size (some role) e h =
    let (r, same, fits) = check_role-admitted store outside server req entry size (some role) h in
    let (sid, i, cookie, live, is_role) =
      look_up-HasSession outside.lookup_time server.sessions st (cookie_session req.cookie) role
        e in
    (role, by_session sid i cookie live is_role, ground (arith, same, fits))
check_session-MayEnter store outside server st entry req size none e h =
    let (role, same, fits) =
      check_basic-admitted store outside server req entry size
        (basic_role store (record server { sessions = st }) req.authorization) h in
    (
      role,
      basic_role-Proves store outside server req role
          (sym (basic_role_same store server st req.authorization) ∙ same),
      fits,
    )

pub authorize-asks :
    {U : Type 0} (store : UserStore U) (outside : Outside) (server : Server U) (entry : RouteEntry)
    (req : HandlerRequest) (size : ℕ)
    → entry.required_role ≢ []
    → authorize store outside server entry req size ≡ (
        session_role outside server.sessions req.cookie >>= λ r.
        some (check_credentials store outside server entry req size r))
unfolding authorize
authorize-asks store outside server entry req size ne =
    elim (Bool-cases (str_eq entry.required_role [])) [
      | inl empty ↦ absurd (ne ((str_eq_iff entry.required_role []).0 empty))
      | inr asks ↦ rw asks refl
    ]

-- Where a route asks for a role and the check of the credentials admits a request, the request
-- proves a role that satisfies it, by a live session or by a password; the sessions are the only
-- part of the server that the check may change.
pub authorize-MayEnter :
    {U : Type 0} (store : UserStore U) (outside : Outside) (server server' : Server U)
    (entry : RouteEntry) (req : HandlerRequest) (size : ℕ)
    → entry.required_role ≢ []
    → authorize store outside server entry req size ≡ some (server', admitted)
    → MayEnter store outside server req entry.required_role
      × (server' ≡ record server { sessions = server'.sessions })
unfolding session_role
authorize-MayEnter store outside server server' entry req size ne e =
    let e' = sym (authorize-asks store outside server entry req size ne) ∙ e in
    let (r, found, same) = >>=-eq-some _ _ {b = (server', admitted)} e' in
    let pair : check_credentials store outside server entry req size r ≡ (server', admitted) = cc in
    (
      check_session-MayEnter store outside server r.0 entry req size r.1 found (ap (λ p. p.1) pair),
      ap (λ p. p.0) (sym pair)
          ∙ ap (λ s. record server { sessions = s.sessions }) (ap (λ p. p.0) pair),
    )
