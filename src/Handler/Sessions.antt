-- ===== src/Handler/Sessions.antt =====
-- A login, the requests that follow it, and the logout.
use uestc_shixvn_mini_web_se.CString.{strncpy_fits, str_eq, strstr, starts_with, strncpy}
use uestc_shixvn_mini_web_se.Handler.{HandlerRequest, UserStore, Server, Outside, Reply, printed}
use uestc_shixvn_mini_web_se.Handler.Credentials.{
  auth_lookup, copy_until, ends_cookie, cookie_session,
}
use uestc_shixvn_mini_web_se.Handler.Dispatch.{look_up, role_at, session_role}
use uestc_shixvn_mini_web_se.Handler.Login.{
  form_field, login_response, with_role, handle_login, end_session, handle_logout, logout_response,
}
use uestc_shixvn_mini_web_se.Session.{
  SessionStore, session_at, session_ttl, random_bytes, hex_encode, hex_digit,
  session_cleanup_expired, free_session, session_destroy, session_lookup,
}
use uestc_shixvn_mini_web_se.Session.Cleanup.{HasRoom}
use uestc_shixvn_mini_web_se.Session.Create.{
  length-hex_encode, IsSized, IsFresh, Makes, session_create-Makes,
}
use uestc_shixvn_mini_web_se.Session.Lookup.{IsUnique, session_destroy_revokes}
use uestc_shixvn_mini_web_se.Session.Places.{session_create_places}
use uestc_shixvn_mini_web_se.Prelude.{
  Bytes, >>=-eq-some, ℕ, zero, suc, ◌+◌, ◌/◌, ◌%◌, ◌≤◌, ◌≡◌, refl, sym, ap, subst, ◌∙◌, ◌≢◌, false,
  Option, none, some, [], ◌∷◌, ◌++◌, arith, length, codes,
}

abbrev AreIdChars : Bytes → Type 0
AreIdChars [] = Unit {0}
AreIdChars (c ∷ s) = (ends_cookie c ≡ false) × AreIdChars s

hex_digit_char : (n : ℕ) → ends_cookie (hex_digit n) ≡ false
hex_digit_char n = ground arith

hex_encode-AreIdChars : (bs : Bytes) → AreIdChars (hex_encode bs)
unfolding hex_encode
hex_encode-AreIdChars [] = tt
hex_encode-AreIdChars (b ∷ bs) =
    (hex_digit_char (b / 16), (hex_digit_char (b % 16), hex_encode-AreIdChars bs))

copy_until-AreIdChars :
    (n : ℕ) (s : Bytes) → AreIdChars s → length s ≤ n → copy_until ends_cookie n s ≡ s
unfolding copy_until
copy_until-AreIdChars zero [] a h = refl
copy_until-AreIdChars zero (c ∷ s) a h = absurd (omega (arith, h))
copy_until-AreIdChars (suc n) [] a h = refl
copy_until-AreIdChars (suc n) (c ∷ s) a h =
    rw a.0 (ap (◌∷◌ c) (copy_until-AreIdChars n s a.1 (omega arith)))

-- The cookie that a client sends back.
abbrev pub session_cookie : Bytes → Bytes
session_cookie token = codes "session_id=" ++ token

cookie_session-token :
    (token : Bytes)
    → AreIdChars token
    → length token ≤ 64
    → cookie_session (session_cookie token) ≡ some token
unfolding cookie_session strstr starts_with
cookie_session-token token a h = ap some (copy_until-AreIdChars 64 token a h)

-- What a login with valid credentials leaves and answers: a session of the user with the role, which
-- the cookie that is sent proves until an hour after.
abbrev pub LogsIn : {U : Type 0} → Outside → Server U → Server U → ℕ → Bytes → Reply → Type 0
LogsIn outside server server' size role reply =
    let token = hex_encode (random_bytes outside.entropy) in
    (reply ≡ printed size (login_response token))
    × (server' ≡ record server { sessions = server'.sessions })
    × ((next : Outside)
        → next.lookup_time ≤ outside.creation_time + session_ttl
        → session_role next server'.sessions (session_cookie token)
          ≡ some (server'.sessions, some (strncpy 31 role)))

handle_login-post :
    {U : Type 0} (store : UserStore U) (outside : Outside) (server : Server U)
    (req : HandlerRequest) (captured : Bytes) (size : ℕ)
    → req.method ≡ codes "POST"
    → handle_login store outside server req captured size
      ≡ with_role outside server size (form_field (codes "username=") req.body) (
          auth_lookup store server
            (form_field (codes "username=") req.body)
            (form_field (codes "password=") req.body))
unfolding handle_login str_eq
handle_login-post store outside server req captured size post = rw post refl

look_up-Makes :
    (token username role : Bytes) (now later i : ℕ) (st : SessionStore)
    → Makes token username role now st i
    → later ≤ now + session_ttl
    → look_up later st (some token) ≡ some (st, some (strncpy 31 role))
look_up-Makes token username role now later i st m soon =
    rw (m.1 later soon) (ap (λ s. some (st, some s.role)) m.0)

-- A login by POST with a name and a password that `auth_lookup` accepts, while a session is free
-- once the expired ones are removed and the hash table has a free slot, and with a token that no
-- session in use has: it returns, redirects with the token in a cookie, changes nothing but the
-- sessions, and for an hour the cookie proves the role (up to 31 bytes of it).
pub handle_login-LogsIn :
    {U : Type 0} (store : UserStore U) (outside : Outside) (server : Server U)
    (req : HandlerRequest) (captured role : Bytes) (size k j : ℕ) (st1 : SessionStore)
    → req.method ≡ codes "POST"
    → auth_lookup store server
        (form_field (codes "username=") req.body)
        (form_field (codes "password=") req.body)
      ≡ some role
    → IsSized server.sessions
    → HasRoom server.sessions k
    → length (random_bytes outside.entropy) ≡ 32
    → IsFresh server.sessions (hex_encode (random_bytes outside.entropy))
    → session_cleanup_expired outside.first_cleanup server.sessions ≡ some st1
    → free_session 0 st1.sessions ≡ some j
    → (server' : Server U) × (reply : Reply) × (handle_login store outside server req captured size
        ≡ some (server', reply))
      × LogsIn outside server server' size role reply
unfolding session_role
handle_login-LogsIn store outside server req captured role size k j st1 post accepted sized room
      long fresh cleaned free =
    let username = form_field (codes "username=") req.body in
    let token = hex_encode (random_bytes outside.entropy) in
    let (st', made) =
      session_create_places outside.entropy outside.first_cleanup outside.second_cleanup
        outside.creation_time k j username role server.sessions st1 room cleaned free in
    let makes =
      session_create-Makes outside.entropy outside.first_cleanup outside.second_cleanup
        outside.creation_time j username role server.sessions st' sized long fresh made in
    let whole : length token ≤ 64 =
      omega (arith, length-hex_encode (random_bytes outside.entropy)) in
    let id : (session_at st' j).session_id ≡ token =
      ap (λ s. s.session_id) makes.0 ∙ strncpy_fits 64 token whole in
    let answered : with_role outside server size username (some role)
        ≡ some (record server { sessions = st' }, printed size (login_response token)) =
      rw made (rw id refl) in
    (
      record server { sessions = st' },
      printed size (login_response token),
      handle_login-post store outside server req captured size post
          ∙ ap (with_role outside server size username) accepted
          ∙ answered,
      (
        refl,
        refl,
        λ next soon. rw (cookie_session-token token (hex_encode-AreIdChars _) whole) (
            look_up-Makes token username role outside.creation_time next.lookup_time j st' makes
              soon),
      ),
    )

role_at-none :
    (now : ℕ) (st st' : SessionStore) (sid role : Bytes)
    → ((st2 : SessionStore) (i : ℕ) → session_lookup sid now st ≢ some (st2, some i))
    → look_up now st (some sid) ≢ some (st', some role)
role_at-none now st st' sid role gone e =
    let ((st2, o), found, same) =
      >>=-eq-some (session_lookup sid now st) _ {b = (st', some role)} e in
    no_role st2 o found (cc same)
  where
    no_role :
        (st2 : SessionStore) (o : Option ℕ)
        → session_lookup sid now st ≡ some (st2, o)
        → role_at (st2, o) ≢ (st', some role)
    no_role st2 none found same = cc
    no_role st2 (some i) found same = gone st2 i found

-- Once a logout has returned, the cookie that it came with proves no role, if no two sessions in use
-- had its identifier; the reply is the redirect that clears the cookie, and nothing but the sessions
-- has changed.
pub handle_logout_ends :
    {U : Type 0} (outside next : Outside) (server server' : Server U) (req : HandlerRequest)
    (captured sid role : Bytes) (size : ℕ) (reply : Reply) (st : SessionStore)
    → cookie_session req.cookie ≡ some sid
    → IsUnique server.sessions sid
    → handle_logout outside server req captured size ≡ some (server', reply)
    → (session_role next server'.sessions req.cookie ≢ some (st, some role))
      × (reply ≡ printed size logout_response)
      × (server' ≡ record server { sessions = server'.sessions })
unfolding handle_logout session_role
handle_logout_ends outside next server server' req captured sid role size reply st cookie unique e =
    let (st1, ended, done) =
      >>=-eq-some (end_session (cookie_session req.cookie) server.sessions) _ {b = (server', reply)}
        e in
    let destroyed : session_destroy sid server.sessions ≡ some st1 =
      subst (λ o. end_session o server.sessions ≡ some st1) cookie ended in
    let left : record server { sessions = st1 } ≡ server' = cc in
    let sent : printed size logout_response ≡ reply = cc in
    let here : st1 ≡ server'.sessions = ap (λ s. s.sessions) left in
    (
      rw (cookie, sym here)
          (role_at-none next.lookup_time st1 st sid role (λ st2 i.
            session_destroy_revokes sid next.lookup_time i server.sessions st1 st2 unique
              destroyed)),
      sym sent,
      sym left ∙ ap (λ s. record server { sessions = s }) here,
    )
