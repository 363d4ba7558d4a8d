-- ===== src/Handler/ConnectionTests.antt =====
-- A login, a logout and a connection, and their theorems at inputs.
use uestc_shixvn_mini_web_se.Handler.Examples.{one_user, outside, server, get_users}
use uestc_shixvn_mini_web_se.Session.Lookup.{IsUnique}
use uestc_shixvn_mini_web_se.Session.Create.{IsFresh, IsSized}
use uestc_shixvn_mini_web_se.Session.Cleanup.{HasRoom}
use uestc_shixvn_mini_web_se.CString.{str_eq, strstr, starts_with}
use uestc_shixvn_mini_web_se.Handler.{HandlerRequest, Server, Reply, replied, printed}
use uestc_shixvn_mini_web_se.Handler.Connection.{Config, message, closed, Round}
use uestc_shixvn_mini_web_se.Handler.Credentials.{
  file_role, auth_lookup, copy_until, cookie_session,
}
use uestc_shixvn_mini_web_se.Handler.Dispatch.{session_role}
use uestc_shixvn_mini_web_se.Handler.Login.{
  form_field, handle_login, handle_logout, logout_response,
}
use uestc_shixvn_mini_web_se.Handler.Sessions.{LogsIn, handle_login-LogsIn, handle_logout_ends}
use uestc_shixvn_mini_web_se.Probe.{probe, djb2, djb2_step, hash_size}
use uestc_shixvn_mini_web_se.Session.{
  Session, expire_one, set_used, zero_session, cleanup_from, hash_id, clear_slot, new_session,
  max_sessions, free_session, session_cleanup_expired, SessionStore, session_init, session_destroy,
  hex_encode, random_bytes,
}
use uestc_shixvn_mini_web_se.Prelude.{
  Bytes, ℕ, zero, suc, ◌≡◌, refl, ap, ◌≢◌, Bool, true, false, none, some, List, [], ◌∷◌, arith,
  length, set, get_or, replicate, codes,
}

abbrev login_request : HandlerRequest
login_request = record get_users {
  method = codes "POST";
  path = codes "/login";
  body = codes "username=139&password=pw";
}

login_known :
    auth_lookup one_user server
      (form_field (codes "username=") login_request.body)
      (form_field (codes "password=") login_request.body)
    ≡ some (codes "user")
unfolding auth_lookup file_role str_eq form_field copy_until strstr starts_with
login_known = refl

init-HasRoom : HasRoom session_init 0
unfolding session_init
init-HasRoom = record { table_size = refl; below = omega arith; is_free = refl }

init-IsSized : IsSized session_init
unfolding session_init
init-IsSized = record { session_count = refl; slot_count = refl }

init_clean : session_cleanup_expired 90 session_init ≡ some session_init
unfolding session_cleanup_expired cleanup_from expire_one session_init
init_clean = refl

init_free : free_session 0 session_init.sessions ≡ some 0
unfolding free_session session_init
init_free = refl

unused-IsFresh :
    (id : Bytes) (st : SessionStore)
    → st.sessions ≡ replicate max_sessions zero_session
    → IsFresh st id
unused-IsFresh id st e j = ground (
  arith,
  ap (λ (ss : List Session). get_or ss j zero_session) e,
  get_or-replicate max_sessions j zero_session,
)
  where
    get_or-replicate : (n i : ℕ) (a : Session) → get_or (replicate n a) i a ≡ a
    get_or-replicate zero i a = refl
    get_or-replicate (suc n) zero a = refl
    get_or-replicate (suc n) (suc i) a = get_or-replicate n i a

handle_login-LogsIn_example :
    (server' : Server Bool) × (reply : Reply) × (handle_login one_user outside server login_request
        [] 4096
      ≡ some (server', reply))
    × LogsIn outside server server' 4096 (codes "user") reply
unfolding session_init random_bytes
handle_login-LogsIn_example =
    handle_login-LogsIn one_user outside server login_request [] (codes "user") 4096 0 0
      session_init refl login_known init-IsSized init-HasRoom refl
      (unused-IsFresh (hex_encode (random_bytes outside.entropy)) session_init refl) init_clean
      init_free

abbrev leaving : HandlerRequest
leaving = record get_users { path = codes "/logout"; cookie = codes "a=b; session_id=08" }

leaving_id : cookie_session leaving.cookie ≡ some (codes "08")
unfolding cookie_session copy_until strstr starts_with
leaving_id = refl

-- One session in use, of an identifier with the hash value 173.
abbrev visited : Server Bool
visited = record server {
  sessions = record {
    sessions = new_session (codes "08") (codes "139") (codes "user") 100 ∷ [];
    hash = set (replicate hash_size none) 173 (some 0);
  };
}

visited-IsUnique : IsUnique visited.sessions (codes "08")
unfolding str_eq
visited-IsUnique zero zero h k = refl
visited-IsUnique (suc i) j h k = cc h
visited-IsUnique zero (suc j) h k = cc k

abbrev left : Server Bool
left = record visited { sessions = clear_slot (set_used visited.sessions 0 false) 173 }

leaving_run :
    handle_logout outside visited leaving [] 4096 ≡ some (left, printed 4096 logout_response)
unfolding handle_logout cookie_session copy_until strstr starts_with session_destroy hash_id djb2
    djb2_step probe str_eq
leaving_run = refl

handle_logout_ends_example :
    (session_role outside left.sessions leaving.cookie ≢ some (left.sessions, some (codes "user")))
    × (printed 4096 logout_response ≡ printed 4096 logout_response)
    × (left ≡ record visited { sessions = left.sessions })
handle_logout_ends_example =
    handle_logout_ends outside outside visited left leaving [] (codes "08") (codes "user") 4096
      (printed 4096 logout_response) left.sessions leaving_id visited-IsUnique leaving_run

abbrev one_message : List Round
one_message =
    record {
      received = message (codes "get /hello HTTP/1.1\r\n\r\n");
      outside = outside;
      sends = true;
    }
    ∷ record { received = closed; outside = outside; sends = true }
    ∷ []

abbrev config : Config
config = record { routes = none; config_find_server = λ host. none }

abbrev hello_reply : Reply
hello_reply =
    let text =
      codes
        "HTTP/1.1 200 OK\r\nContent-Type: text/plain; charset=utf-8\r\nContent-Length: 12\r\nConnection: Keep-Alive\r\n\r\nHello, Web!\n" in
    replied (length text) text
