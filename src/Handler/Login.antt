-- ===== src/Handler/Login.antt =====
-- Login and logout in src/request_handler.c.
use uestc_shixvn_mini_web_se.CString.{str_eq, strstr}
use uestc_shixvn_mini_web_se.CString.Format.{decimal}
use uestc_shixvn_mini_web_se.Handler.{
  UserStore, Server, Outside, Reply, Answer, HandlerFn, build_http_response, or_failed, printed,
}
use uestc_shixvn_mini_web_se.Handler.Credentials.{auth_lookup, copy_until, cookie_session}
use uestc_shixvn_mini_web_se.Handler.Pages.{login_form, login_failed}
use uestc_shixvn_mini_web_se.Http.Response.{http_build_response}
use uestc_shixvn_mini_web_se.Session.{
  SessionStore, session_create, session_destroy, session_at, session_ttl,
}
use uestc_shixvn_mini_web_se.Prelude.{
  Bytes, ◌>>=◌, ℕ, Bool, false, Option, none, some, [], ◌++◌, drop, ◌==◌, if◌then◌else◌, codes,
}

abbrev pub html : Bytes
html = codes "text/html; charset=utf-8"

abbrev pub is_ampersand : ℕ → Bool
is_ampersand c = c == b'&'

abbrev field_text : Option (Bytes × Bytes) → Bytes
field_text none = []
field_text (some (before, found)) = copy_until is_ampersand 63 (drop 9 found)

-- The field behind a label of nine bytes, as it stands, into a buffer of 64 bytes.
unfoldable pub form_field : Bytes → Bytes → Bytes
form_field label body = field_text (strstr label body)

unfoldable pub login_response : Bytes → Bytes
login_response sid =
    codes "HTTP/1.1 302 Found\r\nServer: MiniWeb/1.7\r\nSet-Cookie: session_id="
    ++ (sid
        ++ (codes "; Path=/; HttpOnly; Max-Age="
            ++ (decimal session_ttl
                ++ codes
                    "; SameSite=Lax\r\nLocation: /\r\nContent-Length: 0\r\nConnection: Keep-Alive\r\n\r\n")))

abbrev pub login_page : Outside → ℕ → Reply
login_page outside size =
    or_failed (http_build_response 200 (codes "OK") html login_form false outside.date size)

abbrev pub failed_page : Outside → ℕ → Reply
failed_page outside size =
    or_failed
      (http_build_response 401 (codes "UNAUTHORIZED") html login_failed false outside.date size)

abbrev pub with_session : {U : Type 0} → Outside → Server U → ℕ → SessionStore × Option ℕ → Answer U
with_session outside server size (st, some i) =
    some
      (record server { sessions = st }, printed size (login_response (session_at st i).session_id))
with_session outside server size (st, none) =
    some (record server { sessions = st }, failed_page outside size)

abbrev pub with_role : {U : Type 0} → Outside → Server U → ℕ → Bytes → Option Bytes → Answer U
with_role outside server size username none = some (server, failed_page outside size)
with_role outside server size username (some role) =
    session_create outside.entropy outside.first_cleanup outside.second_cleanup
      outside.creation_time username role server.sessions
    >>= with_session outside server size

unfoldable pub handle_login : {U : Type 0} → UserStore U → HandlerFn U
handle_login store outside server req captured size =
    let username = form_field (codes "username=") req.body in
    let password = form_field (codes "password=") req.body in
    if str_eq req.method (codes "GET")
    then some (server, login_page outside size)
    else if str_eq req.method (codes "POST")
    then with_role outside server size username (auth_lookup store server username password)
    else some (
      server,
      build_http_response size 405 (codes "METHOD NOT ALLOWED") (codes "405 Method Not Allowed\n"),
    )

abbrev pub logout_response : Bytes
logout_response =
    codes
      "HTTP/1.1 302 Found\r\nServer: MiniWeb/1.7\r\nSet-Cookie: session_id=; Path=/; HttpOnly; Max-Age=0; SameSite=Lax\r\nLocation: /login\r\nContent-Length: 0\r\nConnection: Keep-Alive\r\n\r\n"

abbrev pub end_session : Option Bytes → SessionStore → Option SessionStore
end_session none st = some st
end_session (some sid) st = session_destroy sid st

unfoldable pub handle_logout : {U : Type 0} → HandlerFn U
handle_logout outside server req captured size =
    end_session (cookie_session req.cookie) server.sessions >>= λ st.
    some (record server { sessions = st }, printed size logout_response)
