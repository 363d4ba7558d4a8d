-- ===== src/Handler/Dispatch.antt =====
-- `request_handler_process_http` of src/request_handler.c: the route, the credentials that it asks
-- for, and the handler. The registry of handlers is an argument.
use uestc_shixvn_mini_web_se.Base64.{base64_decode, Decoded, fault, decoded}
use uestc_shixvn_mini_web_se.CString.{str_eq, strchr, c_str, starts_with_case}
use uestc_shixvn_mini_web_se.Handler.{
  HandlerRequest, UserStore, Server, Outside, Reply, crashed, build_http_response, or_failed,
  printed,
}
use uestc_shixvn_mini_web_se.Handler.Credentials.{auth_lookup, auth_role_matches, cookie_session}
use uestc_shixvn_mini_web_se.Handler.Pages.{no_permission}
use uestc_shixvn_mini_web_se.Http.Response.{http_build_response}
use uestc_shixvn_mini_web_se.Route.{RouteEntry}
use uestc_shixvn_mini_web_se.Session.{SessionStore, session_lookup, session_at}
use uestc_shixvn_mini_web_se.Prelude.{
  Bytes, ◌>>=◌, ℕ, false, not, Option, none, some, [], ◌++◌, drop, replicate, if◌then◌else◌, codes,
}

-- The role of the session that a lookup returns.
abbrev pub role_at : SessionStore × Option ℕ → SessionStore × Option Bytes
role_at (st, none) = (st, none)
role_at (st, some i) = (st, some (session_at st i).role)

abbrev pub look_up : ℕ → SessionStore → Option Bytes → Option (SessionStore × Option Bytes)
look_up now st none = some (st, none)
look_up now st (some sid) = session_lookup sid now st >>= λ r. some (role_at r)

unfoldable pub session_role : Outside → SessionStore → Bytes → Option (SessionStore × Option Bytes)
session_role outside st cookie = look_up outside.lookup_time st (cookie_session cookie)

-- The credentials behind "Basic ": bad Base64, or the role, if any, that they give.
pub data Basic : Type 0 where
  out_of_bounds bad_base64 : Basic
  role_is : Option Bytes → Basic

abbrev pub lookup_split :
    {U : Type 0} → UserStore U → Server U → Option (Bytes × Bytes) → Option Bytes
lookup_split store server none = none
lookup_split store server (some (username, password)) = auth_lookup store server username password

abbrev pub from_decoded : {U : Type 0} → UserStore U → Server U → Decoded → Basic
from_decoded store server fault = out_of_bounds
from_decoded store server (decoded n dst) =
    role_is (lookup_split store server (strchr b':' (c_str dst)))
from_decoded store server _ = bad_base64

abbrev pub zero_buffer : Bytes
zero_buffer = replicate 256 0

-- The array that the decoder writes to is not initialised; what it held is not read.
unfoldable pub basic_role : {U : Type 0} → UserStore U → Server U → Bytes → Basic
basic_role store server authorization =
    if starts_with_case (codes "Basic ") authorization
    then from_decoded store server (base64_decode (drop 6 authorization) zero_buffer)
    else role_is none

unfoldable pub unauthorized : Bytes → Bytes
unauthorized realm =
    codes "HTTP/1.1 401 Unauthorized\r\nServer: MiniWeb/1.7\r\nWWW-Authenticate: Basic realm=\""
    ++ (realm
        ++ codes
            "\"\r\nContent-Type: text/plain; charset=utf-8\r\nContent-Length: 0\r\nConnection: close\r\n\r\n")

abbrev pub to_login : Bytes
to_login =
    codes
      "HTTP/1.1 302 Found\r\nServer: MiniWeb/1.7\r\nLocation: /login\r\nContent-Length: 0\r\nConnection: close\r\n\r\n"

abbrev pub realm_of : RouteEntry → Bytes
realm_of entry = if str_eq entry.auth_realm [] then codes "Restricted" else entry.auth_realm

abbrev pub denied : RouteEntry → HandlerRequest → ℕ → Reply
denied entry req size =
    if not (str_eq req.authorization [])
    then printed size (unauthorized (realm_of entry))
    else printed size to_login

abbrev pub no_role_page : Outside → ℕ → Reply
no_role_page outside size = or_failed (
    http_build_response 403 (codes "FORBIDDEN") (codes "text/html; charset=utf-8") no_permission
      false outside.date size)

-- What the check of the credentials comes to: the handler may run, or the reply that is sent.
pub data Check : Type 0 where
  admitted : Check
  stopped : Reply → Check

abbrev pub check_role : Outside → RouteEntry → HandlerRequest → ℕ → Option Bytes → Check
check_role outside entry req size none = stopped (denied entry req size)
check_role outside entry req size (some role) =
    if auth_role_matches role entry.required_role
    then admitted
    else stopped (no_role_page outside size)

abbrev pub check_basic : Outside → RouteEntry → HandlerRequest → ℕ → Basic → Check
check_basic outside entry req size out_of_bounds = stopped crashed
check_basic outside entry req size bad_base64 =
    stopped (
      build_http_response size 400 (codes "BAD REQUEST")
        (codes "400 Bad Request: invalid Base64\n"))
check_basic outside entry req size (role_is role) = check_role outside entry req size role

-- The session's role comes first; without one the `Authorization` header is read.
abbrev pub check_session :
    {U : Type 0}
    → UserStore U
    → Outside
    → Server U
    → RouteEntry
    → HandlerRequest
    → ℕ
    → Option Bytes
    → Check
check_session store outside server entry req size (some role) =
    check_role outside entry req size (some role)
check_session store outside server entry req size none =
    check_basic outside entry req size (basic_role store server req.authorization)

abbrev pub check_credentials :
    {U : Type 0}
    → UserStore U
    → Outside
    → Server U
    → RouteEntry
    → HandlerRequest
    → ℕ
    → SessionStore × Option Bytes
    → Server U × Check
check_credentials store outside server entry req size (st, role) = (
  record server { sessions = st },
  check_session store outside (record server { sessions = st }) entry req size role,
)

-- An entry without a required role asks for no credentials.
unfoldable pub authorize :
    {U : Type 0}
    → UserStore U
    → Outside
    → Server U
    → RouteEntry
    → HandlerRequest
    → ℕ
    → Option (Server U × Check)
authorize store outside server entry req size =
    let checked = session_role outside server.sessions req.cookie >>= λ r.
    some (check_credentials store outside server entry req size r) in
    if str_eq entry.required_role [] then some (server, admitted) else checked
