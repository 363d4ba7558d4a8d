-- ===== src/Handler/Process.antt =====
-- `request_handler_process_http` of src/request_handler.c, with the registry of handlers and the
-- routes that stand in for a configuration without any.
use uestc_shixvn_mini_web_se.CString.{str_eq}
use uestc_shixvn_mini_web_se.Handler.{
  HandlerRequest, UserStore, Server, Outside, Reply, failed, replied, Answer, HandlerFn,
  build_http_response, snprintf, body_max,
}
use uestc_shixvn_mini_web_se.Handler.Dispatch.{authorize, Check, admitted, stopped}
use uestc_shixvn_mini_web_se.Handler.Index.{handle_index}
use uestc_shixvn_mini_web_se.Handler.Login.{handle_login, handle_logout}
use uestc_shixvn_mini_web_se.Handler.Search.{handle_search}
use uestc_shixvn_mini_web_se.Handler.Served.{handle_blog, handle_static}
use uestc_shixvn_mini_web_se.Handler.Users.{
  handle_hello, handle_help, handle_sleep, handle_user_list, handle_user_find_index,
  handle_user_compare, handle_user_compare_verbose, handle_user_by_name, handle_user_simple_find,
  handle_user_add, handle_user_delete, handle_delete_form,
}
use uestc_shixvn_mini_web_se.Route.{
  RouteTable, RouteEntry, MatchType, match_exact, match_prefix, route_table_init, route_table_add,
  Added, added, refused, never_returns, HandlerType, none_handler, hello, help, sleep, user_list,
  user_by_name, user_find_index, user_compare, user_compare_verbose, user_simple_find, user_add,
  user_delete, delete_form, search_page, index, blog, static, login, logout,
}
use uestc_shixvn_mini_web_se.Route.Find.{FindResult, route_table_find}
use uestc_shixvn_mini_web_se.Prelude.{
  Bytes, ◌>>=◌, ℕ, ◌+◌, Option, none, some, List, [], ◌∷◌, ◌++◌, length, ltb, ◌==◌, if◌then◌else◌,
  codes,
}

-- The search of `g_handler_registry`, whose types are all different.
unfoldable pub route_table_get_handler_fn :
    {U : Type 0} → UserStore U → HandlerType → Option (HandlerFn U)
route_table_get_handler_fn store hello = some handle_hello
route_table_get_handler_fn store help = some handle_help
route_table_get_handler_fn store sleep = some handle_sleep
route_table_get_handler_fn store index = some (handle_index store)
route_table_get_handler_fn store user_list = some (handle_user_list store)
route_table_get_handler_fn store user_find_index = some (handle_user_find_index store)
route_table_get_handler_fn store user_compare_verbose = some handle_user_compare_verbose
route_table_get_handler_fn store user_compare = some handle_user_compare
route_table_get_handler_fn store user_by_name = some (handle_user_by_name store)
route_table_get_handler_fn store user_simple_find = some (handle_user_simple_find store)
route_table_get_handler_fn store user_add = some (handle_user_add store)
route_table_get_handler_fn store user_delete = some (handle_user_delete store)
route_table_get_handler_fn store delete_form = some (handle_delete_form store)
route_table_get_handler_fn store search_page = some (handle_search store)
route_table_get_handler_fn store blog = some handle_blog
route_table_get_handler_fn store static = some handle_static
route_table_get_handler_fn store login = some (handle_login store)
route_table_get_handler_fn store logout = some handle_logout
route_table_get_handler_fn store none_handler = none

pub record DefaultRoute : Type 0 where
  pub method : Bytes
  pub path : Bytes
  pub match_type : MatchType
  pub handler : HandlerType

abbrev exact_route : Bytes → Bytes → HandlerType → DefaultRoute
exact_route method path handler = record {
  method = method;
  path = path;
  match_type = match_exact;
  handler = handler;
}

abbrev prefix_route : Bytes → Bytes → HandlerType → DefaultRoute
prefix_route method path handler = record {
  method = method;
  path = path;
  match_type = match_prefix;
  handler = handler;
}

abbrev default_routes : List DefaultRoute
default_routes =
    exact_route (codes "GET") (codes "/hello") hello
    ∷ exact_route (codes "GET") (codes "/help") help
    ∷ exact_route (codes "GET") (codes "/users") user_list
    ∷ exact_route (codes "POST") (codes "/users") user_add
    ∷ exact_route (codes "GET") (codes "/search") search_page
    ∷ exact_route (codes "POST") (codes "/search") search_page
    ∷ exact_route (codes "GET") (codes "/logout") logout
    ∷ exact_route (codes "POST") (codes "/logout") logout
    ∷ exact_route (codes "POST") (codes "/delete") delete_form
    ∷ exact_route (codes "GET") (codes "/blog") blog
    ∷ exact_route (codes "HEAD") (codes "/blog") blog
    ∷ exact_route (codes "GET") (codes "/") index
    ∷ exact_route (codes "HEAD") (codes "/") index
    ∷ prefix_route (codes "GET") (codes "/users/find-index/") user_find_index
    ∷ prefix_route (codes "GET") (codes "/users/compare-verbose/") user_compare_verbose
    ∷ prefix_route (codes "GET") (codes "/users/compare/") user_compare
    ∷ prefix_route (codes "GET") (codes "/users/") user_by_name
    ∷ prefix_route (codes "DELETE") (codes "/users/") user_delete
    ∷ prefix_route (codes "GET") (codes "/user/") user_simple_find
    ∷ prefix_route (codes "GET") (codes "/sleep/") sleep
    ∷ prefix_route (codes "GET") (codes "/blog/") blog
    ∷ prefix_route (codes "HEAD") (codes "/blog/") blog
    ∷ prefix_route (codes "GET") (codes "/") static
    ∷ prefix_route (codes "HEAD") (codes "/") static
    ∷ []

-- The result of adding a route is not looked at.
abbrev or_same : RouteTable → Added → Option RouteTable
or_same rt refused = some rt
or_same rt never_returns = none
or_same rt (added rt') = some rt'

unfoldable pub add_routes : List DefaultRoute → RouteTable → Option RouteTable
add_routes [] rt = some rt
add_routes (r ∷ routes) rt =
    or_same rt (route_table_add rt r.method r.path r.match_type r.handler [] [])
    >>= add_routes routes

unfoldable pub route_table_populate_defaults : RouteTable → Option RouteTable
route_table_populate_defaults rt = add_routes default_routes rt

-- The configured table, or the default one if there is none or an empty one.
unfoldable pub table_in_use : Option RouteTable → Option RouteTable
table_in_use none = route_table_populate_defaults route_table_init
table_in_use (some rt) =
    let defaults = route_table_populate_defaults route_table_init in
    if length rt.exact + length rt.prefix == 0 then defaults else some rt

unfoldable pub allow_header : Bytes → Bytes
allow_header allow = snprintf 512 (
    codes
      "HTTP/1.1 405 METHOD NOT ALLOWED\r\nServer: MiniWeb/1.5\r\nContent-Type: text/plain; charset=utf-8\r\nContent-Length: 0\r\nAllow: "
    ++ ((if str_eq allow [] then codes "GET" else allow) ++ codes "\r\nConnection: close\r\n\r\n"))

abbrev pub not_allowed : ℕ → Bytes → Reply
not_allowed size allow =
    let header = allow_header allow in
    if ltb (length header) size then replied (length header) header else failed

unfoldable pub not_found : HandlerRequest → ℕ → Reply
not_found req size = build_http_response size 404 (codes "NOT FOUND") (
    snprintf body_max
      (codes "404 Not Found: " ++ (req.method ++ (b' ' ∷ (req.path ++ codes "\n")))))

-- Where the handler's result is -1 the page is not found.
abbrev pub or_not_found : {U : Type 0} → HandlerRequest → ℕ → Server U × Reply → Server U × Reply
or_not_found req size (server, failed) = (server, not_found req size)
or_not_found req size (server, reply) = (server, reply)

abbrev pub call :
    {U : Type 0} → Option (HandlerFn U) → Outside → Server U → HandlerRequest → Bytes → ℕ → Answer U
call none outside server req captured size = some (server, not_found req size)
call (some fn) outside server req captured size =
    fn outside server req captured size >>= λ answer. some (or_not_found req size answer)

abbrev pub run_checked :
    {U : Type 0}
    → Option (HandlerFn U)
    → Outside
    → HandlerRequest
    → Bytes
    → ℕ
    → Server U × Check
    → Answer U
run_checked fn outside req captured size (server, stopped reply) = some (server, reply)
run_checked fn outside req captured size (server, admitted) =
    call fn outside server req captured size

abbrev pub run_entry :
    {U : Type 0}
    → UserStore U
    → Outside
    → Server U
    → HandlerRequest
    → Bytes
    → ℕ
    → Option RouteEntry
    → Answer U
run_entry store outside server req captured size none = some (server, not_found req size)
run_entry store outside server req captured size (some entry) =
    authorize store outside server entry req size
    >>= run_checked (route_table_get_handler_fn store entry.handler) outside req captured size

unfoldable pub respond :
    {U : Type 0} → UserStore U → Outside → Server U → HandlerRequest → ℕ → FindResult → Answer U
respond store outside server req size result =
    if result.is_405
    then some (server, not_allowed size result.allow)
    else run_entry store outside server req result.captured size result.entry

-- The argument behind the store is the configured route table.
unfoldable pub request_handler_process_http :
    {U : Type 0}
    → UserStore U
    → Option RouteTable
    → Outside
    → Server U
    → HandlerRequest
    → ℕ
    → Answer U
request_handler_process_http store config outside server req size =
    if size == 0
    then some (server, failed)
    else table_in_use config >>= λ rt.
        route_table_find rt req.method req.path >>= respond store outside server req size
