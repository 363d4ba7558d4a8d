-- ===== src/Handler/Tests.antt =====
-- Runs of the handlers and of the dispatch, and their theorems at inputs.
use uestc_shixvn_mini_web_se.Handler.Examples.{one_user, outside, server, get_users}
use uestc_shixvn_mini_web_se.CString.{str_eq, strstr, starts_with, starts_with_case, c_str}
use uestc_shixvn_mini_web_se.Handler.{crashed, printed, build_http_response}
use uestc_shixvn_mini_web_se.Handler.Basic.{basic_credentials, AreSendable, authorize-credentials}
use uestc_shixvn_mini_web_se.Handler.Crashes.{CrashesOnEmpty, name_handlers-CrashesOnEmpty}
use uestc_shixvn_mini_web_se.Handler.Credentials.{
  file_role, auth_lookup, auth_role_matches, cookie_session,
}
use uestc_shixvn_mini_web_se.Handler.Decode.{
  url_decode_path, decode_from, array_of, hex_value, url_decode, decode_chars, next_char, escaped,
}
use uestc_shixvn_mini_web_se.Handler.Decode.RoundTrip.{form_encode, url_decode-form_encode}
use uestc_shixvn_mini_web_se.Handler.Dispatch.{
  admitted, authorize, session_role, basic_role, to_login,
}
use uestc_shixvn_mini_web_se.Handler.Guarded.{IsGuarded, request_handler_process_http-IsGuarded}
use uestc_shixvn_mini_web_se.Handler.Process.{
  route_table_get_handler_fn, add_routes, route_table_populate_defaults, table_in_use, respond,
  request_handler_process_http,
}
use uestc_shixvn_mini_web_se.Handler.Users.{
  handle_user_delete, handle_user_compare_verbose, handle_user_compare, delete_named,
  handle_user_find_index, handle_delete_form, handle_user_simple_find, handle_user_by_name,
  captured_name, form_name,
}
use uestc_shixvn_mini_web_se.Probe.{probe, probe_free, djb2, djb2_step}
use uestc_shixvn_mini_web_se.Route.{
  RouteTable, RouteEntry, match_exact, user_list, new_entry, hash_init, hash_key, hash_lookup,
  hash_insert, hash_all, is_duplicate, route_table_add,
}
use uestc_shixvn_mini_web_se.Route.Find.{
  empty_result, route_table_find, scan_prefixes, capture, path_matches_prefix,
}
use uestc_shixvn_mini_web_se.Prelude.{
  ◌≡◌, refl, Bool, true, false, none, some, [], ◌∷◌, ◌++◌, arith, set, codes,
}

abbrev users_entry : RouteEntry
users_entry =
    new_entry (codes "GET") (codes "/users") match_exact user_list (codes "Users") (codes "user")

abbrev guarded_table : RouteTable
guarded_table = record {
  exact = users_entry ∷ [];
  prefix = [];
  hash = set hash_init (hash_key (codes "GET") (codes "/users")) (some 0);
}

guarded_found :
    route_table_find guarded_table (codes "GET") (codes "/users")
    ≡ some (record empty_result { entry = some users_entry })
unfolding route_table_find hash_lookup hash_key djb2 djb2_step probe str_eq
guarded_found = refl

guarded_run :
    request_handler_process_http one_user (some guarded_table) outside server get_users 4096
    ≡ some (server, printed 4096 to_login)
unfolding request_handler_process_http table_in_use respond route_table_find hash_lookup hash_key
    djb2 djb2_step probe str_eq authorize session_role cookie_session strstr starts_with basic_role
    starts_with_case
guarded_run = refl

table_used : table_in_use (some guarded_table) ≡ some guarded_table
unfolding table_in_use
table_used = refl

request_handler_process_http-IsGuarded_example :
    IsGuarded one_user outside server server users_entry get_users 4096 (printed 4096 to_login)
request_handler_process_http-IsGuarded_example =
    request_handler_process_http-IsGuarded one_user (some guarded_table) outside server server
      get_users 4096 (printed 4096 to_login) guarded_table
      (record empty_result { entry = some users_entry }) users_entry (omega arith) table_used
      guarded_found refl refl (λ e. cc) guarded_run

-- Without a configuration `GET /users/` reaches the handler of a name with an empty name.
users_crash :
    request_handler_process_http one_user none outside server
      (record get_users { path = codes "/users/" })
      4096
    ≡ some (server, crashed)
unfolding request_handler_process_http table_in_use respond route_table_find hash_lookup hash_key
    djb2 djb2_step probe str_eq authorize handle_user_by_name captured_name url_decode_path
    decode_from route_table_populate_defaults add_routes route_table_add is_duplicate hash_all
    hash_insert probe_free scan_prefixes capture path_matches_prefix starts_with
    route_table_get_handler_fn
users_crash = refl

name_handlers-CrashesOnEmpty_example :
    CrashesOnEmpty [] (handle_user_by_name one_user)
    × CrashesOnEmpty [] (handle_user_simple_find one_user)
    × CrashesOnEmpty [] (handle_user_find_index one_user)
    × CrashesOnEmpty [] (handle_user_compare {U = Bool})
    × CrashesOnEmpty [] (handle_user_compare_verbose {U = Bool})
    × CrashesOnEmpty [] (handle_user_delete one_user)
name_handlers-CrashesOnEmpty_example = name_handlers-CrashesOnEmpty one_user [] tt

-- The memory behind the NUL keeps what was there.
path_decodes :
    url_decode_path (array_of (codes "ann%20lee%2"))
    ≡ some (record { memory = codes "ann lee%2" ++ 0 ∷ codes "2" ++ 0 ∷ []; writable = true })
unfolding url_decode_path decode_from hex_value
path_decodes = refl

ada_encoded : form_encode (codes "ada & co") ≡ codes "ada+%26+co"
unfolding form_encode
ada_encoded = refl

url_decode-form_encode_example :
    url_decode (form_encode (codes "ada & co") ++ codes "&phone=1") 64 ≡ (true, codes "ada & co")
url_decode-form_encode_example =
    url_decode-form_encode (codes "ada & co") (codes "&phone=1") 64 (omega arith) refl (omega arith)

-- A name that is not encoded well is decoded up to there, and that user is deleted.
bad_name_deletes :
    handle_delete_form one_user outside server
      (record get_users { method = codes "POST"; body = codes "name=ann%zz" })
      []
      4096
    ≡ some (
      record server { users = false },
      build_http_response 4096 200 (codes "OK") (codes "DELETED\n"),
    )
unfolding handle_delete_form form_name url_decode decode_chars next_char escaped strstr starts_with
    c_str str_eq delete_named
bad_name_deletes = refl

ann-AreSendable : AreSendable (codes "139") (codes "pw")
ann-AreSendable = record {
  are_bytes = omega arith;
  no_colon = omega arith;
  no_nul = omega arith;
  short = omega arith;
}

ann_known : auth_lookup one_user server (codes "139") (codes "pw") ≡ some (codes "user")
unfolding auth_lookup file_role str_eq
ann_known = refl

user_fits : auth_role_matches (codes "user") (codes "user") ≡ true
unfolding auth_role_matches str_eq
user_fits = refl

no_cookie : cookie_session [] ≡ none
unfolding cookie_session strstr starts_with
no_cookie = refl

authorize-credentials_example :
    authorize one_user outside server users_entry
      (record get_users { authorization = basic_credentials (codes "139") (codes "pw") })
      4096
    ≡ some (server, admitted)
authorize-credentials_example =
    authorize-credentials one_user outside server users_entry
      (record get_users { authorization = basic_credentials (codes "139") (codes "pw") }) 4096
      (codes "139") (codes "pw") (codes "user") ann-AreSendable (λ e. cc) no_cookie refl ann_known
      user_fits
