-- ===== src/Handler/Users.antt =====
-- The handlers of src/request_handler.c that read and change the users, and the small ones.
use uestc_shixvn_mini_web_se.CString.{atoi, strstr, c_str}
use uestc_shixvn_mini_web_se.CString.Format.{decimal}
use uestc_shixvn_mini_web_se.Handler.{
  UserStore, Server, Outside, Reply, crashed, HandlerFn, User, build_http_response, snprintf,
  body_max,
}
use uestc_shixvn_mini_web_se.Handler.Decode.{url_decode, url_decode_path, Str, literal, array_of}
use uestc_shixvn_mini_web_se.Handler.Pages.{help_text}
use uestc_shixvn_mini_web_se.Prelude.{
  Bytes, ℕ, ◌-◌, Bool, true, false, Option, none, some, [], ◌∷◌, ◌++◌, ◌>>=◌, ℤ, pos, negsuc,
  length, drop, ltb, leb, ◌==◌, if◌then◌else◌, codes,
}

unfoldable pub handle_hello : {U : Type 0} → HandlerFn U
handle_hello outside server req captured size =
    some (server, build_http_response size 200 (codes "OK") (codes "Hello, Web!\n"))

unfoldable pub handle_help : {U : Type 0} → HandlerFn U
handle_help outside server req captured size =
    some (server, build_http_response size 200 (codes "OK") help_text)

-- The milliseconds that `handle_sleep` waits.
unfoldable pub sleep_delay : ℤ → ℕ
sleep_delay (negsuc n) = 100
sleep_delay (pos n) = if n == 0 then 100 else if ltb 5000 n then 5000 else n

unfoldable pub handle_sleep : {U : Type 0} → HandlerFn U
handle_sleep outside server req captured size = some (
  server,
  build_http_response size 200 (codes "OK") (
      snprintf body_max
        (codes "Slept " ++ (decimal (sleep_delay (atoi captured)) ++ codes " ms\n"))),
)

unfoldable pub format_user_info : User → Bytes
format_user_info user =
    codes "name: "
    ++ (user.name
        ++ (codes "\npassword: "
            ++ (user.password
                ++ (codes "\nbirthdate: "
                    ++ (user.birthdate
                        ++ (codes "\nphone: "
                            ++ (user.phone
                                ++ (codes "\nmobile: "
                                    ++ (user.mobile
                                        ++ (codes "\nemail: "
                                            ++ (user.email ++ codes "\n")))))))))))

-- `captured && captured[0] ? captured : ""`.
abbrev pub name_string : Bytes → Str
name_string [] = literal []
name_string (c ∷ s) = array_of (c ∷ s)

-- The name that a route captured, decoded in place: `none` is a fault.
unfoldable pub captured_name : Bytes → Option Bytes
captured_name captured = url_decode_path (name_string captured) >>= λ str. some (c_str str.memory)

abbrev pub user_page : ℕ → Bytes → Option User → Reply
user_page size name (some user) =
    build_http_response size 200 (codes "OK") (snprintf body_max (format_user_info user))
user_page size name none =
    build_http_response size 404 (codes "NOT FOUND")
      (snprintf body_max (codes "NOT_FOUND " ++ (name ++ codes "\n")))

abbrev pub find_named : {U : Type 0} → UserStore U → U → ℕ → Option Bytes → Reply
find_named store users size none = crashed
find_named store users size (some []) =
    build_http_response size 400 (codes "BAD REQUEST") (codes "ERROR: empty user name\n")
find_named store users size (some (c ∷ name)) =
    user_page size (c ∷ name) (store.user_store_find users (c ∷ name))

unfoldable pub handle_user_by_name : {U : Type 0} → UserStore U → HandlerFn U
handle_user_by_name store outside server req captured size =
    some (server, find_named store server.users size (captured_name captured))

unfoldable pub handle_user_simple_find : {U : Type 0} → UserStore U → HandlerFn U
handle_user_simple_find store outside server req captured size =
    some (server, find_named store server.users size (captured_name captured))

abbrev pub find_indexed : {U : Type 0} → UserStore U → U → ℕ → Option Bytes → Reply
find_indexed store users size none = crashed
find_indexed store users size (some name) =
    user_page size name (store.user_store_find_index users name)

unfoldable pub handle_user_find_index : {U : Type 0} → UserStore U → HandlerFn U
handle_user_find_index store outside server req captured size =
    some (server, find_indexed store server.users size (captured_name captured))

abbrev added_text : Bool → Bytes
added_text true = codes "ADDED\n"
added_text false = codes "EXISTS\n"

abbrev add_body : {U : Type 0} → UserStore U → Server U → ℕ → Bytes → Server U × Reply
add_body store server size [] = (
  server,
  build_http_response size 400 (codes "BAD REQUEST")
      (codes "ERROR: POST /users requires a body with CSV data\n"),
)
add_body store server size (c ∷ body) =
    let (users, ok) = store.user_store_add server.users (c ∷ body) in
    (record server { users = users }, build_http_response size 200 (codes "OK") (added_text ok))

unfoldable pub handle_user_add : {U : Type 0} → UserStore U → HandlerFn U
handle_user_add store outside server req captured size = some (add_body store server size req.body)

abbrev pub deleted_page : ℕ → Bool → Reply
deleted_page size true = build_http_response size 200 (codes "OK") (codes "DELETED\n")
deleted_page size false = build_http_response size 404 (codes "NOT FOUND") (codes "NO_SUCH_USER\n")

-- The end that `handle_user_delete` and `handle_delete_form` share.
unfoldable pub delete_named : {U : Type 0} → UserStore U → Server U → ℕ → Bytes → Server U × Reply
delete_named store server size [] = (
  server,
  build_http_response size 400 (codes "BAD REQUEST") (codes "ERROR: DELETE requires a user name\n"),
)
delete_named store server size (c ∷ name) =
    let (users, ok) = store.user_store_delete server.users (c ∷ name) in
    (record server { users = users }, deleted_page size ok)

abbrev pub delete_captured :
    {U : Type 0} → UserStore U → Server U → ℕ → Option Bytes → Server U × Reply
delete_captured store server size none = (server, crashed)
delete_captured store server size (some name) = delete_named store server size name

unfoldable pub handle_user_delete : {U : Type 0} → UserStore U → HandlerFn U
handle_user_delete store outside server req captured size =
    some (delete_captured store server size (captured_name captured))

-- What `name_buf` holds: it is zero before the decoder writes to it, and the decoder's result is
-- not looked at.
abbrev name_buf : Option (Bytes × Bytes) → Bytes
name_buf none = []
name_buf (some (before, found)) = let (ok, written) = url_decode (drop 5 found) 64 in c_str written

unfoldable pub form_name : Bytes → Bytes
form_name body = name_buf (strstr (codes "name=") body)

unfoldable pub handle_delete_form : {U : Type 0} → UserStore U → HandlerFn U
handle_delete_form store outside server req captured size =
    some (delete_named store server size (form_name req.body))

-- The text of the users, and a note if it comes near the buffer's end.
abbrev users_text : Bytes × ℕ → Bytes
users_text (text, total) =
    if leb (body_max - 200) (length text)
    then text
      ++ snprintf (body_max - length text) (
          codes "\n... (showing first entries out of "
          ++ (decimal total ++ codes " total users)\n"))
    else text

unfoldable pub handle_user_list : {U : Type 0} → UserStore U → HandlerFn U
handle_user_list store outside server req captured size = some (
  server,
  build_http_response size 200 (codes "OK")
      (users_text (store.user_store_format_users server.users (body_max - 1))),
)

abbrev pub compared : ℕ → Option Bytes → Reply
compared size none =
    build_http_response size 500 (codes "INTERNAL SERVER ERROR")
      (codes "500 Internal Server Error\n")
compared size (some text) = build_http_response size 200 (codes "OK") text

-- The two handlers that compare, by whether they are verbose.
unfoldable pub compare_named : Outside → ℕ → Bool → Option Bytes → Reply
compare_named outside size verbose none = crashed
compare_named outside size verbose (some name) = compared size (outside.comparison name verbose)

unfoldable pub handle_user_compare : {U : Type 0} → HandlerFn U
handle_user_compare outside server req captured size =
    some (server, compare_named outside size false (captured_name captured))

unfoldable pub handle_user_compare_verbose : {U : Type 0} → HandlerFn U
handle_user_compare_verbose outside server req captured size =
    some (server, compare_named outside size true (captured_name captured))
