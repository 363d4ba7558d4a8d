-- ===== src/Handler.antt =====
-- src/request_handler.c: from a request's bytes to the response. The user store is an argument of
-- the handlers, through the operations of include/user_store.h that they call.
pub mod Decode
pub mod Pages
pub mod SearchPages
pub mod Search
pub mod Index
pub mod Users
pub mod Login
pub mod Served
pub mod Dispatch
pub mod Process
pub mod Authorized
pub mod Guarded
pub mod Sessions
pub mod Message
pub mod Connection
pub mod KeepAlive
pub mod Crashes
pub mod Passwords
pub mod Basic
mod Examples
mod Tests
mod ConnectionTests
pub mod Credentials
use uestc_shixvn_mini_web_se.CString.{strncpy}
use uestc_shixvn_mini_web_se.CString.Format.{decimal}
use uestc_shixvn_mini_web_se.Session.{SessionStore, Entropy}
use uestc_shixvn_mini_web_se.Prelude.{
  Bytes, ◌>>=◌, >>=-eq-some, ℕ, zero, suc, ◌+◌, ◌-◌, ◌*◌, ◌/◌, ◌%◌, ◌^◌, ◌≤◌, ◌<◌, min, bit_or, ◌≡◌,
  refl, sym, ap, subst, ◌∙◌, ◌≢◌, ◌↔◌, ◌⊎◌, inl, inr, Bool, true, false, not, ◌&&◌, ◌||◌, Option,
  none, some, List, [], ◌∷◌, ◌++◌, map, append-nil, append_assoc, arith, ℤ, sub_ℕ, to_nat, is_int,
  pos, negsuc, length, get_elem?, set, length-append, length-set, get_elem?-set_self,
  get_elem?-set_ne, get_or, take, drop, replicate, take-append-drop, length-take, length-drop,
  length-replicate, length-map, get_or-set, get_or-beyond, passes, passes-at, ltb, leb, ◌==◌,
  if◌then◌else◌, ltb→lt, lt→ltb, leb→le, ==_iff, tests, Bool-cases, Option-cases, codes,
}

-- `request_t`; a string is its bytes before the NUL. The HTTP version, which nothing here reads, is
-- left out.
pub record HandlerRequest : Type 0 where
  pub method : Bytes
  pub path : Bytes
  pub body : Bytes
  pub keep_alive : ℕ
  pub content_type : Bytes
  pub content_length_hdr : ℤ
  pub authorization : Bytes
  pub cookie : Bytes

-- One entry of the credential store.
pub record AuthUser : Type 0 where
  pub username : Bytes
  pub password : Bytes
  pub role : Bytes

-- The fields of a user that the handlers print.
pub record User : Type 0 where
  pub name : Bytes
  pub password : Bytes
  pub birthdate : Bytes
  pub phone : Bytes
  pub mobile : Bytes
  pub email : Bytes

-- `search_criteria_t`.
pub record Criteria : Type 0 where
  pub name : Bytes
  pub phone : Bytes
  pub mobile : Bytes
  pub email : Bytes

-- The operations of the user store, on its state. A Boolean is whether the result is 0, for
-- `user_store_auth` whether it is not.
pub record UserStore (U : Type 0) : Type 0 where
  pub user_store_auth : U → Bytes → Bytes → Bool
  pub user_store_find : U → Bytes → Option User
  pub user_store_find_index : U → Bytes → Option User
  pub user_store_add : U → Bytes → U × Bool
  pub user_store_delete : U → Bytes → U × Bool
  pub user_store_lookup_name : U → Bytes → Option Bytes
  -- The users as text, in a buffer of a size: the text, and the total number of users.
  pub user_store_format_users : U → ℕ → Bytes × ℕ
  -- The number of matches, if not negative, and the text, in a buffer of a size.
  pub user_store_search : U → Criteria → ℕ → Option ℕ × Bytes

-- What the handlers share: `g_current_root`, `g_auth_users` up to its count, the sessions and the
-- users.
pub record Server (U : Type 0) : Type 0 where
  pub current_root : Bytes
  pub auth_users : List AuthUser
  pub sessions : SessionStore
  pub users : U

-- What one call finds outside: the date as text, what `time(NULL)` returns each time, the bytes for
-- a token, the contents of the regular files, and what `capture_stdout` reads of the comparison of
-- the two ways to search, which prints times.
pub record Outside : Type 0 where
  pub date : Bytes
  pub lookup_time : ℕ
  pub first_cleanup : ℕ
  pub second_cleanup : ℕ
  pub creation_time : ℕ
  pub entropy : Entropy
  pub files : Bytes → Option Bytes
  pub comparison : Bytes → Bool → Option Bytes

-- A write to read-only memory or a read behind an array, the result -1, or the result with what
-- stands in the buffer.
pub data Reply : Type 0 where
  crashed failed : Reply
  replied : ℕ → Bytes → Reply

abbrev pub or_failed : Option Bytes → Reply
or_failed none = failed
or_failed (some out) = replied (length out) out

-- `snprintf` into a buffer of `size` bytes: the result is the text's whole length.
abbrev pub snprintf : ℕ → Bytes → Bytes
snprintf size text = take (size - 1) text

abbrev pub printed : ℕ → Bytes → Reply
printed size text = replied (length text) (snprintf size text)

-- `g_body_buf`.
abbrev pub body_max : ℕ
body_max = 5242880

unfoldable pub request_handler_set_root : {U : Type 0} → Bytes → Server U → Server U
request_handler_set_root [] server = server
request_handler_set_root (c ∷ root) server = record server { current_root = strncpy 127 (c ∷ root) }

unfoldable pub plain_response : ℕ → Bytes → Bytes → Bytes
plain_response status status_text body =
    codes "HTTP/1.1 "
    ++ (decimal status
        ++ (b' '
            ∷ (status_text
                ++ (codes "\r\nContent-Type: text/plain; charset=utf-8\r\nContent-Length: "
                    ++ (decimal (length body)
                        ++ (codes "\r\nConnection: Keep-Alive\r\n\r\n" ++ body))))))

unfoldable pub build_http_response : ℕ → ℕ → Bytes → Bytes → Reply
build_http_response size status status_text body =
    let out = plain_response status status_text body in
    if leb size (length out) then failed else replied (length out) out

-- What a handler leaves and answers; `none` is a loop over the sessions that does not end.
abbrev pub Answer : Type 0 → Type 0
Answer U = Option (Server U × Reply)

-- A handler: the request, what a prefix route captured, and the size of the output buffer.
abbrev pub HandlerFn : Type 0 → Type 0
HandlerFn U = Outside → Server U → HandlerRequest → Bytes → ℕ → Answer U
