-- ===== src/Handler/Crashes.antt =====
-- The handlers that decode a captured name in place.
use uestc_shixvn_mini_web_se.CString.{c_str, IsCString}
use uestc_shixvn_mini_web_se.Handler.{
  HandlerRequest, UserStore, User, Server, Outside, Reply, crashed, HandlerFn, build_http_response,
}
use uestc_shixvn_mini_web_se.Handler.Users.{
  captured_name, user_page, find_named, find_indexed, delete_named, compared, compare_named,
  deleted_page, handle_user_by_name, handle_user_simple_find, handle_user_find_index,
  handle_user_delete, handle_user_compare, handle_user_compare_verbose,
}
use uestc_shixvn_mini_web_se.Handler.Decode.InPlace.{
  decode_path, url_decode_path-decode_path, url_decode_path-literal,
}
use uestc_shixvn_mini_web_se.Prelude.{
  Bytes, ℕ, ◌≡◌, refl, ap, ◌≢◌, ◌↔◌, Bool, true, false, Option, none, some, [], ◌∷◌, ◌++◌, arith,
}

-- What stands behind the NUL is not read.
c_str-append : (s t u : Bytes) → c_str (s ++ 0 ∷ t) ≡ c_str (s ++ 0 ∷ u)
unfolding c_str
c_str-append [] t u = refl
c_str-append (x ∷ s) t u = rw (c_str-append s t u) refl

-- What is captured is decoded in place.
captured_name-array :
    (c : ℕ) (s : Bytes)
    → IsCString (c ∷ s)
    → captured_name (c ∷ s) ≡ some (c_str (decode_path (c ∷ s) ++ 0 ∷ []))
unfolding captured_name
captured_name-array c s cs =
    let (rest, decoded) = url_decode_path-decode_path (c ∷ s) cs in
    rw decoded (ap (λ (t : Bytes). some t) (c_str-append (decode_path (c ∷ s)) rest []))

-- The process goes down in the handler exactly where nothing is captured.
abbrev pub CrashesOnEmpty : {U : Type 0} → Bytes → HandlerFn U → Type 0
CrashesOnEmpty {U} captured fn =
    (outside : Outside) (server server' : Server U) (req : HandlerRequest) (size : ℕ)
    → (fn outside server req captured size ≡ some (server', crashed))
      ↔ ((captured ≡ []) × (server ≡ server'))

response_ne :
    (size status : ℕ) (status_text body : Bytes)
    → build_http_response size status status_text body ≢ crashed
unfolding build_http_response
response_ne size status status_text body = ground arith

user_page_ne : (size : ℕ) (name : Bytes) (o : Option User) → user_page size name o ≢ crashed
user_page_ne size name none = response_ne size 404 _ _
user_page_ne size name (some user) = response_ne size 200 _ _

compared_ne : (size : ℕ) (o : Option Bytes) → compared size o ≢ crashed
compared_ne size none = response_ne size 500 _ _
compared_ne size (some text) = response_ne size 200 _ _

deleted_page_ne : (size : ℕ) (ok : Bool) → deleted_page size ok ≢ crashed
deleted_page_ne size true = response_ne size 200 _ _
deleted_page_ne size false = response_ne size 404 _ _

module _ {U : Type 0} (store : UserStore U) where
  find_named_ne :
      (users : U) (size : ℕ) (name : Bytes) → find_named store users size (some name) ≢ crashed
  find_named_ne users size [] = response_ne size 400 _ _
  find_named_ne users size (c ∷ name) = user_page_ne size (c ∷ name) _

  delete_named_ne :
      (server : Server U) (size : ℕ) (name : Bytes)
      → (delete_named store server size name).1 ≢ crashed
  unfolding delete_named
  delete_named_ne server size [] = response_ne size 400 _ _
  delete_named_ne server size (c ∷ name) = deleted_page_ne size _

some_reply : {U : Type 0} (p q : Server U × Reply) → some p ≡ some q → p.1 ≡ q.1
some_reply p q e = let same : p ≡ q = cc in ap (λ (r : Server _ × Reply). r.1) same

captured_name-empty : captured_name [] ≡ none
unfolding captured_name
captured_name-empty = rw (url_decode_path-literal []) refl

-- A handler that answers from the name without changing the server.
answers-CrashesOnEmpty :
    {U : Type 0} (answer : Option Bytes → Reply) (server server' : Server U) (captured : Bytes)
    → IsCString captured
    → answer none ≡ crashed
    → ((name : Bytes) → answer (some name) ≢ crashed)
    → (◌≡◌ {A = Option (Server U × Reply)}
        (some (server, answer (captured_name captured)))
        (some (server', crashed)))
      ↔ ((captured ≡ []) × (server ≡ server'))
answers-CrashesOnEmpty answer server server' [] cs bad good =
    ((λ e. (refl, cc)), λ e. rw (captured_name-empty, bad) (ap (λ s. some (s, crashed)) e.1))
answers-CrashesOnEmpty answer server server' (c ∷ s) cs bad good = (
  (λ e. absurd (good _ (rw (captured_name-array c s cs) at (some_reply _ _ e)))),
  λ e. absurd (cc e.0),
)

delete-CrashesOnEmpty :
    {U : Type 0} (store : UserStore U) (captured : Bytes)
    → IsCString captured
    → CrashesOnEmpty captured (handle_user_delete store)
unfolding handle_user_delete
delete-CrashesOnEmpty store [] cs outside server server' req size = (
  (λ e. (refl, cc (captured_name-empty))),
  λ e. rw captured_name-empty (ap (λ s. some (s, crashed)) e.1),
)
delete-CrashesOnEmpty store (c ∷ s) cs outside server server' req size = (
  (λ e. absurd (
      delete_named_ne store server size _ (some_reply _ _ (rw (captured_name-array c s cs) at e)))),
  λ e. absurd (cc e.0),
)

-- With a C string as what its route captured, each of the six handlers of a captured name (find by
-- name, simple find, find in the index, both comparisons, delete) takes the process down exactly if
-- that string is empty, and the server is then as it was.
pub name_handlers-CrashesOnEmpty :
    {U : Type 0} (store : UserStore U) (captured : Bytes)
    → IsCString captured
    → CrashesOnEmpty captured (handle_user_by_name store)
      × CrashesOnEmpty captured (handle_user_simple_find store)
      × CrashesOnEmpty captured (handle_user_find_index store)
      × CrashesOnEmpty captured (handle_user_compare {U = U})
      × CrashesOnEmpty captured (handle_user_compare_verbose {U = U})
      × CrashesOnEmpty captured (handle_user_delete store)
unfolding handle_user_by_name handle_user_simple_find handle_user_find_index handle_user_compare
    handle_user_compare_verbose compare_named
name_handlers-CrashesOnEmpty store captured cs = (
  (λ outside server server' req size.
      answers-CrashesOnEmpty (find_named store server.users size) server server' captured cs refl
        (find_named_ne store server.users size)),
  (λ outside server server' req size.
      answers-CrashesOnEmpty (find_named store server.users size) server server' captured cs refl
        (find_named_ne store server.users size)),
  (λ outside server server' req size.
      answers-CrashesOnEmpty (find_indexed store server.users size) server server' captured cs refl
        (λ name. user_page_ne size name _)),
  (λ outside server server' req size.
      answers-CrashesOnEmpty (compare_named outside size false) server server' captured cs refl
        (λ name. compared_ne size _)),
  (λ outside server server' req size.
      answers-CrashesOnEmpty (compare_named outside size true) server server' captured cs refl
        (λ name. compared_ne size _)),
  delete-CrashesOnEmpty store captured cs,
)
