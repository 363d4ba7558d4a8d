-- ===== src/Handler/Index.antt =====
-- `handle_index` of src/request_handler.c: the front page, with a bar for a user who is logged in.
use uestc_shixvn_mini_web_se.CString.{strstr, strchr, c_str, starts_with_case}
use uestc_shixvn_mini_web_se.CString.Format.{decimal}
use uestc_shixvn_mini_web_se.Handler.{
  HandlerRequest, UserStore, Server, Outside, Reply, replied, HandlerFn, or_failed, snprintf,
  body_max,
}
use uestc_shixvn_mini_web_se.Handler.Credentials.{cookie_session}
use uestc_shixvn_mini_web_se.Handler.SearchPages.{
  welcome_user, welcome_page, nav_start, nav_name, nav_end,
}
use uestc_shixvn_mini_web_se.Handler.Served.{stays}
use uestc_shixvn_mini_web_se.Http.Files.{http_serve_file}
use uestc_shixvn_mini_web_se.Http.Response.{http_build_response}
use uestc_shixvn_mini_web_se.Session.{SessionStore, session_lookup, session_at}
use uestc_shixvn_mini_web_se.Prelude.{
  Bytes, ◌>>=◌, ℕ, ◌+◌, ◌-◌, Bool, ◌&&◌, Option, none, some, [], ◌∷◌, ◌++◌, length, take, drop, ltb,
  leb, if◌then◌else◌, codes,
}

abbrev name_at : SessionStore × Option ℕ → SessionStore × Option Bytes
name_at (st, none) = (st, none)
name_at (st, some i) = (st, some (session_at st i).username)

abbrev name_of : ℕ → SessionStore → Option Bytes → Option (SessionStore × Option Bytes)
name_of now st none = some (st, none)
name_of now st (some sid) = session_lookup sid now st >>= λ r. some (name_at r)

-- `username[0]`, at the NUL too.
abbrev first_char : Bytes → ℕ
first_char [] = 0
first_char (c ∷ s) = c

-- `char` is signed: a byte from 128 on is less than 'a'.
unfoldable pub initial_of : Bytes → ℕ
initial_of username = let c = first_char username in if leb b'a' c && ltb c 128 then c - 32 else c

abbrev front_page : Outside → HandlerRequest → ℕ → Bytes → Bytes → Reply
front_page outside req size ct body =
    or_failed (http_build_response 200 (codes "OK") ct body (stays req) outside.date size)

abbrev welcome : Outside → HandlerRequest → ℕ → Option Bytes → Reply
welcome outside req size (some username) =
    front_page outside req size (codes "text/html; charset=utf-8")
      (c_str (snprintf 2048 (welcome_user (initial_of username) username)))
welcome outside req size none =
    front_page outside req size (codes "text/html; charset=utf-8") welcome_page

unfoldable pub uncached_head : Bytes → ℕ → Bool → Bytes
uncached_head ct file_len keep_alive =
    codes "HTTP/1.1 200 OK\r\nServer: MiniWeb/1.7\r\nContent-Type: "
    ++ (ct
        ++ (codes "\r\nContent-Length: "
            ++ (decimal file_len
                ++ (codes "\r\nConnection: "
                    ++ ((if keep_alive then codes "Keep-Alive" else codes "close")
                        ++ codes
                            "\r\nCache-Control: no-cache, no-store, must-revalidate\r\nPragma: no-cache\r\nExpires: 0\r\n\r\n")))))

-- The page as it is, with its own header; with the usual one where that does not fit.
abbrev uncached : Outside → HandlerRequest → ℕ → Bytes × Bytes → Reply
uncached outside req size (content, ct) =
    let head = uncached_head ct (length content) (ltb 0 req.keep_alive) in
    if ltb (length head) size && ltb (length content) (size - length head)
    then replied (length head + length content) (head ++ content)
    else front_page outside req size ct content

-- What stands before "<body" in any case, and what starts with it.
unfoldable pub find_body_tag : Bytes → Option (Bytes × Bytes)
find_body_tag [] = none
find_body_tag (c ∷ s) =
    let rest = find_body_tag s in
    if starts_with_case (codes "<body") (c ∷ s)
    then some ([], c ∷ s)
    else (rest >>= λ (a : Bytes × Bytes). some (c ∷ a.0, a.1))

abbrev or_upper : Bytes → Option (Bytes × Bytes) → Option (Bytes × Bytes)
or_upper page (some found) = some found
or_upper page none = strstr (codes "<BODY") page

abbrev head_len_at : Bytes → Option (Bytes × Bytes) → Option ℕ
head_len_at before none = none
head_len_at before (some (tag, behind)) = some (length before + length tag + 1)

-- The length of the page up to the end of its body tag.
unfoldable pub nav_position : Bytes → Option ℕ
nav_position content =
    or_upper (c_str content) (find_body_tag (c_str content)) >>= λ (a : Bytes × Bytes).
    head_len_at a.0 (strchr b'>' a.1)

-- `NADD`.
abbrev pub nadd : Bytes → Bytes → Bytes
nadd nav s = if ltb (length nav + length s) 2048 then nav ++ s else nav

unfoldable pub nav_bar : ℕ → Bytes → Bytes
nav_bar initial display_name =
    nadd (nadd (nadd (nadd [] nav_start ++ initial ∷ []) nav_name) display_name) nav_end

abbrev with_nav : Bytes → Bytes → Option ℕ → Bytes
with_nav content nav none = content
with_nav content nav (some head_len) =
    if ltb (head_len + length nav + (length content - head_len)) body_max
    then take head_len content ++ (nav ++ drop head_len content)
    else content

abbrev or_name : Bytes → Option Bytes → Bytes
or_name username none = username
or_name username (some real) = real

abbrev index_page :
    {U : Type 0}
    → UserStore U
    → Outside
    → Server U
    → HandlerRequest
    → ℕ
    → Option Bytes
    → Option (Bytes × Bytes)
    → Reply
index_page store outside server req size username none = welcome outside req size username
index_page store outside server req size none (some file) = uncached outside req size file
index_page store outside server req size (some username) (some (content, ct)) =
    let display_name = or_name username (store.user_store_lookup_name server.users username) in
    front_page outside req size ct
      (with_nav content (nav_bar (initial_of username) display_name) (nav_position content))

unfoldable pub handle_index : {U : Type 0} → UserStore U → HandlerFn U
handle_index store outside server req captured size =
    name_of outside.lookup_time server.sessions (cookie_session req.cookie) >>= λ r. some (
      record server { sessions = r.0 },
      index_page store outside server req size r.1
          (http_serve_file outside.files server.current_root (codes "/") body_max),
    )
