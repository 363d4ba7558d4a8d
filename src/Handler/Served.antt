-- ===== src/Handler/Served.antt =====
-- The handlers of src/request_handler.c that serve files.
use uestc_shixvn_mini_web_se.CString.{str_eq}
use uestc_shixvn_mini_web_se.Handler.{
  HandlerRequest, Outside, Reply, crashed, failed, replied, HandlerFn, or_failed, snprintf,
  body_max,
}
use uestc_shixvn_mini_web_se.Handler.Pages.{forbidden_page}
use uestc_shixvn_mini_web_se.Http.Files.{http_is_safe_path, http_serve_file}
use uestc_shixvn_mini_web_se.Http.Response.{
  http_build_response, http_build_redirect, Redirect, refused, overread, sent,
}
use uestc_shixvn_mini_web_se.Prelude.{
  Bytes, ℕ, Bool, false, not, Option, none, some, ◌++◌, length, drop, ltb, if◌then◌else◌, codes,
}

abbrev page_type : Bytes
page_type = codes "text/html; charset=utf-8"

abbrev pub forbidden : Outside → ℕ → Reply
forbidden outside size = or_failed (
    http_build_response 403 (codes "FORBIDDEN") page_type (snprintf body_max forbidden_page) false
      outside.date size)

-- `req->keep_alive > 0 ? req->keep_alive : 1`, as the test that the builder makes of it.
abbrev pub stays : HandlerRequest → Bool
stays req = ltb 0 (if ltb 0 req.keep_alive then req.keep_alive else 1)

abbrev pub served : Outside → HandlerRequest → ℕ → Bytes × Bytes → Reply
served outside req size (content, ct) =
    or_failed (http_build_response 200 (codes "OK") ct content (stays req) outside.date size)

abbrev or_missing : Outside → HandlerRequest → ℕ → Reply → Option (Bytes × Bytes) → Reply
or_missing outside req size missing none = missing
or_missing outside req size missing (some file) = served outside req size file

unfoldable pub handle_static : {U : Type 0} → HandlerFn U
handle_static outside server req captured size =
    if not (http_is_safe_path req.path)
    then some (server, forbidden outside size)
    else some (
      server,
      or_missing outside req size failed
          (http_serve_file outside.files server.current_root req.path body_max),
    )

abbrev pub redirected : Redirect → Reply
redirected refused = failed
redirected overread = crashed
redirected (sent out) = replied (length out) out

unfoldable pub blog_missing : Bytes → Bytes
blog_missing path =
    codes
      "<!DOCTYPE html>\n<html><head><title>404 Not Found</title></head>\n<body><h1>404 Not Found</h1>\n<p>The requested URL "
    ++ (path
        ++ codes
            " was not found on this server.</p>\n<p><a href=\"/blog/\">Back to Blog Home</a></p>\n</body></html>\n")

abbrev pub missing_page : Outside → HandlerRequest → ℕ → Reply
missing_page outside req size = or_failed (
    http_build_response 404 (codes "NOT FOUND") page_type
      (snprintf body_max (blog_missing req.path)) (stays req) outside.date size)

-- The routes of this handler start with "/blog", which it skips.
unfoldable pub handle_blog : {U : Type 0} → HandlerFn U
handle_blog outside server req captured size =
    if not (http_is_safe_path req.path)
    then some (server, forbidden outside size)
    else if str_eq req.path (codes "/blog")
    then some (server, redirected (http_build_redirect 301 (codes "/blog/") outside.date size))
    else some (
      server,
      or_missing outside req size (missing_page outside req size)
          (http_serve_file outside.files (codes "blog") (drop 5 req.path) body_max),
    )
