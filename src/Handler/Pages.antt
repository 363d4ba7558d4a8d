-- ===== src/Handler/Pages.antt =====
-- The pages that src/request_handler.c sends, in the order of the source. Their literals are
-- stored in UTF-8.
use Prim.Native.Char.{code}
use Prim.Native.String.{String}
use uestc_shixvn_mini_web_se.Prelude.{Bytes, ℕ, ◌+◌, ◌/◌, ◌%◌, List, [], ◌∷◌, ltb, if◌then◌else◌}

-- A character in UTF-8, before the bytes that follow.
unfoldable pub utf8 : ℕ → Bytes → Bytes
utf8 c rest =
    if ltb c 128
    then c ∷ rest
    else if ltb c 2048
    then (192 + c / 64) ∷ (128 + c % 64) ∷ rest
    else if ltb c 65536
    then (224 + c / 4096) ∷ (128 + c / 64 % 64) ∷ (128 + c % 64) ∷ rest
    else (240 + c / 262144) ∷ (128 + c / 4096 % 64) ∷ (128 + c / 64 % 64) ∷ (128 + c % 64) ∷ rest

abbrev literal : String → Bytes → Bytes
literal String.[] rest = rest
literal (String.◌∷◌ c s) rest = utf8 (code c) (literal s rest)

-- The literals one behind the other.
abbrev pub text : List String → Bytes
text [] = []
text (s ∷ ss) = literal s (text ss)

-- `GET /help`.
unfoldable pub help_text : Bytes
help_text = text (
    "MiniWebServer v1.5 — HTTP API\n" ∷ "\n" ∷ "  GET  /hello                          hello\n"
    ∷ "  GET  /help                           this help\n"
    ∷ "  GET  /users                          list all users (BST inorder)\n"
    ∷ "  GET  /users/<name>                   find user by name\n"
    ∷ "  GET  /users/find-index/<name>        find user via BST index\n"
    ∷ "  GET  /users/compare/<name>           compare linked-list vs BST search\n"
    ∷ "  GET  /users/compare-verbose/<name>   compare search (verbose)\n"
    ∷ "  GET  /user/<name>                    find user by name\n"
    ∷ "  POST /users                          add user (body: csv line)\n"
    ∷ "  POST /search                         search users by partial name match\n"
    ∷ "  DELETE /users/<name>                 delete user\n" ∷ [])

-- For a path that is not safe.
unfoldable pub forbidden_page : Bytes
forbidden_page = text (
    "<!DOCTYPE html>\n" ∷ "<html><head><title>403 Forbidden</title></head>\n"
    ∷ "<body><h1>403 Forbidden</h1></body></html>\n" ∷ [])

-- `GET /login`.
unfoldable pub login_form : Bytes
login_form = text (
    "<!DOCTYPE html>\n" ∷ "<html lang=\"en\"><head>\n" ∷ "<meta charset=\"utf-8\">\n"
    ∷ "<meta name=\"viewport\" content=\"width=device-width,initial-scale=1\">\n"
    ∷ "<title>Login — MiniWeb Server v1.7</title>\n" ∷ "<style>\n"
    ∷ "*{margin:0;padding:0;box-sizing:border-box;}\n"
    ∷ "body{font-family:-apple-system,BlinkMacSystemFont,'Segoe UI',Roboto,sans-serif;"
    ∷ "background:linear-gradient(135deg,#0f172a 0%,#1e293b 50%,#334155 100%);"
    ∷ "min-height:100vh;display:flex;align-items:center;justify-content:center;}\n"
    ∷ ".container{width:100%;max-width:400px;padding:20px;}\n"
    ∷ ".logo{text-align:center;margin-bottom:32px;}\n"
    ∷ ".logo h1{font-size:1.8rem;color:#f8fafc;font-weight:700;letter-spacing:-0.5px;}\n"
    ∷ ".logo p{color:#94a3b8;font-size:0.9rem;margin-top:6px;}\n"
    ∷ ".card{background:#fff;border-radius:16px;padding:40px;box-shadow:0 25px 50px rgba(0,0,0,0.3);}\n"
    ∷ ".card h2{font-size:1.25rem;color:#0f172a;margin-bottom:24px;font-weight:600;}\n"
    ∷ ".field{margin-bottom:16px;}\n"
    ∷ ".field label{display:block;font-size:0.82rem;color:#64748b;margin-bottom:6px;font-weight:500;}\n"
    ∷ ".field input{width:100%;padding:12px 16px;border:2px solid #e2e8f0;border-radius:10px;"
    ∷ "font-size:0.95rem;color:#0f172a;transition:border-color .2s;outline:none;}\n"
    ∷ ".field input:focus{border-color:#6366f1;}\n" ∷ ".field input::placeholder{color:#cbd5e1;}\n"
    ∷ "button{width:100%;padding:14px;background:linear-gradient(135deg,#6366f1,#4f46e5);"
    ∷ "color:#fff;border:none;border-radius:10px;font-size:1rem;font-weight:600;"
    ∷ "cursor:pointer;transition:opacity .2s,transform .1s;margin-top:8px;}\n"
    ∷ "button:hover{opacity:0.92;}\n" ∷ "button:active{transform:scale(0.98);}\n"
    ∷ ".error{background:#fef2f2;color:#dc2626;padding:12px 16px;border-radius:10px;"
    ∷ "font-size:0.85rem;margin-bottom:16px;border:1px solid #fecaca;display:none;}\n"
    ∷ ".footer{text-align:center;margin-top:24px;color:#94a3b8;font-size:0.78rem;}\n"
    ∷ "</style></head><body>\n" ∷ "<div class=\"container\">\n" ∷ "<div class=\"logo\">\n"
    ∷ "<h1>⚡ MiniWeb</h1>\n" ∷ "<p>Lightweight HTTP Server v1.7</p>\n" ∷ "</div>\n"
    ∷ "<div class=\"card\">\n" ∷ "<h2>Sign in to continue</h2>\n"
    ∷ "<div class=\"error\" id=\"error\">Invalid username or password</div>\n"
    ∷ "<form method=\"post\" action=\"/login\">\n" ∷ "<div class=\"field\">"
    ∷ "<label>Username</label>"
    ∷ "<input type=\"text\" name=\"username\" placeholder=\"Enter your username\" required autofocus>"
    ∷ "</div>\n" ∷ "<div class=\"field\">" ∷ "<label>Password</label>"
    ∷ "<input type=\"password\" name=\"password\" placeholder=\"Enter your password\" required>"
    ∷ "</div>\n" ∷ "<button type=\"submit\">Sign In</button>\n" ∷ "</form>\n</div>\n"
    ∷ "<div class=\"footer\">Session Cookie Authentication · HttpOnly</div>\n"
    ∷ "</div>\n</body></html>\n" ∷ [])

-- `POST /login` without valid credentials.
unfoldable pub login_failed : Bytes
login_failed = text (
    "<!DOCTYPE html>\n" ∷ "<html lang=\"en\"><head>\n"
    ∷ "<meta charset=\"utf-8\">\n<meta name=\"viewport\" content=\"width=device-width,initial-scale=1\">\n"
    ∷ "<title>Login Failed — MiniWeb</title>\n" ∷ "<style>\n"
    ∷ "*{margin:0;padding:0;box-sizing:border-box;}\n"
    ∷ "body{font-family:-apple-system,BlinkMacSystemFont,'Segoe UI',Roboto,sans-serif;"
    ∷ "background:linear-gradient(135deg,#0f172a 0 P0,#1e293b 50 P0,#334155 100 P0);"
    ∷ "min-height:100vh;display:flex;align-items:center;justify-content:center;}\n"
    ∷ ".container{width:100 P0;max-width:420px;padding:20px;text-align:center;}\n"
    ∷ ".card{background:#fff;border-radius:16px;padding:48px 40px;box-shadow:0 25px 50px rgba(0,0,0,0.3);}\n"
    ∷ ".icon{font-size:3rem;margin-bottom:16px;}\n"
    ∷ "h1{color:#dc2626;font-size:1.3rem;margin-bottom:8px;}\n"
    ∷ "p{color:#64748b;font-size:0.9rem;margin-bottom:24px;}\n"
    ∷ "a{display:inline-block;padding:12px 32px;background:linear-gradient(135deg,#6366f1,#4f46e5);"
    ∷ "color:#fff;text-decoration:none;border-radius:10px;font-weight:600;font-size:0.9rem;}\n"
    ∷ "a:hover{opacity:0.9;}\n" ∷ "</style></head><body>\n"
    ∷ "<div class=\"container\"><div class=\"card\">\n" ∷ "<div class=\"icon\">&#x1f512;</div>\n"
    ∷ "<h1>Login Failed</h1>\n" ∷ "<p>Invalid username or password. Please try again.</p>\n"
    ∷ "<a href=\"/login\">Try Again</a>\n" ∷ "</div></div></body></html>\n" ∷ [])

-- A route whose role the user does not have.
unfoldable pub no_permission : Bytes
no_permission = text (
    "<!DOCTYPE html>\n<html lang=\"en\"><head>\n"
    ∷ "<meta charset=\"utf-8\"><meta name=\"viewport\" content=\"width=device-width,initial-scale=1\">\n"
    ∷ "<title>403 Forbidden — MiniWeb</title>\n<style>\n"
    ∷ "*{margin:0;padding:0;box-sizing:border-box;}\n"
    ∷ "body{font-family:system-ui,sans-serif;background:linear-gradient(135deg,#1e293b,#0f172a);"
    ∷ "min-height:100vh;display:flex;align-items:center;justify-content:center;}\n"
    ∷ ".card{background:#fff;border-radius:20px;padding:48px 40px;text-align:center;"
    ∷ "box-shadow:0 25px 50px rgba(0,0,0,0.3);max-width:440px;}\n"
    ∷ ".icon{font-size:4rem;margin-bottom:16px;}\n"
    ∷ "h1{font-size:1.6rem;color:#dc2626;margin-bottom:8px;}\n"
    ∷ "p{color:#64748b;font-size:0.95rem;margin-bottom:24px;line-height:1.6;}\n"
    ∷ ".links{display:flex;gap:10px;justify-content:center;flex-wrap:wrap;}\n"
    ∷ ".links a{padding:10px 22px;background:#f1f5f9;color:#1e293b;text-decoration:none;"
    ∷ "border-radius:10px;font-size:0.9rem;font-weight:500;border:1px solid #e2e8f0;transition:all .2s;}\n"
    ∷ ".links a:hover{background:#e2e8f0;}\n"
    ∷ ".links a.logout{padding:10px 22px;background:#fee2e2;color:#dc2626;text-decoration:none;"
    ∷ "border-radius:10px;font-size:0.9rem;font-weight:500;border:1px solid #fecaca;}\n"
    ∷ ".links a.logout:hover{background:#fecaca;}\n"
    ∷ "</style></head><body>\n<div class=\"card\">\n"
    ∷ "<div class=\"icon\">🔒</div>\n<h1>403 Forbidden</h1>\n"
    ∷ "<p>You don't have permission to access this resource.<br>"
    ∷ "Please contact the administrator if you believe this is an error.</p>\n"
    ∷ "<div class=\"links\">\n" ∷ "<a href=\"/\">← Back to Home</a>\n"
    ∷ "<a href=\"/logout\" class=\"logout\">Logout</a>\n" ∷ "</div>\n</div>\n</body></html>\n" ∷ [])
