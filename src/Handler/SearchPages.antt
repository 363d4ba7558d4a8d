-- ===== src/Handler/SearchPages.antt =====
-- The pages of the search and of the front page in src/request_handler.c.
use uestc_shixvn_mini_web_se.CString.Format.{decimal}
use uestc_shixvn_mini_web_se.Handler.Pages.{text}
use uestc_shixvn_mini_web_se.Prelude.{Bytes, ℕ, [], ◌∷◌, ◌++◌}

-- `GET /search`.
unfoldable pub search_form : Bytes
search_form = text (
    "<!DOCTYPE html>\n<html lang=\"en\"><head>\n<meta charset=\"utf-8\">\n"
    ∷ "<title>Search — MiniWeb</title>\n<style>\n"
    ∷ "*{margin:0;padding:0;box-sizing:border-box;}\n"
    ∷ "body{font-family:system-ui,sans-serif;background:#f1f5f9;min-height:100vh;}\n"
    ∷ "nav{background:#fff;border-bottom:1px solid #e2e8f0;padding:0 24px;display:flex;"
    ∷ "align-items:center;justify-content:space-between;height:56px;box-shadow:0 1px 3px #0001;}\n"
    ∷ ".brand{font-weight:700;font-size:1.1rem;color:#6366f1;text-decoration:none;}\n"
    ∷ ".nav-right a{padding:6px 16px;background:#fee2e2;color:#dc2626;border:1px solid #fecaca;"
    ∷ "border-radius:8px;font-size:.82rem;text-decoration:none;font-weight:500;}\n"
    ∷ ".nav-right a:hover{background:#fecaca;}\n"
    ∷ "main{max-width:640px;margin:40px auto;padding:0 20px;}\n"
    ∷ ".card{background:#fff;border-radius:16px;padding:32px;box-shadow:0 1px 3px #0001;}\n"
    ∷ "h1{font-size:1.3rem;margin-bottom:20px;color:#1e293b;}\n" ∷ ".field{margin-bottom:14px;}\n"
    ∷ ".field label{display:block;font-size:.85rem;color:#64748b;margin-bottom:4px;}\n"
    ∷ ".field input{width:100%;padding:10px 14px;border:2px solid #e2e8f0;border-radius:10px;font-size:.95rem;"
    ∷ "outline:none;transition:border-color .2s;}\n" ∷ ".field input:focus{border-color:#6366f1;}\n"
    ∷ "button{width:100%;padding:12px;background:linear-gradient(135deg,#6366f1,#4f46e5);color:#fff;"
    ∷ "border:none;border-radius:10px;font-size:1rem;font-weight:600;cursor:pointer;}\n"
    ∷ "button:hover{opacity:.92;}\n" ∷ ".back{margin-top:16px;text-align:center;}\n"
    ∷ ".back a{color:#6366f1;text-decoration:none;font-size:.85rem;}\n"
    ∷ "</style></head><body>\n<nav>\n<a href=\"/\" class=\"brand\">⚡ MiniWeb</a>\n"
    ∷ "<div class=\"nav-right\"><a href=\"/logout\">Logout</a></div>\n</nav>\n"
    ∷ "<main>\n<div class=\"card\">\n<h1>🔍 User Search</h1>\n"
    ∷ "<form method=\"post\" action=\"/search\" enctype=\"application/x-www-form-urlencoded\">\n"
    ∷ "<div class=\"field\"><label>Name</label><input type=\"text\" name=\"name\" placeholder=\"e.g. 赵安\" autofocus></div>\n"
    ∷ "<div class=\"field\"><label>Phone</label><input type=\"text\" name=\"phone\" placeholder=\"e.g. 138\"></div>\n"
    ∷ "<div class=\"field\"><label>Email</label><input type=\"text\" name=\"email\" placeholder=\"e.g. @example.com\"></div>\n"
    ∷ "<button type=\"submit\">Search</button>\n</form>\n"
    ∷ "<div class=\"back\"><a href=\"/\">← Back to Dashboard</a></div>\n"
    ∷ "</div>\n</main>\n</body></html>\n" ∷ [])

-- `POST /search` of another type.
unfoldable pub unsupported_page : Bytes
unsupported_page = text (
    "<!DOCTYPE html>\n" ∷ "<html lang=\"en\"><head>\n" ∷ "<meta charset=\"utf-8\">\n"
    ∷ "<title>415 Unsupported Media Type</title>\n" ∷ "<style>"
    ∷ "body{font-family:sans-serif;max-width:640px;margin:48px auto;"
    ∷ "padding:0 16px;text-align:center;}" ∷ "h1{color:#dc2626;}" ∷ "</style></head><body>\n"
    ∷ "<h1>415 Unsupported Media Type</h1>\n" ∷ "<p>This endpoint only accepts "
    ∷ "<code>application/x-www-form-urlencoded</code>.</p>\n"
    ∷ "<p><a href=\"/\">Back to Search</a></p>\n" ∷ "</body></html>\n" ∷ [])

-- `POST /search` without a length.
unfoldable pub no_length_page : Bytes
no_length_page = text (
    "<!DOCTYPE html>\n" ∷ "<html lang=\"en\"><head>\n" ∷ "<meta charset=\"utf-8\">\n"
    ∷ "<title>400 Bad Request</title>\n" ∷ "<style>"
    ∷ "body{font-family:sans-serif;max-width:640px;margin:48px auto;"
    ∷ "padding:0 16px;text-align:center;}" ∷ "h1{color:#dc2626;}" ∷ "</style></head><body>\n"
    ∷ "<h1>400 Bad Request</h1>\n" ∷ "<p>Content-Length header is required.</p>\n"
    ∷ "<p><a href=\"/\">Back to Search</a></p>\n" ∷ "</body></html>\n" ∷ [])

-- With the length of the body, and the length that the header says.
unfoldable pub mismatch_page : ℕ → ℕ → Bytes
mismatch_page body_len expected =
    text (
      "<!DOCTYPE html>\n" ∷ "<html lang=\"en\"><head>\n" ∷ "<meta charset=\"utf-8\">\n"
      ∷ "<title>400 Bad Request</title>\n" ∷ "<style>"
      ∷ "body{font-family:sans-serif;max-width:640px;margin:48px auto;"
      ∷ "padding:0 16px;text-align:center;}" ∷ "h1{color:#dc2626;}" ∷ "</style></head><body>\n"
      ∷ "<h1>400 Bad Request</h1>\n" ∷ "<p>Body length (" ∷ [])
    ++ (decimal body_len
        ++ (text (" bytes) does not match " ∷ "Content-Length (" ∷ [])
            ++ (decimal expected
                ++ (text (
                    " bytes).</p>\n" ∷ "<p><a href=\"/\">Back to Search</a></p>\n"
                    ∷ "</body></html>\n" ∷ [])))))

-- `POST /search` without a criterion.
unfoldable pub no_criteria_page : Bytes
no_criteria_page = text (
    "<!DOCTYPE html>\n" ∷ "<html lang=\"en\"><head>\n" ∷ "<meta charset=\"utf-8\">\n"
    ∷ "<title>User Search</title>\n" ∷ "<style>"
    ∷ "body{font-family:sans-serif;max-width:640px;margin:48px auto;" ∷ "padding:0 16px;}"
    ∷ "</style></head><body>\n" ∷ "<h1>User Search</h1>\n"
    ∷ "<form method=\"post\" action=\"/search\""
    ∷ " enctype=\"application/x-www-form-urlencoded\">\n"
    ∷ "<p><label>Name: <input type=\"text\" name=\"name\"></label></p>\n"
    ∷ "<p><label>Phone: <input type=\"text\" name=\"phone\"></label></p>\n"
    ∷ "<p><label>Email: <input type=\"text\" name=\"email\"></label></p>\n"
    ∷ "<p><button type=\"submit\">Search</button></p>\n" ∷ "</form>\n"
    ∷ "<p>Please enter at least one search criterion.</p>\n" ∷ "</body></html>\n" ∷ [])

-- Behind the first matches, if there are many.
unfoldable pub first_matches : ℕ → Bytes
first_matches match_count =
    text ("\n<p style=\"color:#dc2626;text-align:center;\">" ∷ "⚠ Showing first 500 of " ∷ [])
    ++ (decimal match_count ++ (text ("+ matches. Narrow your search.</p>\n" ∷ [])))

-- The front page of a user, without index.html.
unfoldable pub welcome_user : ℕ → Bytes → Bytes
welcome_user initial username =
    text (
      "<!DOCTYPE html>\n<html><head><meta charset=\"utf-8\"><title>MiniWeb</title><style>"
      ∷ "body{font-family:system-ui,sans-serif;background:#f1f5f9;margin:0;}"
      ∷ "nav{background:#fff;border-bottom:1px solid #e2e8f0;padding:0 24px;display:flex;"
      ∷ "align-items:center;justify-content:space-between;height:52px;box-shadow:0 1px 3px #0001;}"
      ∷ ".brand{font-weight:700;font-size:1.1rem;color:#6366f1;text-decoration:none;}"
      ∷ ".ui{display:flex;align-items:center;gap:10px;font-size:.85rem;}"
      ∷ ".av{width:28px;height:28px;border-radius:50%;background:linear-gradient(135deg,#6366f1,#4f46e5);"
      ∷ "color:#fff;display:flex;align-items:center;justify-content:center;font-weight:700;}"
      ∷ ".lo{padding:5px 14px;background:#fee2e2;color:#dc2626;border:1px solid #fecaca;"
      ∷ "border-radius:7px;text-decoration:none;font-weight:500;}"
      ∷ ".hero{text-align:center;padding:80px 20px;}"
      ∷ ".hero h1{font-size:1.8rem;color:#1e293b;margin-bottom:8px;}"
      ∷ ".hero p{color:#64748b;margin-bottom:24px;}"
      ∷ ".hero a{display:inline-block;margin:4px;padding:10px 22px;background:#fff;color:#1e293b;"
      ∷ "text-decoration:none;border-radius:10px;font-weight:500;border:1px solid #e2e8f0;}"
      ∷ ".hero a:hover{background:#f1f5f9;}" ∷ "</style></head><body>\n"
      ∷ "<nav><a href=\"/\" class=\"brand\">⚡ MiniWeb</a>" ∷ "<div class=\"ui\"><div class=\"av\">"
      ∷ [])
    ++ ((initial ∷ [])
        ++ (text ("</div><span>" ∷ [])
            ++ (username
                ++ (text (
                      "</span>" ∷ "<a href=\"/logout\" class=\"lo\">Logout</a></div></nav>\n"
                      ∷ "<div class=\"hero\"><h1>Welcome, " ∷ [])
                    ++ (username
                        ++ (text (
                            "!</h1>"
                            ∷ "<p><a href=\"/users\">📋 User List</a><a href=\"/search\">🔍 Search</a>"
                            ∷ "<a href=\"/hello\">👋 Hello</a></p></div></body></html>\n" ∷ [])))))))

-- The front page without a user and without index.html.
unfoldable pub welcome_page : Bytes
welcome_page = text (
    "<!DOCTYPE html>\n<html><head><meta charset=\"utf-8\"><title>MiniWeb</title><style>"
    ∷ "body{font-family:system-ui,sans-serif;background:linear-gradient(135deg,#0f172a,#1e293b,#334155);"
    ∷ "min-height:100vh;display:flex;align-items:center;justify-content:center;text-align:center;}"
    ∷ ".hero{color:#fff;}.hero h1{font-size:2.5rem;margin-bottom:12px;}"
    ∷ ".hero p{color:#94a3b8;margin-bottom:32px;}"
    ∷ ".hero a{padding:14px 36px;background:linear-gradient(135deg,#6366f1,#4f46e5);color:#fff;"
    ∷ "text-decoration:none;border-radius:12px;font-weight:600;}"
    ∷ "</style></head><body><div class=\"hero\"><h1>⚡ MiniWeb Server v1.7</h1>"
    ∷ "<p>Lightweight HTTP Server · Session/Cookie Auth</p>"
    ∷ "<a href=\"/login\">Sign In</a></div></body></html>\n" ∷ [])

-- The bar above the front page: before the initial of the user.
unfoldable pub nav_start : Bytes
nav_start = text (
    "<style>.mwnav{background:#1e293b;padding:0 24px;display:flex;"
    ∷ "align-items:center;justify-content:space-between;height:48px;"
    ∷ "font-family:system-ui,sans-serif;box-shadow:0 2px 6px rgba(0,0,0,0.2);}"
    ∷ ".mwnav a{text-decoration:none;transition:opacity .2s;}"
    ∷ ".mwnav .brand{font-weight:800;font-size:17px;color:#f8fafc;}"
    ∷ ".mwnav .link{padding:6px 12px;color:#94a3b8;font-size:13px;font-weight:500;border-radius:6px;}"
    ∷ ".mwnav .link:hover{color:#f8fafc;background:rgba(255,255,255,0.08);}"
    ∷ ".mwnav .av{width:30px;height:30px;border-radius:50%;"
    ∷ "background:linear-gradient(135deg,#6366f1,#818cf8);color:#fff;"
    ∷ "display:inline-flex;align-items:center;justify-content:center;"
    ∷ "font-weight:700;font-size:13px;box-shadow:0 2px 6px rgba(99,102,241,0.4);}"
    ∷ ".mwnav .uname{color:#e2e8f0;font-size:13px;font-weight:500;}"
    ∷ ".mwnav .lo{padding:6px 16px;background:rgba(255,255,255,0.1);color:#f1f5f9;"
    ∷ "border:1px solid rgba(255,255,255,0.2);border-radius:8px;font-size:12px;}"
    ∷ ".mwnav .lo:hover{background:#dc2626;border-color:#dc2626;}"
    ∷ "</style>\n<div class=\"mwnav\">\n"
    ∷ "<div style=\"display:flex;align-items:center;gap:18px;\">\n"
    ∷ "<a href=\"/\" class=\"brand\">⚡ MiniWeb</a>\n"
    ∷ "<a href=\"/users\" class=\"link\">Users</a>\n"
    ∷ "<a href=\"/search\" class=\"link\">Search</a>\n" ∷ "</div>\n"
    ∷ "<div style=\"display:flex;align-items:center;gap:10px;\">\n" ∷ "<span class=\"av\">" ∷ [])

-- Before the name.
unfoldable pub nav_name : Bytes
nav_name = text ("</span>\n<span class=\"uname\">" ∷ [])

-- Behind the name.
unfoldable pub nav_end : Bytes
nav_end = text ("</span>\n<a href=\"/logout\" class=\"lo\">Logout</a>\n" ∷ "</div>\n</div>\n" ∷ [])
