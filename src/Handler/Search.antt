-- ===== src/Handler/Search.antt =====
-- `handle_search` of src/request_handler.c.
use uestc_shixvn_mini_web_se.CString.{str_eq, str_case_eq, strncpy, strstr, c_str}
use uestc_shixvn_mini_web_se.Handler.{
  HandlerRequest, UserStore, Criteria, Server, Outside, Reply, HandlerFn, build_http_response,
  or_failed, snprintf, body_max,
}
use uestc_shixvn_mini_web_se.Handler.Decode.{url_decode, validate_phone, validate_email}
use uestc_shixvn_mini_web_se.Handler.SearchPages.{
  search_form, unsupported_page, no_length_page, mismatch_page, no_criteria_page, first_matches,
}
use uestc_shixvn_mini_web_se.Handler.Served.{stays}
use uestc_shixvn_mini_web_se.Http.Response.{http_build_response}
use uestc_shixvn_mini_web_se.Prelude.{
  Bytes, ℕ, ◌-◌, Bool, true, false, not, ◌||◌, Option, none, some, [], ◌∷◌, ◌++◌, ℤ, pos, negsuc,
  length, take, drop, leb, ◌==◌, if◌then◌else◌, codes,
}

-- A field of the form is refused with a text, or its value goes on.
pub data Checked : Type 0 where
  rejected : Bytes → Checked
  accepted : Bytes → Checked

pub data Search : Type 0 where
  refuse : Bytes → Search
  search : Criteria → Search

abbrev and_then : Checked → (Bytes → Search) → Search
and_then (rejected message) next = refuse message
and_then (accepted value) next = next value

-- The value behind a label, decoded into a zeroed buffer; `none` if the decoder refuses it.
abbrev decoded_field : ℕ → ℕ → Option (Bytes × Bytes) → Option Bytes
decoded_field skip size none = some []
decoded_field skip size (some (before, found)) =
    let (ok, written) = url_decode (drop skip found) size in
    if ok then some (c_str written) else none

unfoldable pub search_field : Bytes → ℕ → Bytes → Option Bytes
search_field label size body = decoded_field (length label) size (strstr label body)

abbrev checked_value : (Bytes → Bool) → Bytes → Bytes → Checked
checked_value valid message [] = accepted []
checked_value valid message (c ∷ value) =
    if valid (c ∷ value) then accepted (c ∷ value) else rejected message

unfoldable pub check_field : (Bytes → Bool) → Bytes → Bytes → Option Bytes → Checked
check_field valid undecoded message none = rejected undecoded
check_field valid undecoded message (some value) = checked_value valid message value

abbrev any_value : Bytes → Bool
any_value value = true

unfoldable pub search_criteria : Bytes → Search
search_criteria body =
    and_then
      (check_field any_value (codes "URL encoding error in name parameter.\n") []
        (search_field (codes "name=") 64 body))
      λ name.
        and_then
          (check_field validate_phone (codes "URL encoding error in phone parameter.\n")
            (codes "Invalid phone format.\n") (search_field (codes "phone=") 32 body))
          λ phone.
            and_then
              (check_field validate_phone (codes "URL encoding error in mobile parameter.\n")
                (codes "Invalid mobile format.\n") (search_field (codes "mobile=") 32 body))
              λ mobile.
                and_then
                  (check_field validate_email (codes "URL encoding error in email parameter.\n")
                    (codes "Invalid email format.\n") (search_field (codes "email=") 64 body))
                  λ email. search (record {
                    name = strncpy 63 name;
                    phone = strncpy 31 phone;
                    mobile = strncpy 31 mobile;
                    email = strncpy 63 email;
                  })

abbrev pub has_criteria : Criteria → Bool
has_criteria c =
    not (str_eq c.name [])
    || (not (str_eq c.phone []) || (not (str_eq c.mobile []) || not (str_eq c.email [])))

abbrev typed_page : Outside → ℕ → Bytes → Bytes → ℕ → Bool → Bytes → Reply
typed_page outside size status_text content_type status keep_alive body =
    or_failed
      (http_build_response status status_text content_type body keep_alive outside.date size)

abbrev html_page : Outside → ℕ → ℕ → Bytes → Bool → Bytes → Reply
html_page outside size status status_text keep_alive body =
    typed_page outside size status_text (codes "text/html; charset=utf-8") status keep_alive
      (snprintf body_max body)

-- The text that `user_store_search` writes stands in the first 2 MB of the buffer.
abbrev with_note : ℕ → Bytes → Bytes
with_note match_count body =
    if leb 500 match_count
    then body ++ snprintf (body_max - length body) (first_matches match_count)
    else body

-- The text of the error is 26 bytes long, and 25 are sent.
abbrev found_page : Outside → HandlerRequest → ℕ → Option ℕ × Bytes → Reply
found_page outside req size (none, body) =
    typed_page outside size (codes "INTERNAL SERVER ERROR") (codes "text/plain; charset=utf-8") 500
      false (take 25 (codes "500 Internal Server Error\n"))
found_page outside req size (some match_count, body) =
    typed_page outside size (codes "OK") (codes "text/html; charset=utf-8") 200 (stays req)
      (with_note match_count body)

abbrev run_search :
    {U : Type 0} → UserStore U → Outside → Server U → HandlerRequest → ℕ → Search → Reply
run_search store outside server req size (refuse message) =
    build_http_response size 400 (codes "BAD REQUEST") message
run_search store outside server req size (search criteria) =
    if not (has_criteria criteria)
    then html_page outside size 200 (codes "OK") (stays req) no_criteria_page
    else found_page outside req size (store.user_store_search server.users criteria 2097152)

abbrev check_length :
    {U : Type 0} → UserStore U → Outside → Server U → HandlerRequest → ℕ → ℤ → Reply
check_length store outside server req size (negsuc n) =
    html_page outside size 400 (codes "BAD REQUEST") false no_length_page
check_length store outside server req size (pos n) =
    if not (length req.body == n)
    then html_page outside size 400 (codes "BAD REQUEST") false (mismatch_page (length req.body) n)
    else run_search store outside server req size (search_criteria req.body)

unfoldable pub handle_search : {U : Type 0} → UserStore U → HandlerFn U
handle_search store outside server req captured size =
    if str_eq req.method (codes "GET")
    then some (
      server,
      typed_page outside size (codes "OK") (codes "text/html; charset=utf-8") 200 (stays req)
          search_form,
    )
    else if not (str_case_eq (codes "application/x-www-form-urlencoded") req.content_type)
    then some
        (server, html_page outside size 415 (codes "UNSUPPORTED MEDIA TYPE") false unsupported_page)
    else some (server, check_length store outside server req size req.content_length_hdr)
