-- ===== src/Http/Body.antt =====
-- `http_parse_body` of src/http_parser.c.
use uestc_shixvn_mini_web_se.CString.{c_str, strstr, trim_end}
use uestc_shixvn_mini_web_se.Http.Request.{Request, max_body}
use uestc_shixvn_mini_web_se.Prelude.{
  Bytes, ℕ, ◌-◌, min, Bool, ◌||◌, none, some, [], ◌∷◌, ℤ, to_nat, length, take, drop, ltb, ◌==◌,
  if◌then◌else◌, codes,
}

abbrev pub is_crlf : ℕ → Bool
is_crlf c = c == 13 || c == 10

-- How much of the bytes that are there is copied.
unfoldable pub body_length : ℤ → ℕ → ℕ
body_length content_length available =
    if ltb 0 (to_nat content_length)
    then min (min available (to_nat content_length)) (max_body - 1)
    else min available (max_body - 1)

abbrev pub expected_length : Request → ℕ
expected_length req =
    if ltb 0 (to_nat req.content_length) then to_nat req.content_length else req.body_expected

-- `available` are the bytes behind the blank line. The result is the number of bytes copied, before
-- the CR and LF at the end are cut off.
unfoldable pub take_body : Bytes → Request → Request × ℕ
take_body [] req = (req, 0)
take_body (x ∷ available) req =
    let n = body_length req.content_length (length (x ∷ available)) in
    (
      record req {
        body = trim_end is_crlf (take n (x ∷ available));
        body_expected = expected_length req;
      },
      n,
    )

-- The blank line is looked for before the first NUL; the body may hold any byte.
unfoldable pub http_parse_body : Bytes → Request → Request × ℕ
http_parse_body raw req = elim (strstr (codes "\r\n\r\n") (c_str raw)) [
  | none ↦ (req, 0)
  | some (head, tail) ↦ take_body (drop 4 (drop (length head) raw)) req
]
