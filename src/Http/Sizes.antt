-- ===== src/Http/Sizes.antt =====
-- A request whose strings fit their arrays, and that the parts of the request line fit.
use uestc_shixvn_mini_web_se.Http.RequestLine.{
  is_sp, parse_uri, minor_version, http_parse_request_line, parse_version,
}
use uestc_shixvn_mini_web_se.CString.{
  cut, atoi, starts_with, strchr, strncpy, skip_while, trim_end, push_unless,
}
use uestc_shixvn_mini_web_se.Http.Request.{
  max_body, max_headers, max_uri, http_request_init, Request, Header,
}
use uestc_shixvn_mini_web_se.Prelude.{
  Bytes, >>=-eq-some, ℕ, suc, ◌-◌, ◌≤◌, ◌≡◌, subst, inl, inr, Bool, true, false, Option, none, some,
  List, [], ◌∷◌, ◌++◌, arith, ℤ, length, take, drop, length-take, Bool-cases, codes,
}

-- Every string fits its array, with room for a NUL.
pub record HeaderFits (h : Header) : Type 0 where
  pub name_fits : length h.name ≤ 63
  pub value_fits : length h.value ≤ 255

abbrev pub AllFit : List Header → Type 0
AllFit [] = Unit {0}
AllFit (h ∷ hs) = HeaderFits h × AllFit hs

pub record Fits (req : Request) : Type 0 where
  pub method_fits : length req.method ≤ 15
  pub uri_fits : length req.uri ≤ max_uri - 1
  pub headers_fit : length req.headers ≤ max_headers
  pub each_fits : AllFit req.headers
  pub body_fits : length req.body ≤ max_body - 1

pub AllFit-append :
    (hs : List Header) (h : Header) → AllFit hs → HeaderFits h → AllFit (hs ++ h ∷ [])
AllFit-append [] h fs f = (f, tt)
AllFit-append (k ∷ hs) h fs f = (fs.0, AllFit-append hs h fs.1 f)

pub take_bound : (n : ℕ) (s : Bytes) → length (take n s) ≤ n
take_bound n s = omega (arith, length-take n s)

push_unless_bound : (b : Bool) (x : ℕ) (s : Bytes) → length (push_unless b x s) ≤ suc (length s)
push_unless_bound true x [] = omega arith
push_unless_bound false x [] = omega arith
push_unless_bound true x (y ∷ s) = omega arith
push_unless_bound false x (y ∷ s) = omega arith

pub trim_end_bound : (p : ℕ → Bool) (s : Bytes) → length (trim_end p s) ≤ length s
unfolding trim_end
trim_end_bound p [] = omega arith
trim_end_bound p (x ∷ s) =
    omega (arith, push_unless_bound (p x) x (trim_end p s), trim_end_bound p s)

-- The request line.
minor_version-Fits :
    (req : Request) (split : Option (Bytes × Bytes)) → Fits req → Fits (minor_version req split)
minor_version-Fits req none f = f
minor_version-Fits req (some (before, behind)) f = record {
  method_fits = f.method_fits;
  uri_fits = f.uri_fits;
  headers_fit = f.headers_fit;
  each_fits = f.each_fits;
  body_fits = f.body_fits;
}

major_version-Fits : (req : Request) (v : ℤ) → Fits req → Fits (record req { version_major = v })
major_version-Fits req v f = record {
  method_fits = f.method_fits;
  uri_fits = f.uri_fits;
  headers_fit = f.headers_fit;
  each_fits = f.each_fits;
  body_fits = f.body_fits;
}

parse_version-Fits : (p : Bytes) (req : Request) → Fits req → Fits (parse_version p req)
unfolding parse_version
parse_version-Fits p req f =
    let p' = skip_while is_sp p in
    elim (Bool-cases (starts_with (codes "HTTP/") p')) [
      | inl e ↦ rw e (
          minor_version-Fits _ (strchr b'.' (drop 5 p'))
            (major_version-Fits req (atoi (drop 5 p')) f))
      | inr e ↦ rw e f
    ]

uri-Fits :
    (req : Request) (s : Bytes) → Fits req → Fits (record req { uri = strncpy (max_uri - 1) s })
uri-Fits req s f = record {
  method_fits = f.method_fits;
  uri_fits = take_bound (max_uri - 1) s;
  headers_fit = f.headers_fit;
  each_fits = f.each_fits;
  body_fits = f.body_fits;
}

parse_uri-Fits :
    (rest : Bytes) (split : Option (Bytes × Bytes)) (req : Request)
    → Fits req
    → Fits (parse_uri rest split req)
parse_uri-Fits rest none req f = uri-Fits req rest f
parse_uri-Fits rest (some (uri', [])) req f = uri-Fits req uri' f
parse_uri-Fits rest (some (uri', x ∷ s)) req f = parse_version-Fits (x ∷ s) _ (uri-Fits req uri' f)

method-Fits : (req : Request) (s : Bytes) → Fits req → Fits (record req { method = strncpy 15 s })
method-Fits req s f = record {
  method_fits = take_bound 15 s;
  uri_fits = f.uri_fits;
  headers_fit = f.headers_fit;
  each_fits = f.each_fits;
  body_fits = f.body_fits;
}

pub init-Fits : Fits http_request_init
unfolding http_request_init
init-Fits = record {
  method_fits = omega arith;
  uri_fits = omega arith;
  headers_fit = omega arith;
  each_fits = tt;
  body_fits = omega arith;
}

pub http_parse_request_line-Fits :
    (line : Bytes) (req r : Request) → Fits req → http_parse_request_line line req ≡ some r → Fits r
unfolding http_parse_request_line
http_parse_request_line-Fits line req r f e =
    let (split, found, parsed) = >>=-eq-some (strchr b' ' (cut 13 line)) _ e in
    let rest = skip_while is_sp split.1 in
    let g = parse_uri-Fits rest (strchr b' ' rest) _ (method-Fits req split.0 f) in
    subst Fits (ground (arith, parsed)) g

pub keep_alive-Fits : (req : Request) (b : Bool) → Fits req → Fits (record req { keep_alive = b })
keep_alive-Fits req b f = record {
  method_fits = f.method_fits;
  uri_fits = f.uri_fits;
  headers_fit = f.headers_fit;
  each_fits = f.each_fits;
  body_fits = f.body_fits;
}
