-- ===== src/Http/RequestLine/RoundTrip.antt =====
-- A request line that is put together from its parts is read back.
use uestc_shixvn_mini_web_se.Http.Request.{Request}
use uestc_shixvn_mini_web_se.Http.RequestLine.{
  parse_uri, is_sp, http_parse_request_line, Request, parse_version,
}
use uestc_shixvn_mini_web_se.CString.{
  strncpy_fits, is_space, strchr, starts_with, digits_from, skip_while, atoi,
}
use uestc_shixvn_mini_web_se.CString.Scan.{
  cut-Avoids, Avoids-append, strchr-append, skip_while_none, Avoids,
}
use uestc_shixvn_mini_web_se.Prelude.{
  Bytes, ℕ, ◌+◌, ◌≤◌, ◌<◌, ◌≡◌, refl, ◌≢◌, some, [], ◌∷◌, ◌++◌, arith, pos, length, codes,
}

-- A method and a URI that fit their buffers, with no space and no CR in them.
pub record IsTarget (method uri : Bytes) : Type 0 where
  pub method_no_space : Avoids b' ' method
  pub method_no_cr : Avoids 13 method
  pub method_fits : length method ≤ 15
  pub uri_no_space : Avoids b' ' uri
  pub uri_no_cr : Avoids 13 uri
  pub uri_fits : length uri ≤ 1023

abbrev pub digit : ℕ → ℕ
digit n = n + b'0'

abbrev pub version_text : ℕ → ℕ → Bytes
version_text major minor = codes "HTTP/" ++ (digit major ∷ b'.' ∷ digit minor ∷ [])

abbrev pub request_line : Bytes → Bytes → Bytes → Bytes
request_line method uri version = method ++ (b' ' ∷ (uri ++ (b' ' ∷ version)))

-- A digit, at the end of the string or before a dot.
module _ (n : ℕ) (h : n < 10) where
  atoi-digit : atoi (digit n ∷ []) ≡ pos n
  unfolding atoi skip_while digits_from
  atoi-digit = ground arith

  atoi_dot : (s : Bytes) → atoi (digit n ∷ b'.' ∷ s) ≡ pos n
  unfolding atoi digits_from
  atoi_dot s = rw (skip_while_none is_space (digit n ∷ b'.' ∷ s) (ground arith)) (ground arith)

  strchr_dot : (s : Bytes) → strchr b'.' (digit n ∷ b'.' ∷ s) ≡ some (digit n ∷ [], s)
  strchr_dot s = strchr-append b'.' (digit n ∷ []) s (omega arith, tt)

module _ (major minor : ℕ) (req : Request) (h : major < 10) (k : minor < 10) where
  parse_version-text :
      parse_version (version_text major minor) req
      ≡ record req { version_major = pos major; version_minor = pos minor }
  unfolding parse_version starts_with
  parse_version-text = rw (skip_while_none is_sp (version_text major minor) refl) (
      ground (
        arith,
        atoi_dot major h (digit minor ∷ []),
        strchr_dot major h (digit minor ∷ []),
        atoi-digit minor k,
      ))

line-Avoids :
    (method uri : Bytes) (major minor : ℕ)
    → IsTarget method uri
    → major < 10
    → minor < 10
    → Avoids 13 (request_line method uri (version_text major minor))
line-Avoids method uri major minor t h k =
    Avoids-append 13 method _ t.method_no_cr
      (omega arith, Avoids-append 13 uri _ t.uri_no_cr (omega arith))

-- A line `METHOD URI HTTP/x.y` of a method of at most 15 bytes and a URI of at most 1023, neither
-- with a space or CR, the URI not empty, is read back into its parts, and changes nothing else.
pub http_parse_request_line-request_line :
    (method uri : Bytes) (major minor : ℕ) (req : Request)
    → IsTarget method uri
    → uri ≢ []
    → major < 10
    → minor < 10
    → http_parse_request_line (request_line method uri (version_text major minor)) req
      ≡ some (record req {
        method = method;
        uri = uri;
        version_major = pos major;
        version_minor = pos minor;
      })
unfolding http_parse_request_line
http_parse_request_line-request_line method [] major minor req t ne h k = absurd (ne refl)
http_parse_request_line-request_line method (u ∷ uri) major minor req t ne h k =
    rw
      (
        cut-Avoids 13 _ (line-Avoids method (u ∷ uri) major minor t h k),
        strchr-append b' ' method ((u ∷ uri) ++ (b' ' ∷ version_text major minor))
            t.method_no_space,
      )
      (rw (skip_while_none is_sp ((u ∷ uri) ++ (b' ' ∷ version_text major minor)) (ground arith)) (
        rw (strchr-append b' ' (u ∷ uri) (version_text major minor) t.uri_no_space, parse_uri)
          (rw (
            parse_version-text major minor _ h k,
            strncpy_fits 15 method t.method_fits,
            strncpy_fits 1023 (u ∷ uri) t.uri_fits,
          ))))
