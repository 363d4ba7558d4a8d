-- ===== src/Handler/Basic.antt =====
-- The credentials that a client sends are those that are looked up.
use uestc_shixvn_mini_web_se.Base64.{base64_decode, decoded}
use uestc_shixvn_mini_web_se.Base64.Alphabet.{encode}
use uestc_shixvn_mini_web_se.Base64.RoundTrip.{AreBytes, fills, base64_decode-encode}
use uestc_shixvn_mini_web_se.CString.{strchr, c_str, strncpy_fits, starts_with_case, tolower}
use uestc_shixvn_mini_web_se.CString.Scan.{Avoids, strchr-append, c_str-append}
use uestc_shixvn_mini_web_se.Handler.{HandlerRequest, UserStore, Server, Outside}
use uestc_shixvn_mini_web_se.Handler.Authorized.{authorize-asks}
use uestc_shixvn_mini_web_se.Handler.Credentials.{auth_lookup, auth_role_matches, cookie_session}
use uestc_shixvn_mini_web_se.Handler.Dispatch.{
  session_role, role_is, basic_role, zero_buffer, admitted, authorize,
}
use uestc_shixvn_mini_web_se.Route.{RouteEntry}
use uestc_shixvn_mini_web_se.Prelude.{
  Bytes, ℕ, ◌+◌, ◌≤◌, ◌≡◌, refl, ap, ◌∙◌, ◌≢◌, true, none, some, [], ◌∷◌, ◌++◌, append-nil, length,
  take, drop, replicate, codes,
}

-- The header value that a client sends for a name and a password.
abbrev pub basic_credentials : Bytes → Bytes → Bytes
basic_credentials username password = codes "Basic " ++ encode (username ++ b':' ∷ password)

-- A name without colon and NUL, and a password without NUL, that fit the buffer with the colon.
pub record AreSendable (username password : Bytes) : Type 0 where
  pub are_bytes : AreBytes (username ++ b':' ∷ password)
  pub no_colon : Avoids b':' username
  pub no_nul : Avoids 0 (username ++ b':' ∷ password)
  pub short : length (username ++ b':' ∷ password) ≤ 255

fills-text :
    (bs rest : Bytes)
    → Avoids 0 bs
    → length bs ≤ length rest
    → (n : ℕ) × (dst : Bytes) × (fills bs [] rest ≡ decoded n dst) × (c_str dst ≡ bs)
unfolding c_str
fills-text bs rest a h =
    let t : take (length rest) bs ≡ bs = strncpy_fits (length rest) bs h in
    (
      0 + length bs,
      bs ++ 0 ∷ drop (length bs) rest,
      ap (λ t. decoded (0 + length t) (t ++ 0 ∷ drop (length t) rest)) t,
      c_str-append bs (0 ∷ drop (length bs) rest) a ∙ append-nil bs,
    )

basic_role-credentials :
    {U : Type 0} (store : UserStore U) (server : Server U) (username password : Bytes)
    → AreSendable username password
    → basic_role store server (basic_credentials username password)
      ≡ role_is (auth_lookup store server username password)
unfolding basic_role starts_with_case tolower
basic_role-credentials store server username password s =
    let bs = username ++ b':' ∷ password in
    let (n, dst, filled, whole) = fills-text bs (replicate 255 0) s.no_nul s.short in
    let done : base64_decode (encode bs) zero_buffer ≡ decoded n dst =
      base64_decode-encode bs 0 (replicate 255 0) s.are_bytes ∙ filled in
    let split : strchr b':' (c_str dst) ≡ some (username, password) =
      ap (strchr b':') whole ∙ strchr-append b':' username password s.no_colon in
    rw done (rw split refl)

-- A request without a session whose `Authorization` header holds, in Base64, a name and a password
-- that `auth_lookup` accepts with a role that satisfies the required one, is admitted, and the
-- server stays as it was.
pub authorize-credentials :
    {U : Type 0} (store : UserStore U) (outside : Outside) (server : Server U) (entry : RouteEntry)
    (req : HandlerRequest) (size : ℕ) (username password role : Bytes)
    → AreSendable username password
    → entry.required_role ≢ []
    → cookie_session req.cookie ≡ none
    → req.authorization ≡ basic_credentials username password
    → auth_lookup store server username password ≡ some role
    → auth_role_matches role entry.required_role ≡ true
    → authorize store outside server entry req size ≡ some (server, admitted)
unfolding session_role
authorize-credentials store outside server entry req size username password role s ne cookie sent
      accepted fits =
    let found : basic_role store server req.authorization ≡ role_is (some role) =
      ap (basic_role store server) sent
      ∙ basic_role-credentials store server username password s
      ∙ ap role_is accepted in
    authorize-asks store outside server entry req size ne ∙ rw cookie (rw found (rw fits refl))
