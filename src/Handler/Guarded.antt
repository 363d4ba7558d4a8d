-- ===== src/Handler/Guarded.antt =====
-- What a request for a route with a required role is answered without credentials.
use uestc_shixvn_mini_web_se.Base64.{base64_decode, Decoded, fault, failed, decoded}
use uestc_shixvn_mini_web_se.Base64.Bounds.{StaysInside, base64_decode-StaysInside}
use uestc_shixvn_mini_web_se.CString.{starts_with_case}
use uestc_shixvn_mini_web_se.Handler.{
  HandlerRequest, UserStore, Server, Outside, Reply, build_http_response,
}
use uestc_shixvn_mini_web_se.Handler.Authorized.{MayEnter, authorize-asks, authorize-MayEnter}
use uestc_shixvn_mini_web_se.Handler.Credentials.{auth_role_matches}
use uestc_shixvn_mini_web_se.Handler.Dispatch.{
  session_role, Basic, out_of_bounds, bad_base64, role_is, basic_role, zero_buffer, Check, admitted,
  stopped, check_role, check_basic, check_session, check_credentials, authorize, from_decoded,
  denied, no_role_page,
}
use uestc_shixvn_mini_web_se.Handler.Process.{
  request_handler_process_http, respond, run_entry, run_checked, table_in_use,
  route_table_get_handler_fn,
}
use uestc_shixvn_mini_web_se.Route.{RouteTable, RouteEntry}
use uestc_shixvn_mini_web_se.Route.Find.{FindResult, route_table_find}
use uestc_shixvn_mini_web_se.Prelude.{
  Bytes, >>=-eq-some, ℕ, ◌<◌, ◌≡◌, refl, sym, ap, subst, ◌∙◌, ◌≢◌, ◌⊎◌, inl, inr, false, Option,
  none, some, [], arith, drop, Bool-cases, codes,
}

abbrev bad_request : ℕ → Reply
bad_request size =
    build_http_response size 400 (codes "BAD REQUEST") (codes "400 Bad Request: invalid Base64\n")

-- 401 or the way to the login page, 403, or 400.
abbrev pub IsRefusal : Outside → RouteEntry → HandlerRequest → ℕ → Reply → Type 0
IsRefusal outside entry req size reply =
    (reply ≡ denied entry req size)
    ⊎ ((reply ≡ no_role_page outside size) ⊎ (reply ≡ bad_request size))

from_decoded-inside :
    {U : Type 0} (store : UserStore U) (server : Server U) (d : Decoded) (n : ℕ)
    → StaysInside n d
    → from_decoded store server d ≢ out_of_bounds
from_decoded-inside store server fault n h = absurd h
from_decoded-inside store server (failed dst) n h = λ e. cc
from_decoded-inside store server (decoded k dst) n h = λ e. cc

basic_role-inside :
    {U : Type 0} (store : UserStore U) (server : Server U) (a : Bytes)
    → basic_role store server a ≢ out_of_bounds
unfolding basic_role
basic_role-inside store server a e = elim (Bool-cases (starts_with_case (codes "Basic ") a)) [
  | inl named ↦
      from_decoded-inside store server (base64_decode (drop 6 a) zero_buffer) _
        (base64_decode-StaysInside (drop 6 a) zero_buffer) (ground (arith, e, named))
  | inr other ↦ ground (arith, e, other)
]

module _ (outside : Outside) (entry : RouteEntry) (req : HandlerRequest) (size : ℕ) where
  check_role-IsRefusal :
      (o : Option Bytes) (reply : Reply)
      → check_role outside entry req size o ≡ stopped reply
      → IsRefusal outside entry req size reply
  check_role-IsRefusal none reply e = inl cc
  check_role-IsRefusal (some role) reply e =
      elim (Bool-cases (auth_role_matches role entry.required_role)) [
        | inl fits ↦ absurd (ground (arith, e, fits))
        | inr other ↦ inr (inl (ground (arith, e, other)))
      ]

  check_basic-IsRefusal :
      (b : Basic) (reply : Reply)
      → b ≢ out_of_bounds
      → check_basic outside entry req size b ≡ stopped reply
      → IsRefusal outside entry req size reply
  check_basic-IsRefusal out_of_bounds reply ne e = absurd (ne refl)
  check_basic-IsRefusal bad_base64 reply ne e = inr (inr cc)
  check_basic-IsRefusal (role_is o) reply ne e = check_role-IsRefusal o reply e

  check_session-IsRefusal :
      {U : Type 0} (store : UserStore U) (server : Server U) (o : Option Bytes) (reply : Reply)
      → check_session store outside server entry req size o ≡ stopped reply
      → IsRefusal outside entry req size reply
  check_session-IsRefusal store server (some role) reply e =
      check_role-IsRefusal (some role) reply e
  check_session-IsRefusal store server none reply e =
      check_basic-IsRefusal (basic_role store server req.authorization) reply
        (basic_role-inside store server req.authorization) e

authorize-IsRefusal :
    {U : Type 0} (store : UserStore U) (outside : Outside) (server server' : Server U)
    (entry : RouteEntry) (req : HandlerRequest) (size : ℕ) (reply : Reply)
    → entry.required_role ≢ []
    → authorize store outside server entry req size ≡ some (server', stopped reply)
    → IsRefusal outside entry req size reply
      × (server' ≡ record server { sessions = server'.sessions })
authorize-IsRefusal store outside server server' entry req size reply ne e =
    let e' = sym (authorize-asks store outside server entry req size ne) ∙ e in
    let (r, found, same) =
      >>=-eq-some (session_role outside server.sessions req.cookie) _ {b = (server', stopped reply)}
        e' in
    let pair : check_credentials store outside server entry req size r ≡ (server', stopped reply) =
      cc in
    (
      check_session-IsRefusal outside entry req size store (record server { sessions = r.0 }) r.1
          reply (ap (λ p. p.1) pair),
      ap (λ p. p.0) (sym pair)
          ∙ ap (λ s. record server { sessions = s.sessions }) (ap (λ p. p.0) pair),
    )

-- The server's part that a request without the role leaves as it was, and the reply it gets.
abbrev pub IsGuarded :
    {U : Type 0}
    → UserStore U
    → Outside
    → Server U
    → Server U
    → RouteEntry
    → HandlerRequest
    → ℕ
    → Reply
    → Type 0
IsGuarded store outside server server' entry req size reply =
    MayEnter store outside server req entry.required_role
    ⊎ ((server' ≡ record server { sessions = server'.sessions })
        × IsRefusal outside entry req size reply)

run_checked-IsGuarded :
    {U : Type 0} (store : UserStore U) (outside : Outside) (server server' : Server U)
    (entry : RouteEntry) (req : HandlerRequest) (captured : Bytes) (size : ℕ) (reply : Reply)
    (s : Server U) (c : Check)
    → entry.required_role ≢ []
    → authorize store outside server entry req size ≡ some (s, c)
    → run_checked (route_table_get_handler_fn store entry.handler) outside req captured size (s, c)
      ≡ some (server', reply)
    → IsGuarded store outside server server' entry req size reply
run_checked-IsGuarded store outside server server' entry req captured size reply s admitted ne e h =
    inl (authorize-MayEnter store outside server s entry req size ne e).0
run_checked-IsGuarded store outside server server' entry req captured size reply s (stopped r) ne e
      h =
    let (refusal, kept) = authorize-IsRefusal store outside server s entry req size r ne e in
    let here : s ≡ server' = cc in
    let sent : r ≡ reply = cc in
    inr (
      subst (λ x. x ≡ record server { sessions = x.sessions }) here kept,
      subst (IsRefusal outside entry req size) sent refusal,
    )

-- Where the route of a request asks for a role, either the request proves a role that satisfies it,
-- by a live session or by a password, or the reply is one of the refusals (401, the way to the login
-- page, 403, or 400) and nothing but the sessions may have changed.
pub request_handler_process_http-IsGuarded :
    {U : Type 0} (store : UserStore U) (config : Option RouteTable) (outside : Outside)
    (server server' : Server U) (req : HandlerRequest) (size : ℕ) (reply : Reply) (rt : RouteTable)
    (result : FindResult) (entry : RouteEntry)
    → 0 < size
    → table_in_use config ≡ some rt
    → route_table_find rt req.method req.path ≡ some result
    → result.is_405 ≡ false
    → result.entry ≡ some entry
    → entry.required_role ≢ []
    → request_handler_process_http store config outside server req size ≡ some (server', reply)
    → IsGuarded store outside server server' entry req size reply
unfolding request_handler_process_http respond
request_handler_process_http-IsGuarded store config outside server server' req size reply rt result
      entry pos_size table found no_405 matched ne e =
    let run : run_entry store outside server req result.captured size result.entry
        ≡ some (server', reply) =
      ground (arith, e, pos_size, table, found, no_405) in
    let run' =
      subst (λ o. run_entry store outside server req result.captured size o ≡ some (server', reply))
        matched run in
    let (c, checked, sent) = >>=-eq-some _ _ {b = (server', reply)} run' in
    run_checked-IsGuarded store outside server server' entry req result.captured size reply c.0 c.1
      ne checked sent
