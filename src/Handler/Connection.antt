-- ===== src/Handler/Connection.antt =====
-- `request_handler_handle_connection` of src/request_handler.c: the requests of one connection.
use uestc_shixvn_mini_web_se.CString.{c_str}
use uestc_shixvn_mini_web_se.Handler.{
  UserStore, Server, Outside, Reply, crashed, failed, replied, Answer, request_handler_set_root,
}
use uestc_shixvn_mini_web_se.Handler.Message.{
  parse_http_request_line, first_request_line, host_header, fill_request,
}
use uestc_shixvn_mini_web_se.Handler.Process.{request_handler_process_http}
use uestc_shixvn_mini_web_se.Route.{RouteTable}
use uestc_shixvn_mini_web_se.Prelude.{
  Bytes, ℕ, zero, suc, Bool, true, false, Option, none, some, List, [], ◌∷◌, length, ltb, codes,
}

abbrev pub max_keep_alive_requests : ℕ
max_keep_alive_requests = 10000

-- `RESP_BUF_SIZE`.
abbrev pub resp_buf_size : ℕ
resp_buf_size = 5246976

-- The configuration: the routes, and `config_find_server` of a host: the root of its server.
pub record Config : Type 0 where
  pub routes : Option RouteTable
  pub config_find_server : Bytes → Option Bytes

-- What `recv` returns: bytes, 0, or -1 with a timeout or another error.
pub data Received : Type 0 where
  closed timed_out broken : Received
  message : Bytes → Received

-- One round of the loop: what is received, what else is found outside, and whether the response can
-- be sent.
pub record Round : Type 0 where
  pub received : Received
  pub outside : Outside
  pub sends : Bool

-- How a connection ends: with the result 0 or -1, and then the responses that were sent in their
-- order and the server; or not yet: `recv` waits, a loop does not end, or the process is gone.
pub data Ending (U : Type 0) : Type 0 where
  waiting hanging gone : Ending U
  returned : Bool → List Reply → Server U → Ending U

abbrev malformed : Reply
malformed =
    let text =
      codes
        "HTTP/1.1 400 BAD REQUEST\r\nContent-Type: text/plain; charset=utf-8\r\nContent-Length: 17\r\nConnection: close\r\n\r\n400 Bad Request\n" in
    replied (length text) text

abbrev pub server_error : Reply
server_error =
    let text =
      codes
        "HTTP/1.1 500 INTERNAL SERVER ERROR\r\nContent-Type: text/plain; charset=utf-8\r\nContent-Length: 25\r\nConnection: close\r\n\r\n500 Internal Server Error\n" in
    replied (length text) text

abbrev root_for : Config → Bytes → Option Bytes
root_for config [] = none
root_for config (c ∷ host) = config.config_find_server (c ∷ host)

abbrev with_root : {U : Type 0} → Option Bytes → Server U → Server U
with_root none server = server
with_root (some root) server = request_handler_set_root root server

-- The root of the host's server, if it has one; it stays for the requests that follow.
unfoldable pub route_host : {U : Type 0} → Config → Bytes → Server U → Server U
route_host config raw server = with_root (root_for config (host_header raw)) server

-- What is sent: a result of -1 is answered with an error.
abbrev pub or_error : Reply → Reply
or_error failed = server_error
or_error reply = reply

abbrev pub respond_parsed :
    {U : Type 0}
    → UserStore U
    → Config
    → Outside
    → Server U
    → Bytes
    → Option (Bytes × Bytes)
    → Option (Answer U)
respond_parsed store config outside server raw none = none
respond_parsed store config outside server raw (some (method, path)) = some (
    request_handler_process_http store config.routes outside (route_host config raw server)
      (fill_request raw method path) resp_buf_size)

-- The answer to one message; the outer `none` is a malformed request line.
unfoldable pub respond_message :
    {U : Type 0} → UserStore U → Config → Outside → Server U → Bytes → Option (Answer U)
respond_message store config outside server raw =
    respond_parsed store config outside server raw
      (parse_http_request_line (first_request_line (c_str raw)))

-- What one round comes to: the loop is left, -1 is returned after the last bytes that are sent, the
-- next round follows, a loop does not end, or the process is gone.
pub data ConnectionTurn (U : Type 0) : Type 0 where
  leave stuck dead : ConnectionTurn U
  fail : List Reply → Server U → ConnectionTurn U
  go_on : Reply → Server U → ConnectionTurn U

abbrev pub sent_turn : {U : Type 0} → Bool → Server U → Reply → ConnectionTurn U
sent_turn sends server crashed = dead
sent_turn true server reply = go_on (or_error reply) server
sent_turn false server reply = fail [] server

abbrev pub answer_turn : {U : Type 0} → Bool → Server U → Option (Answer U) → ConnectionTurn U
answer_turn sends server none = fail (malformed ∷ []) server
answer_turn sends server (some none) = stuck
answer_turn sends server (some (some (server', reply))) = sent_turn sends server' reply

abbrev pub received_turn :
    {U : Type 0} → UserStore U → Config → Server U → Round → Received → ConnectionTurn U
received_turn store config server r closed = leave
received_turn store config server r timed_out = leave
received_turn store config server r broken = fail [] server
received_turn store config server r (message raw) =
    answer_turn r.sends server (respond_message store config r.outside server raw)

unfoldable pub connection_turn :
    {U : Type 0} → UserStore U → Config → Server U → Round → ConnectionTurn U
connection_turn store config server r = received_turn store config server r r.received

abbrev pub prepend : {U : Type 0} → Reply → Ending U → Ending U
prepend reply (returned ok sent server) = returned ok (reply ∷ sent) server
prepend reply ending = ending

-- `count` requests are answered, and `left` more may be.
unfoldable pub serve_rounds :
    {U : Type 0} → UserStore U → Config → ℕ → ℕ → Server U → List Round → Ending U
serve_rounds store config count zero server rounds = returned (ltb 0 count) [] server
serve_rounds store config count (suc left) server [] = waiting
serve_rounds store config count (suc left) server (r ∷ rounds) =
    elim (connection_turn store config server r) [
      | leave ↦ returned (ltb 0 count) [] server
      | stuck ↦ hanging
      | dead ↦ gone
      | fail sent server' ↦ returned false sent server'
      | go_on reply server' ↦
          prepend reply (serve_rounds store config (suc count) left server' rounds)
    ]

unfoldable pub request_handler_handle_connection :
    {U : Type 0} → UserStore U → Config → Server U → List Round → Ending U
request_handler_handle_connection store config server rounds =
    serve_rounds store config 0 max_keep_alive_requests server rounds
