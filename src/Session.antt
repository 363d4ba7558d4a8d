-- ===== src/Session.antt =====
-- src/session.c: the sessions of logged-in users. `g_sessions` and `g_hash` are the fields of a
-- store that each call takes and returns; a call that may loop for ever is `none` when its loop
-- has not ended after one round for each slot. What `time(NULL)` returns is an argument of each
-- call, one for each time it is read.
pub mod Lookup
pub mod Cleanup
pub mod Create
pub mod Hazards
pub mod Places
mod Tests
use Prim.Native.Nat.{bit_xor}
use uestc_shixvn_mini_web_se.CString.{str_eq, strncpy}
use uestc_shixvn_mini_web_se.Prelude.{
  ℕ, zero, suc, ◌+◌, ◌*◌, ◌/◌, ◌%◌, ◌^◌, Bool, true, false, not, ◌&&◌, Option, none, some, List, [],
  ◌∷◌, Bytes, ◌>>=◌, get_or, set, replicate, ltb, ◌==◌, if◌then◌else◌,
}
use uestc_shixvn_mini_web_se.Probe.{
  Slots, hash_size, djb2, Found, endless, absent, hit, probe, probe_free,
}

abbrev pub max_sessions : ℕ
max_sessions = 1024

abbrev pub session_ttl : ℕ
session_ttl = 3600

pub record Session : Type 0 where
  pub session_id : Bytes
  pub username : Bytes
  pub role : Bytes
  pub created_at : ℕ
  pub expires_at : ℕ
  pub used : Bool

pub record SessionStore : Type 0 where
  pub sessions : List Session
  pub hash : Slots

abbrev pub zero_session : Session
zero_session = record {
  session_id = [];
  username = [];
  role = [];
  created_at = 0;
  expires_at = 0;
  used = false;
}

-- `g_sessions[i]`.
abbrev pub session_at : SessionStore → ℕ → Session
session_at st i = get_or st.sessions i zero_session

unfoldable pub hash_id : Bytes → ℕ
hash_id s = djb2 5381 s % hash_size

abbrev pub hex_digit : ℕ → ℕ
hex_digit n = if ltb n 10 then n + b'0' else n + 87

unfoldable pub hex_encode : Bytes → Bytes
hex_encode [] = []
hex_encode (b ∷ bs) = hex_digit (b / 16) ∷ hex_digit (b % 16) ∷ hex_encode bs

-- The bytes for a token: read from /dev/urandom, or made from the time and the process's number.
pub data Entropy : Type 0 where
  urandom : Bytes → Entropy
  weak : ℕ → ℕ → Entropy

unfoldable pub weak_bytes : ℕ → ℕ → Bytes
weak_bytes zero seed = []
weak_bytes (suc n) seed =
    let seed' = (seed * 1103515245 + 12345) % 2 ^ 32 in seed' / 2 ^ 16 % 256 ∷ weak_bytes n seed'

unfoldable pub random_bytes : Entropy → Bytes
random_bytes (urandom bytes) = bytes
random_bytes (weak time pid) = weak_bytes 32 (bit_xor time pid % 2 ^ 32)

unfoldable pub session_init : SessionStore
session_init = record {
  sessions = replicate max_sessions zero_session;
  hash = replicate hash_size none;
}

-- `s->used && strcmp(s->session_id, session_id) == 0` for the session at an index.
abbrev pub matches : SessionStore → Bytes → ℕ → Bool
matches st id i = (session_at st i).used && str_eq (session_at st i).session_id id

abbrev pub set_used : SessionStore → ℕ → Bool → SessionStore
set_used st i b = record st { sessions = set st.sessions i (record (session_at st i) { used = b }) }

abbrev pub clear_slot : SessionStore → ℕ → SessionStore
clear_slot st h = record st { hash = set st.hash h none }

-- What is done at the entry where the loop stops.
abbrev pub destroy_at : SessionStore → Found → Option SessionStore
destroy_at st endless = none
destroy_at st absent = some st
destroy_at st (hit h i) = some (clear_slot (set_used st i false) h)

unfoldable pub session_destroy : Bytes → SessionStore → Option SessionStore
session_destroy id st = destroy_at st (probe (matches st id) hash_size st.hash (hash_id id))

-- At a session that matches: it is destroyed if it has expired, and else returned.
unfoldable pub check_expiry : Bytes → ℕ → SessionStore → ℕ → Option (SessionStore × Option ℕ)
check_expiry id now st i =
    if ltb (session_at st i).expires_at now
    then (session_destroy id st >>= λ st'. some (st', none))
    else some (st, some i)

abbrev pub lookup_at : Bytes → ℕ → SessionStore → Found → Option (SessionStore × Option ℕ)
lookup_at id now st endless = none
lookup_at id now st absent = some (st, none)
lookup_at id now st (hit h i) = check_expiry id now st i

-- The index of the session is returned for its address.
unfoldable pub session_lookup : Bytes → ℕ → SessionStore → Option (SessionStore × Option ℕ)
session_lookup [] now st = some (st, none)
session_lookup (c ∷ id) now st =
    let s = c ∷ id in lookup_at s now st (probe (matches st s) hash_size st.hash (hash_id s))

abbrev pub remove_at : SessionStore → Found → Option SessionStore
remove_at st endless = none
remove_at st absent = some st
remove_at st (hit h i) = some (clear_slot st h)

-- The loop of `session_cleanup_expired` that removes entry `i` from the hash table.
unfoldable pub remove_from_hash : ℕ → SessionStore → Option SessionStore
remove_from_hash i st =
    remove_at st (probe (λ j. j == i) hash_size st.hash (hash_id (session_at st i).session_id))

unfoldable pub expire_one : ℕ → ℕ → SessionStore → Option SessionStore
expire_one now i st =
    if (session_at st i).used && ltb (session_at st i).expires_at now
    then (remove_from_hash i st >>= λ st'. some (set_used st' i false))
    else some st

-- `rounds` more rounds, from `i`.
unfoldable pub cleanup_from : ℕ → ℕ → ℕ → SessionStore → Option SessionStore
cleanup_from zero now i st = some st
cleanup_from (suc rounds) now i st = expire_one now i st >>= cleanup_from rounds now (i + 1)

unfoldable pub session_cleanup_expired : ℕ → SessionStore → Option SessionStore
session_cleanup_expired now st = cleanup_from max_sessions now 0 st

-- The first slot that is not used, of those from `i`.
unfoldable pub free_session : ℕ → List Session → Option ℕ
free_session i [] = none
free_session i (s ∷ ss) = let rest = free_session (i + 1) ss in if not s.used then some i else rest

abbrev pub new_session : Bytes → Bytes → Bytes → ℕ → Session
new_session token username role now = record {
  session_id = strncpy 64 token;
  username = strncpy 63 username;
  role = strncpy 31 role;
  created_at = now;
  expires_at = now + session_ttl;
  used = true;
}

-- The session is filled in, and entered into the hash table.
unfoldable pub enter_session : Session → Bytes → ℕ → SessionStore → Option (SessionStore × Option ℕ)
enter_session s token i st = probe_free hash_size st.hash (hash_id token) >>= λ h.
    some (record { sessions = set st.sessions i s; hash = set st.hash h (some i) }, some i)

abbrev pub Made : Type 0
Made = Option (SessionStore × Option ℕ)

-- The session is put into the first free slot; with none free, `otherwise`.
abbrev pub place :
    (ℕ → SessionStore → Made) → (SessionStore → Made) → SessionStore → Option ℕ → Made
place enter otherwise st (some i) = enter i st
place enter otherwise st none = otherwise st

-- The table is full: one more cleanup, and then NULL if there is still no slot.
unfoldable pub retry : (ℕ → SessionStore → Made) → ℕ → SessionStore → Made
retry enter now st = session_cleanup_expired now st >>= λ st2.
    place enter (λ st3. some (st3, none)) st2 (free_session 0 st2.sessions)

-- The times are those of the first cleanup, of the second if there is one, and of the creation.
unfoldable pub session_create : Entropy → ℕ → ℕ → ℕ → Bytes → Bytes → SessionStore → Made
session_create entropy first second now username role st =
    let token = hex_encode (random_bytes entropy) in
    let enter = enter_session (new_session token username role now) token in
    session_cleanup_expired first st >>= λ st1.
    place enter (retry enter second) st1 (free_session 0 st1.sessions)
