-- ===== src/Session/Create.antt =====
-- `session_create`: the session that it makes is the one that its token finds.
use uestc_shixvn_mini_web_se.Session.Cleanup.{
  session_cleanup_expired_returns, HasRoom, session_cleanup_expired_sizes,
  session_cleanup_expired-swept,
}
use uestc_shixvn_mini_web_se.CString.{strncpy_fits, str_eq_iff}
use uestc_shixvn_mini_web_se.Probe.Chain.{probe-inserted}
use uestc_shixvn_mini_web_se.Probe.Search.{probe_free-ends, probe_free-empty}
use uestc_shixvn_mini_web_se.Probe.{hit, probe, probe_free, hash_size}
use uestc_shixvn_mini_web_se.Session.Lookup.{lookup_hit, hash_id_below}
use uestc_shixvn_mini_web_se.Session.{
  random_bytes, Entropy, place, session_create, retry, Made, session_ttl, new_session,
  session_lookup, zero_session, probe_free, enter_session, hash_size, free_session, hex_encode,
  Session, SessionStore, session_at, max_sessions, matches, hash_id, session_cleanup_expired,
}
use uestc_shixvn_mini_web_se.Prelude.{
  Bytes, >>=-eq-some, ℕ, ◌+◌, ◌*◌, ◌≤◌, ◌<◌, ◌≡◌, refl, ap, ◌∙◌, ◌≢◌, true, false, Option, none,
  some, List, [], ◌∷◌, arith, length, set, get_or-set, ◌==◌, if◌then◌else◌,
}

pub length-hex_encode : (bs : Bytes) → length (hex_encode bs) ≡ 2 * length bs
unfolding hex_encode
length-hex_encode [] = refl
length-hex_encode (b ∷ bs) = omega (arith, length-hex_encode bs)

-- The arrays have their sizes.
pub record IsSized (st : SessionStore) : Type 0 where
  pub session_count : length st.sessions ≡ max_sessions
  pub slot_count : length st.hash ≡ hash_size

-- No session in use has the identifier.
abbrev pub IsFresh : SessionStore → Bytes → Type 0
IsFresh st id = (j : ℕ) → matches st id j ≡ false

free_session-lt :
    (i : ℕ) (ss : List Session) (k : ℕ) → free_session i ss ≡ some k → k < i + length ss
unfolding free_session
free_session-lt i [] k e = cc
free_session-lt i (s ∷ ss) k e = ground (arith, free_session-lt (i + 1) ss k)

module _ (s : Session) (id : Bytes) (i : ℕ) (st : SessionStore) where
  abbrev entered : ℕ → SessionStore
  entered h = record { sessions = set st.sessions i s; hash = set st.hash h (some i) }

  enter_session-cases :
      (st' : SessionStore) (r : Option ℕ)
      → enter_session s id i st ≡ some (st', r)
      → (h : ℕ) × (probe_free hash_size st.hash (hash_id id) ≡ some h)
        × (st' ≡ entered h)
        × (r ≡ some i)
  unfolding enter_session
  enter_session-cases st' r e =
      let (h, found, done) =
        >>=-eq-some (probe_free hash_size st.hash (hash_id id)) (λ h. some (entered h, some i))
          {b = (st', r)} e in
      (h, found, ground arith, ground arith)

  module _ (sized : IsSized st) (inside : i < length st.sessions) (fresh : IsFresh st id)
      (named : s.session_id ≡ id) (live : s.used ≡ true) where
    entered-matches : (h j : ℕ) → matches (entered h) id j ≡ (if j == i then true else false)
    entered-matches h j =
        ground
          (arith, get_or-set st.sessions i j s zero_session, fresh j, str_eq_iff s.session_id id)

    entered-session : (h : ℕ) → session_at (entered h) i ≡ s
    entered-session h = ground (arith, get_or-set st.sessions i i s zero_session)

    entered-probe :
        (h : ℕ)
        → probe_free hash_size st.hash (hash_id id) ≡ some h
        → (k : ℕ) × (probe (matches (entered h) id) hash_size (entered h).hash (hash_id id)
            ≡ hit k i)
    entered-probe h found =
        let (_, below) =
          probe_free-empty hash_size st.hash (hash_id id) h (hash_id_below id) found in
        let (k, j, reached, fits) =
          probe-inserted st.hash h i (ground (arith, sized.slot_count)) (matches (entered h) id)
            hash_size (hash_id id) (hash_id_below id) (ground (arith, entered-matches h i)) found in
        let same : j ≡ i = ground (arith, entered-matches h j) in (k, reached ∙ ap (hit k) same)

    entered-lookup :
        (h later : ℕ)
        → probe_free hash_size st.hash (hash_id id) ≡ some h
        → id ≢ []
        → later ≤ s.expires_at
        → session_lookup id later (entered h) ≡ some (entered h, some i)
    entered-lookup h later found ne soon =
        let (k, reached) = entered-probe h found in
        lookup_hit id later i k (entered h) ne reached (rw (entered-session h) soon)

-- A cleanup ends sessions, and starts none.
cleanup-IsFresh :
    (now : ℕ) (id : Bytes) (st st' : SessionStore)
    → IsSized st
    → session_cleanup_expired now st ≡ some st'
    → IsFresh st id
    → IsFresh st' id
cleanup-IsFresh now id st st' z e fresh j =
    ground (arith, session_cleanup_expired-swept now j st st' z.session_count e, fresh j)

cleanup-IsSized :
    (now : ℕ) (st st' : SessionStore)
    → IsSized st
    → session_cleanup_expired now st ≡ some st'
    → IsSized st'
cleanup-IsSized now st st' z e =
    ground (arith, session_cleanup_expired_sizes now st st' z.session_count e)

-- What `session_create` promises of the store and the slot that it returns.
abbrev pub Makes : Bytes → Bytes → Bytes → ℕ → SessionStore → ℕ → Type 0
Makes token username role now st i =
    (session_at st i ≡ new_session token username role now)
    × ((later : ℕ) → later ≤ now + session_ttl → session_lookup token later st ≡ some (st, some i))

enter-Makes :
    (token username role : Bytes) (now j i : ℕ) (st st' : SessionStore)
    → IsSized st
    → IsFresh st token
    → length token ≡ 64
    → free_session 0 st.sessions ≡ some j
    → enter_session (new_session token username role now) token j st ≡ some (st', some i)
    → Makes token username role now st' i
enter-Makes token username role now j i st st' z fresh n free e =
    let s = new_session token username role now in
    let (h, found, there, index) = enter_session-cases s token j st st' (some i) e in
    let same : i ≡ j = ground arith in
    let inside : j < length st.sessions = omega (arith, free_session-lt 0 st.sessions j free) in
    let named : s.session_id ≡ token = strncpy_fits 64 token (omega arith) in
    rw (there, same)
      (
        entered-session s token j st z inside fresh named refl h,
        λ later soon.
            entered-lookup s token j st z inside fresh named refl h later found (ne_nil n) soon,
      )
  where
    ne_nil : length token ≡ 64 → token ≢ []
    ne_nil n e = absurd (omega (arith, ap length e))

module _ (token username role : Bytes) (now : ℕ) (n : length token ≡ 64) where
  abbrev enter : ℕ → SessionStore → Made
  enter = enter_session (new_session token username role now) token

  place-Makes :
      (otherwise : SessionStore → Made) (st st' : SessionStore) (i : ℕ) (r : Option ℕ)
      → IsSized st
      → IsFresh st token
      → free_session 0 st.sessions ≡ r
      → (otherwise st ≡ some (st', some i) → Makes token username role now st' i)
      → place enter otherwise st r ≡ some (st', some i)
      → Makes token username role now st' i
  place-Makes otherwise st st' i (some j) z fresh free other e =
      enter-Makes token username role now j i st st' z fresh n free e
  place-Makes otherwise st st' i none z fresh free other e = other e

  retry-Makes :
      (second i : ℕ) (st st' : SessionStore)
      → IsSized st
      → IsFresh st token
      → retry enter second st ≡ some (st', some i)
      → Makes token username role now st' i
  unfolding retry
  retry-Makes second i st st' z fresh e =
      let (st2, cleaned, placed) =
        >>=-eq-some (session_cleanup_expired second st) _ {b = (st', some i)} e in
      place-Makes (λ st3. some (st3, none)) st2 st' i _ (cleanup-IsSized second st st2 z cleaned)
        (cleanup-IsFresh second token st st2 z cleaned fresh) refl (λ e. cc) placed

-- When `session_create` returns a session, the session holds the token and as much of the user's
-- name and role as fits, created at `now`; and until an hour after, a lookup by the token returns
-- that session. The 32 random bytes must make a token that no session in use has.
pub session_create-Makes :
    (entropy : Entropy) (first second now i : ℕ) (username role : Bytes) (st st' : SessionStore)
    → IsSized st
    → length (random_bytes entropy) ≡ 32
    → IsFresh st (hex_encode (random_bytes entropy))
    → session_create entropy first second now username role st ≡ some (st', some i)
    → Makes (hex_encode (random_bytes entropy)) username role now st' i
unfolding session_create
session_create-Makes entropy first second now i username role st st' z n fresh e =
    let token = hex_encode (random_bytes entropy) in
    let long : length token ≡ 64 = omega (arith, length-hex_encode (random_bytes entropy)) in
    let (st1, cleaned, placed) =
      >>=-eq-some (session_cleanup_expired first st) _ {b = (st', some i)} e in
    let z1 = cleanup-IsSized first st st1 z cleaned in
    let fresh1 = cleanup-IsFresh first token st st1 z cleaned fresh in
    place-Makes token username role now long (retry (enter token username role now long) second) st1
      st' i _ z1 fresh1 refl (retry-Makes token username role now long second i st1 st' z1 fresh1)
      placed

enter_returns :
    (s : Session) (token : Bytes) (i k : ℕ) (st : SessionStore)
    → HasRoom st k
    → (r : SessionStore × Option ℕ) × (enter_session s token i st ≡ some r)
unfolding enter_session
enter_returns s token i k st room =
    let (h, found, _, _) =
      probe_free-ends hash_size st.hash (hash_id token) k (hash_id_below token) room.below
        room.is_free (omega arith) in
    ((entered s token i st h, some i), rw found refl)

place_returns :
    (s : Session) (token : Bytes) (k : ℕ) (otherwise : SessionStore → Made) (st : SessionStore)
    (r : Option ℕ)
    → HasRoom st k
    → (m : SessionStore × Option ℕ) × (otherwise st ≡ some m)
    → (m : SessionStore × Option ℕ) × (place (enter_session s token) otherwise st r ≡ some m)
place_returns s token k otherwise st (some i) room other = enter_returns s token i k st room
place_returns s token k otherwise st none room other = other

retry_returns :
    (s : Session) (token : Bytes) (k second : ℕ) (st : SessionStore)
    → HasRoom st k
    → (m : SessionStore × Option ℕ) × (retry (enter_session s token) second st ≡ some m)
unfolding retry
retry_returns s token k second st room =
    let (st2, cleaned, room2) = session_cleanup_expired_returns second k st room in
    let (m, placed) =
      place_returns s token k (λ st3. some (st3, none)) st2 (free_session 0 st2.sessions) room2
        ((st2, none), refl) in
    (m, rw cleaned placed)

-- While a slot of the hash table is free, `session_create` returns: none of its loops runs on.
pub session_create_returns :
    (entropy : Entropy) (first second now k : ℕ) (username role : Bytes) (st : SessionStore)
    → HasRoom st k
    → (m : SessionStore × Option ℕ) × (session_create entropy first second now username role st
        ≡ some m)
unfolding session_create
session_create_returns entropy first second now k username role st room =
    let token = hex_encode (random_bytes entropy) in
    let s = new_session token username role now in
    let (st1, cleaned, room1) = session_cleanup_expired_returns first k st room in
    let (m, placed) =
      place_returns s token k (retry (enter_session s token) second) st1
        (free_session 0 st1.sessions) room1 (retry_returns s token k second st1 room1) in
    (m, rw cleaned placed)
