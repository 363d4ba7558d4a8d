-- ===== src/Session/Places.antt =====
-- `session_create` has a session to return.
use uestc_shixvn_mini_web_se.Probe.{hash_size, probe_free}
use uestc_shixvn_mini_web_se.Session.{
  hash_id, new_session, probe_free, SessionStore, Session, Entropy, random_bytes, hex_encode,
  session_cleanup_expired, free_session, enter_session, session_create,
}
use uestc_shixvn_mini_web_se.Session.Cleanup.{HasRoom}
use uestc_shixvn_mini_web_se.Session.Create.{session_create_returns}
use uestc_shixvn_mini_web_se.Prelude.{
  Bytes, >>=-eq-some, ℕ, ◌≡◌, refl, sym, ap, ◌∙◌, Option, some, arith,
}

enter_session-index :
    (s : Session) (token : Bytes) (i : ℕ) (st st' : SessionStore) (o : Option ℕ)
    → enter_session s token i st ≡ some (st', o)
    → o ≡ some i
unfolding enter_session
enter_session-index s token i st st' o e =
    let (h, found, done) =
      >>=-eq-some (probe_free hash_size st.hash (hash_id token)) _ {b = (st', o)} e in
    ground (arith, done)

session_create-enter :
    (entropy : Entropy) (first second now j : ℕ) (username role : Bytes) (st st1 : SessionStore)
    → session_cleanup_expired first st ≡ some st1
    → free_session 0 st1.sessions ≡ some j
    → session_create entropy first second now username role st
      ≡ enter_session
          (new_session (hex_encode (random_bytes entropy)) username role now)
          (hex_encode (random_bytes entropy))
          j
          st1
unfolding session_create
session_create-enter entropy first second now j username role st st1 cleaned free =
    rw cleaned (rw free refl)

-- With a session that is not in use once the expired ones are removed, and a free slot of the hash
-- table, a session is returned.
pub session_create_places :
    (entropy : Entropy) (first second now k j : ℕ) (username role : Bytes) (st st1 : SessionStore)
    → HasRoom st k
    → session_cleanup_expired first st ≡ some st1
    → free_session 0 st1.sessions ≡ some j
    → (st' : SessionStore) × (session_create entropy first second now username role st
        ≡ some (st', some j))
session_create_places entropy first second now k j username role st st1 room cleaned free =
    let ((st', o), made) =
      session_create_returns entropy first second now k username role st room in
    let entered =
      sym (session_create-enter entropy first second now j username role st st1 cleaned free)
      ∙ made in
    (st', made ∙ ap (λ o. some (st', o)) (enter_session-index _ _ j st1 st' o entered))
