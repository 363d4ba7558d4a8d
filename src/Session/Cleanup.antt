-- ===== src/Session/Cleanup.antt =====
-- `session_cleanup_expired`: which sessions it ends, and that it returns while a slot is free.
use uestc_shixvn_mini_web_se.Probe.Chain.{slot-set}
use uestc_shixvn_mini_web_se.Session.Lookup.{hash_id_below}
use uestc_shixvn_mini_web_se.Probe.Search.{probe-ends, probe-Hits, Hits}
use uestc_shixvn_mini_web_se.Prelude.{
  ◌∙◌, get_or-beyond, inl, inr, Bool-cases, ℕ, zero, suc, ◌+◌, ◌≤◌, ◌<◌, Bool, false, ◌&&◌, none,
  some, ◌≡◌, ◌≢◌, refl, arith, >>=-eq-some, length, length-set, get_or-set, ltb, leb, ◌==◌,
  if◌then◌else◌,
}
use uestc_shixvn_mini_web_se.Probe.{hash_size, slot, Found, endless, absent, hit}
use uestc_shixvn_mini_web_se.Session.{
  clear_slot, set_used, Session, SessionStore, zero_session, session_at, max_sessions, remove_at,
  remove_from_hash, expire_one, cleanup_from, session_cleanup_expired, hash_id,
}

-- A session as a cleanup at the time `now` leaves it.
abbrev pub swept : ℕ → Session → Session
swept now s = if s.used && ltb s.expires_at now then record s { used = false } else s

-- The parts of a store that removing entries leaves alone.
pub record Keeps (st st' : SessionStore) : Type 0 where
  pub sessions_kept : st'.sessions ≡ st.sessions
  pub hash_kept : length st'.hash ≡ length st.hash

remove_at-Keeps : (st st' : SessionStore) (f : Found) → remove_at st f ≡ some st' → Keeps st st'
remove_at-Keeps st st' endless e = cc
remove_at-Keeps st st' absent e = record { sessions_kept = cc; hash_kept = cc }
remove_at-Keeps st st' (hit h i) e = ground (arith, length-set st.hash h none)

remove_from_hash-Keeps :
    (i : ℕ) (st st' : SessionStore) → remove_from_hash i st ≡ some st' → Keeps st st'
unfolding remove_from_hash
remove_from_hash-Keeps i st st' e = remove_at-Keeps st st' _ e

-- One round changes one session.
pub record Expires (now i : ℕ) (st st' : SessionStore) : Type 0 where
  pub sessions_length : length st'.sessions ≡ length st.sessions
  pub hash_length : length st'.hash ≡ length st.hash
  pub session_now :
      (j : ℕ) → session_at st' j ≡ (if j == i then swept now (session_at st j) else session_at st j)

expire_one-Expires :
    (now i : ℕ) (st st' : SessionStore)
    → i < length st.sessions
    → expire_one now i st ≡ some st'
    → Expires now i st st'
unfolding expire_one
expire_one-Expires now i st st' b e =
    elim (Bool-cases ((session_at st i).used && ltb (session_at st i).expires_at now)) [
      | inr stays ↦
          let same : st' ≡ st = ground arith in
          record {
            sessions_length = cc;
            hash_length = cc;
            session_now = λ j. rw same (ground arith);
          }
      | inl over ↦
          let (st1, removed, done) =
            >>=-eq-some (remove_from_hash i st) (λ s. some (set_used s i false)) {b = st'}
              (ground arith) in
          let k = remove_from_hash-Keeps i st st1 removed in
          let last : st' ≡ set_used st1 i false = cc in
          record {
            sessions_length = rw last (
                ground (
                  arith,
                  k.sessions_kept,
                  length-set st1.sessions i (record (session_at st1 i) { used = false }),
                ));
            hash_length = rw last k.hash_kept;
            session_now = λ j. rw last (
                ground (
                  arith,
                  k.sessions_kept,
                  get_or-set st1.sessions i j (record (session_at st1 i) { used = false })
                      zero_session,
                ));
          }
    ]

abbrev covers : ℕ → ℕ → ℕ → Bool
covers i rounds j = leb i j && ltb j (i + rounds)

pub record Cleans (now rounds i : ℕ) (st st' : SessionStore) : Type 0 where
  pub sessions_length : length st'.sessions ≡ length st.sessions
  pub hash_length : length st'.hash ≡ length st.hash
  pub session_now :
      (j : ℕ)
      → session_at st' j
        ≡ (if covers i rounds j then swept now (session_at st j) else session_at st j)

cleanup_from-Cleans :
    (rounds now i : ℕ) (st st' : SessionStore)
    → i + rounds ≤ length st.sessions
    → cleanup_from rounds now i st ≡ some st'
    → Cleans now rounds i st st'
unfolding cleanup_from
cleanup_from-Cleans zero now i st st' b e = record {
  sessions_length = cc;
  hash_length = cc;
  session_now = λ j. ground arith;
}
cleanup_from-Cleans (suc rounds) now i st st' b e =
    let (st1, first, later) =
      >>=-eq-some (expire_one now i st) (cleanup_from rounds now (i + 1)) e in
    let one = expire_one-Expires now i st st1 (omega arith) first in
    let rest = cleanup_from-Cleans rounds now (i + 1) st1 st' (ground arith) later in
    record {
      sessions_length = ground arith;
      hash_length = ground arith;
      session_now = λ j. ground (arith, one.session_now j, rest.session_now j);
    }

-- When `session_cleanup_expired` has returned, a session is in use exactly if it was and the time
-- is not past its expiry; nothing else of any session has changed.
pub session_cleanup_expired-swept :
    (now i : ℕ) (st st' : SessionStore)
    → length st.sessions ≡ max_sessions
    → session_cleanup_expired now st ≡ some st'
    → session_at st' i ≡ swept now (session_at st i)
unfolding session_cleanup_expired
session_cleanup_expired-swept now i st st' n e =
    let c = cleanup_from-Cleans max_sessions now 0 st st' (omega arith) e in
    ground (arith, c.session_now i, get_or-beyond st.sessions i zero_session)

-- The arrays keep their sizes.
pub session_cleanup_expired_sizes :
    (now : ℕ) (st st' : SessionStore)
    → length st.sessions ≡ max_sessions
    → session_cleanup_expired now st ≡ some st'
    → (length st'.sessions ≡ length st.sessions) × (length st'.hash ≡ length st.hash)
unfolding session_cleanup_expired
session_cleanup_expired_sizes now st st' n e =
    let c = cleanup_from-Cleans max_sessions now 0 st st' (omega arith) e in
    (c.sessions_length, c.hash_length)

-- A table with a free slot.
pub record HasRoom (st : SessionStore) (k : ℕ) : Type 0 where
  pub table_size : length st.hash ≡ hash_size
  pub below : k < hash_size
  pub is_free : slot st.hash k ≡ none

remove_at-HasRoom :
    (st : SessionStore) (k : ℕ) (p : ℕ → Bool) (f : Found)
    → HasRoom st k
    → Hits p st.hash f
    → f ≢ endless
    → (st' : SessionStore) × (remove_at st f ≡ some st') × HasRoom st' k
remove_at-HasRoom st k p endless r b ne = absurd (ne refl)
remove_at-HasRoom st k p absent r b ne = (st, refl, r)
remove_at-HasRoom st k p (hit h i) r b ne = (
  clear_slot st h,
  refl,
  record {
    table_size = length-set st.hash h none ∙ r.table_size;
    below = r.below;
    is_free = ground (arith, slot-set st.hash h k none);
  },
)

expire_one-HasRoom :
    (now i k : ℕ) (st : SessionStore)
    → HasRoom st k
    → (st' : SessionStore) × (expire_one now i st ≡ some st') × HasRoom st' k
unfolding expire_one remove_from_hash
expire_one-HasRoom now i k st r =
    elim (Bool-cases ((session_at st i).used && ltb (session_at st i).expires_at now)) [
      | inr stays ↦ (st, ground arith, r)
      | inl over ↦
          let id = (session_at st i).session_id in
          let (st1, removed, r1) =
            remove_at-HasRoom st k (λ j. j == i) _ r
              (probe-Hits (λ j. j == i) hash_size st.hash (hash_id id) (hash_id_below id))
              (probe-ends (λ j. j == i) hash_size st.hash (hash_id id) k (hash_id_below id) r.below
                r.is_free (omega arith)) in
          (
            set_used st1 i false,
            rw (over, removed),
            record { table_size = r1.table_size; below = r1.below; is_free = r1.is_free },
          )
    ]

cleanup_from-HasRoom :
    (rounds now i k : ℕ) (st : SessionStore)
    → HasRoom st k
    → (st' : SessionStore) × (cleanup_from rounds now i st ≡ some st') × HasRoom st' k
unfolding cleanup_from
cleanup_from-HasRoom zero now i k st r = (st, refl, r)
cleanup_from-HasRoom (suc rounds) now i k st r =
    let (st1, first, r1) = expire_one-HasRoom now i k st r in
    let (st2, later, r2) = cleanup_from-HasRoom rounds now (i + 1) k st1 r1 in
    (st2, rw first later, r2)

-- The cleanup returns while a slot of the hash table is free, and leaves that slot free.
pub session_cleanup_expired_returns :
    (now k : ℕ) (st : SessionStore)
    → HasRoom st k
    → (st' : SessionStore) × (session_cleanup_expired now st ≡ some st') × HasRoom st' k
unfolding session_cleanup_expired
session_cleanup_expired_returns now k st r = cleanup_from-HasRoom max_sessions now 0 k st r
