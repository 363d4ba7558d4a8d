-- ===== src/Session/Lookup.antt =====
-- Who is let in: what a lookup returns, and that a destroyed session is never returned again.
use uestc_shixvn_mini_web_se.CString.{str_eq_iff}
use uestc_shixvn_mini_web_se.Prelude.{
  ℕ, ◌≤◌, ◌<◌, true, false, some, [], ◌∷◌, Bytes, ◌≡◌, ◌≢◌, refl, subst, arith, get_or-set, ◌==◌,
  if◌then◌else◌,
}
use uestc_shixvn_mini_web_se.Probe.{hash_size, Found, endless, absent, hit, probe}
use uestc_shixvn_mini_web_se.Probe.Search.{Hits, probe-Hits}
use uestc_shixvn_mini_web_se.Session.{
  destroy_at, lookup_at, SessionStore, zero_session, session_at, hash_id, matches, set_used,
  clear_slot, session_destroy, check_expiry, session_lookup,
}

pub hash_id_below : (id : Bytes) → hash_id id < hash_size
unfolding hash_id
hash_id_below id = omega arith

-- The session in use under an identifier, not yet expired.
pub record IsLive (st : SessionStore) (id : Bytes) (now i : ℕ) : Type 0 where
  pub in_use : (session_at st i).used ≡ true
  pub same_id : (session_at st i).session_id ≡ id
  pub not_expired : now ≤ (session_at st i).expires_at

check_expiry-some :
    (id : Bytes) (now i j : ℕ) (st st' : SessionStore)
    → check_expiry id now st j ≡ some (st', some i)
    → (st' ≡ st) × (i ≡ j) × (now ≤ (session_at st i).expires_at)
unfolding check_expiry
check_expiry-some id now i j st st' e = ground arith

lookup_at-IsLive :
    (id : Bytes) (now i : ℕ) (st st' : SessionStore) (f : Found)
    → Hits (matches st id) st.hash f
    → id ≢ []
    → lookup_at id now st f ≡ some (st', some i)
    → (st' ≡ st) × IsLive st id now i × (id ≢ [])
lookup_at-IsLive id now i st st' endless f ne e = cc
lookup_at-IsLive id now i st st' absent f ne e = cc
lookup_at-IsLive id now i st st' (hit h j) f ne e =
    let (same, here, fresh) = check_expiry-some id now i j st st' e in
    let m : matches st id i ≡ true = rw here f.1 in
    (
      same,
      record {
        in_use = ground arith;
        same_id = ground (arith, str_eq_iff (session_at st i).session_id id);
        not_expired = fresh;
      },
      ne,
    )

-- A session that a lookup returns is in use, has the identifier that was asked for, and has not
-- expired; the store is left as it was. The empty identifier finds none.
pub session_lookup-IsLive :
    (id : Bytes) (now i : ℕ) (st st' : SessionStore)
    → session_lookup id now st ≡ some (st', some i)
    → (st' ≡ st) × IsLive st id now i × (id ≢ [])
unfolding session_lookup
session_lookup-IsLive [] now i st st' e = cc
session_lookup-IsLive (c ∷ id) now i st st' e =
    lookup_at-IsLive (c ∷ id) now i st st' _
      (probe-Hits (matches st (c ∷ id)) hash_size st.hash (hash_id (c ∷ id))
        (hash_id_below (c ∷ id)))
      (λ e. cc) e

-- No two sessions in use have the identifier.
abbrev pub IsUnique : SessionStore → Bytes → Type 0
IsUnique st id = (i j : ℕ) → matches st id i ≡ true → matches st id j ≡ true → i ≡ j

pub matches-set_used :
    (st : SessionStore) (id : Bytes) (j i : ℕ)
    → matches (set_used st j false) id i ≡ (if i == j then false else matches st id i)
matches-set_used st id j i =
    ground
      (arith, get_or-set st.sessions j i (record (session_at st j) { used = false }) zero_session)

-- What `session_destroy` does: nothing, or it ends the first session that fits on the way.
pub data Destroys (id : Bytes) (st : SessionStore) : SessionStore → Type 0 where
  kept : probe (matches st id) hash_size st.hash (hash_id id) ≡ absent → Destroys id st st
  ended :
      (h i : ℕ)
      → probe (matches st id) hash_size st.hash (hash_id id) ≡ hit h i
      → matches st id i ≡ true
      → Destroys id st (clear_slot (set_used st i false) h)

destroy_at-Destroys :
    (id : Bytes) (st st' : SessionStore) (f : Found)
    → probe (matches st id) hash_size st.hash (hash_id id) ≡ f
    → Hits (matches st id) st.hash f
    → destroy_at st f ≡ some st'
    → Destroys id st st'
destroy_at-Destroys id st st' endless p f e = cc
destroy_at-Destroys id st st' absent p f e =
    let e' : st ≡ st' = cc in subst (Destroys id st) e' (kept p)
destroy_at-Destroys id st st' (hit h j) p f e =
    let e' : clear_slot (set_used st j false) h ≡ st' = cc in
    subst (Destroys id st) e' (ended h j p f.1)

pub session_destroy-Destroys :
    (id : Bytes) (st st' : SessionStore) → session_destroy id st ≡ some st' → Destroys id st st'
unfolding session_destroy
session_destroy-Destroys id st st' e =
    destroy_at-Destroys id st st' _ refl
      (probe-Hits (matches st id) hash_size st.hash (hash_id id) (hash_id_below id)) e

IsLive-matches :
    (st : SessionStore) (id : Bytes) (now i : ℕ) → IsLive st id now i → matches st id i ≡ true
IsLive-matches st id now i l =
    rw l.in_use ((str_eq_iff (session_at st i).session_id id).1 l.same_id)

lookup_absent :
    (id : Bytes) (now i : ℕ) (st st' : SessionStore)
    → probe (matches st id) hash_size st.hash (hash_id id) ≡ absent
    → session_lookup id now st ≢ some (st', some i)
unfolding session_lookup
lookup_absent [] now i st st' p e = cc
lookup_absent (c ∷ id) now i st st' p e =
    let e' = subst (λ f. lookup_at (c ∷ id) now st f ≡ some (st', some i)) p e in cc e'

Destroys-revokes :
    (id : Bytes) (now i : ℕ) (st st' st'' : SessionStore)
    → IsUnique st id
    → Destroys id st st'
    → session_lookup id now st' ≢ some (st'', some i)
Destroys-revokes id now i st st' st'' unique (kept p) found = lookup_absent id now i st st'' p found
Destroys-revokes id now i st st' st'' unique (ended h j p m) found =
    let (_, live, _) = session_lookup-IsLive id now i _ st'' found in
    let still = IsLive-matches _ id now i live in
    ground (arith, still, matches-set_used st id j i, unique i j)

-- Once `session_destroy` has returned, no lookup returns a session for that identifier, if no two
-- sessions in use had it.
pub session_destroy_revokes :
    (id : Bytes) (now i : ℕ) (st st' st'' : SessionStore)
    → IsUnique st id
    → session_destroy id st ≡ some st'
    → session_lookup id now st' ≢ some (st'', some i)
session_destroy_revokes id now i st st' st'' unique done found =
    Destroys-revokes id now i st st' st'' unique (session_destroy-Destroys id st st' done) found

-- A search that stops at a session which has not expired returns it.
pub lookup_hit :
    (id : Bytes) (now i k : ℕ) (st : SessionStore)
    → id ≢ []
    → probe (matches st id) hash_size st.hash (hash_id id) ≡ hit k i
    → now ≤ (session_at st i).expires_at
    → session_lookup id now st ≡ some (st, some i)
unfolding session_lookup check_expiry
lookup_hit [] now i k st ne p soon = absurd (ne refl)
lookup_hit (c ∷ id) now i k st ne p soon = rw p (ground arith)
