-- ===== src/Session/Hazards.antt =====
-- Two defects of the hash table of src/session.c: an emptied slot cuts the chains through it, and a
-- table without a free slot is probed for ever.
use uestc_shixvn_mini_web_se.Probe.Chain.{slot-set}
use uestc_shixvn_mini_web_se.Session.Lookup.{matches-set_used, hash_id_below}
use uestc_shixvn_mini_web_se.Probe.Endless.{probe_free-IsFull, IsFull}
use uestc_shixvn_mini_web_se.Probe.{absent, hit, probe, probe_free, hash_size, slot}
use uestc_shixvn_mini_web_se.Session.{
  set_used, clear_slot, max_sessions, random_bytes, hex_encode, session_lookup, free_session,
  session_destroy, Entropy, matches, enter_session, hash_id, session_cleanup_expired, expire_one,
  session_at, Slots, session_create, cleanup_from, SessionStore,
}
use uestc_shixvn_mini_web_se.Prelude.{
  Bytes, ℕ, zero, suc, ◌+◌, ◌≡◌, refl, ◌≢◌, Bool, true, false, ◌&&◌, none, some, [], ◌∷◌, arith,
  length, ltb,
}

probe_first :
    (p : ℕ → Bool) (fuel : ℕ) (t : Slots) (h i : ℕ)
    → slot t h ≡ some i
    → p i ≡ true
    → probe p (suc fuel) t h ≡ hit h i
unfolding probe
probe_first p fuel t h i e fits = ground arith

session_destroy_first :
    (id : Bytes) (i : ℕ) (st : SessionStore)
    → slot st.hash (hash_id id) ≡ some i
    → matches st id i ≡ true
    → session_destroy id st ≡ some (clear_slot (set_used st i false) (hash_id id))
unfolding session_destroy
session_destroy_first id i st e fits =
    rw (probe_first (matches st id) 255 st.hash (hash_id id) i e fits)

probe_empty :
    (p : ℕ → Bool) (fuel : ℕ) (t : Slots) (h : ℕ)
    → slot t h ≡ none
    → probe p (suc fuel) t h ≡ absent
unfolding probe
probe_empty p fuel t h e = ground arith

lookup_empty :
    (id : Bytes) (now : ℕ) (st : SessionStore)
    → slot st.hash (hash_id id) ≡ none
    → session_lookup id now st ≡ some (st, none)
unfolding session_lookup
lookup_empty [] now st e = refl
lookup_empty (c ∷ id) now st e =
    rw (probe_empty (matches st (c ∷ id)) 255 st.hash (hash_id (c ∷ id)) e)

-- A session that a lookup no longer finds, though it is in use: its hash value is that of a session
-- which stood in the first slot of the chain and was destroyed.
pub session_destroy_hides :
    (gone kept : Bytes) (now i j : ℕ) (st st' : SessionStore)
    → slot st.hash (hash_id gone) ≡ some i
    → matches st gone i ≡ true
    → matches st kept j ≡ true
    → j ≢ i
    → hash_id kept ≡ hash_id gone
    → length st.hash ≡ hash_size
    → session_destroy gone st ≡ some st'
    → (matches st' kept j ≡ true) × (session_lookup kept now st' ≡ some (st', none))
session_destroy_hides gone kept now i j st st' first m other ne same n e =
    let ended : st' ≡ clear_slot (set_used st i false) (hash_id gone) =
      ground (arith, session_destroy_first gone i st first m) in
    rw ended (
      ground (arith, matches-set_used st kept i j),
      lookup_empty kept now _
          (ground (arith, slot-set st.hash (hash_id gone) (hash_id kept) none, hash_id_below gone)),
    )

-- No session has expired at the time.
abbrev pub AllCurrent : SessionStore → ℕ → Type 0
AllCurrent st now =
    (j : ℕ) → ((session_at st j).used && ltb (session_at st j).expires_at now) ≡ false

cleanup_from_idle :
    (rounds now i : ℕ) (st : SessionStore)
    → AllCurrent st now
    → cleanup_from rounds now i st ≡ some st
unfolding cleanup_from expire_one
cleanup_from_idle zero now i st c = refl
cleanup_from_idle (suc rounds) now i st c = rw (c i) (cleanup_from_idle rounds now (i + 1) st c)

-- With every slot of the hash table taken, no session expired and a session slot free,
-- `session_create` never returns: its search for a free hash slot finds none in any number of rounds.
pub session_create_hangs :
    (entropy : Entropy) (first second now i : ℕ) (username role : Bytes) (st : SessionStore)
    → IsFull st.hash
    → AllCurrent st first
    → free_session 0 st.sessions ≡ some i
    → (session_create entropy first second now username role st ≡ none)
      × ((fuel : ℕ) → probe_free fuel st.hash (hash_id (hex_encode (random_bytes entropy))) ≡ none)
unfolding session_create session_cleanup_expired enter_session
session_create_hangs entropy first second now i username role st full current free =
    let token = hex_encode (random_bytes entropy) in
    (
      rw (
        cleanup_from_idle max_sessions first 0 st current,
        free,
        probe_free-IsFull hash_size st.hash (hash_id token) full (hash_id_below token),
      ),
      λ fuel. probe_free-IsFull fuel st.hash (hash_id token) full (hash_id_below token),
    )
