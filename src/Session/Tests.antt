-- ===== src/Session/Tests.antt =====
-- Runs of the session table, and its theorems at inputs.
use uestc_shixvn_mini_web_se.Session.Cleanup.{
  swept, session_cleanup_expired_returns, session_cleanup_expired-swept, HasRoom,
}
use uestc_shixvn_mini_web_se.Session.Create.{
  session_create-Makes, Makes, session_create_returns, IsSized, IsFresh,
}
use uestc_shixvn_mini_web_se.Session.Hazards.{session_create_hangs, session_destroy_hides}
use uestc_shixvn_mini_web_se.CString.{str_eq}
use uestc_shixvn_mini_web_se.Session.Lookup.{
  session_destroy_revokes, IsUnique, session_lookup-IsLive, IsLive,
}
use uestc_shixvn_mini_web_se.Probe.{probe_free, probe, djb2_step, hash_size, djb2}
use uestc_shixvn_mini_web_se.Session.{
  session_at, remove_from_hash, enter_session, retry, expire_one, cleanup_from, free_session,
  random_bytes, hex_encode, session_cleanup_expired, zero_session, matches, set_used, session_init,
  max_sessions, clear_slot, check_expiry, new_session, session_create, str_eq, session_destroy,
  session_lookup, djb2, SessionStore, Session, urandom, hash_id, Entropy,
}
use uestc_shixvn_mini_web_se.Prelude.{
  Bytes, ℕ, zero, suc, ◌<◌, ◌≡◌, refl, ap, ◌≢◌, true, false, Option, none, some, List, [], ◌∷◌,
  arith, set, get_or, replicate, codes,
}

get_or-replicate {ℓ} : {A : Type ℓ} (n i : ℕ) (a : A) → get_or (replicate n a) i a ≡ a
get_or-replicate zero i a = refl
get_or-replicate (suc n) zero a = refl
get_or-replicate (suc n) (suc i) a = get_or-replicate n i a

get_or-replicate_below {ℓ} :
    {A : Type ℓ} (n i : ℕ) (a d : A) → i < n → get_or (replicate n a) i d ≡ a
get_or-replicate_below zero i a d h = absurd (omega arith)
get_or-replicate_below (suc n) zero a d h = refl
get_or-replicate_below (suc n) (suc i) a d h = get_or-replicate_below n i a d (omega arith)

abbrev dice : Entropy
dice = urandom (replicate 32 171)

abbrev token : Bytes
token = codes "abababababababababababababababababababababababababababababababab"

abbrev session_for : Bytes → Bytes → Session
session_for id name = new_session id name (codes "user") 100

-- Two sessions whose identifiers have the same hash value.
abbrev two : SessionStore
two = record {
  sessions = session_for (codes "08") (codes "ann") ∷ session_for (codes "80") (codes "bob") ∷ [];
  hash = set (set (replicate hash_size none) 173 (some 0)) 174 (some 1);
}

two_hashes : (hash_id (codes "08") ≡ 173) × (hash_id (codes "80") ≡ 173)
unfolding hash_id djb2 djb2_step
two_hashes = (refl, refl)

two_found : session_lookup (codes "80") 3700 two ≡ some (two, some 1)
unfolding session_lookup check_expiry hash_id djb2 djb2_step probe str_eq
two_found = refl

two_expired :
    session_lookup (codes "08") 3701 two ≡ some (clear_slot (set_used two 0 false) 173, none)
unfolding session_lookup session_destroy check_expiry hash_id djb2 djb2_step probe str_eq
two_expired = refl

two_destroyed : session_destroy (codes "08") two ≡ some (clear_slot (set_used two 0 false) 173)
unfolding session_destroy hash_id djb2 djb2_step probe str_eq
two_destroyed = refl

session_lookup-IsLive_example : (two ≡ two) × IsLive two (codes "80") 3700 1 × (codes "80" ≢ [])
session_lookup-IsLive_example = session_lookup-IsLive (codes "80") 3700 1 two two two_found

two-IsUnique : IsUnique two (codes "08")
unfolding str_eq
two-IsUnique zero zero h k = refl
two-IsUnique (suc zero) j h k = cc h
two-IsUnique (suc (suc i)) j h k = cc h
two-IsUnique zero (suc zero) h k = cc k
two-IsUnique zero (suc (suc j)) h k = cc k

session_destroy_revokes_example :
    session_lookup (codes "08") 200 (clear_slot (set_used two 0 false) 173) ≢ some (two, some 1)
session_destroy_revokes_example =
    session_destroy_revokes (codes "08") 200 1 two (clear_slot (set_used two 0 false) 173) two
      two-IsUnique two_destroyed

session_destroy_hides_example :
    (matches (clear_slot (set_used two 0 false) 173) (codes "80") 1 ≡ true)
    × (session_lookup (codes "80") 200 (clear_slot (set_used two 0 false) 173)
        ≡ some (clear_slot (set_used two 0 false) 173, none))
unfolding hash_id djb2 djb2_step str_eq
session_destroy_hides_example =
    session_destroy_hides (codes "08") (codes "80") 200 0 1 two
      (clear_slot (set_used two 0 false) 173) refl refl refl (λ e. absurd (omega arith)) refl refl
      two_destroyed

-- A table as `session_init` leaves it, with one session entered.
abbrev made : SessionStore
made = record {
  sessions = set (replicate max_sessions zero_session) 0 (session_for token (codes "ann"));
  hash = set (replicate hash_size none) 101 (some 0);
}

session_create_runs :
    session_create dice 90 95 100 (codes "ann") (codes "user") session_init ≡ some (made, some 0)
unfolding session_create session_init session_cleanup_expired cleanup_from expire_one free_session
    retry enter_session hex_encode random_bytes hash_id djb2 djb2_step probe_free
session_create_runs = refl

token_made : hex_encode (random_bytes dice) ≡ token
unfolding hex_encode random_bytes
token_made = refl

unused-IsFresh :
    (id : Bytes) (st : SessionStore)
    → st.sessions ≡ replicate max_sessions zero_session
    → IsFresh st id
unused-IsFresh id st e j = ground (
  arith,
  ap (λ (ss : List Session). get_or ss j zero_session) e,
  get_or-replicate max_sessions j zero_session,
)

init-HasRoom : HasRoom session_init 0
unfolding session_init
init-HasRoom = record { table_size = refl; below = omega arith; is_free = refl }

init-IsSized : IsSized session_init
unfolding session_init
init-IsSized = record { session_count = refl; slot_count = refl }

session_create-Makes_example :
    Makes (hex_encode (random_bytes dice)) (codes "ann") (codes "user") 100 made 0
unfolding random_bytes session_init
session_create-Makes_example =
    session_create-Makes dice 90 95 100 0 (codes "ann") (codes "user") session_init made
      init-IsSized refl (unused-IsFresh (hex_encode (random_bytes dice)) session_init refl)
      session_create_runs

session_create_returns_example :
    (m : SessionStore × Option ℕ) × (session_create dice 90 95 100
        (codes "ann")
        (codes "user")
        session_init
      ≡ some m)
session_create_returns_example =
    session_create_returns dice 90 95 100 0 (codes "ann") (codes "user") session_init init-HasRoom

abbrev made_expired : SessionStore
made_expired = clear_slot (set_used made 0 false) 101

made_cleaned : session_cleanup_expired 3701 made ≡ some made_expired
unfolding session_cleanup_expired cleanup_from expire_one remove_from_hash hash_id djb2 djb2_step
    probe
made_cleaned = refl

session_cleanup_expired-swept_example : session_at made_expired 0 ≡ swept 3701 (session_at made 0)
session_cleanup_expired-swept_example =
    session_cleanup_expired-swept 3701 0 made made_expired refl made_cleaned

session_cleanup_expired_returns_example :
    (st : SessionStore) × (session_cleanup_expired 3701 session_init ≡ some st) × HasRoom st 0
session_cleanup_expired_returns_example =
    session_cleanup_expired_returns 3701 0 session_init init-HasRoom

-- Every slot holds an entry of the first session slot, and no session is in use.
abbrev jammed : SessionStore
jammed = record {
  sessions = replicate max_sessions zero_session;
  hash = replicate hash_size (some 0);
}

session_create_hangs_example :
    (session_create dice 90 95 100 (codes "ann") (codes "user") jammed ≡ none)
    × ((fuel : ℕ) → probe_free fuel jammed.hash (hash_id (hex_encode (random_bytes dice))) ≡ none)
unfolding free_session
session_create_hangs_example =
    session_create_hangs dice 90 95 100 0 (codes "ann") (codes "user") jammed
      (λ h b. (0, get_or-replicate_below hash_size h (some 0) none b))
      (λ j. rw (get_or-replicate max_sessions j zero_session) refl) refl
