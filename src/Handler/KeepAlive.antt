-- ===== src/Handler/KeepAlive.antt =====
-- What a connection that ends well has answered.
use uestc_shixvn_mini_web_se.Handler.{UserStore, Server, Reply}
use uestc_shixvn_mini_web_se.Handler.Connection.{
  Config, message, Round, Ending, or_error, respond_message, serve_rounds,
}
use uestc_shixvn_mini_web_se.Prelude.{
  Bytes, ℕ, suc, ◌+◌, ◌≤◌, ◌<◌, ◌≡◌, some, List, [], ◌∷◌, length,
}

-- The messages are answered one after the other, each on the server that the one before left; a
-- reply of -1 is answered with the server error.
pub data Answers {U : Type 0} (store : UserStore U) (config : Config)
    : Server U → List Round → List Reply → Server U → Type 0 where
  idle : (server : Server U) (rounds : List Round) → Answers store config server rounds [] server
  answer :
      (server server1 server2 : Server U) (r : Round) (rounds : List Round) (raw : Bytes)
      (reply : Reply) (replies : List Reply)
      → r.received ≡ message raw
      → respond_message store config r.outside server raw ≡ some (some (server1, reply))
      → Answers store config server1 rounds replies server2
      → Answers store config server (r ∷ rounds) (or_error reply ∷ replies) server2

abbrev Responds : {U : Type 0} → UserStore U → Config → Server U → Round → Reply → Server U → Type 0
Responds store config server r sent server' =
    (raw : Bytes) × (reply : Reply) × (r.received ≡ message raw)
    × (respond_message store config r.outside server raw ≡ some (some (server', reply)))
    × (or_error reply ≡ sent)

-- How many are answered, of `left` that may be.
abbrev Within : ℕ → ℕ → List Reply → Type 0
Within count left sent = (0 < count + length sent) × (length sent ≤ left)

module _ {U : Type 0} (store : UserStore U) (config : Config) where
  module _ (count left : ℕ) (server : Server U) (r : Round) (rounds : List Round) where
    abbrev runs : Ending U
    runs = serve_rounds store config count (suc left) server (r ∷ rounds)
