-- ===== src/Relay/Channel/Send.antt =====
-- What the send loops put on the wire.
use rever_ssh.Prelude.{ℕ, ◌≤◌, ◌<◌, ◌≡◌, ◌≢◌, List, [], ◌∷◌, ◌++◌, length}
use rever_ssh.Exn.{Exn, Result, ok, err, out_of_fuel}
use rever_ssh.Bytes.{Bytes}
use rever_ssh.Relay.Channel.{Channel, Wake, Outcome}

-- The payloads carry `x`, each a non-empty chunk of it, to a recipient and within a packet limit
-- that are allowed together.
pub data Carries (payload : ℕ → Bytes → Result Bytes) (Allowed : ℕ → ℕ → Type 0)
    : List Bytes → Bytes → Type 0 where
  nothing : Carries payload Allowed [] []
  chunk :
      {ps : List Bytes} {x : Bytes} (r m : ℕ) (b p : Bytes)
      → Allowed r m
      → payload r b ≡ ok p
      → 0 < length b
      → length b ≤ m
      → Carries payload Allowed ps x
      → Carries payload Allowed (p ∷ ps) (b ++ x)

-- What a loop over `b` does with `budget` bytes of window and credit, however it ends: it sends a
-- front of `b` that fits the budget, and the whole of `b` if it returns.
pub record Progress (payload : ℕ → Bytes → Result Bytes) (Allowed : ℕ → ℕ → Type 0) (b : Bytes)
    (budget : ℕ) (o : Outcome) : Type 0 where
  pub carried : Bytes
  pub left : Bytes
  pub split : b ≡ carried ++ left
  pub sent : Carries payload Allowed o.0 carried
  pub within : length carried ≤ budget
  pub ends : o.1 ≢ err out_of_fuel
  pub complete : (r : Channel × List Wake) → o.1 ≡ ok r → left ≡ []
