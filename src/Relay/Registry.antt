-- ===== src/Relay/Registry.antt =====
-- `ClientRegistry` of reverssh/relay.py, with the `alive` flags of the clients that it refers to.
-- A client is an object: it has an identity, a number here, and `is` compares identities.
pub mod Stable
mod Tests
use rever_ssh.Prelude.{
  ℕ, ◌≡◌, Bool, true, false, List, [], ◌∷◌, Option, none, some, ◌==◌, if◌then◌else◌,
}
use rever_ssh.Bytes.{Text}
use rever_ssh.Dict
use rever_ssh.Dict.{Dict, seq_key}

pub record Registry : Type 0 where
  pub clients : Dict Text ℕ
  pub alive : ℕ → Bool

-- `existing and existing.alive`
live : Registry → Option ℕ → Bool
live r none = false
live r (some c) = r.alive c

unfoldable pub add : Text → ℕ → Registry → Bool × Registry
unfolding live
add identifier client r =
    if live r (Dict.get identifier r.clients)
    then (false, r)
    else (true, record r { clients = Dict.put identifier client r.clients })

same_client : Option ℕ → ℕ → Bool
same_client none client = false
same_client (some c) client = c == client

unfoldable pub remove : Text → ℕ → Registry → Registry
unfolding same_client
remove identifier client r =
    if same_client (Dict.get identifier r.clients) client
    then record r { clients = Dict.remove identifier r.clients }
    else r

if_live : Registry → Option ℕ → Option ℕ
if_live r none = none
if_live r (some c) = if r.alive c then some c else none

unfoldable pub get : Text → Registry → Option ℕ
unfolding if_live
get identifier r = if_live r (Dict.get identifier r.clients)

-- `self.alive = False`, the first step of `RegisteredClient.close`.
unfoldable pub mark_dead : ℕ → Registry → Registry
mark_dead client r = record r { alive = λ c. if c == client then false else r.alive c }

-- One step of some thread. The lock makes each a step of its own; `close` is `mark_dead`, then
-- `remove`, and other threads may step in between.
pub data Op : Type 0 where
  adding : Text → ℕ → Op
  dying : ℕ → Op
  removing : Text → ℕ → Op

unfoldable pub step : Op → Registry → Registry
unfolding add remove mark_dead
step (adding identifier client) r = (add identifier client r).1
step (dying client) r = mark_dead client r
step (removing identifier client) r = remove identifier client r

unfoldable pub run : List Op → Registry → Registry
unfolding step
run [] r = r
run (op ∷ ops) r = run ops (step op r)
