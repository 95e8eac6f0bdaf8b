-- ===== src/Relay/Connection/State.antt =====
-- The state of one `SSHConnection` and of the `RegisteredClient` that it uses, with the channel
-- objects that their two tables share. A step keeps the state that it reached where it raises.
pub mod Tables
pub mod Changes
pub mod Listed
pub mod Given
use rever_ssh.Prelude.{
  ℕ, ◌+◌, ◌≡◌, refl, ap, ap₂, ◌↔◌, Bool, true, false, ◌&&◌, List, [], ◌∷◌, ◌++◌, Option, none, some,
  arith, seq_eq, seq_eq_iff, ltb, length, if◌then◌else◌, ◌==◌, ==_iff,
}
use rever_ssh.Exn.{Result, ok, err, key_error, value_error, os_error}
use rever_ssh.Bytes.{Bytes, Text}
use rever_ssh.Dict
use rever_ssh.Dict.{Dict, Key, nat_key}
use rever_ssh.PrivateProtocol.Frame.{FrameType, max_frame}
use rever_ssh.Relay.Channel.{Channel, new_channel}

-- `RemoteRelayChannel` with its remote_channel_id, or `TCPForwardedChannel` with its open result,
-- what its socket was given, and whether it closed the socket.
pub data Kind : Type 0 where
  remote : Option ℕ → Kind
  forwarded : Option (Bool × Text) → List Bytes → Bool → Kind

-- A channel object; `base` are the fields of `SSHChannelBase` but the local id, which is its name.
pub record Object : Type 0 where
  pub base : Channel
  pub kind : Kind

-- `channels` has the objects by remote channel id. A PendingValue stands in `pending_open` until it
-- is set or its wait ends; `opened` has the values that were set.
pub record Client : Type 0 where
  pub alive : Bool
  pub channel_counter : ℕ
  pub channels : Dict ℕ ℕ
  pub pending_open : Dict ℕ (Unit {0})
  pub opened : Dict ℕ (Bool × Text)
  pub auth_counter : ℕ
  pub pending_auth : Dict ℕ (Unit {0})
  pub approved : Dict ℕ Bool
  -- whether the socket takes data
  pub connected : Bool
  -- the frames that were sent
  pub frames : List (FrameType × Bytes)

true_and : (a b : Bool) → (a && b) ≡ true → (a ≡ true) × (b ≡ true)
true_and true b h = (refl, h)
true_and false b h = absurd (ground arith)

and_true : (a b : Bool) → a ≡ true → b ≡ true → (a && b) ≡ true
and_true a b h k = rw (h, k) refl

pub pair_iff :
    (a b : Text) (m n : ℕ) → ((seq_eq a b && m == n) ≡ true) ↔ (◌≡◌ {A = Text × ℕ} (a, m) (b, n))
pair_iff a b m n = (
  λ h.
      let (same_text, same_port) = true_and (seq_eq a b) (m == n) h in
      ap₂ (λ (x : Text) (y : ℕ). (x, y)) ((seq_eq_iff a b).0 same_text) ((==_iff m n).0 same_port),
  λ e.
      and_true (seq_eq a b) (m == n) ((seq_eq_iff a b).1 (ap (λ (p : Text × ℕ). p.0) e))
        ((==_iff m n).1 (ap (λ (p : Text × ℕ). p.1) e)),
)

-- The keys of `forwards`.
instance abbrev pub bind_key : Key (Text × ℕ)
bind_key = record {
  beq = λ (a, m) (b, n). seq_eq a b && m == n;
  beq_iff = λ (a, m) (b, n). pair_iff a b m n;
}

pub record Connection : Type 0 where
  pub authenticated : Bool
  pub next_channel_id : ℕ
  -- every channel object made, by local id
  pub objects : Dict ℕ Object
  pub channels : Dict ℕ ℕ
  pub forwards : Dict (Text × ℕ) ℕ
  pub closed_listeners : List ℕ
  pub recv_sequence : ℕ
  pub client : Client
  -- what `send_payload` was called with
  pub sent : List Bytes

abbrev pub Step : Type 0 → Type 0
Step A = Connection → Result A × Connection

unfoldable pub and_then :
    {A B : Type 0} → Result A × Connection → (A → Step B) → Result B × Connection
and_then (ok a, s) k = k a s
and_then (err e, s) k = (err e, s)

infixl 5 ◌>>=◌ ◌>>◌
unfoldable pub ◌>>=◌ : {A B : Type 0} → Step A → (A → Step B) → Step B
unfolding and_then
◌>>=◌ m k s = and_then (m s) k

abbrev pub ◌>>◌ : {B : Type 0} → Step (Unit {0}) → Step B → Step B
m >> k = m >>= λ _. k

unfoldable pub pure : {A : Type 0} → A → Step A
pure a s = (ok a, s)

unfoldable pub lift : {A : Type 0} → Result A → Step A
lift r s = (r, s)

unfoldable pub get_state : Step Connection
get_state s = (ok s, s)

unfoldable pub push_sent : Bytes → Step (Unit {0})
push_sent b s = (ok tt, record s { sent = s.sent ++ b ∷ [] })

-- self.send_payload of a payload whose writing may raise
unfoldable pub send_payload : Result Bytes → Step (Unit {0})
send_payload r = do b ← lift r; push_sent b

unfoldable pub modify_client : (Client → Client) → Step (Unit {0})
modify_client f s = (ok tt, record s { client = f s.client })

-- The block of RegisteredClient.open_channel under the lock, but for the object's field.
unfoldable pub take_channel_id : ℕ → Step ℕ
take_channel_id i s =
    let channel_id : ℕ = s.client.channel_counter in
    (
      ok channel_id,
      record s {
        client = record s.client {
          channel_counter = channel_id + 1;
          channels = Dict.put channel_id i s.client.channels;
          pending_open = Dict.put channel_id tt s.client.pending_open;
        };
      },
    )

-- FrameSocket.send_frame
unfoldable pub push_frame : FrameType → Bytes → Step (Unit {0})
push_frame t b s =
    if ltb max_frame (length b + 1)
    then (err value_error, s)
    else if s.client.connected
    then (ok tt, record s { client = record s.client { frames = s.client.frames ++ (t, b) ∷ [] } })
    else (err os_error, s)

-- self.frames.send_frame of a payload whose packing may raise
unfoldable pub send_frame : FrameType → Result Bytes → Step (Unit {0})
send_frame t r = do b ← lift r; push_frame t b

unfoldable pub found : Option Object → Result Object
found none = err key_error
found (some o) = ok o

-- The object of a name; every name in the tables has one.
unfoldable pub object : ℕ → Step Object
unfolding found
object i s = (found (Dict.get i s.objects), s)

unfoldable pub modified : ℕ → Option Object → (Object → Object) → Dict ℕ Object → Dict ℕ Object
modified i none f d = d
modified i (some o) f d = Dict.put i (f o) d

-- What a method writes to the fields of an object.
unfoldable pub modify : ℕ → (Object → Object) → Step (Unit {0})
unfolding modified
modify i f s = (ok tt, record s { objects = modified i (Dict.get i s.objects) f s.objects })

abbrev pub modify_base : ℕ → (Channel → Channel) → Step (Unit {0})
modify_base i f = modify i (λ o. record o { base = f o.base })

-- _next_channel_id, and the object that is made with the id. The source takes no lock for it; here
-- no other thread comes between its read and its increment.
unfoldable pub new_object : Kind → Step ℕ
new_object kind s = (
  ok s.next_channel_id,
  record s {
    next_channel_id = s.next_channel_id + 1;
    objects = Dict.put s.next_channel_id (record { base = new_channel; kind = kind }) s.objects;
  },
)

-- self.channels[local_id] = channel
unfoldable pub list_channel : ℕ → Step (Unit {0})
list_channel i s = (ok tt, record s { channels = Dict.put i i s.channels })

-- self.channels.pop(local_id, None)
unfoldable pub pop_channel : ℕ → Step (Option ℕ)
pop_channel i s = (ok (Dict.get i s.channels), record s { channels = Dict.remove i s.channels })

-- self.channels.get(local_id)
unfoldable pub find_channel : ℕ → Step (Option ℕ)
find_channel i s = (ok (Dict.get i s.channels), s)

-- client.channels.get(channel_id)
unfoldable pub find_remote : ℕ → Step (Option ℕ)
find_remote i s = (ok (Dict.get i s.client.channels), s)

-- if channel: ...
unfoldable pub when_found : Option ℕ → (ℕ → Step (Unit {0})) → Step (Unit {0})
when_found none k = pure tt
when_found (some i) k = k i

unfoldable pub when : Bool → Step (Unit {0}) → Step (Unit {0})
when true k = k
when false k = pure tt
