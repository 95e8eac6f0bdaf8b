-- ===== src/Relay/Connection/State/Tables.antt =====
-- The tables of a connection and of its client, and the steps that keep them in order.
use rever_ssh.Prelude.{
  ℕ, ◌+◌, ◌≤◌, ◌<◌, ◌≡◌, some, arith, Bool, true, false, ltb, length, [], ◌∷◌, ◌++◌, if◌then◌else◌,
}
use rever_ssh.Exn.{Result, ok, err}
use rever_ssh.Bytes.{Bytes}
use rever_ssh.Dict
use rever_ssh.Dict.{Dict, nat_key, get-put, get-remove}
use rever_ssh.PrivateProtocol.Frame.{FrameType, max_frame}
use rever_ssh.Relay.Channel.{Channel}
use rever_ssh.Relay.Connection.State.{
  Kind, remote, forwarded, Object, Client, Connection, Step, and_then, ◌>>=◌, pure, lift, get_state,
  push_sent, send_payload, modify_client, push_frame, send_frame, find_channel, find_remote,
}

-- A RemoteRelayChannel has its recipient; a TCPForwardedChannel has none until it is confirmed.
unfoldable pub HasRecipient : Channel → Kind → Type 0
HasRecipient base (remote channel_id) = (r : ℕ) × (base.recipient ≡ some r)
HasRecipient base (forwarded result out closed) = Unit {0}

-- The ids of the table are below the client's counter.
abbrev pub IsCounted : Client → Type 0
IsCounted c = (k r : ℕ) → Dict.get k c.channels ≡ some r → k < c.channel_counter

pub record IsValid (s : Connection) : Type 0 where
  -- a channel stands under its own id, and the id was given out
  pub named : (k r : ℕ) → Dict.get k s.channels ≡ some r → (r ≡ k) × (k < s.next_channel_id)
  pub given : (k : ℕ) (o : Object) → Dict.get k s.objects ≡ some o → k < s.next_channel_id
  pub receivable :
      (k r : ℕ) (o : Object)
      → Dict.get k s.channels ≡ some r
      → Dict.get r s.objects ≡ some o
      → HasRecipient o.base o.kind
  pub counted : IsCounted s.client

-- A step that keeps the tables in order and takes no id back.
pub record Keeps {A : Type 0} (m : Step A) : Type 0 where
  pub valid : (s : Connection) → IsValid s → IsValid (m s).1
  pub grows : (s : Connection) → s.next_channel_id ≤ (m s).1.next_channel_id

and_then-IsValid :
    {A B : Type 0} (o : Result A × Connection) (k : A → Step B)
    → IsValid o.1
    → ((a : A) → Keeps (k a))
    → IsValid (and_then o k).1
unfolding and_then
and_then-IsValid (ok a, s) k h q = (q a).valid s h
and_then-IsValid (err e, s) k h q = h

and_then-grows :
    {A B : Type 0} (o : Result A × Connection) (k : A → Step B)
    → ((a : A) → Keeps (k a))
    → o.1.next_channel_id ≤ (and_then o k).1.next_channel_id
unfolding and_then
and_then-grows (ok a, s) k q = (q a).grows s
and_then-grows (err e, s) k q = omega arith

pub Keeps-bind :
    {A B : Type 0} (m : Step A) (k : A → Step B)
    → Keeps m
    → ((a : A) → Keeps (k a))
    → Keeps (m >>= k)
unfolding ◌>>=◌
Keeps-bind m k q r = record {
  valid = λ s h. and_then-IsValid (m s) k (q.valid s h) r;
  grows = λ s.
      let first : s.next_channel_id ≤ (m s).1.next_channel_id = q.grows s in
      let second : (m s).1.next_channel_id ≤ (and_then (m s) k).1.next_channel_id =
        and_then-grows (m s) k r in
      omega arith;
}

-- What leaves the tables alone.
pub Keeps_same : {A : Type 0} (r : Connection → Result A) → Keeps (λ s. (r s, s))
Keeps_same r = record { valid = λ s h. h; grows = λ s. omega arith }

pub Keeps-pure : {A : Type 0} (a : A) → Keeps (pure a)
unfolding pure
Keeps-pure a = Keeps_same (λ s. ok a)

pub Keeps-lift : {A : Type 0} (r : Result A) → Keeps (lift r)
unfolding lift
Keeps-lift r = Keeps_same (λ s. r)

pub Keeps-get_state : Keeps get_state
unfolding get_state
Keeps-get_state = Keeps_same ok

pub Keeps-find_channel : (i : ℕ) → Keeps (find_channel i)
unfolding find_channel
Keeps-find_channel i = Keeps_same (λ s. ok (Dict.get i s.channels))

pub Keeps-find_remote : (i : ℕ) → Keeps (find_remote i)
unfolding find_remote
Keeps-find_remote i = Keeps_same (λ s. ok (Dict.get i s.client.channels))

pub Keeps-push_sent : (b : Bytes) → Keeps (push_sent b)
unfolding push_sent
Keeps-push_sent b = record {
  valid = λ s h. record {
    named = h.named;
    given = h.given;
    receivable = h.receivable;
    counted = h.counted;
  };
  grows = λ s. omega arith;
}

added_frame-Keeps :
    (t : FrameType) (b : Bytes)
    → Keeps (λ s.
      (ok tt, record s { client = record s.client { frames = s.client.frames ++ (t, b) ∷ [] } }))
added_frame-Keeps t b = record {
  valid = λ s h. record {
    named = h.named;
    given = h.given;
    receivable = h.receivable;
    counted = h.counted;
  };
  grows = λ s. omega arith;
}

if-IsValid :
    {A : Type 0} (b : Bool) (x y : Result A × Connection)
    → IsValid x.1
    → IsValid y.1
    → IsValid (if b then x else y).1
if-IsValid true x y h k = h
if-IsValid false x y h k = k

if_grows :
    {A : Type 0} (n : ℕ) (b : Bool) (x y : Result A × Connection)
    → n ≤ x.1.next_channel_id
    → n ≤ y.1.next_channel_id
    → n ≤ (if b then x else y).1.next_channel_id
if_grows n true x y h k = h
if_grows n false x y h k = k

pub Keeps-push_frame : (t : FrameType) (b : Bytes) → Keeps (push_frame t b)
unfolding push_frame
Keeps-push_frame t b = record {
  valid = λ s h.
      if-IsValid (ltb max_frame (length b + 1)) _ _ h
        (if-IsValid s.client.connected _ _ ((added_frame-Keeps t b).valid s h) h);
  grows = λ s.
      if_grows s.next_channel_id (ltb max_frame (length b + 1)) _ _ (omega arith)
        (if_grows s.next_channel_id s.client.connected _ _ (omega arith) (omega arith));
}

pub Keeps-send_payload : (r : Result Bytes) → Keeps (send_payload r)
unfolding send_payload
Keeps-send_payload r = Keeps-bind (lift r) push_sent (Keeps-lift r) Keeps-push_sent

pub Keeps-send_frame : (t : FrameType) (r : Result Bytes) → Keeps (send_frame t r)
unfolding send_frame
Keeps-send_frame t r = Keeps-bind (lift r) (push_frame t) (Keeps-lift r) (Keeps-push_frame t)

pub Keeps-modify_client :
    (f : Client → Client) → ((c : Client) → IsCounted c → IsCounted (f c)) → Keeps (modify_client f)
unfolding modify_client
Keeps-modify_client f q = record {
  valid = λ s h. record {
    named = h.named;
    given = h.given;
    receivable = h.receivable;
    counted = q s.client h.counted;
  };
  grows = λ s. omega arith;
}
