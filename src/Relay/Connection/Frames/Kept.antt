-- ===== src/Relay/Connection/Frames/Kept.antt =====
-- The channel tables under the frames of the client.
use rever_ssh.Prelude.{ℕ, ◌<◌, ◌≡◌, refl, subst, Bool, List, [], ◌∷◌, Option, none, some, arith}
use rever_ssh.Bytes.{Bytes, Text}
use rever_ssh.Dict
use rever_ssh.Dict.{nat_key}
use rever_ssh.Relay.Connection.Objects.{Sending}
use rever_ssh.PrivateProtocol.Frame.{FrameType}
use rever_ssh.Relay.Connection.State.{Client, Step}
use rever_ssh.Relay.Connection.State.Changes.{Keeps-when, Keeps-when_found}
use rever_ssh.Relay.Connection.State.Tables.{
  Keeps, Keeps-bind, Keeps-pure, Keeps-lift, Keeps-get_state, Keeps-modify_client,
  Keeps-find_remote,
}
use rever_ssh.Relay.Connection.Objects.Kept.{
  remote_data-Keeps, remote_extended_data-Keeps, remote_request-Keeps, remote_eof-Keeps,
  remote_close-Keeps,
}
use rever_ssh.Relay.Connection.State.{modify_client}
use rever_ssh.Relay.Connection.Frames.{
  set_approved, auth_response, set_opened, open_confirm, for_remote, sender_found, for_sender,
  handled, handle_frame, close_all, close_client,
}

-- A change of the client that leaves its channels and its counter.
same_client :
    (f : Client → Client)
    → ((c : Client) → (f c).channels ≡ c.channels)
    → ((c : Client) → (f c).channel_counter ≡ c.channel_counter)
    → Keeps (modify_client f)
same_client f p q = Keeps-modify_client f (λ c h k r e.
    let counter : (f c).channel_counter ≡ c.channel_counter = q c in
    let below : k < c.channel_counter = h k r (subst (λ d. Dict.get k d ≡ some r) (p c) e) in
    omega arith)

set_approved-Keeps :
    (auth_id : ℕ) (value : Bool) (pending : Option (Unit {0}))
    → Keeps (set_approved auth_id value pending)
unfolding set_approved
set_approved-Keeps auth_id value none = Keeps-pure tt
set_approved-Keeps auth_id value (some _) = same_client _ (λ c. refl) (λ c. refl)

auth_response-Keeps : (r : ℕ × Bool × Bool) → Keeps (auth_response r)
unfolding auth_response
auth_response-Keeps (auth_id, value, persist) = Keeps-bind _ _ Keeps-get_state (λ s.
    Keeps-bind _ _ (same_client _ (λ c. refl) (λ c. refl))
      (λ _. set_approved-Keeps auth_id value _))

set_opened-Keeps :
    (channel_id : ℕ) (value : Bool × Text) (pending : Option (Unit {0}))
    → Keeps (set_opened channel_id value pending)
unfolding set_opened
set_opened-Keeps channel_id value none = Keeps-pure tt
set_opened-Keeps channel_id value (some _) = same_client _ (λ c. refl) (λ c. refl)

open_confirm-Keeps : (r : ℕ × Bool × Text) → Keeps (open_confirm r)
unfolding open_confirm
open_confirm-Keeps (channel_id, is_ok, message) = Keeps-bind _ _ Keeps-get_state (λ s.
    Keeps-bind _ _ (same_client _ (λ c. refl) (λ c. refl))
      (λ _. set_opened-Keeps channel_id (is_ok, message) _))

for_remote-Keeps :
    (channel_id : ℕ) (k : ℕ → Step (Unit {0}))
    → ((i : ℕ) → Keeps (k i))
    → Keeps (for_remote channel_id k)
unfolding for_remote
for_remote-Keeps channel_id k q =
    Keeps-bind _ _ (Keeps-find_remote channel_id) (λ found. Keeps-when_found found k q)

sender_found-Keeps :
    (found : Option ℕ) (k : ℕ → Step (Option Sending))
    → ((i : ℕ) → Keeps (k i))
    → Keeps (sender_found found k)
unfolding sender_found
sender_found-Keeps none k q = Keeps-pure none
sender_found-Keeps (some i) k q = q i

for_sender-Keeps :
    (channel_id : ℕ) (k : ℕ → Step (Option Sending))
    → ((i : ℕ) → Keeps (k i))
    → Keeps (for_sender channel_id k)
unfolding for_sender
for_sender-Keeps channel_id k q =
    Keeps-bind _ _ (Keeps-find_remote channel_id) (λ found. sender_found-Keeps found k q)

handled-Keeps : (m : Step (Unit {0})) → Keeps m → Keeps (handled m)
unfolding handled
handled-Keeps m q = Keeps-bind _ _ q (λ _. Keeps-pure none)

pub handle_frame-Keeps :
    (frame_type : FrameType) (payload : Bytes) → Keeps (handle_frame frame_type payload)
unfolding handle_frame
handle_frame-Keeps FrameType.auth_response payload =
    handled-Keeps _ (Keeps-bind _ _ (Keeps-lift _) auth_response-Keeps)
handle_frame-Keeps FrameType.open_confirm payload =
    handled-Keeps _ (Keeps-bind _ _ (Keeps-lift _) open_confirm-Keeps)
handle_frame-Keeps FrameType.channel_data payload =
    Keeps-bind _ _ (Keeps-lift _) (λ (c, b). for_sender-Keeps c _ (λ i. remote_data-Keeps i b))
handle_frame-Keeps FrameType.channel_extended_data payload =
    Keeps-bind _ _ (Keeps-lift _)
      (λ (c, data_type, b). for_sender-Keeps c _ (λ i. remote_extended_data-Keeps i data_type b))
handle_frame-Keeps FrameType.channel_request payload =
    Keeps-bind _ _ (Keeps-lift _) (λ (c, request, want_reply, b).
      handled-Keeps _ (for_remote-Keeps c _ (λ i. remote_request-Keeps i request want_reply b)))
handle_frame-Keeps FrameType.channel_eof payload =
    Keeps-bind _ _ (Keeps-lift _) (λ c. handled-Keeps _ (for_remote-Keeps c _ remote_eof-Keeps))
handle_frame-Keeps FrameType.channel_close payload =
    Keeps-bind _ _ (Keeps-lift _) (λ c. handled-Keeps _ (for_remote-Keeps c _ remote_close-Keeps))
handle_frame-Keeps FrameType.heartbeat payload = Keeps-pure none
handle_frame-Keeps FrameType.register payload = Keeps-pure none
handle_frame-Keeps FrameType.register_result payload = Keeps-pure none
handle_frame-Keeps FrameType.auth_request payload = Keeps-pure none
handle_frame-Keeps FrameType.open_channel payload = Keeps-pure none

close_all-Keeps : (channels : List (ℕ × ℕ)) → Keeps (close_all channels)
unfolding close_all
close_all-Keeps [] = Keeps-pure tt
close_all-Keeps ((c, i) ∷ channels) =
    Keeps-bind _ _ (remote_close-Keeps i) (λ _. close_all-Keeps channels)

pub close_client-Keeps : Keeps close_client
unfolding close_client
close_client-Keeps = Keeps-bind _ _ Keeps-get_state (λ s. Keeps-when s.client.alive _ (
    Keeps-bind _ _ (same_client _ (λ c. refl) (λ c. refl))
      (λ _. close_all-Keeps s.client.channels)))
