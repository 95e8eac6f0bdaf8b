-- ===== src/Relay/Connection/Objects/Kept.antt =====
-- The channel tables under the methods of the channel objects.
use rever_ssh.Prelude.{
  ℕ, ◌-◌, ◌==◌, length, ◌≡◌, refl, sym, ◌∙◌, Bool, true, false, Option, none, some, if◌then◌else◌,
}
use rever_ssh.Exn.{Result}
use rever_ssh.Bytes.{Bytes, Text}
use rever_ssh.Relay.Channel
use rever_ssh.Relay.Channel.{Channel}
use rever_ssh.Relay.Connection.State.{Kind, remote, forwarded, modify_base, Step}
use rever_ssh.Relay.Connection.State.Changes.{
  Keeps-modify, Keeps-object, Keeps-pop_channel, get-remove-some,
}
use rever_ssh.Relay.Connection.State.Tables.{
  HasRecipient, Keeps, Keeps-bind, Keeps-pure, Keeps-lift, Keeps-push_sent, Keeps-send_payload,
  Keeps-send_frame, Keeps-modify_client,
}
use rever_ssh.Relay.Connection.Objects.{
  send_some, send_option, client_channel_data, client_extended_data, client_channel_eof,
  client_channel_close, forget_channel, with_remote, give_socket, close_socket, modify_kind,
  on_kind_data, on_ssh_data, on_kind_extended, on_ssh_extended_data, on_kind_eof, on_ssh_eof,
  on_kind_close, on_ssh_close, close_for, send_channel_close, Sending, begin_sending, must_wait,
  take_chunk, send_turn, remote_data, remote_extended_data, remote_request, remote_eof, forget_kind,
  remote_close,
}

send_some-Keeps : (b : Option Bytes) → Keeps (send_some b)
unfolding send_some
send_some-Keeps none = Keeps-pure tt
send_some-Keeps (some b) = Keeps-push_sent b

pub send_option-Keeps : (r : Result (Option Bytes)) → Keeps (send_option r)
unfolding send_option
send_option-Keeps r = Keeps-bind _ _ (Keeps-lift r) send_some-Keeps

pub forget_channel-Keeps : (channel_id : ℕ) → Keeps (forget_channel channel_id)
unfolding forget_channel
forget_channel-Keeps channel_id =
    Keeps-modify_client _ (λ c h k r e. h k r (get-remove-some channel_id k c.channels r e))

with_remote-Keeps :
    (channel_id : Option ℕ) (k : ℕ → Step (Unit {0}))
    → ((c : ℕ) → Keeps (k c))
    → Keeps (with_remote channel_id k)
unfolding with_remote
with_remote-Keeps none k q = Keeps-pure tt
with_remote-Keeps (some c) k q = q c

pub if-Keeps :
    {A : Type 0} (b : Bool) (x y : Step A) → Keeps x → Keeps y → Keeps (if b then x else y)
if-Keeps true x y p q = p
if-Keeps false x y p q = q

-- A change of the kind that leaves a RemoteRelayChannel one, and a socket one.
pub modify_kind-Keeps :
    (i : ℕ) (f : Kind → Kind)
    → ((base : Channel) (kind : Kind) → HasRecipient base kind → HasRecipient base (f kind))
    → Keeps (modify_kind i f)
unfolding modify_kind
modify_kind-Keeps i f q = Keeps-modify i _ (λ o h. q o.base o.kind h)

-- A change of the base that leaves the recipient.
same_recipient :
    (base other : Channel) (kind : Kind)
    → base.recipient ≡ other.recipient
    → HasRecipient base kind
    → HasRecipient other kind
unfolding HasRecipient
same_recipient base other (remote channel_id) e (r, h) = (r, sym e ∙ h)
same_recipient base other (forwarded result out closed) e h = tt

abbrev Received : Channel → Type 0
Received c = (r : ℕ) × (c.recipient ≡ some r)

pub received : (base : Channel) (kind : Kind) → Received base → HasRecipient base kind
unfolding HasRecipient
received base (remote channel_id) h = h
received base (forwarded result out closed) h = tt

pub mark_closed-Keeps : (i : ℕ) → Keeps (modify_base i Channel.mark_closed)
unfolding Channel.mark_closed
mark_closed-Keeps i = Keeps-modify i _ (λ o h. same_recipient o.base _ o.kind refl h)

pub add_window-Keeps : (i amount : ℕ) → Keeps (modify_base i (Channel.add_window amount))
unfolding Channel.add_window
add_window-Keeps i amount = Keeps-modify i _ (λ o h. same_recipient o.base _ o.kind refl h)

pub set_recipient-Keeps :
    (i recipient window most : ℕ)
    → Keeps (modify_base i (Channel.set_recipient recipient window most))
unfolding Channel.set_recipient
set_recipient-Keeps i recipient window most =
    Keeps-modify i _ (λ o h. received _ o.kind (recipient, refl))

give_socket-HasRecipient :
    (b : Bytes) (base : Channel) (kind : Kind)
    → HasRecipient base kind
    → HasRecipient base (give_socket b kind)
unfolding HasRecipient give_socket
give_socket-HasRecipient b base (remote channel_id) h = h
give_socket-HasRecipient b base (forwarded result out closed) h = tt

close_socket-HasRecipient :
    (base : Channel) (kind : Kind) → HasRecipient base kind → HasRecipient base (close_socket kind)
unfolding HasRecipient close_socket
close_socket-HasRecipient base (remote channel_id) h = h
close_socket-HasRecipient base (forwarded result out closed) h = tt

on_kind_data-Keeps : (i : ℕ) (b : Bytes) (kind : Kind) → Keeps (on_kind_data i b kind)
unfolding on_kind_data client_channel_data
on_kind_data-Keeps i b (remote channel_id) =
    with_remote-Keeps channel_id _ (λ c. Keeps-send_frame _ _)
on_kind_data-Keeps i b (forwarded result out closed) =
    if-Keeps closed _ _ (Keeps-lift _)
      (modify_kind-Keeps i (give_socket b) (give_socket-HasRecipient b))

pub on_ssh_data-Keeps : (i : ℕ) (b : Bytes) → Keeps (on_ssh_data i b)
unfolding on_ssh_data
on_ssh_data-Keeps i b = Keeps-bind _ _ (Keeps-object i) (λ o. on_kind_data-Keeps i b o.kind)

on_kind_extended-Keeps :
    (i data_type : ℕ) (b : Bytes) (kind : Kind) → Keeps (on_kind_extended i data_type b kind)
unfolding on_kind_extended client_extended_data
on_kind_extended-Keeps i data_type b (remote channel_id) =
    with_remote-Keeps channel_id _ (λ c. Keeps-send_frame _ _)
on_kind_extended-Keeps i data_type b (forwarded result out closed) = on_ssh_data-Keeps i b

pub on_ssh_extended_data-Keeps :
    (i data_type : ℕ) (b : Bytes) → Keeps (on_ssh_extended_data i data_type b)
unfolding on_ssh_extended_data
on_ssh_extended_data-Keeps i data_type b =
    Keeps-bind _ _ (Keeps-object i) (λ o. on_kind_extended-Keeps i data_type b o.kind)

on_kind_eof-Keeps : (kind : Kind) → Keeps (on_kind_eof kind)
unfolding on_kind_eof client_channel_eof
on_kind_eof-Keeps (remote channel_id) = with_remote-Keeps channel_id _ (λ c. Keeps-send_frame _ _)
on_kind_eof-Keeps (forwarded result out closed) = Keeps-pure tt

pub on_ssh_eof-Keeps : (i : ℕ) → Keeps (on_ssh_eof i)
unfolding on_ssh_eof
on_ssh_eof-Keeps i = Keeps-bind _ _ (Keeps-object i) (λ o. on_kind_eof-Keeps o.kind)

on_kind_close-Keeps : (i : ℕ) (kind : Kind) → Keeps (on_kind_close i kind)
unfolding on_kind_close client_channel_close
on_kind_close-Keeps i (remote channel_id) =
    with_remote-Keeps channel_id _
      (λ c. Keeps-bind _ _ (Keeps-send_frame _ _) (λ _. forget_channel-Keeps c))
on_kind_close-Keeps i (forwarded result out closed) =
    modify_kind-Keeps i close_socket close_socket-HasRecipient

pub on_ssh_close-Keeps : (i : ℕ) → Keeps (on_ssh_close i)
unfolding on_ssh_close
on_ssh_close-Keeps i =
    Keeps-bind _ _ (mark_closed-Keeps i)
      (λ _. Keeps-bind _ _ (Keeps-object i) (λ o. on_kind_close-Keeps i o.kind))

close_for-Keeps : (i : ℕ) (recipient : Option ℕ) → Keeps (close_for i recipient)
unfolding close_for
close_for-Keeps i none = Keeps-pure tt
close_for-Keeps i (some recipient) =
    Keeps-bind _ _ (mark_closed-Keeps i)
      (λ _. Keeps-bind _ _ (Keeps-pop_channel i) (λ _. Keeps-send_payload _))

pub send_channel_close-Keeps : (i : ℕ) → Keeps (send_channel_close i)
unfolding send_channel_close
send_channel_close-Keeps i =
    Keeps-bind _ _ (Keeps-object i) (λ o. close_for-Keeps i o.base.recipient)

begin_sending-Keeps :
    (i : ℕ) (data_type : Option ℕ) (b : Bytes) → Keeps (begin_sending i data_type b)
unfolding begin_sending
begin_sending-Keeps i data_type b = Keeps-bind _ _ (Keeps-object i) (λ o. Keeps-pure _)

pub remote_data-Keeps : (i : ℕ) (b : Bytes) → Keeps (remote_data i b)
unfolding remote_data
remote_data-Keeps i b = begin_sending-Keeps i none b

pub remote_extended_data-Keeps :
    (i data_type : ℕ) (b : Bytes) → Keeps (remote_extended_data i data_type b)
unfolding remote_extended_data
remote_extended_data-Keeps i data_type b = begin_sending-Keeps i (some data_type) b

spend-Keeps :
    (i size : ℕ)
    → Keeps (modify_base i (λ base. record base { remote_window = base.remote_window - size }))
spend-Keeps i size = Keeps-modify i _ (λ o h. same_recipient o.base _ o.kind refl h)

take_chunk-Keeps : (job : Sending) (c : Channel) → Keeps (take_chunk job c)
unfolding take_chunk
take_chunk-Keeps job c = Keeps-bind _ _ (Keeps-lift _) (λ (size, c', rest).
    Keeps-bind _ _ (spend-Keeps job.channel size)
      (λ _. Keeps-bind _ _ (Keeps-send_payload _) (λ _. Keeps-pure _)))

pub send_turn-Keeps : (job : Sending) (timed_out : Bool) → Keeps (send_turn job timed_out)
unfolding send_turn
send_turn-Keeps job timed_out = Keeps-bind _ _ (Keeps-object job.channel) (λ o.
    if-Keeps (length job.left == 0) _ _ (Keeps-pure none) (
      if-Keeps (must_wait timed_out o.base) _ _ (Keeps-pure (some job))
        (take_chunk-Keeps job o.base)))

pub remote_request-Keeps :
    (i : ℕ) (request : Text) (want_reply : Bool) (payload : Bytes)
    → Keeps (remote_request i request want_reply payload)
unfolding remote_request
remote_request-Keeps i request want_reply payload =
    Keeps-bind _ _ (Keeps-object i) (λ o. send_option-Keeps _)

pub remote_eof-Keeps : (i : ℕ) → Keeps (remote_eof i)
unfolding remote_eof
remote_eof-Keeps i = Keeps-bind _ _ (Keeps-object i) (λ o. send_option-Keeps _)

forget_kind-Keeps : (kind : Kind) → Keeps (forget_kind kind)
unfolding forget_kind
forget_kind-Keeps (remote channel_id) = with_remote-Keeps channel_id _ forget_channel-Keeps
forget_kind-Keeps (forwarded result out closed) = Keeps-pure tt

pub remote_close-Keeps : (i : ℕ) → Keeps (remote_close i)
unfolding remote_close
remote_close-Keeps i = Keeps-bind _ _ (mark_closed-Keeps i) (λ _.
    Keeps-bind _ _ (send_channel_close-Keeps i)
      (λ _. Keeps-bind _ _ (Keeps-object i) (λ o. forget_kind-Keeps o.kind)))
