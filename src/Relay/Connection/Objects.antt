-- ===== src/Relay/Connection/Objects.antt =====
-- What the connection and the client do to a channel object: the methods of the two channel
-- classes, and the sending methods of `RegisteredClient` and `SSHConnection` that they call.
pub mod Kept
use rever_ssh.Prelude.{
  ℕ, ◌-◌, Bool, true, false, not, ◌&&◌, ◌==◌, length, take, drop, List, [], ◌∷◌, ◌++◌, Option, none,
  some, if◌then◌else◌,
}
use rever_ssh.Exn.{Result, ok, err, os_error}
use rever_ssh.Exn.{◌>>=◌ as bind}
use rever_ssh.Bytes.{Bytes, Text}
use rever_ssh.Dict
use rever_ssh.Dict.{nat_key}
use rever_ssh.PrivateProtocol.Frame.{FrameType}
use rever_ssh.PrivateProtocol.Pack.{
  pack_channel_data, pack_extended_data, pack_channel_id, pack_channel_request,
}
use rever_ssh.Relay.Messages.{ssh_msg_channel_close}
use rever_ssh.Relay.Channel
use rever_ssh.Relay.Channel.{Channel}
use rever_ssh.Relay.Payloads
use rever_ssh.Relay.Payloads.{id_payload}
use rever_ssh.Relay.Connection.State.{
  Kind, remote, forwarded, Object, Connection, Step, ◌>>=◌, ◌>>◌, pure, lift, get_state, push_sent,
  send_payload, modify_client, send_frame, object, modify, modify_base, pop_channel,
}

-- A payload that is left out where the channel has no recipient.
unfoldable pub send_some : Option Bytes → Step (Unit {0})
send_some none = pure tt
send_some (some b) = push_sent b

unfoldable pub send_option : Result (Option Bytes) → Step (Unit {0})
unfolding send_some
send_option r = lift r >>= send_some

-- RegisteredClient.send_channel_data and its like
unfoldable pub client_channel_data : ℕ → Bytes → Step (Unit {0})
client_channel_data channel_id b =
    send_frame FrameType.channel_data (pack_channel_data channel_id b)

unfoldable pub client_extended_data : ℕ → ℕ → Bytes → Step (Unit {0})
client_extended_data channel_id data_type b =
    send_frame FrameType.channel_extended_data (pack_extended_data channel_id data_type b)

unfoldable pub client_channel_request : ℕ → Text → Bool → Bytes → Step (Unit {0})
client_channel_request channel_id request want_reply payload =
    send_frame FrameType.channel_request
      (pack_channel_request channel_id request want_reply payload)

unfoldable pub client_channel_eof : ℕ → Step (Unit {0})
client_channel_eof channel_id = send_frame FrameType.channel_eof (pack_channel_id channel_id)

unfoldable pub client_channel_close : ℕ → Step (Unit {0})
client_channel_close channel_id = send_frame FrameType.channel_close (pack_channel_id channel_id)

unfoldable pub forget_channel : ℕ → Step (Unit {0})
forget_channel channel_id =
    modify_client (λ c. record c { channels = Dict.remove channel_id c.channels })

-- `if self.remote_channel_id is not None`
unfoldable pub with_remote : Option ℕ → (ℕ → Step (Unit {0})) → Step (Unit {0})
with_remote none k = pure tt
with_remote (some channel_id) k = k channel_id

-- self.tcp_sock.sendall(data), and its shutdown and close
give_socket : Bytes → Kind → Kind
give_socket b (remote channel_id) = remote channel_id
give_socket b (forwarded result out closed) = forwarded result (out ++ b ∷ []) closed

close_socket : Kind → Kind
close_socket (remote channel_id) = remote channel_id
close_socket (forwarded result out closed) = forwarded result out true

unfoldable pub modify_kind : ℕ → (Kind → Kind) → Step (Unit {0})
modify_kind i f = modify i (λ o. record o { kind = f o.kind })

-- A closed socket does not take data.
unfoldable pub on_kind_data : ℕ → Bytes → Kind → Step (Unit {0})
unfolding with_remote give_socket
on_kind_data i b (remote channel_id) = with_remote channel_id (λ c. client_channel_data c b)
on_kind_data i b (forwarded result out closed) =
    if closed then lift (err os_error) else modify_kind i (give_socket b)

unfoldable pub on_ssh_data : ℕ → Bytes → Step (Unit {0})
unfolding on_kind_data
on_ssh_data i b = do o ← object i; on_kind_data i b o.kind

on_kind_extended : ℕ → ℕ → Bytes → Kind → Step (Unit {0})
unfolding with_remote
on_kind_extended i data_type b (remote channel_id) =
    with_remote channel_id (λ c. client_extended_data c data_type b)
on_kind_extended i data_type b (forwarded result out closed) = on_ssh_data i b

pub on_ssh_extended_data : ℕ → ℕ → Bytes → Step (Unit {0})
unfolding on_kind_extended
on_ssh_extended_data i data_type b = do o ← object i; on_kind_extended i data_type b o.kind

on_kind_eof : Kind → Step (Unit {0})
unfolding with_remote
on_kind_eof (remote channel_id) = with_remote channel_id client_channel_eof
on_kind_eof (forwarded result out closed) = pure tt

pub on_ssh_eof : ℕ → Step (Unit {0})
unfolding on_kind_eof
on_ssh_eof i = do o ← object i; on_kind_eof o.kind

unfoldable pub on_kind_close : ℕ → Kind → Step (Unit {0})
unfolding with_remote close_socket
on_kind_close i (remote channel_id) =
    with_remote channel_id (λ c. client_channel_close c >> forget_channel c)
on_kind_close i (forwarded result out closed) = modify_kind i close_socket

unfoldable pub on_ssh_close : ℕ → Step (Unit {0})
unfolding on_kind_close
on_ssh_close i = do modify_base i Channel.mark_closed; o ← object i; on_kind_close i o.kind

close_for : ℕ → Option ℕ → Step (Unit {0})
close_for i none = pure tt
close_for i (some recipient) = do
  modify_base i Channel.mark_closed
  popped ← pop_channel i
  send_payload (id_payload ssh_msg_channel_close recipient)

-- SSHConnection.send_channel_close
pub send_channel_close : ℕ → Step (Unit {0})
unfolding close_for
send_channel_close i = do o ← object i; close_for i o.base.recipient

-- A send loop that a thread is in: the channel, the data type of extended data, and the data that it
-- has still to send.
pub record Sending : Type 0 where
  pub channel : ℕ
  pub data_type : Option ℕ
  pub left : Bytes

begun : ℕ → Option ℕ → Bytes → Option ℕ → Option Sending
begun i data_type b none = none
begun i data_type b (some recipient) =
    some (record { channel = i; data_type = data_type; left = b })

-- `send_channel_data` and `send_channel_extended_data` up to their loop; nothing is sent where there
-- is no recipient.
begin_sending : ℕ → Option ℕ → Bytes → Step (Option Sending)
unfolding begun
begin_sending i data_type b = do o ← object i; pure (begun i data_type b o.base.recipient)

pub remote_data : ℕ → Bytes → Step (Option Sending)
unfolding begin_sending
remote_data i b = begin_sending i none b

pub remote_extended_data : ℕ → ℕ → Bytes → Step (Option Sending)
unfolding begin_sending
remote_extended_data i data_type b = begin_sending i (some data_type) b

chunk_payload : Option ℕ → ℕ → Bytes → Result Bytes
chunk_payload none = Channel.data_payload
chunk_payload (some data_type) = Channel.extended_payload data_type

-- The sender has the lock, within the sixty seconds or behind them, and goes on waiting.
must_wait : Bool → Channel → Bool
must_wait timed_out c = not timed_out && (not c.closed && c.remote_window == 0)

-- What follows the wait: the chunk is reserved and sent.
take_chunk : Sending → Channel → Step (Option Sending)
unfolding chunk_payload
take_chunk job c = do
  (size, c', rest) ← lift (Channel.reserve_window (length job.left) [] c)
  modify_base job.channel (λ base. record base { remote_window = base.remote_window - size })
  send_payload
      (Channel.for_recipient (chunk_payload job.data_type) c.recipient (take size job.left))
  pure (some (record job { left = drop size job.left }))

-- A turn of a thread that is in a send loop: the end of the loop, a test of the window that fails,
-- or one chunk.
pub send_turn : Sending → Bool → Step (Option Sending)
unfolding must_wait take_chunk
send_turn job timed_out = do
  o ← object job.channel
  if length job.left == 0
      then pure none
      else if must_wait timed_out o.base
      then pure (some job)
      else take_chunk job o.base

pub remote_request : ℕ → Text → Bool → Bytes → Step (Unit {0})
unfolding send_option
remote_request i request want_reply payload = do
  o ← object i
  send_option (Payloads.send_channel_request o.base request want_reply payload)

pub remote_eof : ℕ → Step (Unit {0})
unfolding send_option
remote_eof i = do o ← object i; send_option (Payloads.send_channel_eof o.base)

forget_kind : Kind → Step (Unit {0})
unfolding with_remote
forget_kind (remote channel_id) = with_remote channel_id forget_channel
forget_kind (forwarded result out closed) = pure tt

pub remote_close : ℕ → Step (Unit {0})
unfolding forget_kind
remote_close i = do
  modify_base i Channel.mark_closed
  send_channel_close i
  o ← object i
  forget_kind o.kind
