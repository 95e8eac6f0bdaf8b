-- ===== src/Relay/Connection/Loop.antt =====
-- `_connection_loop` of `SSHConnection`: what one packet does.
pub mod Kept
pub mod Answers
mod Tests
use rever_ssh.Prelude.{
  ℕ, ◌+◌, ◌-◌, ◌%◌, ◌^◌, Bool, true, false, not, ◌||◌, ◌&&◌, List, [], ◌∷◌, ◌++◌, Option, none,
  some, codes, seq_eq, ◌==◌, length, if◌then◌else◌,
}
use rever_ssh.Exn.{Exn, Result, ok, err, os_error, value_error}
use rever_ssh.Exn.{◌>>=◌ as bind}
use rever_ssh.Bytes.{Bytes, Text}
use rever_ssh.Bytes.Strings.{decimal}
use rever_ssh.SshEncoding.Writer
use rever_ssh.SshEncoding.Reader
use rever_ssh.SshEncoding.Reader.{Read, run}
use rever_ssh.Dict
use rever_ssh.Dict.{Dict}
use rever_ssh.Dict.{nat_key}
use rever_ssh.PrivateProtocol.Frame.{FrameType}
use rever_ssh.PrivateProtocol.Pack.{pack_open_channel}
use rever_ssh.Relay.Messages
use rever_ssh.Relay.BindAddress.{map_bind_address}
use rever_ssh.Relay.Channel
use rever_ssh.Relay.Channel.{channel_window, channel_max_packet}
use rever_ssh.Relay.Payloads.{id_payload, adjust_local_window, channel_open_failure}
use rever_ssh.Relay.Connection.State.{
  Kind, remote, forwarded, Object, Client, Connection, bind_key, Step, ◌>>=◌, ◌>>◌, pure, lift,
  get_state, send_payload, modify_client, send_frame, object, modify_base, new_object, list_channel,
  pop_channel, find_channel, when_found, when,
}
use rever_ssh.Relay.Connection.Objects.{
  send_option, modify_kind, client_channel_request, on_ssh_data, on_ssh_extended_data, on_ssh_eof,
  on_ssh_close,
}
use rever_ssh.Relay.Connection.Global.{handle_global_request}
use rever_ssh.Relay.Connection.Open.{Opening, Extra, begin_open}
use rever_ssh.Relay.Connection.Fields.{
  behind_byte, four_uint32, failure_fields, two_uint32, id_string, id_uint32_string, take_remaining,
  global_fields, request_fields, bind_fields, open_fields,
}

-- `isinstance(channel, TCPForwardedChannel)`
open_result : Bool × Text → Kind → Kind
open_result r (remote channel_id) = remote channel_id
open_result r (forwarded result out closed) = forwarded (some r) out closed

pub handle_open_confirmation : Bytes → Step (Unit {0})
unfolding open_result
handle_open_confirmation payload = do
  (local_id, sender_channel, sender_window, sender_max_packet) ←
      lift (behind_byte four_uint32 payload)
  channel ← find_channel local_id
  when_found channel (λ i. do
    modify_base i (Channel.set_recipient sender_channel sender_window sender_max_packet)
    modify_kind i (open_result (true, [])))

pub handle_open_failure : Bytes → Step (Unit {0})
unfolding open_result
handle_open_failure payload = do
  (local_id, reason, message) ← lift (behind_byte failure_fields payload)
  channel ← pop_channel local_id
  when_found channel
      (λ i. modify_kind i (open_result (false, decimal reason ++ (codes ": " ++ message))))

-- The requests that are answered with success as soon as they are passed on.
is_forwarded_request : Text → Bool
is_forwarded_request request =
    seq_eq request (codes "pty-req")
    || seq_eq request (codes "env")
    || seq_eq request (codes "shell")
    || seq_eq request (codes "exec")
    || seq_eq request (codes "subsystem")
    || seq_eq request (codes "window-change")
    || seq_eq request (codes "signal")

-- A reply where there is a recipient; without one `uint32(None)` would raise.
reply_to : ℕ → Option ℕ → Step (Unit {0})
reply_to message none = lift (err value_error)
reply_to message (some recipient) = send_payload (id_payload message recipient)

refuse_request : Bool → Option ℕ → Step (Unit {0})
refuse_request want_reply none = pure tt
refuse_request want_reply (some recipient) =
    when want_reply (send_payload (id_payload Messages.ssh_msg_channel_failure recipient))

channel_request : Text → Bool → Bytes → Option ℕ → Kind → Step (Unit {0})
unfolding is_forwarded_request reply_to refuse_request
channel_request request want_reply rest recipient (remote (some channel_id)) = do
  client_channel_request channel_id request want_reply rest
  when want_reply (
      reply_to
        (if is_forwarded_request request
          then Messages.ssh_msg_channel_success
          else Messages.ssh_msg_channel_failure)
        recipient)
channel_request request want_reply rest recipient kind = refuse_request want_reply recipient

request_for : ℕ → Text → Bool → Bytes → Option ℕ → Step (Unit {0})
unfolding channel_request
request_for local_id request want_reply rest none =
    when want_reply (send_payload (id_payload Messages.ssh_msg_channel_failure local_id))
request_for local_id request want_reply rest (some i) = do
  o ← object i
  channel_request request want_reply rest o.base.recipient o.kind

pub handle_channel_request : Bytes → Step (Unit {0})
unfolding request_for
handle_channel_request payload = do
  (local_id, request, want_reply, rest) ← lift (behind_byte request_fields payload)
  channel ← find_channel local_id
  request_for local_id request want_reply rest channel

adjust_window : ℕ → ℕ → Step (Unit {0})
adjust_window i amount = do o ← object i; send_option (adjust_local_window o.base amount)

window_adjust : ℕ × ℕ → Step (Unit {0})
window_adjust (local_id, amount) = do
  channel ← find_channel local_id
  when_found channel (λ i. modify_base i (Channel.add_window amount))

pub channel_data : ℕ × Bytes → Step (Unit {0})
unfolding adjust_window
channel_data (local_id, b) = do
  channel ← find_channel local_id
  when_found channel (λ i. on_ssh_data i b >> adjust_window i (length b))

channel_extended_data : ℕ × ℕ × Bytes → Step (Unit {0})
unfolding adjust_window
channel_extended_data (local_id, data_type, b) = do
  channel ← find_channel local_id
  when_found channel (λ i. on_ssh_extended_data i data_type b >> adjust_window i (length b))

channel_eof : ℕ → Step (Unit {0})
channel_eof local_id = do channel ← find_channel local_id; when_found channel on_ssh_eof

answer_close : Option ℕ → Step (Unit {0})
answer_close none = pure tt
answer_close (some recipient) = send_payload (id_payload Messages.ssh_msg_channel_close recipient)

pub channel_close : ℕ → Step (Unit {0})
unfolding answer_close
channel_close local_id = do
  channel ← pop_channel local_id
  when_found channel (λ i. do on_ssh_close i; o ← object i; answer_close o.base.recipient)

-- (self.stream.recv_sequence - 1) & 0xFFFFFFFF
unimplemented : Step (Unit {0})
unimplemented = do
  s ← get_state
  send_payload (
      bind (Writer.byte Messages.ssh_msg_unimplemented)
        (λ m. bind (Writer.uint32 ((s.recv_sequence + 0xffffffff) % 2 ^ 32)) (λ n. ok (m ++ n))))

-- A handler that does not wait.
at_once : Step (Unit {0}) → Step (Option Opening)
at_once m = m >> pure none

-- The body of the loop, for a packet that was read; `begin_open` may leave a wait.
pub handle_packet : (Text → ℕ → Result (ℕ × ℕ)) → (Extra → Text) → Bytes → Step (Option Opening)
unfolding at_once window_adjust channel_data channel_extended_data channel_eof channel_close
    unimplemented
handle_packet listen dumps payload = lift (run Reader.byte payload) >>= λ msg.
    if msg == Messages.ssh_msg_global_request
    then at_once (handle_global_request listen payload)
    else if msg == Messages.ssh_msg_channel_open
    then begin_open dumps payload
    else if msg == Messages.ssh_msg_channel_open_confirmation
    then at_once (handle_open_confirmation payload)
    else if msg == Messages.ssh_msg_channel_open_failure
    then at_once (handle_open_failure payload)
    else if msg == Messages.ssh_msg_channel_window_adjust
    then at_once (lift (behind_byte two_uint32 payload) >>= window_adjust)
    else if msg == Messages.ssh_msg_channel_data
    then at_once (lift (behind_byte id_string payload) >>= channel_data)
    else if msg == Messages.ssh_msg_channel_extended_data
    then at_once (lift (behind_byte id_uint32_string payload) >>= channel_extended_data)
    else if msg == Messages.ssh_msg_channel_eof
    then at_once (lift (behind_byte Reader.uint32 payload) >>= channel_eof)
    else if msg == Messages.ssh_msg_channel_close
    then at_once (lift (behind_byte Reader.uint32 payload) >>= channel_close)
    else if msg == Messages.ssh_msg_channel_request
    then at_once (handle_channel_request payload)
    else if msg == Messages.ssh_msg_ignore || msg == Messages.ssh_msg_debug
    then pure none
    else at_once unimplemented
