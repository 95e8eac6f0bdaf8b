-- ===== src/Relay/Connection/Frames.antt =====
-- `RegisteredClient`: what a frame of the reverse client does (`_reader_loop`), the question about an
-- operator's key (`request_auth`), and `close`.
pub mod Kept
pub mod Approved
mod Tests
use rever_ssh.Prelude.{
  ℕ, ◌+◌, ◌-◌, ◌%◌, ◌^◌, Bool, true, false, not, ◌||◌, ◌&&◌, List, [], ◌∷◌, ◌++◌, Option, none,
  some, codes, seq_eq, ◌==◌, length, if◌then◌else◌,
}
use rever_ssh.Exn.{Exn, Result, ok, err, os_error, value_error}
use rever_ssh.Exn.{◌>>=◌ as bind}
use rever_ssh.Bytes.{Bytes, Text}
use rever_ssh.Bytes.Strings.{decimal}
use rever_ssh.SshEncoding.Writer
use rever_ssh.SshEncoding.Reader
use rever_ssh.SshEncoding.Reader.{Read, run}
use rever_ssh.Dict
use rever_ssh.Dict.{Dict}
use rever_ssh.Dict.{nat_key}
use rever_ssh.PrivateProtocol.Frame.{FrameType}
use rever_ssh.PrivateProtocol.Pack.{pack_auth_request}
use rever_ssh.PrivateProtocol.Unpack.{
  unpack_auth_response, unpack_open_confirm, unpack_channel_data, unpack_extended_data,
  unpack_channel_request, unpack_channel_id,
}
use rever_ssh.Relay.Messages
use rever_ssh.Relay.BindAddress.{map_bind_address}
use rever_ssh.Relay.Channel
use rever_ssh.Relay.Channel.{Wake}
use rever_ssh.Relay.Payloads.{id_payload, adjust_local_window, channel_open_failure}
use rever_ssh.Relay.Connection.State.{
  Kind, remote, forwarded, Object, Client, Connection, bind_key, Step, ◌>>=◌, ◌>>◌, pure, lift,
  get_state, send_payload, modify_client, send_frame, object, modify_base, new_object, list_channel,
  pop_channel, find_channel, find_remote, when_found, when,
}
use rever_ssh.Relay.Connection.Objects.{
  Sending, remote_data, remote_extended_data, remote_request, remote_eof, remote_close, send_option,
  modify_kind, client_channel_request, on_ssh_data, on_ssh_extended_data, on_ssh_eof, on_ssh_close,
}
use rever_ssh.Relay.Connection.Global.{handle_global_request}
use rever_ssh.Relay.Connection.Open.{Opening, Extra, begin_open}

-- pending.value = ok; pending.event.set()
set_approved : ℕ → Bool → Option (Unit {0}) → Step (Unit {0})
set_approved auth_id value none = pure tt
set_approved auth_id value (some _) =
    modify_client (λ c. record c { approved = Dict.put auth_id value c.approved })

pub auth_response : ℕ × Bool × Bool → Step (Unit {0})
unfolding set_approved
auth_response (auth_id, value, persist) = do
  s ← get_state
  modify_client (λ c. record c { pending_auth = Dict.remove auth_id c.pending_auth })
  set_approved auth_id value (Dict.get auth_id s.client.pending_auth)

set_opened : ℕ → Bool × Text → Option (Unit {0}) → Step (Unit {0})
set_opened channel_id value none = pure tt
set_opened channel_id value (some _) =
    modify_client (λ c. record c { opened = Dict.put channel_id value c.opened })

open_confirm : ℕ × Bool × Text → Step (Unit {0})
unfolding set_opened
open_confirm (channel_id, is_ok, message) = do
  s ← get_state
  modify_client (λ c. record c { pending_open = Dict.remove channel_id c.pending_open })
  set_opened channel_id (is_ok, message) (Dict.get channel_id s.client.pending_open)

-- A method of the channel that the client's table has, if it has one.
for_remote : ℕ → (ℕ → Step (Unit {0})) → Step (Unit {0})
for_remote channel_id k = do channel ← find_remote channel_id; when_found channel k

sender_found : Option ℕ → (ℕ → Step (Option Sending)) → Step (Option Sending)
sender_found none k = pure none
sender_found (some i) k = k i

-- A method that sends data on the channel.
for_sender : ℕ → (ℕ → Step (Option Sending)) → Step (Option Sending)
unfolding sender_found
for_sender channel_id k = do channel ← find_remote channel_id; sender_found channel k

-- The frame is handled when the method returns.
handled : Step (Unit {0}) → Step (Option Sending)
handled m = m >> pure none

-- The body of `_reader_loop`, up to the send loop that a frame with data begins.
pub handle_frame : FrameType → Bytes → Step (Option Sending)
unfolding auth_response open_confirm for_remote for_sender handled
handle_frame FrameType.auth_response payload =
    handled (lift (unpack_auth_response payload) >>= auth_response)
handle_frame FrameType.open_confirm payload =
    handled (lift (unpack_open_confirm payload) >>= open_confirm)
handle_frame FrameType.channel_data payload = do
  (channel_id, b) ← lift (unpack_channel_data payload)
  for_sender channel_id (λ i. remote_data i b)
handle_frame FrameType.channel_extended_data payload = do
  (channel_id, data_type, b) ← lift (unpack_extended_data payload)
  for_sender channel_id (λ i. remote_extended_data i data_type b)
handle_frame FrameType.channel_request payload = do
  (channel_id, request, want_reply, b) ← lift (unpack_channel_request payload)
  handled (for_remote channel_id (λ i. remote_request i request want_reply b))
handle_frame FrameType.channel_eof payload = do
  channel_id ← lift (unpack_channel_id payload)
  handled (for_remote channel_id remote_eof)
handle_frame FrameType.channel_close payload = do
  channel_id ← lift (unpack_channel_id payload)
  handled (for_remote channel_id remote_close)
handle_frame FrameType.heartbeat payload = pure none
handle_frame FrameType.register payload = pure none
handle_frame FrameType.register_result payload = pure none
handle_frame FrameType.auth_request payload = pure none
handle_frame FrameType.open_channel payload = pure none

-- The part of `request_auth` in front of its wait, and the part behind it.
pub begin_auth : Text → Text → Bytes → Step ℕ
begin_auth username fingerprint key_blob = do
  s ← get_state
  let auth_id = s.client.auth_counter
  modify_client (λ c. record c {
    auth_counter = auth_id + 1;
    pending_auth = Dict.put auth_id tt c.pending_auth;
  })
  send_frame FrameType.auth_request (pack_auth_request auth_id username fingerprint key_blob)
  pure auth_id

auth_result : ℕ → Option Bool → Step Bool
auth_result auth_id (some value) = pure value
auth_result auth_id none = do
  modify_client (λ c. record c { pending_auth = Dict.remove auth_id c.pending_auth })
  pure false

pub finish_auth : ℕ → Step Bool
unfolding auth_result
finish_auth auth_id = do s ← get_state; auth_result auth_id (Dict.get auth_id s.client.approved)

close_all : List (ℕ × ℕ) → Step (Unit {0})
close_all [] = pure tt
close_all ((channel_id, i) ∷ channels) = remote_close i >> close_all channels

-- `close` but for the registry and the socket; `client_closed` is `remote_close`.
pub close_client : Step (Unit {0})
unfolding close_all
close_client = do
  s ← get_state
  when s.client.alive (do
    modify_client (λ c. record c { alive = false; connected = false })
    close_all s.client.channels)
