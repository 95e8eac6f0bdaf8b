-- ===== src/Relay/Connection/Open.antt =====
-- `_handle_channel_open` of `SSHConnection` and `RegisteredClient.open_channel`: the part up to the
-- wait for the client is `begin_open`, the part behind it `finish_open`.
pub mod Kept
use rever_ssh.Prelude.{
  ℕ, ◌+◌, ◌-◌, ◌%◌, ◌^◌, Bool, true, false, not, ◌||◌, ◌&&◌, List, [], ◌∷◌, ◌++◌, Option, none,
  some, codes, seq_eq, ◌==◌, length, if◌then◌else◌,
}
use rever_ssh.Exn.{Exn, Result, ok, err, os_error}
use rever_ssh.Exn.{◌>>=◌ as bind}
use rever_ssh.Bytes.{Bytes, Text}
use rever_ssh.SshEncoding.Writer
use rever_ssh.SshEncoding.Reader
use rever_ssh.SshEncoding.Reader.{Read, run}
use rever_ssh.Dict
use rever_ssh.Dict.{Dict}
use rever_ssh.Dict.{nat_key}
use rever_ssh.PrivateProtocol.Frame.{FrameType}
use rever_ssh.PrivateProtocol.Pack.{pack_open_channel}
use rever_ssh.Relay.Messages
use rever_ssh.Relay.BindAddress.{map_bind_address}
use rever_ssh.Relay.Channel
use rever_ssh.Relay.Channel.{channel_window, channel_max_packet}
use rever_ssh.Relay.Payloads.{id_payload, adjust_local_window, channel_open_failure}
use rever_ssh.Relay.Connection.State.{
  Kind, remote, forwarded, Object, Client, Connection, bind_key, Step, ◌>>=◌, ◌>>◌, pure, lift,
  get_state, send_payload, modify_client, take_channel_id, send_frame, object, modify_base,
  new_object, list_channel, pop_channel, find_channel, when_found, when,
}
use rever_ssh.Relay.Connection.Objects.{
  send_option, modify_kind, client_channel_request, on_ssh_data, on_ssh_extended_data, on_ssh_eof,
  on_ssh_close,
}
use rever_ssh.Relay.Connection.Fields.{
  behind_byte, two_uint32, id_string, id_uint32_string, take_remaining, global_fields,
  request_fields, bind_fields, open_fields,
}

-- `extra`: empty, or the four fields of a direct-tcpip channel.
pub data Extra : Type 0 where
  session : Extra
  direct_tcpip : Text → ℕ → Text → ℕ → Extra

kind_text : Extra → Text
kind_text session = codes "session"
kind_text (direct_tcpip _ _ _ _) = codes "direct-tcpip"

-- What `_handle_channel_open` keeps while it waits.
pub record Opening : Type 0 where
  pub channel_id : ℕ
  pub local_id : ℕ
  pub sender_channel : ℕ
  pub sender_window : ℕ
  pub sender_max_packet : ℕ

-- channel.remote_channel_id = channel_id
set_remote_id : ℕ → Kind → Kind
set_remote_id channel_id (remote _) = remote (some channel_id)
set_remote_id channel_id (forwarded result out closed) = forwarded result out closed

-- The part of RegisteredClient.open_channel in front of its wait.
client_open_channel : (Extra → Text) → ℕ → Extra → Step ℕ
unfolding kind_text set_remote_id
client_open_channel dumps i extra = do
  channel_id ← take_channel_id i
  modify_kind i (set_remote_id channel_id)
  send_frame FrameType.open_channel (pack_open_channel dumps channel_id (kind_text extra) extra)
  pure channel_id

open_failure : ℕ → ℕ → Text → Step (Option Opening)
open_failure sender_channel reason message = do
  send_payload (channel_open_failure sender_channel reason message)
  pure none

direct_fields : Read Extra
unfolding open_fields bind_fields
direct_fields = Reader.◌>>=◌ open_fields (λ fields.
    Reader.◌>>=◌ bind_fields (λ (target_host, target_port).
      Reader.◌>>=◌ bind_fields (λ (origin_host, origin_port).
        Reader.pure (direct_tcpip target_host target_port origin_host origin_port))))

open_remote : (Extra → Text) → ℕ → ℕ → ℕ → Extra → Step (Option Opening)
unfolding client_open_channel
open_remote dumps sender_channel sender_window sender_max_packet extra = do
  local_id ← new_object (remote none)
  channel_id ← client_open_channel dumps local_id extra
  pure (
      some (record {
        channel_id = channel_id;
        local_id = local_id;
        sender_channel = sender_channel;
        sender_window = sender_window;
        sender_max_packet = sender_max_packet;
      }))

-- _handle_channel_open up to the wait, where it gets there
pub begin_open : (Extra → Text) → Bytes → Step (Option Opening)
unfolding behind_byte open_fields direct_fields open_failure open_remote
begin_open dumps payload = do
  (channel_type, sender_channel, sender_window, sender_max_packet) ←
      lift (behind_byte open_fields payload)
  s ← get_state
  if not s.authenticated
      then open_failure sender_channel Messages.ssh_open_administratively_prohibited
          (codes "not authenticated")
      else if seq_eq channel_type (codes "session")
      then open_remote dumps sender_channel sender_window sender_max_packet session
      else if seq_eq channel_type (codes "direct-tcpip")
      then lift (behind_byte direct_fields payload)
        >>= open_remote dumps sender_channel sender_window sender_max_packet
      else open_failure sender_channel Messages.ssh_open_unknown_channel_type
          (codes "unsupported channel type: " ++ channel_type)

-- The part of RegisteredClient.open_channel behind its wait, for the value that was set, if any.
client_opened : Opening → Option (Bool × Text) → Step (Bool × Text)
client_opened o none = do
  modify_client (λ c. record c {
    channels = Dict.remove o.channel_id c.channels;
    pending_open = Dict.remove o.channel_id c.pending_open;
  })
  pure (false, codes "remote channel open timed out")
client_opened o (some (true, message)) = pure (true, message)
client_opened o (some (false, message)) = do
  modify_client (λ c. record c { channels = Dict.remove o.channel_id c.channels })
  pure (false, message)

confirmation_payload : Opening → Result Bytes
confirmation_payload o = bind (Writer.byte Messages.ssh_msg_channel_open_confirmation) (λ m.
    bind (Writer.uint32 o.sender_channel) (λ a. bind (Writer.uint32 o.local_id) (λ b.
      bind (Writer.uint32 channel_window)
        (λ c. bind (Writer.uint32 channel_max_packet) (λ d. ok (m ++ (a ++ (b ++ (c ++ d)))))))))

answer_open : Opening → Bool × Text → Step (Unit {0})
unfolding confirmation_payload
answer_open o (false, message) =
    send_payload (channel_open_failure o.sender_channel Messages.ssh_open_connect_failed message)
answer_open o (true, message) = do
  modify_base o.local_id
      (Channel.set_recipient o.sender_channel o.sender_window o.sender_max_packet)
  list_channel o.local_id
  send_payload (confirmation_payload o)

-- _handle_channel_open behind the wait
pub finish_open : Opening → Step (Unit {0})
unfolding client_opened answer_open
finish_open o = do
  s ← get_state
  r ← client_opened o (Dict.get o.channel_id s.client.opened)
  answer_open o r
