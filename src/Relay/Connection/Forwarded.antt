-- ===== src/Relay/Connection/Forwarded.antt =====
-- The connections that a `ForwardListener` accepts: `_handle_conn` around its wait, and the reader
-- loop of `TCPForwardedChannel`.
pub mod Kept
use rever_ssh.Prelude.{
  ℕ, ◌+◌, ◌-◌, ◌%◌, ◌^◌, Bool, true, false, not, ◌||◌, ◌&&◌, List, [], ◌∷◌, ◌++◌, Option, none,
  some, codes, seq_eq, ◌==◌, length, if◌then◌else◌,
}
use rever_ssh.Exn.{Exn, Result, ok, err, os_error, value_error}
use rever_ssh.Exn.{◌>>=◌ as bind}
use rever_ssh.Bytes.{Bytes, Text}
use rever_ssh.Bytes.Strings.{decimal}
use rever_ssh.SshEncoding.Writer
use rever_ssh.SshEncoding.Reader
use rever_ssh.SshEncoding.Reader.{Read, run}
use rever_ssh.Dict
use rever_ssh.Dict.{Dict}
use rever_ssh.Dict.{nat_key}
use rever_ssh.PrivateProtocol.Frame.{FrameType}
use rever_ssh.PrivateProtocol.Pack.{pack_auth_request}
use rever_ssh.PrivateProtocol.Unpack.{
  unpack_auth_response, unpack_open_confirm, unpack_channel_data, unpack_extended_data,
  unpack_channel_request, unpack_channel_id,
}
use rever_ssh.Relay.Messages
use rever_ssh.Relay.BindAddress.{map_bind_address}
use rever_ssh.Relay.Channel
use rever_ssh.Relay.Channel.{channel_window, channel_max_packet}
use rever_ssh.Relay.Payloads.{id_payload, adjust_local_window, channel_open_failure}
use rever_ssh.Relay.Connection.State.{
  Kind, remote, forwarded, Object, Client, Connection, bind_key, Step, ◌>>=◌, ◌>>◌, pure, lift,
  get_state, send_payload, modify_client, send_frame, object, modify_base, new_object, list_channel,
  pop_channel, find_channel, find_remote, when_found, when,
}
use rever_ssh.Relay.Connection.Objects.{
  Sending, remote_data, remote_extended_data, remote_request, remote_eof, remote_close,
  send_channel_close, send_option, modify_kind, client_channel_request, on_ssh_data,
  on_ssh_extended_data, on_ssh_eof, on_ssh_close,
}
use rever_ssh.Relay.Connection.Global.{handle_global_request}
use rever_ssh.Relay.Connection.Open.{Opening, Extra, begin_open}

-- create_forwarded_channel
create_forwarded_channel : Step ℕ
create_forwarded_channel = do
  local_id ← new_object (forwarded none [] false)
  list_channel local_id
  pure local_id

open_payload : Text → ℕ → Text → ℕ → ℕ → Result Bytes
open_payload connected_address connected_port origin_host origin_port local_id =
    bind (Writer.byte Messages.ssh_msg_channel_open) (λ m.
      bind (Writer.text (codes "forwarded-tcpip")) (λ t. bind (Writer.uint32 local_id) (λ i.
        bind (Writer.uint32 channel_window) (λ w. bind (Writer.uint32 channel_max_packet) (λ p.
          bind (Writer.text connected_address) (λ a. bind (Writer.uint32 connected_port) (λ b.
            bind (Writer.text origin_host) (λ c.
              bind (Writer.uint32 origin_port)
                (λ d. ok (m ++ (t ++ (i ++ (w ++ (p ++ (a ++ (b ++ (c ++ d)))))))))))))))))

-- `self.bind_address or "0.0.0.0"`
connected_address : Text → Text
connected_address [] = codes "0.0.0.0"
connected_address (c ∷ cs) = c ∷ cs

-- _handle_conn up to its wait
pub begin_conn : Text → ℕ → Text → ℕ → Step ℕ
unfolding create_forwarded_channel open_payload connected_address
begin_conn bind_address connected_port origin_host origin_port = do
  i ← create_forwarded_channel
  send_payload
      (open_payload (connected_address bind_address) connected_port origin_host origin_port i)
  pure i

is_open : Kind → Bool
is_open (forwarded (some (true, message)) out closed) = true
is_open kind = false

-- _handle_conn behind its wait: whether the channel's reader is started
pub finish_conn : ℕ → Step Bool
unfolding is_open
finish_conn i = do
  o ← object i
  if is_open o.kind then pure true else (on_ssh_close i >> pure false)

-- The body of TCPForwardedChannel._reader_loop for data, up to its send loop, and its `finally`
pub forward_data : ℕ → Bytes → Step (Option Sending)
forward_data i b = remote_data i b

pub forward_end : ℕ → Step (Unit {0})
forward_end i = remote_eof i >> send_channel_close i
