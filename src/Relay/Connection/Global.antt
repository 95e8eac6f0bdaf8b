-- ===== src/Relay/Connection/Global.antt =====
-- `_handle_global_request` of `SSHConnection`: the port forwardings.
pub mod Kept
use rever_ssh.Prelude.{
  ℕ, ◌+◌, ◌-◌, ◌%◌, ◌^◌, Bool, true, false, not, ◌||◌, ◌&&◌, List, [], ◌∷◌, ◌++◌, Option, none,
  some, codes, seq_eq, ◌==◌, length, if◌then◌else◌,
}
use rever_ssh.Exn.{Exn, Result, ok, err, os_error}
use rever_ssh.Exn.{◌>>=◌ as bind}
use rever_ssh.Bytes.{Bytes, Text}
use rever_ssh.SshEncoding.Writer
use rever_ssh.SshEncoding.Reader
use rever_ssh.SshEncoding.Reader.{Read, run}
use rever_ssh.Dict
use rever_ssh.Dict.{Dict}
use rever_ssh.Dict.{nat_key}
use rever_ssh.PrivateProtocol.Frame.{FrameType}
use rever_ssh.PrivateProtocol.Pack.{pack_open_channel}
use rever_ssh.Relay.Messages
use rever_ssh.Relay.BindAddress.{map_bind_address}
use rever_ssh.Relay.Channel
use rever_ssh.Relay.Channel.{channel_window, channel_max_packet}
use rever_ssh.Relay.Payloads.{id_payload, adjust_local_window, channel_open_failure}
use rever_ssh.Relay.Connection.State.{
  Kind, remote, forwarded, Object, Client, Connection, bind_key, Step, ◌>>=◌, ◌>>◌, pure, lift,
  get_state, send_payload, modify_client, send_frame, object, modify_base, new_object, list_channel,
  pop_channel, find_channel, when_found, when,
}
use rever_ssh.Relay.Connection.Objects.{
  send_option, modify_kind, client_channel_request, on_ssh_data, on_ssh_extended_data, on_ssh_eof,
  on_ssh_close,
}
use rever_ssh.Relay.Connection.Fields.{
  behind_byte, two_uint32, id_string, id_uint32_string, take_remaining, global_fields,
  request_fields, bind_fields, open_fields,
}

-- payload = byte(SSH_MSG_REQUEST_SUCCESS), with the port where the request left it open
success_payload : ℕ → ℕ → Result Bytes
success_payload bind_port actual_port =
    bind (Writer.byte Messages.ssh_msg_request_success)
      (λ m. if bind_port == 0 then bind (Writer.uint32 actual_port) (λ p. ok (m ++ p)) else ok m)

put_forwards : Dict (Text × ℕ) ℕ → Step (Unit {0})
put_forwards forwards s = (ok tt, record s { forwards = forwards })

-- listener.close()
close_listener : Option ℕ → Step (Unit {0})
close_listener none s = (ok tt, s)
close_listener (some listener) s =
    (ok tt, record s { closed_listeners = s.closed_listeners ++ listener ∷ [] })

is_os_error : Exn → Bool
is_os_error os_error = true
is_os_error e = false

-- What follows `listener.start()`, which returned a listener and its port or raised.
enable_forward : Text → ℕ → Bool → Result (ℕ × ℕ) → Step (Unit {0})
unfolding success_payload put_forwards is_os_error
enable_forward bind_address bind_port want_reply (ok (listener, actual_port)) = do
  s ← get_state
  put_forwards (Dict.put (bind_address, bind_port) listener s.forwards)
  when want_reply (send_payload (success_payload bind_port actual_port))
enable_forward bind_address bind_port want_reply (err e) =
    if is_os_error e
    then when want_reply (send_payload (Writer.byte Messages.ssh_msg_request_failure))
    else lift (err e)

cancel_forward : Text → ℕ → Bool → Step (Unit {0})
unfolding put_forwards close_listener
cancel_forward bind_address bind_port want_reply = do
  s ← get_state
  put_forwards (Dict.remove (bind_address, bind_port) s.forwards)
  close_listener (Dict.get (bind_address, bind_port) s.forwards)
  when want_reply (send_payload (Writer.byte Messages.ssh_msg_request_success))

-- `listen` binds and listens at a host and port, and gives the listener with its port.
global_request : (Text → ℕ → Result (ℕ × ℕ)) → Text → Bool → Bytes → Step (Unit {0})
unfolding enable_forward cancel_forward
global_request listen request want_reply rest =
    if seq_eq request (codes "tcpip-forward")
    then lift (run bind_fields rest) >>= (λ (bind_address, bind_port).
      enable_forward bind_address bind_port want_reply
        (listen (map_bind_address bind_address) bind_port))
    else if seq_eq request (codes "cancel-tcpip-forward")
    then lift (run bind_fields rest)
      >>= (λ (bind_address, bind_port). cancel_forward bind_address bind_port want_reply)
    else if seq_eq request (codes "keepalive@openssh.com")
        || seq_eq request (codes "no-more-sessions@openssh.com")
    then when want_reply (send_payload (Writer.byte Messages.ssh_msg_request_success))
    else when want_reply (send_payload (Writer.byte Messages.ssh_msg_request_failure))

pub handle_global_request : (Text → ℕ → Result (ℕ × ℕ)) → Bytes → Step (Unit {0})
unfolding global_request behind_byte
handle_global_request listen payload =
    lift (behind_byte global_fields payload)
    >>= (λ (request, want_reply, rest). global_request listen request want_reply rest)
