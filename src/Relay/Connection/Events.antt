-- ===== src/Relay/Connection/Events.antt =====
-- One connection, its client and its threads as a sequence of events: what the SSH client sends, what
-- the reverse client sends, the ends of the waits, the turns of the sends that wait for a
-- window, and the connections to the forwarded ports. An event runs as a whole.
pub mod Reachable
mod Tests
use rever_ssh.Prelude.{
  ℕ, ◌+◌, ◌-◌, ◌%◌, ◌^◌, Bool, true, false, not, ◌||◌, ◌&&◌, List, [], ◌∷◌, ◌++◌, Option, none,
  some, codes, seq_eq, map, ◌==◌, length, if◌then◌else◌,
}
use rever_ssh.Exn.{Exn, Result, ok, err, os_error, value_error}
use rever_ssh.Exn.{◌>>=◌ as bind}
use rever_ssh.Bytes.{Bytes, Text}
use rever_ssh.Bytes.Strings.{decimal}
use rever_ssh.SshEncoding.Writer
use rever_ssh.SshEncoding.Reader
use rever_ssh.SshEncoding.Reader.{Read, run}
use rever_ssh.Dict
use rever_ssh.Dict.{Dict}
use rever_ssh.Dict.{nat_key}
use rever_ssh.PrivateProtocol.Frame.{FrameType}
use rever_ssh.PrivateProtocol.Pack.{pack_auth_request}
use rever_ssh.PrivateProtocol.Unpack.{
  unpack_auth_response, unpack_open_confirm, unpack_channel_data, unpack_extended_data,
  unpack_channel_request, unpack_channel_id,
}
use rever_ssh.Relay.Messages
use rever_ssh.Relay.BindAddress.{map_bind_address}
use rever_ssh.Relay.Channel
use rever_ssh.Relay.Payloads.{id_payload, adjust_local_window, channel_open_failure}
use rever_ssh.Relay.Connection.Loop.{handle_packet}
use rever_ssh.Relay.Connection.Frames.{handle_frame, close_client}
use rever_ssh.Relay.Connection.Forwarded.{begin_conn, finish_conn, forward_data, forward_end}
use rever_ssh.Relay.Connection.State.{
  Kind, remote, forwarded, Object, Client, Connection, bind_key, Step, ◌>>=◌, ◌>>◌, pure, lift,
  get_state, send_payload, modify_client, send_frame, object, modify_base, new_object, list_channel,
  pop_channel, find_channel, find_remote, when_found, when,
}
use rever_ssh.Relay.Connection.Objects.{
  Sending, send_turn, remote_data, remote_extended_data, remote_request, remote_eof, remote_close,
  send_option, modify_kind, client_channel_request, on_ssh_data, on_ssh_extended_data, on_ssh_eof,
  on_ssh_close,
}
use rever_ssh.Relay.Connection.Global.{handle_global_request}
use rever_ssh.Relay.Connection.Open.{Opening, Extra, finish_open}

-- The thread of `SSHConnection.run`: in the loop, in the wait of `_handle_channel_open`, or ended.
pub data Thread : Type 0 where
  reading : Thread
  waiting : Opening → Thread
  ended : Thread

pub record Session : Type 0 where
  pub connection : Connection
  pub thread : Thread

-- With the other threads: the send loop that the client's reader loop is in, if it is in one, and
-- those that the reader loops of the forwarded channels are in.
pub record System : Type 0 where
  pub session : Session
  pub reader : Option Sending
  pub forwarding : Dict ℕ Sending

-- A step of a thread: what it does between two waits.
pub data Event : Type 0 where
  -- a packet, with what `listen` does if the packet asks for it
  packet : (Text → ℕ → Result (ℕ × ℕ)) → Bytes → Event
  -- the wait ends, with the client's answer if it has come
  wait_ends : Event
  -- a frame of the client
  frame : FrameType → Bytes → Event
  -- a turn of the client's reader loop where it sends data, within the sixty seconds or behind them
  frame_turn : Bool → Event
  client_lost : Event
  accepted : Text → ℕ → Text → ℕ → Event
  conn_wait_ends : ℕ → Event
  -- data from the socket of a forwarded connection, and a turn of the thread that sends it
  socket_data : ℕ → Bytes → Event
  socket_turn : ℕ → Bool → Event
  socket_end : ℕ → Event

-- `recv_sequence` after read_packet
count_packet : Connection → Connection
count_packet s = record s { recv_sequence = (s.recv_sequence + 1) % 2 ^ 32 }

-- `run` when the loop raised: the listeners are closed. What `_disconnect` sends is left out.
end_run : Connection → Session
end_run s = record {
  connection = record s { closed_listeners = s.closed_listeners ++ map (λ f. f.1) s.forwards };
  thread = ended;
}

after_packet : Result (Option Opening) × Connection → Session
unfolding end_run
after_packet (ok none, s) = record { connection = s; thread = reading }
after_packet (ok (some o), s) = record { connection = s; thread = waiting o }
after_packet (err e, s) = end_run s

after_wait : Result (Unit {0}) × Connection → Session
unfolding end_run
after_wait (ok _, s) = record { connection = s; thread = reading }
after_wait (err e, s) = end_run s

-- The connection after a step of another thread than `run`.
with_connection : Connection → System → System
with_connection c s = record s { session = record s.session { connection = c } }

-- An exception of the client's reader loop closes the client.
after_frame : System → Result (Option Sending) × Connection → System
unfolding with_connection
after_frame s (ok reader, c) = record (with_connection c s) { reader = reader }
after_frame s (err e, c) = record (with_connection (close_client c).1 s) { reader = none }

-- `while self.alive`, where the loop is not sending
on_frame : Bool → Option Sending → FrameType → Bytes → System → System
unfolding after_frame
on_frame false reader frame_type payload s = s
on_frame true (some job) frame_type payload s = s
on_frame true none frame_type payload s =
    after_frame s (handle_frame frame_type payload s.session.connection)

on_frame_turn : Option Sending → Bool → System → System
unfolding after_frame
on_frame_turn none timed_out s = s
on_frame_turn (some job) timed_out s = after_frame s (send_turn job timed_out s.session.connection)

-- An exception of a forwarded channel's reader loop leads to its `finally`.
after_socket : ℕ → System → Result (Option Sending) × Connection → System
unfolding with_connection
after_socket i s (ok none, c) = record (with_connection c s) {
  forwarding = Dict.remove i s.forwarding;
}
after_socket i s (ok (some job), c) = record (with_connection c s) {
  forwarding = Dict.put i job s.forwarding;
}
after_socket i s (err e, c) = record (with_connection (forward_end i c).1 s) {
  forwarding = Dict.remove i s.forwarding;
}

on_socket_data : Option Sending → ℕ → Bytes → System → System
unfolding after_socket
on_socket_data (some job) i b s = s
on_socket_data none i b s = after_socket i s (forward_data i b s.session.connection)

on_socket_turn : Option Sending → ℕ → Bool → System → System
unfolding after_socket
on_socket_turn none i timed_out s = s
on_socket_turn (some job) i timed_out s =
    after_socket i s (send_turn job timed_out s.session.connection)

on_socket_end : Option Sending → ℕ → System → System
unfolding with_connection
on_socket_end (some job) i s = s
on_socket_end none i s = with_connection (forward_end i s.session.connection).1 s

module _ (dumps : Extra → Text) where
  on_packet : (Text → ℕ → Result (ℕ × ℕ)) → Bytes → Connection → Thread → Session
  unfolding after_packet count_packet
  on_packet listen payload s reading =
      after_packet (handle_packet listen dumps payload (count_packet s))
  on_packet listen payload s thread = record { connection = s; thread = thread }

  on_wait : Connection → Thread → Session
  unfolding after_wait
  on_wait s (waiting o) = after_wait (finish_open o s)
  on_wait s thread = record { connection = s; thread = thread }

  pub step : Event → System → System
  unfolding with_connection on_packet on_wait on_frame on_frame_turn on_socket_data on_socket_turn
      on_socket_end
  step (packet listen payload) s = record s {
    session = on_packet listen payload s.session.connection s.session.thread;
  }
  step wait_ends s = record s { session = on_wait s.session.connection s.session.thread }
  step (frame frame_type payload) s =
      on_frame s.session.connection.client.alive s.reader frame_type payload s
  step (frame_turn timed_out) s = on_frame_turn s.reader timed_out s
  step client_lost s = with_connection (close_client s.session.connection).1 s
  step (accepted bind_address port origin_host origin_port) s =
      with_connection (begin_conn bind_address port origin_host origin_port s.session.connection).1
        s
  step (conn_wait_ends i) s = with_connection (finish_conn i s.session.connection).1 s
  step (socket_data i b) s = on_socket_data (Dict.get i s.forwarding) i b s
  step (socket_turn i timed_out) s = on_socket_turn (Dict.get i s.forwarding) i timed_out s
  step (socket_end i) s = on_socket_end (Dict.get i s.forwarding) i s

  pub run_events : List Event → System → System
  unfolding step
  run_events [] s = s
  run_events (event ∷ events) s = run_events events (step event s)

-- SSHConnection(...) after authentication, with a RegisteredClient(...)
pub start : System
start = record {
  session = record {
    connection = record {
      authenticated = true;
      next_channel_id = 0;
      objects = [];
      channels = [];
      forwards = [];
      closed_listeners = [];
      recv_sequence = 0;
      client = record {
        alive = true;
        channel_counter = 1;
        channels = [];
        pending_open = [];
        opened = [];
        connected = true;
        auth_counter = 1;
        pending_auth = [];
        approved = [];
        frames = [];
      };
      sent = [];
    };
    thread = reading;
  };
  reader = none;
  forwarding = [];
}
