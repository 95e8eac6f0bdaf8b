-- ===== src/Relay/Connection/Events/Reachable.antt =====
-- The channel tables after a list of events.
use rever_ssh.Prelude.{
  ℕ, ◌≤◌, ◌<◌, ◌≡◌, refl, ap, Bool, true, false, List, [], ◌∷◌, Option, none, some, arith,
}
use rever_ssh.Exn.{Result, ok, err}
use rever_ssh.Bytes.{Bytes, Text}
use rever_ssh.Dict
use rever_ssh.Dict.{nat_key}
use rever_ssh.Relay.Connection.Objects.{Sending, send_turn}
use rever_ssh.Relay.Connection.Objects.Kept.{send_turn-Keeps}
use rever_ssh.Relay.Connection.Forwarded.{forward_data, forward_end}
use rever_ssh.PrivateProtocol.Frame.{FrameType}
use rever_ssh.Relay.Connection.State.{Connection, Step}
use rever_ssh.Relay.Connection.State.Changes.{none-some}
use rever_ssh.Relay.Connection.State.Tables.{IsValid, Keeps}
use rever_ssh.Relay.Connection.State.Given.{Gives-some}
use rever_ssh.Relay.Connection.Open.{Opening, Extra, finish_open}
use rever_ssh.Relay.Connection.Open.Kept.{finish_open-KeepsFrom}
use rever_ssh.Relay.Connection.Loop.{handle_packet}
use rever_ssh.Relay.Connection.Loop.Kept.{handle_packet-Keeps, handle_packet-Gives}
use rever_ssh.Relay.Connection.Frames.{handle_frame}
use rever_ssh.Relay.Connection.Frames.Kept.{handle_frame-Keeps, close_client-Keeps}
use rever_ssh.Relay.Connection.Forwarded.Kept.{
  begin_conn-Keeps, finish_conn-Keeps, forward_data-Keeps, forward_end-Keeps,
}
use rever_ssh.Relay.Connection.Frames.{close_client}
use rever_ssh.Relay.Connection.Events.{
  Thread, reading, waiting, ended, Session, System, Event, packet, wait_ends, frame, frame_turn,
  client_lost, accepted, conn_wait_ends, socket_data, socket_turn, socket_end, count_packet,
  end_run, after_packet, after_wait, with_connection, after_frame, on_frame, on_frame_turn,
  after_socket, on_socket_data, on_socket_turn, on_socket_end, on_packet, on_wait, step, run_events,
  start,
}

-- The channel that the thread waits for has an id that was given out.
pub IsGiven : Thread → ℕ → Type 0
IsGiven (waiting o) next = o.local_id < next
IsGiven reading next = Unit {0}
IsGiven ended next = Unit {0}

pub record IsOrdered (s : Session) : Type 0 where
  pub tables : IsValid s.connection
  pub wait : IsGiven s.thread s.connection.next_channel_id

later-IsGiven : (thread : Thread) (m n : ℕ) → m ≤ n → IsGiven thread m → IsGiven thread n
unfolding IsGiven
later-IsGiven (waiting o) m n h k = omega arith
later-IsGiven reading m n h k = tt
later-IsGiven ended m n h k = tt

-- A step of another thread.
other-IsOrdered :
    {A : Type 0} (m : Step A) (s : Session)
    → Keeps m
    → IsOrdered s
    → IsOrdered (record s { connection = (m s.connection).1 })
other-IsOrdered m s q h = record {
  tables = q.valid s.connection h.tables;
  wait =
      later-IsGiven s.thread s.connection.next_channel_id (m s.connection).1.next_channel_id
        (q.grows s.connection) h.wait;
}

end_run-IsOrdered : (s : Connection) → IsValid s → IsOrdered (end_run s)
unfolding end_run IsGiven
end_run-IsOrdered s h = record {
  tables = record {
    named = h.named;
    given = h.given;
    receivable = h.receivable;
    counted = h.counted;
  };
  wait = tt;
}

after_packet-IsOrdered :
    (r : Result (Option Opening) × Connection)
    → IsValid r.1
    → ((o : Opening) → r.0 ≡ ok (some o) → o.local_id < r.1.next_channel_id)
    → IsOrdered (after_packet r)
unfolding after_packet IsGiven
after_packet-IsOrdered (ok none, s) h q = record { tables = h; wait = tt }
after_packet-IsOrdered (ok (some o), s) h q = record { tables = h; wait = q o refl }
after_packet-IsOrdered (err e, s) h q = end_run-IsOrdered s h

after_wait-IsOrdered : (r : Result (Unit {0}) × Connection) → IsValid r.1 → IsOrdered (after_wait r)
unfolding after_wait IsGiven
after_wait-IsOrdered (ok _, s) h = record { tables = h; wait = tt }
after_wait-IsOrdered (err e, s) h = end_run-IsOrdered s h

count_packet-IsValid : (s : Connection) → IsValid s → IsValid (count_packet s)
unfolding count_packet
count_packet-IsValid s h = record {
  named = h.named;
  given = h.given;
  receivable = h.receivable;
  counted = h.counted;
}

with_connection-IsOrdered :
    {A : Type 0} (m : Step A) (s : System)
    → Keeps m
    → IsOrdered s.session
    → IsOrdered (with_connection (m s.session.connection).1 s).session
unfolding with_connection
with_connection-IsOrdered m s q h = other-IsOrdered m s.session q h

after_frame-IsOrdered :
    (s : System) (r : Result (Option Sending) × Connection)
    → IsValid r.1
    → s.session.connection.next_channel_id ≤ r.1.next_channel_id
    → IsOrdered s.session
    → IsOrdered (after_frame s r).session
unfolding after_frame with_connection
after_frame-IsOrdered s (ok reader, c) v more h = record {
  tables = v;
  wait = later-IsGiven s.session.thread _ _ more h.wait;
}
after_frame-IsOrdered s (err e, c) v more h = record {
  tables = close_client-Keeps.valid c v;
  wait =
      later-IsGiven s.session.thread s.session.connection.next_channel_id
        (close_client c).1.next_channel_id (omega (arith, more, close_client-Keeps.grows c)) h.wait;
}

after_socket-IsOrdered :
    (i : ℕ) (s : System) (r : Result (Option Sending) × Connection)
    → IsValid r.1
    → s.session.connection.next_channel_id ≤ r.1.next_channel_id
    → IsOrdered s.session
    → IsOrdered (after_socket i s r).session
unfolding after_socket with_connection
after_socket-IsOrdered i s (ok none, c) v more h = record {
  tables = v;
  wait = later-IsGiven s.session.thread _ _ more h.wait;
}
after_socket-IsOrdered i s (ok (some job), c) v more h = record {
  tables = v;
  wait = later-IsGiven s.session.thread _ _ more h.wait;
}
after_socket-IsOrdered i s (err e, c) v more h = record {
  tables = (forward_end-Keeps i).valid c v;
  wait =
      later-IsGiven s.session.thread s.session.connection.next_channel_id
        (forward_end i c).1.next_channel_id (omega (arith, more, (forward_end-Keeps i).grows c))
        h.wait;
}

-- The same of a step's result.
frame_step-IsOrdered :
    (m : Step (Option Sending)) (s : System)
    → Keeps m
    → IsOrdered s.session
    → IsOrdered (after_frame s (m s.session.connection)).session
frame_step-IsOrdered m s q h =
    after_frame-IsOrdered s (m s.session.connection) (q.valid s.session.connection h.tables)
      (q.grows s.session.connection) h

socket_step-IsOrdered :
    (i : ℕ) (m : Step (Option Sending)) (s : System)
    → Keeps m
    → IsOrdered s.session
    → IsOrdered (after_socket i s (m s.session.connection)).session
socket_step-IsOrdered i m s q h =
    after_socket-IsOrdered i s (m s.session.connection) (q.valid s.session.connection h.tables)
      (q.grows s.session.connection) h

on_frame-IsOrdered :
    (alive : Bool) (reader : Option Sending) (frame_type : FrameType) (payload : Bytes) (s : System)
    → IsOrdered s.session
    → IsOrdered (on_frame alive reader frame_type payload s).session
unfolding on_frame
on_frame-IsOrdered false reader frame_type payload s h = h
on_frame-IsOrdered true (some job) frame_type payload s h = h
on_frame-IsOrdered true none frame_type payload s h =
    frame_step-IsOrdered (handle_frame frame_type payload) s (handle_frame-Keeps frame_type payload)
      h

on_frame_turn-IsOrdered :
    (reader : Option Sending) (timed_out : Bool) (s : System)
    → IsOrdered s.session
    → IsOrdered (on_frame_turn reader timed_out s).session
unfolding on_frame_turn
on_frame_turn-IsOrdered none timed_out s h = h
on_frame_turn-IsOrdered (some job) timed_out s h =
    frame_step-IsOrdered (send_turn job timed_out) s (send_turn-Keeps job timed_out) h

on_socket_data-IsOrdered :
    (busy : Option Sending) (i : ℕ) (b : Bytes) (s : System)
    → IsOrdered s.session
    → IsOrdered (on_socket_data busy i b s).session
unfolding on_socket_data
on_socket_data-IsOrdered (some job) i b s h = h
on_socket_data-IsOrdered none i b s h =
    socket_step-IsOrdered i (forward_data i b) s (forward_data-Keeps i b) h

on_socket_turn-IsOrdered :
    (busy : Option Sending) (i : ℕ) (timed_out : Bool) (s : System)
    → IsOrdered s.session
    → IsOrdered (on_socket_turn busy i timed_out s).session
unfolding on_socket_turn
on_socket_turn-IsOrdered none i timed_out s h = h
on_socket_turn-IsOrdered (some job) i timed_out s h =
    socket_step-IsOrdered i (send_turn job timed_out) s (send_turn-Keeps job timed_out) h

on_socket_end-IsOrdered :
    (busy : Option Sending) (i : ℕ) (s : System)
    → IsOrdered s.session
    → IsOrdered (on_socket_end busy i s).session
unfolding on_socket_end
on_socket_end-IsOrdered (some job) i s h = h
on_socket_end-IsOrdered none i s h =
    with_connection-IsOrdered (forward_end i) s (forward_end-Keeps i) h

module _ (dumps : Extra → Text) where
  on_packet-IsOrdered :
      (listen : Text → ℕ → Result (ℕ × ℕ)) (payload : Bytes) (s : Connection) (thread : Thread)
      → IsValid s
      → IsGiven thread s.next_channel_id
      → IsOrdered (on_packet dumps listen payload s thread)
  unfolding on_packet
  on_packet-IsOrdered listen payload s reading h k =
      let m : Step (Option Opening) = handle_packet listen dumps payload in
      after_packet-IsOrdered (m (count_packet s))
        ((handle_packet-Keeps listen dumps payload).valid (count_packet s)
          (count_packet-IsValid s h))
        (λ o e.
          Gives-some (λ (t : Opening). t.local_id) m (count_packet s) o (m (count_packet s)).1
            (handle_packet-Gives listen dumps payload) (ap (λ r. (r, (m (count_packet s)).1)) e))
  on_packet-IsOrdered listen payload s (waiting o) h k = record { tables = h; wait = k }
  on_packet-IsOrdered listen payload s ended h k = record { tables = h; wait = k }

  on_wait-IsOrdered :
      (s : Connection) (thread : Thread)
      → IsValid s
      → IsGiven thread s.next_channel_id
      → IsOrdered (on_wait dumps s thread)
  unfolding on_wait IsGiven
  on_wait-IsOrdered s (waiting o) h k =
      after_wait-IsOrdered (finish_open o s) ((finish_open-KeepsFrom o).valid_from s h k)
  on_wait-IsOrdered s reading h k = record { tables = h; wait = k }
  on_wait-IsOrdered s ended h k = record { tables = h; wait = k }

  step-IsOrdered :
      (event : Event) (s : System) → IsOrdered s.session → IsOrdered (step dumps event s).session
  unfolding step
  step-IsOrdered (packet listen payload) s h =
      on_packet-IsOrdered listen payload s.session.connection s.session.thread h.tables h.wait
  step-IsOrdered wait_ends s h =
      on_wait-IsOrdered s.session.connection s.session.thread h.tables h.wait
  step-IsOrdered (frame frame_type payload) s h =
      on_frame-IsOrdered s.session.connection.client.alive s.reader frame_type payload s h
  step-IsOrdered (frame_turn timed_out) s h = on_frame_turn-IsOrdered s.reader timed_out s h
  step-IsOrdered client_lost s h = with_connection-IsOrdered _ s close_client-Keeps h
  step-IsOrdered (accepted bind_address port origin_host origin_port) s h =
      with_connection-IsOrdered _ s (begin_conn-Keeps bind_address port origin_host origin_port) h
  step-IsOrdered (conn_wait_ends i) s h = with_connection-IsOrdered _ s (finish_conn-Keeps i) h
  step-IsOrdered (socket_data i b) s h = on_socket_data-IsOrdered (Dict.get i s.forwarding) i b s h
  step-IsOrdered (socket_turn i timed_out) s h =
      on_socket_turn-IsOrdered (Dict.get i s.forwarding) i timed_out s h
  step-IsOrdered (socket_end i) s h = on_socket_end-IsOrdered (Dict.get i s.forwarding) i s h

  run_events-IsOrdered :
      (events : List Event) (s : System)
      → IsOrdered s.session
      → IsOrdered (run_events dumps events s).session
  unfolding run_events
  run_events-IsOrdered [] s h = h
  run_events-IsOrdered (event ∷ events) s h =
      run_events-IsOrdered events (step dumps event s) (step-IsOrdered event s h)

  start-IsOrdered : IsOrdered start.session
  unfolding Dict.get IsGiven start
  start-IsOrdered = record {
    tables = record {
      named = λ k r e. absurd (none-some e);
      given = λ k o e. absurd (none-some e);
      receivable = λ k r o e. absurd (none-some e);
      counted = λ k r e. absurd (none-some e);
    };
    wait = tt;
  }

  -- After any list of events from the start of a connection, where each event is what a thread does
  -- between two waits, run as a whole, with any answers of the client, any packets and frames, well
  -- formed or not, and any number of sends that wait for their windows: the table of the connection
  -- has each channel under its own local id, which `_next_channel_id` has given out and will not give
  -- again; a RemoteRelayChannel in the table has its recipient; the client's table has only ids below
  -- its counter; and the channel that `_handle_channel_open` waits for has an id that was given out.
  pub run_events-start : (events : List Event) → IsOrdered (run_events dumps events start).session
  run_events-start events = run_events-IsOrdered events start start-IsOrdered
