-- ===== src/Relay/Connection/Events/Tests.antt =====
-- A session that is opened and confirmed, gets data and is closed.
use rever_ssh.Prelude.{ℕ, false, List, [], ◌∷◌, ◌++◌, codes}
use rever_ssh.Exn.{Result, err, os_error}
use rever_ssh.Bytes.{Bytes, Text}
use rever_ssh.PrivateProtocol.Frame.{FrameType}
use rever_ssh.Relay.Connection.Open.{Extra}
use rever_ssh.Relay.Connection.Events.{
  Event, packet, wait_ends, frame, frame_turn, run_events, start,
}
use rever_ssh.Relay.Connection.Events.Reachable.{IsOrdered, run_events-start}

abbrev dumps : Extra → Text
dumps extra = codes "{}"

abbrev listen : Text → ℕ → Result (ℕ × ℕ)
listen host port = err os_error

-- "session", sender channel 7, window 256, packets of 1024 bytes
abbrev open_session : Bytes
open_session =
    90 ∷ 0 ∷ 0 ∷ 0 ∷ 7 ∷ (codes "session" ++ (0 ∷ 0 ∷ 0 ∷ 7 ∷ 0 ∷ 0 ∷ 1 ∷ 0 ∷ 0 ∷ 0 ∷ 4 ∷ 0 ∷ []))

-- Channel 1, true, no message.
abbrev confirm : Bytes
confirm = 0 ∷ 0 ∷ 0 ∷ 1 ∷ 1 ∷ 0 ∷ 0 ∷ 0 ∷ 0 ∷ []

-- Two bytes of data for channel 1.
abbrev two_bytes : Bytes
two_bytes = 0 ∷ 0 ∷ 0 ∷ 1 ∷ 0 ∷ 0 ∷ 0 ∷ 2 ∷ codes "hi"

abbrev events : List Event
events =
    packet listen open_session
    ∷ frame FrameType.open_confirm confirm
    ∷ wait_ends
    ∷ frame FrameType.channel_data two_bytes
    ∷ frame_turn false
    ∷ frame_turn false
    ∷ packet listen (97 ∷ 0 ∷ 0 ∷ 0 ∷ 0 ∷ [])
    ∷ []

run_events-start_example : IsOrdered (run_events dumps events start).session
run_events-start_example = run_events-start dumps events
