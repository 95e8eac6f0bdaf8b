-- ===== src/Relay/Connection/Loop/Tests.antt =====
-- Packets for a channel of a concrete connection.
use rever_ssh.Prelude.{◌≡◌, refl, true, false, [], ◌∷◌, some, codes, arith}
use rever_ssh.Exn.{ok}
use rever_ssh.Dict
use rever_ssh.Relay.Channel.{Channel}
use rever_ssh.Relay.Connection.State.{remote, Client, Connection}
use rever_ssh.Relay.Connection.Loop.{channel_data, channel_close}
use rever_ssh.Relay.Connection.Loop.Answers.{
  Stands, closed, passed, channel_close-Stands, channel_data-Stands,
}

abbrev base : Channel
base = record { recipient = some 7; remote_window = 100; remote_max_packet = 1024; closed = false }

-- The client knows local channel 0 as 5.
abbrev client : Client
client = record {
  alive = true;
  channel_counter = 6;
  channels = (5, 0) ∷ [];
  pending_open = [];
  opened = [];
  connected = true;
  auth_counter = 1;
  pending_auth = [];
  approved = [];
  frames = [];
}

abbrev connection : Connection
connection = record {
  authenticated = true;
  next_channel_id = 1;
  objects = (0, record { base = base; kind = remote (some 5) }) ∷ [];
  channels = (0, 0) ∷ [];
  forwards = [];
  closed_listeners = [];
  recv_sequence = 4;
  client = client;
  sent = [];
}

connection-Stands : Stands connection 0 0 5 7 base
unfolding Dict.get
connection-Stands = record {
  listed = refl;
  made = refl;
  addressed = refl;
  short_recipient = omega arith;
  short_channel_id = omega arith;
  connected = refl;
}

channel_close-Stands_example :
    (channel_close 0 connection ≡ (ok tt, closed connection 0 0 5 7 base))
    × (channel_close 0 (closed connection 0 0 5 7 base) ≡ (ok tt, closed connection 0 0 5 7 base))
channel_close-Stands_example = channel_close-Stands connection 0 0 5 7 base connection-Stands

channel_data-Stands_example :
    channel_data (0, codes "hi") connection ≡ (ok tt, passed connection 5 7 (codes "hi"))
channel_data-Stands_example =
    channel_data-Stands connection 0 0 5 7 base (codes "hi") connection-Stands (omega arith)
