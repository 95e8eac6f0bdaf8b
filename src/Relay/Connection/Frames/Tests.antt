-- ===== src/Relay/Connection/Frames/Tests.antt =====
-- Question 3 waits, question 4 does not.
use rever_ssh.Prelude.{◌≡◌, ◌⊎◌, true, false, [], ◌∷◌, none, some, arith}
use rever_ssh.Exn.{ok}
use rever_ssh.Dict
use rever_ssh.Dict.{nat_key}
use rever_ssh.Relay.Connection.State.{Client, Connection}
use rever_ssh.Relay.Connection.Frames.{auth_response, finish_auth}
use rever_ssh.Relay.Connection.Frames.Approved.{auth_response-finish_auth}

abbrev client : Client
client = record {
  alive = true;
  channel_counter = 1;
  channels = [];
  pending_open = [];
  opened = [];
  connected = true;
  auth_counter = 4;
  pending_auth = (3, tt) ∷ [];
  approved = [];
  frames = [];
}

abbrev connection : Connection
connection = record {
  authenticated = false;
  next_channel_id = 0;
  objects = [];
  channels = [];
  forwards = [];
  closed_listeners = [];
  recv_sequence = 4;
  client = client;
  sent = [];
}

auth_response-finish_auth_example :
    (((Dict.get 3 connection.client.pending_auth ≡ some tt)
        × ((finish_auth 3 (auth_response (3, true, false) connection).1).0 ≡ ok true))
      ⊎ ((Dict.get 3 connection.client.pending_auth ≡ none)
          × ((auth_response (3, true, false) connection).1.client.approved
              ≡ connection.client.approved)))
    × (Dict.get 3 (auth_response (3, true, false) connection).1.client.pending_auth ≡ none)
    × (Dict.get 4 (auth_response (3, true, false) connection).1.client.approved
        ≡ Dict.get 4 connection.client.approved)
auth_response-finish_auth_example =
    auth_response-finish_auth connection 3 4 true false (omega arith)
