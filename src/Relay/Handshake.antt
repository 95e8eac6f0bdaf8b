-- ===== src/Relay/Handshake.antt =====
-- `RelayServer._handle_reverse_client` of reverssh/relay.py: a reverse client registers.
pub mod Registered
use rever_ssh.Prelude.{
  ℕ, Bool, true, false, ◌||◌, [], ◌∷◌, Option, none, some, codes, if◌then◌else◌,
}
use rever_ssh.Exn.{Result, ok, err, os_error, ◌>>=◌}
use rever_ssh.Bytes.{Bytes, Text}
use rever_ssh.Sock.{Sock, is_empty}
use rever_ssh.PrivateProtocol.Frame.{FrameType, send_frame, read_frame}
use rever_ssh.PrivateProtocol.Pack.{pack_register_result}
use rever_ssh.PrivateProtocol.Unpack.{unpack_register}
use rever_ssh.Client.Approval.{is_space}
use rever_ssh.Relay.Registry
use rever_ssh.Relay.Registry.{Registry}

-- The registry and the socket afterwards, and the identifier if the client was started; where it
-- was not, the socket is closed.
pub record Handshake : Type 0 where
  pub registry : Registry
  pub sock : Sock
  pub started : Option Text

-- any(ch.isspace() for ch in identifier)
pub has_space : Text → Bool
has_space [] = false
has_space (c ∷ cs) = is_space c || has_space cs

is_register : FrameType → Bool
is_register FrameType.register = true
is_register t = false

-- `lost`: the peer is gone, and the send raises.
send_result : Bool → Bool → Text → Sock → Result Sock
send_result lost is_ok message s = do
  payload ← pack_register_result is_ok message
  if lost then err os_error else send_frame FrameType.register_result payload s

-- Not started, whatever became of the last answer.
not_started : Registry → Sock → Result Sock → Handshake
not_started r s (ok s') = record { registry = r; sock = s'; started = none }
not_started r s (err e) = record { registry = r; sock = s; started = none }

refuse : Bool → Text → Registry → Sock → Handshake
unfolding not_started send_result
refuse lost message r s = not_started r s (send_result lost false message s)

start : Text → Registry → Sock → Result Sock → Handshake
start identifier r s (ok s') = record { registry = r; sock = s'; started = some identifier }
start identifier r s (err e) = record { registry = r; sock = s; started = none }

answer_add : Bool → Text → Bool × Registry → Sock → Handshake
unfolding refuse start send_result
answer_add lost identifier (false, r) s = refuse lost (codes "identifier already registered") r s
answer_add lost identifier (true, r) s =
    start identifier r s (send_result lost true (codes "registered") s)

-- What follows `unpack_register`.
register : Bool → ℕ → Result Text → Registry → Sock → Handshake
unfolding refuse answer_add
register lost client (err e) r s = record { registry = r; sock = s; started = none }
register lost client (ok identifier) r s =
    if is_empty identifier || has_space identifier
    then refuse lost (codes "invalid identifier") r s
    else answer_add lost identifier (Registry.add identifier client r) s

first_frame : Bool → ℕ → Result ((FrameType × Bytes) × Sock) → Registry → Sock → Handshake
unfolding register refuse is_register
first_frame lost client (err e) r s = record { registry = r; sock = s; started = none }
first_frame lost client (ok ((t, payload), s')) r s =
    if is_register t
    then register lost client (unpack_register payload) r s'
    else refuse lost (codes "first frame must register identifier") r s'

pub handle_reverse_client : Bool → ℕ → Registry → Sock → Handshake
unfolding first_frame
handle_reverse_client lost client r s = first_frame lost client (read_frame s) r s
