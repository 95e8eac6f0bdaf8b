-- ===== src/Relay/Handshake/Registered/Tests.antt =====
-- A client registers as "a" at an empty relay.
use rever_ssh.Prelude.{refl, true, false, [], ◌∷◌}
use rever_ssh.Sock.{Sock}
use rever_ssh.Relay.Registry.{Registry}
use rever_ssh.Relay.Handshake.{handle_reverse_client}
use rever_ssh.Relay.Handshake.Registered.{Registers, handle_reverse_client-Registers}

abbrev registry : Registry
registry = record { clients = []; alive = λ c. true }

abbrev hello : Sock
hello = record { incoming = (0 ∷ 0 ∷ 0 ∷ 6 ∷ 1 ∷ []) ∷ (0 ∷ 0 ∷ 0 ∷ 1 ∷ 97 ∷ []) ∷ []; sent = [] }

handle_reverse_client-Registers_example :
    Registers false 0 registry (handle_reverse_client false 0 registry hello)
handle_reverse_client-Registers_example =
    handle_reverse_client-Registers false 0 registry hello refl
