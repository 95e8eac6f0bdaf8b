-- ===== src/Relay/BindAddress.antt =====
-- `ForwardListener._map_bind_address` of reverssh/relay.py.
use rever_ssh.Prelude.{◌||◌, [], codes, seq_eq, if◌then◌else◌}
use rever_ssh.Bytes.{Text}

unfoldable pub map_bind_address : Text → Text
map_bind_address bind_address =
    if seq_eq bind_address [] || seq_eq bind_address (codes "*")
    then codes "0.0.0.0"
    else if seq_eq bind_address (codes "localhost")
    then codes "127.0.0.1"
    else bind_address
