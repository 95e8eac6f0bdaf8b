-- ===== src/WebSocket/Url.antt =====
-- `_normalize_ws_url` of reverssh/websocket.py.
use rever_ssh.Prelude.{◌++◌, codes, seq_eq, length, take, drop, if◌then◌else◌, Bool}
use rever_ssh.Bytes.{Text}

-- url.startswith(prefix)
starts_with : Text → Text → Bool
starts_with prefix url = seq_eq (take (length prefix) url) prefix

unfoldable pub normalize_ws_url : Text → Text
unfolding starts_with
normalize_ws_url url =
    if starts_with (codes "https://") url
    then codes "wss://" ++ drop (length (codes "https://")) url
    else if starts_with (codes "http://") url
    then codes "ws://" ++ drop (length (codes "http://")) url
    else url
