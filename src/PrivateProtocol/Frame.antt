-- ===== src/PrivateProtocol/Frame.antt =====
-- `FrameType` and `FrameSocket` of reverssh/private_protocol.py. The send lock makes a frame's
-- bytes adjacent on the wire, so a call of `send_frame` is one step here.
use rever_ssh.Prelude.{ℕ, ◌*◌, [], ◌∷◌, ◌++◌, ◌||◌, length, ltb, ◌==◌, if◌then◌else◌}
use rever_ssh.Exn.{Result, ok, err, value_error, index_error, ◌>>=◌}
use rever_ssh.Bytes.{Bytes}
use rever_ssh.Bytes.Endian.{to_be, from_be}
use rever_ssh.Sock.{Sock, recv_exact, sendall}

abbrev pub max_frame : ℕ
max_frame = 16 * 1024 * 1024

pub data FrameType : Type 0 where
  register register_result auth_request auth_response : FrameType
  open_channel open_confirm channel_data channel_eof channel_close : FrameType
  channel_request channel_extended_data heartbeat : FrameType

-- int(frame_type)
unfoldable pub frame_code : FrameType → ℕ
frame_code register = 1
frame_code register_result = 2
frame_code auth_request = 3
frame_code auth_response = 4
frame_code open_channel = 10
frame_code open_confirm = 11
frame_code channel_data = 12
frame_code channel_eof = 13
frame_code channel_close = 14
frame_code channel_request = 15
frame_code channel_extended_data = 16
frame_code heartbeat = 30

-- FrameType(code)
unfoldable pub frame_type : ℕ → Result FrameType
frame_type code =
    if code == 1
    then ok register
    else if code == 2
    then ok register_result
    else if code == 3
    then ok auth_request
    else if code == 4
    then ok auth_response
    else if code == 10
    then ok open_channel
    else if code == 11
    then ok open_confirm
    else if code == 12
    then ok channel_data
    else if code == 13
    then ok channel_eof
    else if code == 14
    then ok channel_close
    else if code == 15
    then ok channel_request
    else if code == 16
    then ok channel_extended_data
    else if code == 30
    then ok heartbeat
    else err value_error

unfoldable pub send_frame : FrameType → Bytes → Sock → Result Sock
send_frame t payload s =
    let body : Bytes = frame_code t ∷ payload in
    if ltb max_frame (length body)
    then err value_error
    else ok (sendall (to_be 4 (length body) ++ body) s)

-- `FrameType(body[0]), body[1:]`
unfoldable pub parse_body : Bytes → Result (FrameType × Bytes)
parse_body [] = err index_error
parse_body (code ∷ payload) = do t ← frame_type code; ok (t, payload)

unfoldable pub read_frame : Sock → Result ((FrameType × Bytes) × Sock)
read_frame s = do
  (header, s1) ← recv_exact 4 s
  let length = from_be header
  if ltb length 1 || ltb max_frame length
      then err value_error
      else do (body, s2) ← recv_exact length s1; frame ← parse_body body; ok (frame, s2)
