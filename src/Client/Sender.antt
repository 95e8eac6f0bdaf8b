-- ===== src/Client/Sender.antt =====
-- The sending methods of `ReverseClientConnection` (reverssh/client.py).
pub mod Chunks
use rever_ssh.Prelude.{ℕ, zero, suc, ◌%◌, ◌^◌, false, [], ◌∷◌, codes, length, take, drop}
use rever_ssh.Exn.{Result, ok, ◌>>=◌}
use rever_ssh.Bytes.{Bytes, Text}
use rever_ssh.Sock.{Sock}
use rever_ssh.PrivateProtocol.Frame.{FrameType, send_frame}
use rever_ssh.PrivateProtocol.Pack.{
  pack_channel_data, pack_extended_data, pack_channel_request, pack_channel_id,
}

abbrev pub channel_max_packet : ℕ
channel_max_packet = 32768

-- `for pos in range(0, len(data), CHANNEL_MAX_PACKET)`, on what stands behind `pos`
send_chunks : (Bytes → Result Bytes) → FrameType → ℕ → Bytes → Sock → Result Sock
send_chunks pack t zero b s = ok s
send_chunks pack t (suc fuel) [] s = ok s
send_chunks pack t (suc fuel) (x ∷ b) s = do
  payload ← pack (take channel_max_packet (x ∷ b))
  s' ← send_frame t payload s
  send_chunks pack t fuel (drop channel_max_packet (x ∷ b)) s'

pub send_channel_data : ℕ → Bytes → Sock → Result Sock
unfolding send_chunks
send_channel_data channel_id b s =
    send_chunks (pack_channel_data channel_id) FrameType.channel_data (length b) b s

pub send_extended_data : ℕ → ℕ → Bytes → Sock → Result Sock
unfolding send_chunks
send_extended_data channel_id data_type b s =
    send_chunks (pack_extended_data channel_id data_type) FrameType.channel_extended_data (length b)
      b s

-- The reply flag is always off.
pub send_channel_request : ℕ → Text → Bytes → Sock → Result Sock
send_channel_request channel_id request payload s = do
  b ← pack_channel_request channel_id request false payload
  send_frame FrameType.channel_request b s

pub send_channel_eof : ℕ → Sock → Result Sock
send_channel_eof channel_id s = do
  b ← pack_channel_id channel_id
  send_frame FrameType.channel_eof b s
