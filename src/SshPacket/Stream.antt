-- ===== src/SshPacket/Stream.antt =====
-- `PacketStream` of reverssh/ssh_packet.py.
pub mod RoundTrip
pub mod Sync
mod Tests
use rever_ssh.Prelude.{
  ℕ, ◌+◌, ◌-◌, ◌*◌, ◌%◌, ◌^◌, Bool, true, false, List, [], ◌∷◌, ◌++◌, ◌||◌, Option, none, some,
  length, take, drop, bit_and, ltb, leb, ◌==◌, if◌then◌else◌,
}
use rever_ssh.Exn.{Result, ok, err, index_error, ssh_protocol_error, ◌>>=◌}
use rever_ssh.Bytes.{Bytes}
use rever_ssh.Bytes.Endian.{from_be}
use rever_ssh.Sock.{Sock, recv_exact, sendall}
use rever_ssh.SshPacket.Cipher.{Cipher, encrypt_packet, decrypt_packet, decrypt_length}
use rever_ssh.SshPacket.Padding.{build_plain_packet}

pub record PacketStream : Type 0 where
  pub sock : Sock
  pub send_sequence : ℕ
  pub recv_sequence : ℕ
  pub send_cipher : Option Cipher
  pub recv_cipher : Option Cipher

-- PacketStream(sock)
abbrev pub new_stream : Sock → PacketStream
new_stream s = record {
  sock = s;
  send_sequence = 0;
  recv_sequence = 0;
  send_cipher = none;
  recv_cipher = none;
}

unfoldable pub set_send_cipher : Cipher → PacketStream → PacketStream
set_send_cipher c s = record s { send_cipher = some c }

unfoldable pub set_recv_cipher : Cipher → PacketStream → PacketStream
set_recv_cipher c s = record s { recv_cipher = some c }

-- (sequence + 1) & 0xFFFFFFFF
abbrev pub next_sequence : ℕ → ℕ
next_sequence n = bit_and (n + 1) 0xffffffff

-- The bytes of one packet under a cipher, or under none.
wire_packet : (ℕ → Bytes) → Option Cipher → ℕ → Bytes → Result Bytes
wire_packet urandom none sequence payload = ok (build_plain_packet urandom payload false)
wire_packet urandom (some c) sequence payload =
    encrypt_packet c sequence (build_plain_packet urandom payload true)

pub send_packet : (ℕ → Bytes) → Bytes → PacketStream → Result PacketStream
send_packet urandom payload s = do
  wire ← wire_packet urandom s.send_cipher s.send_sequence payload
  ok (record s { sock = sendall wire s.sock; send_sequence = next_sequence s.send_sequence })

max_packet : ℕ
max_packet = 256 * 1024

-- packet_length < 5 or packet_length > 256 * 1024
bad_length : ℕ → Bool
unfolding max_packet
bad_length n = ltb n 5 || ltb max_packet n

-- The packet in clear, as each of the two branches of `read_packet` obtains it.
pub read_plain : Option Cipher → ℕ → Sock → Result (Bytes × Sock)
read_plain (some c) sequence s = do
  (first, s1) ← recv_exact 4 s
  packet_length ← decrypt_length c sequence first
  if bad_length packet_length then err ssh_protocol_error else do
    (rest, s2) ← recv_exact (packet_length + 16) s1
    plain ← decrypt_packet c sequence (first ++ rest)
    ok (plain, s2)
read_plain none sequence s = do
  (first, s1) ← recv_exact 4 s
  let packet_length = from_be first
  if bad_length packet_length
      then err ssh_protocol_error
      else do (rest, s2) ← recv_exact packet_length s1; ok (first ++ rest, s2)

-- body[1 : packet_length - padding_length], after the checks; `body[0]` of an empty body raises.
strip_padding : ℕ → Bytes → Result Bytes
strip_padding packet_length [] = err index_error
strip_padding packet_length (padding ∷ body) =
    if ltb padding 4 || leb packet_length padding
    then err ssh_protocol_error
    else ok (take (packet_length - padding - 1) body)

pub read_packet : PacketStream → Result (Bytes × PacketStream)
read_packet s = do
  (plain, sock') ← read_plain s.recv_cipher s.recv_sequence s.sock
  let packet_length = from_be (take 4 plain)
  payload ← strip_padding packet_length (take packet_length (drop 4 plain))
  ok (payload, record s { sock = sock'; recv_sequence = next_sequence s.recv_sequence })
