-- ===== src/WebSocket.antt =====
-- `WebSocketStream` of reverssh/websocket.py, over a connected socket. `os.urandom` is the argument
-- `mask`. `_recv_exact` is the `recv_exact` of Sock: the two functions of the source are the same.
pub mod Frame
pub mod Url
mod Tests
use rever_ssh.Prelude.{
  ℕ, zero, suc, ◌+◌, ◌%◌, Bool, true, false, List, [], ◌∷◌, ◌++◌, length, take, drop, get_or, not,
  bit_and, bit_or, bit_xor, ltb, leb, ◌==◌, ◌||◌, ◌&&◌, if◌then◌else◌,
}
use rever_ssh.Exn.{Result, ok, err, websocket_error, os_error, struct_error, out_of_fuel, ◌>>=◌}
use rever_ssh.Bytes.{Bytes}
use rever_ssh.Bytes.Endian.{to_be, from_be}
use rever_ssh.Sock.{Sock, recv_exact, sendall, is_empty}

-- bytes(byte ^ mask[index % 4] for index, byte in enumerate(payload)); a mask has four bytes
unfoldable pub mask_from : ℕ → Bytes → Bytes → Bytes
mask_from index mask [] = []
mask_from index mask (b ∷ bs) =
    bit_xor b (get_or mask (index % 4) 0) ∷ mask_from (index + 1) mask bs

-- struct.pack(">Q", length)
pack_q : ℕ → Result Bytes
pack_q size = if leb size 0xffffffffffffffff then ok (to_be 8 size) else err struct_error

-- The second byte of the header and what follows it, for a length.
unfoldable pub frame_header : ℕ → ℕ → ℕ → Result Bytes
unfolding pack_q
frame_header first mask_bit size =
    if ltb size 126
    then ok (first ∷ bit_or mask_bit size ∷ [])
    else if leb size 0xffff
    then ok (first ∷ bit_or mask_bit 126 ∷ to_be 2 size)
    else pack_q size >>= λ b. ok (first ∷ bit_or mask_bit 127 ∷ b)

unfoldable pub frame : Bool → Bytes → ℕ → Bytes → Result Bytes
unfolding frame_header mask_from
frame mask_outgoing mask opcode payload =
    frame_header (bit_or 0x80 opcode) (if mask_outgoing then 0x80 else 0) (length payload)
    >>= λ header.
        ok (if mask_outgoing then header ++ mask ++ mask_from 0 mask payload else header ++ payload)

-- The length field: its seven bits, or what follows them.
read_length : ℕ → Sock → Result (ℕ × Sock)
read_length size s =
    if size == 126
    then recv_exact 2 s >>= (λ (b, s'). ok (from_be b, s'))
    else if size == 127
    then recv_exact 8 s >>= (λ (b, s'). ok (from_be b, s'))
    else ok (size, s)

-- recv_exact(size) if wanted else b""
recv_if : Bool → ℕ → Sock → Result (Bytes × Sock)
recv_if wanted size s = if wanted then recv_exact size s else ok ([], s)

unfoldable pub read_frame : Sock → Result ((Bool × ℕ × Bytes) × Sock)
unfolding read_length recv_if mask_from
read_frame s = do
  (header, s1) ← recv_exact 2 s
  let first = get_or header 0 0
  let second = get_or header 1 0
  let masked = not (bit_and second 0x80 == 0)
  (size, s2) ← read_length (bit_and second 0x7f) s1
  (mask, s3) ← recv_if masked 4 s2
  (payload, s4) ← recv_if (not (size == 0)) size s3
  ok (
    (
      not (bit_and first 0x80 == 0),
      bit_and first 0x0f,
      if masked then mask_from 0 mask payload else payload,
    ),
    s4,
  )

pub record WebSocketStream : Type 0 where
  pub sock : Sock
  pub mask_outgoing : Bool
  pub buffer : Bytes
  pub closed : Bool

unfoldable pub ws_sendall : Bytes → Bytes → WebSocketStream → Result WebSocketStream
ws_sendall mask bytes ws =
    if ws.closed
    then err os_error
    else frame ws.mask_outgoing mask 0x2 bytes >>= λ b. ok (record ws { sock = sendall b ws.sock })

-- `_read_next_message`, with the joined `parts` so far. `masks` gives what each answer to a ping
-- draws from `os.urandom`. `fuel` bounds the frames that are read.
read_message : ℕ → (ℕ → Bytes) → Bytes → WebSocketStream → Result WebSocketStream
read_message zero masks parts ws = err out_of_fuel
read_message (suc fuel) masks parts ws = read_frame ws.sock >>= λ ((fin, opcode, payload), s).
    let ws1 : WebSocketStream = record ws { sock = s } in
    if opcode == 0x8
    then ok (record ws1 { closed = true })
    else if opcode == 0x9
    then frame ws.mask_outgoing (masks fuel) 0xA payload
      >>= (λ b. read_message fuel masks parts (record ws1 { sock = sendall b s }))
    else if opcode == 0xA
    then read_message fuel masks parts ws1
    else if not (opcode == 0x0 || opcode == 0x1 || opcode == 0x2)
    then err websocket_error
    else if fin
    then ok (record ws1 { buffer = ws1.buffer ++ parts ++ payload })
    else read_message fuel masks (parts ++ payload) ws1

-- The loop of `recv`; each round reads a message.
ws_recv_loop : ℕ → (ℕ → ℕ → Bytes) → WebSocketStream → Result WebSocketStream
ws_recv_loop zero masks ws = err out_of_fuel
ws_recv_loop (suc fuel) masks ws = elim (is_empty ws.buffer && not ws.closed) [
  | false ↦ ok ws
  | true ↦ read_message (suc fuel) (masks fuel) [] ws >>= λ ws'. ws_recv_loop fuel masks ws'
]

-- After the loop the buffer holds bytes, or the stream is closed and the slice is empty.
pub ws_recv : ℕ → (ℕ → ℕ → Bytes) → ℕ → WebSocketStream → Result (Bytes × WebSocketStream)
unfolding ws_recv_loop read_message
ws_recv fuel masks size ws = ws_recv_loop fuel masks ws >>= λ ws'.
    ok (take size ws'.buffer, record ws' { buffer = drop size ws'.buffer })
