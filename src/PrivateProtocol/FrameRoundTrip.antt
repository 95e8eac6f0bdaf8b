-- ===== src/PrivateProtocol/FrameRoundTrip.antt =====
-- The frames that one end sends, at the other end.
use rever_ssh.Prelude.{
  ℕ, zero, suc, ◌≤◌, ◌<◌, ◌≡◌, refl, ap, ◌∙◌, List, [], ◌∷◌, ◌++◌, append_assoc, append-nil, arith,
  length, le→ltb_false, All,
}
use rever_ssh.Exn.{Result, ok, ◌>>=◌, >>=-eq-ok}
use rever_ssh.Bytes.{Bytes}
use rever_ssh.Bytes.Endian.{to_be, from_be, length-to_be, from_be-to_be}
use rever_ssh.Sock.{Sock, IsLive, pending, sendall, recv_exact}
use rever_ssh.Sock.Exact.{recv_exact_lem}
use rever_ssh.PrivateProtocol.Frame.{
  FrameType, max_frame, frame_code, frame_type, send_frame, read_frame, parse_body,
}

frame_type-frame_code : (t : FrameType) → frame_type (frame_code t) ≡ ok t
unfolding frame_type frame_code
frame_type-frame_code FrameType.register = refl
frame_type-frame_code _ = refl

-- The bytes of one frame.
wire : FrameType → Bytes → Bytes
wire t payload = to_be 4 (suc (length payload)) ++ (frame_code t ∷ payload)

send_frame-wire :
    (t : FrameType) (payload : Bytes) (s s' : Sock)
    → send_frame t payload s ≡ ok s'
    → (length payload < max_frame) × (s' ≡ record s { sent = s.sent ++ wire t payload })
unfolding send_frame wire sendall
send_frame-wire t payload s s' h = ground arith

read_frame-runs :
    (size : ℕ) (header body : Bytes) (frame : FrameType × Bytes) (s s1 s2 : Sock)
    → recv_exact 4 s ≡ ok (header, s1)
    → from_be header ≡ size
    → 1 ≤ size
    → size ≤ max_frame
    → recv_exact size s1 ≡ ok (body, s2)
    → parse_body body ≡ ok frame
    → read_frame s ≡ ok (frame, s2)
unfolding read_frame
read_frame-runs size header body frame s s1 s2 run1 value low high run2 parsed =
    rw (run1, value, le→ltb_false size 1 low, le→ltb_false max_frame size high, run2, parsed)

-- A frame at the front of the stream is read, and what follows it is left.
read_frame-wire :
    (t : FrameType) (payload rest : Bytes) (s : Sock)
    → length payload < max_frame
    → IsLive s
    → pending s ≡ wire t payload ++ rest
    → (s' : Sock) × (read_frame s ≡ ok ((t, payload), s')) × (pending s' ≡ rest) × IsLive s'
unfolding wire parse_body
read_frame-wire t payload rest s small live next =
    let n : ℕ = suc (length payload) in
    let body : Bytes = frame_code t ∷ payload in
    let (s1, run1, next1, live1, sent1) =
      recv_exact_lem 4 (to_be 4 n) (body ++ rest) s (length-to_be 4 n) live
        (next ∙ append_assoc (to_be 4 n) body rest) in
    let (s2, run2, next2, live2, sent2) = recv_exact_lem n body rest s1 refl live1 next1 in
    (
      s2,
      read_frame-runs n (to_be 4 n) body (t, payload) s s1 s2 run1 (from_be-to_be 4 n (omega arith))
          (omega arith) small run2 (rw (frame_type-frame_code t)),
      next2,
      live2,
    )

-- The calls of one side, and as many reads of the other.
abbrev pub Frames : Type 0
Frames = List (FrameType × Bytes)

unfoldable pub send_frames : Frames → Sock → Result Sock
send_frames [] s = ok s
send_frames ((t, payload) ∷ frames) s = do s' ← send_frame t payload s; send_frames frames s'

pub read_frames : ℕ → Sock → Result (Frames × Sock)
read_frames zero s = ok ([], s)
read_frames (suc n) s = do
  (frame, s') ← read_frame s
  (frames, s'') ← read_frames n s'
  ok (frame ∷ frames, s'')

wires : Frames → Bytes
wires [] = []
wires ((t, payload) ∷ frames) = wire t payload ++ wires frames

abbrev IsShort : FrameType × Bytes → Type 0
IsShort (t, payload) = length payload < max_frame

send_frames-wires :
    (frames : Frames) (s s' : Sock)
    → send_frames frames s ≡ ok s'
    → All IsShort frames × (s'.sent ≡ s.sent ++ wires frames)
unfolding send_frames wires
send_frames-wires [] s s' h = (tt, ground (arith, append-nil s.sent))
send_frames-wires ((t, payload) ∷ frames) s s' h =
    let (s1, p, q) = >>=-eq-ok (send_frame t payload s) _ h in
    let (short, after) = send_frame-wire t payload s s1 p in
    let (shorts, sent) = send_frames-wires frames s1 s' q in
    (
      (short, shorts),
      sent
          ∙ ap (λ (x : Sock). x.sent ++ wires frames) after
          ∙ append_assoc s.sent (wire t payload) (wires frames),
    )

read_frames-wires :
    (frames : Frames) (rest : Bytes) (s : Sock)
    → All IsShort frames
    → IsLive s
    → pending s ≡ wires frames ++ rest
    → (s' : Sock) × (read_frames (length frames) s ≡ ok (frames, s'))
      × (pending s' ≡ rest)
      × IsLive s'
unfolding read_frames wires
read_frames-wires [] rest s short live next = (s, refl, next, live)
read_frames-wires ((t, payload) ∷ frames) rest s (short, shorts) live next =
    let (s1, run1, next1, live1) =
      read_frame-wire t payload (wires frames ++ rest) s short live
        (next ∙ append_assoc (wire t payload) (wires frames) rest) in
    let (s2, run2, next2, live2) = read_frames-wires frames rest s1 shorts live1 next1 in
    (s2, rw (run1, run2), next2, live2)

-- If one side's calls of `send_frame` succeed, and the bytes that they wrote reach the other side
-- at the front of its stream, cut into pieces in any way, then as many calls of `read_frame` return
-- the same frames in the same order and leave what follows.
pub read_frames-send_frames :
    (frames : Frames) (out out' s : Sock) (rest : Bytes)
    → out.sent ≡ []
    → send_frames frames out ≡ ok out'
    → IsLive s
    → pending s ≡ out'.sent ++ rest
    → (s' : Sock) × (read_frames (length frames) s ≡ ok (frames, s'))
      × (pending s' ≡ rest)
      × IsLive s'
read_frames-send_frames frames out out' s rest fresh run live next =
    let (short, sent) = send_frames-wires frames out out' run in
    read_frames-wires frames rest s short live
      (next ∙ ap (λ (t : Bytes). t ++ rest) (sent ∙ ap (λ (t : Bytes). t ++ wires frames) fresh))
