-- ===== src/Client/Sender/Chunks.antt =====
-- What `send_channel_data` writes for data of any length.
mod Tests
use rever_ssh.Prelude.{
  ℕ, zero, suc, ◌+◌, ◌-◌, ◌≤◌, ◌<◌, ◌≡◌, refl, sym, ap, ◌∙◌, List, [], ◌∷◌, ◌++◌, All, map, concat,
  arith, length, length-take, length-drop, length-append, take, drop, take-append-drop, min, ltb,
  le→ltb_false,
}
use rever_ssh.Exn.{Result, ok, ◌>>=◌}
use rever_ssh.Bytes.{Bytes}
use rever_ssh.Bytes.Endian.{to_be, length-to_be}
use rever_ssh.Sock.{Sock, sendall}
use rever_ssh.SshEncoding.Total.{IsUint32, uint32_total, string_total}
use rever_ssh.PrivateProtocol.Frame.{FrameType, max_frame, frame_code, send_frame}
use rever_ssh.PrivateProtocol.FrameRoundTrip.{Frames, send_frames}
use rever_ssh.PrivateProtocol.Pack.{pack_channel_data}
use rever_ssh.PrivateProtocol.Unpack.{unpack_channel_data}
use rever_ssh.PrivateProtocol.RoundTrip.{unpack-pack_channel_data}
use rever_ssh.Client.Sender.{channel_max_packet, send_chunks, send_channel_data}

chunks : ℕ → Bytes → List Bytes
chunks zero b = []
chunks (suc fuel) [] = []
chunks (suc fuel) (x ∷ b) =
    take channel_max_packet (x ∷ b) ∷ chunks fuel (drop channel_max_packet (x ∷ b))

concat-chunks : (fuel : ℕ) (b : Bytes) → length b ≤ fuel → concat (chunks fuel b) ≡ b
unfolding chunks
concat-chunks zero [] h = refl
concat-chunks zero (x ∷ b) h = absurd (omega arith)
concat-chunks (suc fuel) [] h = refl
concat-chunks (suc fuel) (x ∷ b) h =
    let rest : length (drop channel_max_packet (x ∷ b)) ≡ length (x ∷ b) - channel_max_packet =
      length-drop channel_max_packet (x ∷ b) in
    ap (λ (t : Bytes). take channel_max_packet (x ∷ b) ++ t)
      (concat-chunks fuel (drop channel_max_packet (x ∷ b)) (omega arith))
    ∙ take-append-drop channel_max_packet (x ∷ b)

-- A part that is not empty and fits a packet of the channel.
IsChunk : Bytes → Type 0
IsChunk c = (0 < length c) × (length c ≤ channel_max_packet)

IsChunk-take : (x : ℕ) (b : Bytes) → IsChunk (take channel_max_packet (x ∷ b))
unfolding IsChunk
IsChunk-take x b =
    let size : length (take channel_max_packet (x ∷ b)) ≡ min channel_max_packet (length (x ∷ b)) =
      length-take channel_max_packet (x ∷ b) in
    (omega arith, omega arith)

chunks-IsChunk : (fuel : ℕ) (b : Bytes) → All IsChunk (chunks fuel b)
unfolding chunks
chunks-IsChunk zero b = tt
chunks-IsChunk (suc fuel) [] = tt
chunks-IsChunk (suc fuel) (x ∷ b) =
    (IsChunk-take x b, chunks-IsChunk fuel (drop channel_max_packet (x ∷ b)))

-- The payload of the frame for one part.
payload_of : ℕ → Bytes → Bytes
payload_of channel_id c = to_be 4 channel_id ++ (to_be 4 (length c) ++ c)

pack_channel_data-IsChunk :
    (channel_id : ℕ) (c : Bytes)
    → IsUint32 channel_id
    → IsChunk c
    → pack_channel_data channel_id c ≡ ok (payload_of channel_id c)
unfolding pack_channel_data payload_of IsChunk
pack_channel_data-IsChunk channel_id c h (positive, short) =
    rw (uint32_total channel_id h) (rw (string_total c (omega arith)) refl)

send_frame-IsChunk :
    (channel_id : ℕ) (c : Bytes) (s : Sock)
    → IsChunk c
    → (s' : Sock) × (send_frame FrameType.channel_data (payload_of channel_id c) s ≡ ok s')
unfolding send_frame payload_of IsChunk
send_frame-IsChunk channel_id c s (positive, short) =
    let a : length (to_be 4 channel_id) ≡ 4 = length-to_be 4 channel_id in
    let b : length (to_be 4 (length c)) ≡ 4 = length-to_be 4 (length c) in
    let inner : length (to_be 4 (length c) ++ c) ≡ length (to_be 4 (length c)) + length c =
      length-append (to_be 4 (length c)) c in
    let outer : length (to_be 4 channel_id ++ (to_be 4 (length c) ++ c))
        ≡ length (to_be 4 channel_id) + length (to_be 4 (length c) ++ c) =
      length-append (to_be 4 channel_id) (to_be 4 (length c) ++ c) in
    (
      sendall
          (to_be 4 (suc (length (payload_of channel_id c)))
            ++ frame_code FrameType.channel_data ∷ payload_of channel_id c)
          s,
      rw (le→ltb_false max_frame (suc (length (payload_of channel_id c))) (omega arith)) refl,
    )

send_chunks_lem :
    (channel_id fuel : ℕ) (b : Bytes) (s : Sock)
    → IsUint32 channel_id
    → (s' : Sock) × (send_chunks (pack_channel_data channel_id) FrameType.channel_data fuel b s
        ≡ ok s')
      × (send_frames
            (map (λ c. (FrameType.channel_data, payload_of channel_id c)) (chunks fuel b))
            s
          ≡ ok s')
unfolding send_chunks send_frames chunks
send_chunks_lem channel_id zero b s h = (s, refl, refl)
send_chunks_lem channel_id (suc fuel) [] s h = (s, refl, refl)
send_chunks_lem channel_id (suc fuel) (x ∷ b) s h =
    let (s1, sent) =
      send_frame-IsChunk channel_id (take channel_max_packet (x ∷ b)) s (IsChunk-take x b) in
    let (s2, run, runs) = send_chunks_lem channel_id fuel (drop channel_max_packet (x ∷ b)) s1 h in
    (
      s2,
      rw
          (pack_channel_data-IsChunk channel_id (take channel_max_packet (x ∷ b)) h
            (IsChunk-take x b))
          (rw sent run),
      rw sent runs,
    )

-- The relay reads each part back with the channel's id.
unpack-payload_of :
    (channel_id : ℕ) (c : Bytes)
    → IsUint32 channel_id
    → IsChunk c
    → unpack_channel_data (payload_of channel_id c) ≡ ok (channel_id, c)
unpack-payload_of channel_id c h k =
    unpack-pack_channel_data channel_id c (payload_of channel_id c)
      (pack_channel_data-IsChunk channel_id c h k)

-- Each part has its frame, which `unpack_channel_data` reads back.
Carries : ℕ → List Bytes → Frames → Type 0
Carries channel_id [] [] = Unit {0}
Carries channel_id (c ∷ parts) ((t, payload) ∷ frames) =
    (t ≡ FrameType.channel_data)
    × (unpack_channel_data payload ≡ ok (channel_id, c))
    × Carries channel_id parts frames
Carries channel_id [] (frame ∷ frames) = ⊥
Carries channel_id (c ∷ parts) [] = ⊥

frames-Carries :
    (channel_id : ℕ) (parts : List Bytes)
    → IsUint32 channel_id
    → All IsChunk parts
    → Carries channel_id parts (map (λ c. (FrameType.channel_data, payload_of channel_id c)) parts)
unfolding Carries
frames-Carries channel_id [] h k = tt
frames-Carries channel_id (c ∷ parts) h (k, ks) =
    (refl, unpack-payload_of channel_id c h k, frames-Carries channel_id parts h ks)

-- For a channel id that fits a uint32 and data of any length, `send_channel_data` returns, and has
-- written exactly the frames that `send_frame` writes for a list of parts: the parts joined are the
-- data, none is empty or longer than CHANNEL_MAX_PACKET, and each frame is a CHANNEL_DATA frame from
-- which `unpack_channel_data` reads the channel id and the part.
send_channel_data-Carries :
    (channel_id : ℕ) (b : Bytes) (s : Sock)
    → IsUint32 channel_id
    → (parts : List Bytes) × (frames : Frames) × (s' : Sock) × (concat parts ≡ b)
      × All IsChunk parts
      × Carries channel_id parts frames
      × (send_frames frames s ≡ ok s')
      × (send_channel_data channel_id b s ≡ ok s')
unfolding send_channel_data
send_channel_data-Carries channel_id b s h =
    let (s', run, runs) = send_chunks_lem channel_id (length b) b s h in
    (
      chunks (length b) b,
      map (λ c. (FrameType.channel_data, payload_of channel_id c)) (chunks (length b) b),
      s',
      concat-chunks (length b) b (omega arith),
      chunks-IsChunk (length b) b,
      frames-Carries channel_id (chunks (length b) b) h (chunks-IsChunk (length b) b),
      runs,
      run,
    )
