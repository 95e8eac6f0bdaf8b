-- ===== src/PrivateProtocol/Tests.antt =====
-- Two frames, and one message of each shape that matters.
use rever_ssh.Prelude.{◌≡◌, refl, [], ◌∷◌, ◌++◌, take, drop, codes, arith, inl}
use rever_ssh.Exn.{Result, ok}
use rever_ssh.Bytes.{Bytes, Text}
use rever_ssh.Bytes.Endian.{to_be}
use rever_ssh.Sock.{Sock, IsLive, pending, sendall}
use rever_ssh.PrivateProtocol.Frame.{FrameType, send_frame, frame_code}
use rever_ssh.PrivateProtocol.FrameRoundTrip.{
  Frames, send_frames, read_frames, read_frames-send_frames,
}
use rever_ssh.PrivateProtocol.Message.{Json, open_channel, frame_type_of, pack, unpack}
use rever_ssh.PrivateProtocol.Message.RoundTrip.{unpack-pack}

abbrev frames : Frames
frames = (FrameType.channel_data, codes "abc") ∷ (FrameType.heartbeat, []) ∷ []

abbrev wire : Bytes
wire = 0 ∷ 0 ∷ 0 ∷ 4 ∷ 12 ∷ (codes "abc" ++ 0 ∷ 0 ∷ 0 ∷ 1 ∷ 30 ∷ [])

abbrev out : Sock
out = record { incoming = []; sent = [] }

sent : send_frames frames out ≡ ok (record { incoming = []; sent = wire })
unfolding send_frames send_frame frame_code sendall to_be
sent = refl

abbrev inbox : Sock
inbox = record { incoming = take 3 wire ∷ drop 3 wire ∷ []; sent = [] }

read_frames-send_frames_example :
    (s' : Sock) × (read_frames 2 inbox ≡ ok (frames, s')) × (pending s' ≡ []) × IsLive s'
read_frames-send_frames_example =
    read_frames-send_frames frames out (record { incoming = []; sent = wire }) inbox [] refl sent
      (omega arith, (omega arith, tt)) refl

-- The `extra` of a session: an empty object.
empty_object : Text → Result (Unit {0})
empty_object t = ok tt

empty_object-codes : (x : Unit {0}) → empty_object (codes "{}") ≡ ok x
unfolding empty_object
empty_object-codes x = refl

abbrev json : Json (Unit {0})
json = record {
  dumps = λ x. codes "{}";
  loads = empty_object;
  loads-dumps = empty_object-codes;
  ascii = λ x. ((omega arith, inl (omega arith)), ((omega arith, inl (omega arith)), tt));
}

unpack-pack_example :
    (p : Bytes) × (pack json (open_channel 5 (codes "ab") tt) ≡ ok p)
    × (unpack json FrameType.open_channel p ≡ ok (open_channel 5 (codes "ab") tt))
unfolding frame_type_of
unpack-pack_example = unpack-pack json (open_channel 5 (codes "ab") tt) (
  omega arith,
  (((omega arith, inl (omega arith)), ((omega arith, inl (omega arith)), tt)), omega arith),
  omega arith,
)
