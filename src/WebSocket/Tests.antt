-- ===== src/WebSocket/Tests.antt =====
-- A masked frame, cut in two.
use rever_ssh.Prelude.{◌≡◌, refl, true, [], ◌∷◌, ◌++◌, take, drop, codes, arith}
use rever_ssh.Exn.{ok}
use rever_ssh.Bytes.{Bytes}
use rever_ssh.Sock.{Sock, IsLive, pending}
use rever_ssh.WebSocket.{frame, frame_header, mask_from, read_frame}
use rever_ssh.WebSocket.Frame.{read_frame-frame}

abbrev mask : Bytes
mask = 1 ∷ 2 ∷ 3 ∷ 4 ∷ []

abbrev wire : Bytes
wire = 0x82 ∷ 0x85 ∷ 1 ∷ 2 ∷ 3 ∷ 4 ∷ 105 ∷ 103 ∷ 111 ∷ 104 ∷ 110 ∷ []

framed : frame true mask 2 (codes "hello") ≡ ok wire
unfolding frame frame_header mask_from
framed = refl

abbrev sock : Sock
sock = record { incoming = take 3 wire ∷ (drop 3 wire ++ codes "next") ∷ []; sent = [] }

read_frame-frame_example :
    (s' : Sock) × (read_frame sock ≡ ok ((true, 2, codes "hello"), s'))
    × (pending s' ≡ codes "next")
    × IsLive s'
    × (s'.sent ≡ [])
read_frame-frame_example =
    read_frame-frame true mask 2 (codes "hello") wire (codes "next") sock refl (omega arith)
      (omega arith) (omega arith) framed (omega arith, (omega arith, tt)) refl
