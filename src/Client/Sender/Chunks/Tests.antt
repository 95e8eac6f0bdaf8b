-- ===== src/Client/Sender/Chunks/Tests.antt =====
-- Data sent on a fresh socket.
use rever_ssh.Prelude.{◌≡◌, List, [], All, concat, codes, arith}
use rever_ssh.Exn.{ok}
use rever_ssh.Bytes.{Bytes}
use rever_ssh.Sock.{Sock}
use rever_ssh.PrivateProtocol.FrameRoundTrip.{Frames, send_frames}
use rever_ssh.Client.Sender.{send_channel_data}
use rever_ssh.Client.Sender.Chunks.{IsChunk, Carries, send_channel_data-Carries}

abbrev out : Sock
out = record { sent = []; incoming = [] }

send_channel_data-Carries_example :
    (parts : List Bytes) × (frames : Frames) × (s' : Sock) × (concat parts ≡ codes "hello")
    × All IsChunk parts
    × Carries 7 parts frames
    × (send_frames frames out ≡ ok s')
    × (send_channel_data 7 (codes "hello") out ≡ ok s')
send_channel_data-Carries_example = send_channel_data-Carries 7 (codes "hello") out (omega arith)
