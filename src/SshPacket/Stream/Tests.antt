-- ===== src/SshPacket/Stream/Tests.antt =====
-- Two packets in clear, and what a receiver makes of them when the network cuts the stream.
use rever_ssh.Prelude.{
  ℕ, zero, suc, ◌≡◌, refl, List, [], ◌∷◌, ◌++◌, All, length-replicate, replicate, take, drop, codes,
  arith,
}
use rever_ssh.Exn.{ok}
use rever_ssh.Bytes.{Bytes, IsByte}
use rever_ssh.Sock.{pending, sendall}
use rever_ssh.SshPacket.Padding.{build_plain_packet, padding_length}
use rever_ssh.Bytes.Endian.{to_be}
use rever_ssh.SshPacket.Stream.{PacketStream, new_stream, wire_packet, send_packet}
use rever_ssh.SshPacket.Stream.RoundTrip.{Random}
use rever_ssh.SshPacket.Stream.Sync.{InSync, send_packets, read_packets, read_packets-send_packets}

abbrev zeros : ℕ → Bytes
zeros n = replicate n 0

replicate-IsByte : (n : ℕ) → All IsByte (replicate n 0)
replicate-IsByte zero = tt
replicate-IsByte (suc n) = (omega arith, replicate-IsByte n)

zeros-Random : Random zeros
zeros-Random = record { size = λ n. length-replicate n 0; bytes = replicate-IsByte }

abbrev payloads : List Bytes
payloads = codes "first" ∷ codes "second" ∷ []

abbrev first_wire : Bytes
first_wire = 0 ∷ 0 ∷ 0 ∷ 12 ∷ 6 ∷ (codes "first" ++ replicate 6 0)

abbrev second_wire : Bytes
second_wire = 0 ∷ 0 ∷ 0 ∷ 12 ∷ 5 ∷ (codes "second" ++ replicate 5 0)

abbrev sender : PacketStream
sender = new_stream (record { incoming = []; sent = [] })

abbrev sender_after : PacketStream
sender_after = record sender {
  sock = record { incoming = []; sent = first_wire ++ second_wire };
  send_sequence = 2;
}

sent : send_packets zeros zeros-Random payloads sender ≡ ok sender_after
unfolding send_packets send_packet wire_packet build_plain_packet sendall to_be padding_length
sent = refl

-- The first piece ends inside the first packet.
abbrev receiver : PacketStream
receiver =
    new_stream
      (record { incoming = take 7 first_wire ∷ (drop 7 first_wire ++ second_wire) ∷ []; sent = [] })

in_sync : InSync sender receiver
in_sync = record { number = refl; cipher = refl; key = tt; live = (omega arith, (omega arith, tt)) }

read_packets-send_packets_example :
    (r' : PacketStream) × (read_packets zeros zeros-Random 2 receiver ≡ ok (payloads, r'))
    × (pending r'.sock ≡ [])
    × InSync sender_after r'
read_packets-send_packets_example =
    read_packets-send_packets zeros zeros-Random payloads sender sender_after receiver []
      ((omega arith, omega arith), ((omega arith, omega arith), tt)) refl sent in_sync refl
