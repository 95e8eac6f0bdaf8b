-- ===== src/SshPacket/Stream/Sync.antt =====
-- Two packet streams that start in step, packet after packet.
use rever_ssh.Prelude.{
  ℕ, zero, suc, ◌≤◌, ◌≡◌, refl, sym, ap, ap₂, subst, ◌∙◌, Bool, true, false, List, [], ◌∷◌, ◌++◌,
  Option, none, some, append_assoc, append-nil, arith, length, All,
}
use rever_ssh.Exn.{Result, ok, ◌>>=◌, >>=-eq-ok}
use rever_ssh.Bytes.{Bytes, IsByte}
use rever_ssh.Sock.{Sock, IsLive, pending, sendall}
use rever_ssh.SshPacket.Cipher.{Cipher}
use rever_ssh.SshPacket.Padding.{build_plain_packet}
use rever_ssh.SshPacket.Stream.{
  PacketStream, wire_packet, send_packet, read_packet, read_plain, next_sequence,
}
use rever_ssh.SshPacket.Stream.RoundTrip.{Random, finishes, reads_clear, reads_sealed}

abbrev HasKey : Option Cipher → Type 0
HasKey none = Unit
HasKey (some c) = length c.payload_key ≡ 32

-- The receiver expects what the sender sends next: same number, same cipher.
pub record InSync (sender receiver : PacketStream) : Type 0 where
  pub number : receiver.recv_sequence ≡ sender.send_sequence
  pub cipher : receiver.recv_cipher ≡ sender.send_cipher
  pub key : HasKey sender.send_cipher
  pub live : IsLive receiver.sock

-- A payload that fits a packet.
abbrev pub IsPayload : Bytes → Type 0
IsPayload b = All IsByte b × (length b ≤ 262132)

module _ (urandom : ℕ → Bytes) (random : Random urandom) where
  unfoldable pub send_packets : List Bytes → PacketStream → Result PacketStream
  send_packets [] s = ok s
  send_packets (payload ∷ payloads) s = do
    s' ← send_packet urandom payload s
    send_packets payloads s'

  reads_wire :
      (o : Option Cipher) (seq : ℕ) (payload wire rest : Bytes) (s : Sock)
      → HasKey o
      → IsPayload payload
      → wire_packet urandom o seq payload ≡ ok wire
      → IsLive s
      → pending s ≡ wire ++ rest
      → (aead : Bool) × (s' : Sock) × (read_plain o seq s
          ≡ ok (build_plain_packet urandom payload aead, s'))
        × (pending s' ≡ rest)
        × IsLive s'
  unfolding wire_packet
  reads_wire none seq payload wire rest s key (bytes, short) h live next =
      let shape : build_plain_packet urandom payload false ≡ wire = ground arith in
      let (s', run, left, live') =
        reads_clear urandom random payload false short seq rest s live
          (next ∙ ap (λ (t : Bytes). t ++ rest) (sym shape)) in
      (false, s', run, left, live')
  reads_wire (some c) seq payload wire rest s key (bytes, short) h live next =
      let (s', run, left, live') =
        reads_sealed urandom random payload true short c seq wire rest s key bytes h live next in
      (true, s', run, left, live')

  pub read_packets : ℕ → PacketStream → Result (List Bytes × PacketStream)
  read_packets zero s = ok ([], s)
  read_packets (suc n) s = do
    (payload, s') ← read_packet s
    (payloads, s'') ← read_packets n s'
    ok (payload ∷ payloads, s'')

  read_packets_step :
      (payload : Bytes) (payloads : List Bytes) (n : ℕ) (r r1 r2 : PacketStream)
      → read_packet r ≡ ok (payload, r1)
      → read_packets n r1 ≡ ok (payloads, r2)
      → read_packets (suc n) r ≡ ok (payload ∷ payloads, r2)
  unfolding read_packets
  read_packets_step payload payloads n r r1 r2 p q = rw (p, q)

  send_packet-wire :
      (payload : Bytes) (s s' : PacketStream)
      → send_packet urandom payload s ≡ ok s'
      → (wire : Bytes) × (wire_packet urandom s.send_cipher s.send_sequence payload ≡ ok wire)
        × (s' ≡ record s {
          sock = sendall wire s.sock;
          send_sequence = next_sequence s.send_sequence;
        })
  unfolding send_packet
  send_packet-wire payload s s' h =
      let (wire, p, q) =
        >>=-eq-ok (wire_packet urandom s.send_cipher s.send_sequence payload) _ h in
      (wire, p, ground arith)

  -- One packet.
  in_step :
      (payload wire rest : Bytes) (s r : PacketStream)
      → IsPayload payload
      → InSync s r
      → wire_packet urandom s.send_cipher s.send_sequence payload ≡ ok wire
      → pending r.sock ≡ wire ++ rest
      → (r' : PacketStream) × (read_packet r ≡ ok (payload, r'))
        × (pending r'.sock ≡ rest)
        × InSync
            (record s { sock = sendall wire s.sock; send_sequence = next_sequence s.send_sequence })
            r'
  in_step payload wire rest s r fits sync h next =
      let (aead, sock', run, left, live') =
        reads_wire s.send_cipher s.send_sequence payload wire rest r.sock sync.key fits h sync.live
          next in
      let run' : read_plain r.recv_cipher r.recv_sequence r.sock
          ≡ ok (build_plain_packet urandom payload aead, sock') =
        ap₂ (λ (o : Option Cipher) (n : ℕ). read_plain o n r.sock) sync.cipher sync.number ∙ run in
      (
        record r { sock = sock'; recv_sequence = next_sequence r.recv_sequence },
        finishes urandom random payload aead fits.1 r sock' run',
        left,
        record {
          number = ap (λ (n : ℕ). next_sequence n) sync.number;
          cipher = sync.cipher;
          key = sync.key;
          live = live';
        },
      )

  stay_in_step :
      (payloads : List Bytes) (s s' : PacketStream)
      → All IsPayload payloads
      → send_packets payloads s ≡ ok s'
      → (w : Bytes) × (s'.sock.sent ≡ s.sock.sent ++ w)
        × ((r : PacketStream) (rest : Bytes)
            → InSync s r
            → pending r.sock ≡ w ++ rest
            → (r' : PacketStream) × (read_packets (length payloads) r ≡ ok (payloads, r'))
              × (pending r'.sock ≡ rest)
              × InSync s' r')
  unfolding send_packets read_packets sendall
  stay_in_step [] s s' fits h =
      let e : s ≡ s' = ground arith in
      (
        [],
        ap (λ (x : PacketStream). x.sock.sent) (sym e) ∙ sym (append-nil s.sock.sent),
        λ r rest sync next. (r, refl, next, subst (λ (x : PacketStream). InSync x r) e sync),
      )
  stay_in_step (payload ∷ payloads) s s' (fit, fits) h =
      let (s1, p, q) = >>=-eq-ok (send_packet urandom payload s) _ h in
      let (wire, sealed, shape) = send_packet-wire payload s s1 p in
      let (w, sent, reads) = stay_in_step payloads s1 s' fits q in
      (
        wire ++ w,
        sent ∙ ap (λ (x : PacketStream). x.sock.sent ++ w) shape ∙ append_assoc s.sock.sent wire w,
        λ r rest sync next.
            let (r1, run1, next1, sync1) =
              in_step payload wire (w ++ rest) s r fit sync sealed
                (next ∙ append_assoc wire w rest) in
            let (r2, run2, next2, sync2) =
              reads r1 rest (subst (λ (x : PacketStream). InSync x r1) (sym shape) sync1) next1 in
            (
              r2,
              read_packets_step payload payloads (length payloads) r r1 r2 run1 run2,
              next2,
              sync2,
            ),
      )

  -- For payloads that are byte strings of at most 262132 bytes, which is what a reader takes: if the
  -- streams start in step, both in clear or with one cipher whose payload key has 32 bytes, the
  -- receiver's socket delivers no empty piece before its end, the sender has sent nothing yet, its
  -- calls of `send_packet` succeed, and the bytes that they wrote reach the receiver in any pieces,
  -- then as many calls of `read_packet` return the same payloads in the same order, leave what
  -- follows, and the streams are in step again. `os.urandom` returns as many bytes as it is asked for.
  pub read_packets-send_packets :
      (payloads : List Bytes) (s s' r : PacketStream) (rest : Bytes)
      → All IsPayload payloads
      → s.sock.sent ≡ []
      → send_packets payloads s ≡ ok s'
      → InSync s r
      → pending r.sock ≡ s'.sock.sent ++ rest
      → (r' : PacketStream) × (read_packets (length payloads) r ≡ ok (payloads, r'))
        × (pending r'.sock ≡ rest)
        × InSync s' r'
  read_packets-send_packets payloads s s' r rest fits fresh h sync next =
      let (w, sent, reads) = stay_in_step payloads s s' fits h in
      reads r rest sync
        (next ∙ ap (λ (t : Bytes). t ++ rest) (sent ∙ ap (λ (t : Bytes). t ++ w) fresh))
