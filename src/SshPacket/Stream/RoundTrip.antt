-- ===== src/SshPacket/Stream/RoundTrip.antt =====
-- What one packet stream sends, in clear or sealed, and what the stream at the other end reads.
use rever_ssh.Prelude.{
  ℕ, ◌+◌, ◌-◌, ◌*◌, ◌≤◌, ◌≡◌, refl, sym, ap, subst, ◌∙◌, Bool, false, ◌∷◌, ◌++◌, none, some,
  append_assoc, arith, length, length-append, length-take, length-drop, take, drop, take-append,
  drop-append, take-append-drop, take_all, All, All-append, leb, le→ltb_false,
}
use rever_ssh.Exn.{ok}
use rever_ssh.Bytes.{Bytes, IsByte}
use rever_ssh.Bytes.Endian.{to_be, from_be, length-to_be, from_be-to_be, to_be-IsByte}
use rever_ssh.Sock.{Sock, IsLive, pending, recv_exact}
use rever_ssh.Sock.Exact.{recv_exact_lem}
use rever_ssh.SshPacket.Cipher.{Cipher, encrypt_packet, decrypt_packet, decrypt_length}
use rever_ssh.SshPacket.Cipher.Seal.{decrypt_packet-encrypt_packet}
use rever_ssh.SshPacket.Padding.{padding_length, padding_length_lem, build_plain_packet}
use rever_ssh.SshPacket.Stream.{
  PacketStream, read_packet, read_plain, strip_padding, bad_length, max_packet, next_sequence,
}

-- `os.urandom(n)` returns `n` bytes.
pub record Random (urandom : ℕ → Bytes) : Type 0 where
  pub size : (n : ℕ) → length (urandom n) ≡ n
  pub bytes : (n : ℕ) → All IsByte (urandom n)

bad_length-false : (n : ℕ) → 5 ≤ n → n ≤ 256 * 1024 → bad_length n ≡ false
unfolding bad_length max_packet
bad_length-false n lo hi = rw (le→ltb_false n 5 lo, le→ltb_false (256 * 1024) n hi)

read_plain-sealed :
    (c : Cipher) (seq n : ℕ) (first rest clear : Bytes) (s s1 s2 : Sock)
    → recv_exact 4 s ≡ ok (first, s1)
    → decrypt_length c seq first ≡ ok n
    → bad_length n ≡ false
    → recv_exact (n + 16) s1 ≡ ok (rest, s2)
    → decrypt_packet c seq (first ++ rest) ≡ ok clear
    → read_plain (some c) seq s ≡ ok (clear, s2)
unfolding read_plain
read_plain-sealed c seq n first rest clear s s1 s2 run1 len good run2 opened =
    rw (run1, len, good, run2, opened)

strip_padding_lem :
    (n padding : ℕ) (payload noise : Bytes)
    → 4 ≤ padding
    → n ≡ length payload + 1 + padding
    → strip_padding n (padding ∷ (payload ++ noise)) ≡ ok payload
unfolding strip_padding
strip_padding_lem n padding payload noise lo e =
    let enough : leb n padding ≡ false = ground arith in
    rw
      (le→ltb_false padding 4 lo, enough, take-append (n - padding - 1) payload noise (omega arith))

module _ (urandom : ℕ → Bytes) (random : Random urandom) (payload : Bytes) (aead : Bool) where
  abbrev pub pad : ℕ
  pad = padding_length (length payload) aead

  abbrev pub size : ℕ
  size = length payload + 1 + pad

  abbrev pub body : Bytes
  body = pad ∷ (payload ++ urandom pad)

  abbrev pub plain : Bytes
  plain = build_plain_packet urandom payload aead

  plain_eq : plain ≡ to_be 4 size ++ body
  unfolding build_plain_packet
  plain_eq = refl

  body_size : length body ≡ size
  body_size = omega (arith, length-append payload (urandom pad), random.size pad)

  plain_size : length plain ≡ size + 4
  plain_size =
      ap (λ (t : Bytes). length t) plain_eq
      ∙ omega (arith, length-append (to_be 4 size) body, length-to_be 4 size, body_size)

  plain-IsByte : All IsByte payload → All IsByte plain
  plain-IsByte h = subst (All IsByte) (sym plain_eq) (
      All-append IsByte (to_be 4 size) body (to_be-IsByte 4 size) (
        omega (arith, padding_length_lem (length payload) aead),
        All-append IsByte payload (urandom pad) h (random.bytes pad),
      ))

  header : take 4 plain ≡ to_be 4 size
  header =
      ap (λ (t : Bytes). take 4 t) plain_eq
      ∙ take-append 4 (to_be 4 size) body (length-to_be 4 size)

  behind : drop 4 plain ≡ body
  behind =
      ap (λ (t : Bytes). drop 4 t) plain_eq
      ∙ drop-append 4 (to_be 4 size) body (length-to_be 4 size)

  module _ (short : length payload ≤ 262132) where
    fits : (5 ≤ size) × (size ≤ 262144)
    fits = (
      omega (arith, padding_length_lem (length payload) aead),
      omega (arith, padding_length_lem (length payload) aead),
    )

    header_value : from_be (take 4 plain) ≡ size
    header_value = ap from_be header ∙ from_be-to_be 4 size (omega (arith, fits))

    stripped : strip_padding size (take size (drop 4 plain)) ≡ ok payload
    stripped =
        let whole : take size (drop 4 plain) ≡ body =
          ap (λ (t : Bytes). take size t) behind ∙ take_all size body (omega (arith, body_size)) in
        ap (λ (t : Bytes). strip_padding size t) whole
        ∙ strip_padding_lem size pad payload (urandom pad)
            (omega (arith, padding_length_lem (length payload) aead)) refl

    -- Once the packet in clear is there, its payload is returned and the sequence number advances.
    pub finishes :
        (s : PacketStream) (sock' : Sock)
        → read_plain s.recv_cipher s.recv_sequence s.sock ≡ ok (plain, sock')
        → read_packet s
          ≡ ok (payload, record s { sock = sock'; recv_sequence = next_sequence s.recv_sequence })
    unfolding read_packet
    finishes s sock' h = rw (h, header_value, stripped)

    -- The bytes of the packet in clear, cut in any way.
    pub reads_clear :
        (seq : ℕ) (rest : Bytes) (s : Sock)
        → IsLive s
        → pending s ≡ plain ++ rest
        → (s' : Sock) × (read_plain none seq s ≡ ok (plain, s')) × (pending s' ≡ rest) × IsLive s'
    unfolding read_plain
    reads_clear seq rest s live next =
        let (s1, run1, next1, live1, sent1) =
          recv_exact_lem 4 (to_be 4 size) (body ++ rest) s (length-to_be 4 size) live (
            next
            ∙ ap (λ (t : Bytes). t ++ rest) plain_eq
            ∙ append_assoc (to_be 4 size) body rest) in
        let (s2, run2, next2, live2, sent2) =
          recv_exact_lem size body rest s1 body_size live1 next1 in
        let value : from_be (to_be 4 size) ≡ size = ap from_be (sym header) ∙ header_value in
        (
          s2,
          rw (run1, value, bad_length-false size fits.0 fits.1, run2)
              (ap (λ (t : Bytes). ok (t, s2)) (sym plain_eq)),
          next2,
          live2,
        )

    -- The bytes of the sealed packet, cut in any way.
    pub reads_sealed :
        (c : Cipher) (seq : ℕ) (wire rest : Bytes) (s : Sock)
        → length c.payload_key ≡ 32
        → All IsByte payload
        → encrypt_packet c seq plain ≡ ok wire
        → IsLive s
        → pending s ≡ wire ++ rest
        → (s' : Sock) × (read_plain (some c) seq s ≡ ok (plain, s'))
          × (pending s' ≡ rest)
          × IsLive s'
    unfolding read_plain
    reads_sealed c seq wire rest s key bytes sealed live next =
        let (opened, head_opened, wire_size) =
          decrypt_packet-encrypt_packet c seq plain wire key (plain-IsByte bytes)
            (omega (arith, plain_size)) sealed in
        let (s1, run1, next1, live1, sent1) =
          recv_exact_lem 4 (take 4 wire) (drop 4 wire ++ rest) s
            (omega (arith, length-take 4 wire, plain_size)) live
            (next
              ∙ ap (λ (t : Bytes). t ++ rest) (sym (take-append-drop 4 wire))
              ∙ append_assoc (take 4 wire) (drop 4 wire) rest) in
        let (s2, run2, next2, live2, sent2) =
          recv_exact_lem (size + 16) (drop 4 wire) rest s1
            (omega (arith, length-drop 4 wire, plain_size)) live1 next1 in
        (
          s2,
          read_plain-sealed c seq size (take 4 wire) (drop 4 wire) plain s s1 s2 run1
              (head_opened ∙ ap (λ (t : ℕ). ok t) header_value)
              (bad_length-false size fits.0 fits.1) run2
              (ap (λ (t : Bytes). decrypt_packet c seq t) (take-append-drop 4 wire) ∙ opened),
          next2,
          live2,
        )
