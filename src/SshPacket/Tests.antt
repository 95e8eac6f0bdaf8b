-- ===== src/SshPacket/Tests.antt =====
-- The packet layer on concrete packets.
use rever_ssh.Prelude.{
  ℕ, zero, suc, ◌+◌, ◌≡◌, refl, true, ◌∷◌, ◌++◌, ◌↔◌, ◌≤◌, All, length, length-take,
  length-replicate, replicate, take, drop, codes, arith, ◌%◌, if◌then◌else◌,
}
use rever_ssh.Exn.{ok}
use rever_ssh.Bytes.{Bytes, IsByte}
use rever_ssh.Bytes.Endian.{from_be, length-to_be}
use rever_ssh.Crypto.Chacha.Stream.{
  chacha20_block-IsBlock, chacha20_block_total, chacha20_xor_total,
}
use rever_ssh.Crypto.Poly1305.Polynomial.{poly1305_mac_tag}
use rever_ssh.SshPacket.Cipher.{
  Cipher, nonce_of, encrypt_packet, decrypt_packet, decrypt_length, constant_time_equal,
}
use rever_ssh.SshPacket.Cipher.Seal.{constant_time_equal_iff, decrypt_packet-encrypt_packet}
use rever_ssh.SshPacket.Padding.{padding_length, padding_length_lem}
use rever_ssh.SshPacket.Stream.RoundTrip.{Random}

padding_length_lem_example :
    (4 ≤ padding_length 5 true)
    × (padding_length 5 true ≤ 11)
    × ((5 + 1 + padding_length 5 true + (if true then 0 else 4)) % 8 ≡ 0)
padding_length_lem_example = padding_length_lem 5 true

constant_time_equal_iff_example :
    (constant_time_equal (codes "tag") (codes "tap") ≡ true) ↔ (codes "tag" ≡ codes "tap")
constant_time_equal_iff_example =
    constant_time_equal_iff (codes "tag") (codes "tap") (omega arith) (omega arith)

abbrev cipher : Cipher
cipher = record { payload_key = replicate 32 5; length_key = replicate 32 6 }

-- With keys of 32 bytes every packet encrypts.
encrypt_packet_total :
    (seq : ℕ) (plain : Bytes) → (wire : Bytes) × (encrypt_packet cipher seq plain ≡ ok wire)
unfolding encrypt_packet
encrypt_packet_total seq plain =
    let nonce : Bytes = nonce_of seq in
    let size : length nonce ≡ 8 = length-to_be 8 seq in
    let (el, p) = chacha20_xor_total (replicate 32 6) nonce 0 (take 4 plain) refl size in
    let (block, q) = chacha20_block_total (replicate 32 5) nonce 0 refl size in
    let (ep, r) = chacha20_xor_total (replicate 32 5) nonce 1 (drop 4 plain) refl size in
    let is_block = chacha20_block-IsBlock (replicate 32 5) nonce 0 block q in
    let (tag, s, tag_size, tag_bytes) =
      poly1305_mac_tag (el ++ ep) (take 32 block)
        (omega (arith, length-take 32 block, is_block.0)) in
    (el ++ (ep ++ tag), rw (p, q, r, s) refl)

abbrev plain : Bytes
plain = 0 ∷ 0 ∷ 0 ∷ 4 ∷ codes "data"

abbrev encrypted : (wire : Bytes) × (encrypt_packet cipher 3 plain ≡ ok wire)
encrypted = encrypt_packet_total 3 plain

decrypt_packet-encrypt_packet_example :
    (decrypt_packet cipher 3 encrypted.0 ≡ ok plain)
    × (decrypt_length cipher 3 (take 4 encrypted.0) ≡ ok (from_be (take 4 plain)))
    × (length encrypted.0 ≡ length plain + 16)
decrypt_packet-encrypt_packet_example =
    decrypt_packet-encrypt_packet cipher 3 plain encrypted.0 refl (omega arith) (omega arith)
      encrypted.1

abbrev zeros : ℕ → Bytes
zeros n = replicate n 0

replicate-IsByte : (n : ℕ) → All IsByte (replicate n 0)
replicate-IsByte zero = tt
replicate-IsByte (suc n) = (omega arith, replicate-IsByte n)

zeros-Random : Random zeros
zeros-Random = record { size = λ n. length-replicate n 0; bytes = replicate-IsByte }
