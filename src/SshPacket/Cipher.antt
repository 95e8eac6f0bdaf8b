-- ===== src/SshPacket/Cipher.antt =====
-- `OpenSSHChaCha20Poly1305` and `_constant_time_equal` of reverssh/ssh_packet.py.
pub mod Seal
use rever_ssh.Prelude.{
  ℕ, zero, suc, ◌+◌, ◌-◌, Bool, true, false, List, [], ◌∷◌, ◌++◌, bit_or, bit_xor, length, take,
  drop, ltb, ◌==◌, if◌then◌else◌,
}
use rever_ssh.Exn.{Result, ok, err, value_error, ssh_protocol_error, ◌>>=◌}
use rever_ssh.Bytes.{Bytes}
use rever_ssh.Bytes.Endian.{to_be, from_be}
use rever_ssh.Crypto.Chacha.{chacha20_block, chacha20_xor}
use rever_ssh.Crypto.Poly1305.{poly1305_mac}

pub record Cipher : Type 0 where
  pub payload_key : Bytes
  pub length_key : Bytes

-- OpenSSHChaCha20Poly1305(key_material)
unfoldable pub new_cipher : Bytes → Result Cipher
new_cipher key_material =
    if length key_material == 64
    then ok (record { payload_key = take 32 key_material; length_key = drop 32 key_material })
    else err value_error

-- A sequence number is below 2 ^ 32, so `struct.pack(">Q", sequence)` does not raise.
abbrev pub nonce_of : ℕ → Bytes
nonce_of sequence = to_be 8 sequence

unfoldable pub encrypt_packet : Cipher → ℕ → Bytes → Result Bytes
encrypt_packet c sequence plain_packet = do
  let nonce = nonce_of sequence
  encrypted_length ← chacha20_xor c.length_key nonce 0 (take 4 plain_packet)
  block ← chacha20_block c.payload_key nonce 0
  encrypted_payload ← chacha20_xor c.payload_key nonce 1 (drop 4 plain_packet)
  tag ← poly1305_mac (encrypted_length ++ encrypted_payload) (take 32 block)
  ok (encrypted_length ++ (encrypted_payload ++ tag))

-- `result |= x ^ y` over the pairs
differences : ℕ → Bytes → Bytes → ℕ
differences result [] b = result
differences result (x ∷ a) [] = result
differences result (x ∷ a) (y ∷ b) = differences (bit_or result (bit_xor x y)) a b

unfoldable pub constant_time_equal : Bytes → Bytes → Bool
unfolding differences
constant_time_equal a b = if length a == length b then differences 0 a b == 0 else false

-- The slices `[:4]`, `[4:-16]` and `[-16:]` of at least 20 bytes.
unfoldable pub decrypt_packet : Cipher → ℕ → Bytes → Result Bytes
decrypt_packet c sequence encrypted =
    if ltb (length encrypted) 20 then err ssh_protocol_error else (do
      let nonce = nonce_of sequence
      let encrypted_length = take 4 encrypted
      let encrypted_payload = drop 4 (take (length encrypted - 16) encrypted)
      let received_tag = drop (length encrypted - 16) encrypted
      block ← chacha20_block c.payload_key nonce 0
      expected_tag ← poly1305_mac (encrypted_length ++ encrypted_payload) (take 32 block)
      if constant_time_equal received_tag expected_tag
          then (do
            packet_length ← chacha20_xor c.length_key nonce 0 encrypted_length
            payload ← chacha20_xor c.payload_key nonce 1 encrypted_payload
            ok (packet_length ++ payload))
          else err ssh_protocol_error)

unfoldable pub decrypt_length : Cipher → ℕ → Bytes → Result ℕ
decrypt_length c sequence encrypted_length =
    if length encrypted_length == 4
    then (do
      packet_length ← chacha20_xor c.length_key (nonce_of sequence) 0 encrypted_length
      ok (from_be packet_length))
    else err value_error
