-- ===== src/Crypto/Poly1305.antt =====
-- reverssh/crypto/poly1305.py
pub mod Polynomial
use rever_ssh.Prelude.{
  ℕ, zero, suc, ◌+◌, ◌-◌, ◌*◌, ◌%◌, ◌^◌, List, [], ◌∷◌, ◌++◌, bit_and, length, take, drop, ◌==◌,
  if◌then◌else◌,
}
use rever_ssh.Exn.{Result, ok, err, value_error}
use rever_ssh.Bytes.{Bytes}
use rever_ssh.Bytes.Endian.{to_le, from_le}

-- P = (1 << 130) - 5
abbrev pub prime : ℕ
prime = 2 ^ 130 - 5

abbrev pub clamp : ℕ
clamp = 0x0ffffffc0ffffffc0ffffffc0fffffff

-- `acc = ((acc + n) * r) % P` for each chunk of 16 bytes; `left` is what the loop has not reached,
-- and the fuel is at least its number of chunks.
absorb : ℕ → ℕ → ℕ → Bytes → ℕ
absorb r zero acc left = acc
absorb r (suc fuel) acc [] = acc
absorb r (suc fuel) acc (b ∷ left) =
    let n = from_le (take 16 (b ∷ left) ++ (1 ∷ [])) in
    absorb r fuel ((acc + n) * r % prime) (drop 16 (b ∷ left))

pub poly1305_mac : Bytes → Bytes → Result Bytes
poly1305_mac message key =
    if length key == 32
    then (let r = bit_and (from_le (take 16 key)) clamp in
        let s = from_le (drop 16 key) in
        let acc = absorb r (length message) 0 message in ok (to_le 16 ((acc + s) % 2 ^ 128)))
    else err value_error
