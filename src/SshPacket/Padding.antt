-- ===== src/SshPacket/Padding.antt =====
-- `_build_plain_packet` of reverssh/ssh_packet.py. `os.urandom` is an argument.
use rever_ssh.Prelude.{
  ℕ, zero, suc, ◌+◌, ◌%◌, ◌≤◌, ◌<◌, ◌≡◌, ◌≢◌, ◌-◌, Bool, ◌∷◌, ◌++◌, arith, length, ◌==◌,
  if◌then◌else◌, Bool-cases, inl, inr, ==_iff,
}
use rever_ssh.Bytes.{Bytes}
use rever_ssh.Bytes.Endian.{to_be}

-- `while (len(payload) + 1 + padding_length + alignment_extra) % block_size`, with fuel
pad_loop : ℕ → ℕ → ℕ → ℕ
pad_loop zero rest padding = padding
pad_loop (suc fuel) rest padding =
    let more = pad_loop fuel rest (padding + 1) in
    if (rest + padding) % 8 == 0 then padding else more

unfoldable pub padding_length : ℕ → Bool → ℕ
unfolding pad_loop
padding_length size aead = pad_loop 8 (size + 1 + (if aead then 0 else 4)) 4

unfoldable pub build_plain_packet : (ℕ → Bytes) → Bytes → Bool → Bytes
build_plain_packet urandom payload aead =
    let padding = padding_length (length payload) aead in
    to_be 4 (length payload + 1 + padding) ++ (padding ∷ (payload ++ urandom padding))

-- The loop stops at the first padding that aligns the packet; fewer than eight rounds are enough.
pad_loop_lem :
    (fuel rest padding : ℕ)
    → (8 - (rest + padding) % 8) % 8 < fuel
    → (padding ≤ pad_loop fuel rest padding)
      × (pad_loop fuel rest padding ≤ padding + (8 - (rest + padding) % 8) % 8)
      × ((rest + pad_loop fuel rest padding) % 8 ≡ 0)
unfolding pad_loop
pad_loop_lem zero rest padding h = absurd (omega arith)
pad_loop_lem (suc fuel) rest padding h = elim (Bool-cases ((rest + padding) % 8 == 0)) [
  | inl e ↦ rw e (omega arith, omega arith, (==_iff _ 0).0 e)
  | inr e ↦
      let off : (rest + padding) % 8 ≢ 0 = ground arith in
      let (lo, hi, aligned) = pad_loop_lem fuel rest (padding + 1) (omega arith) in
      rw e (omega arith, omega arith, aligned)
]

-- Four to eleven bytes of padding make what is encrypted, or for a plain packet the whole of it, a
-- multiple of eight bytes.
pub padding_length_lem :
    (size : ℕ) (aead : Bool)
    → (4 ≤ padding_length size aead)
      × (padding_length size aead ≤ 11)
      × ((size + 1 + padding_length size aead + (if aead then 0 else 4)) % 8 ≡ 0)
unfolding padding_length
padding_length_lem size aead =
    let rest : ℕ = size + 1 + (if aead then 0 else 4) in
    let (lo, hi, aligned) = pad_loop_lem 8 rest 4 (omega arith) in (lo, omega arith, omega arith)
