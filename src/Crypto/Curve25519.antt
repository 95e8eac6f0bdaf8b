-- ===== src/Crypto/Curve25519.antt =====
-- reverssh/crypto/curve25519.py: X25519.
use rever_ssh.Prelude.{
  ℕ, zero, suc, ◌+◌, ◌-◌, ◌*◌, ◌/◌, ◌%◌, ◌^◌, not, ◌∷◌, length, get_or, set, replicate, bit_and,
  bit_or, bit_xor, ltb, ◌==◌, if◌then◌else◌,
}
use rever_ssh.Exn.{Result, ok, err, value_error, overflow_error, ◌>>=◌}
use rever_ssh.Bytes.{Bytes}
use rever_ssh.Bytes.Endian.{to_le, from_le}

abbrev pub p25519 : ℕ
p25519 = 2 ^ 255 - 19

abbrev pub a24 : ℕ
a24 = 121665

pub clamp_scalar : Bytes → Result Bytes
clamp_scalar scalar =
    if not (length scalar == 32)
    then err value_error
    else let k : Bytes = set scalar 0 (bit_and (get_or scalar 0 0) 248) in
      let k' : Bytes = set k 31 (bit_and (get_or k 31 0) 127) in
      ok (set k' 31 (bit_or (get_or k' 31 0) 64))

-- (a - b) % P, for b at most P
unfoldable pub sub : ℕ → ℕ → ℕ
sub a b = (a + (p25519 - b)) % p25519

-- pow(b, e, P), by the binary digits of `e`, of which there are at most `fuel`
unfoldable pub mod_pow : ℕ → ℕ → ℕ → ℕ
mod_pow zero b e = 1
mod_pow (suc fuel) b e =
    let rest = mod_pow fuel (b * b % p25519) (e / 2) in
    if e % 2 == 0 then rest else rest * b % p25519

-- The local variables of the loop.
record Ladder : Type 0 where
  x2 : ℕ
  z2 : ℕ
  x3 : ℕ
  z3 : ℕ
  swap : ℕ

swapped : Ladder → Ladder
swapped s =
    if s.swap == 0 then s else record { x2 = s.x3; z2 = s.z3; x3 = s.x2; z3 = s.z2; swap = s.swap }

-- The arithmetic of a round.
double_and_add : ℕ → Ladder → Ladder
unfolding sub
double_and_add x1 s =
    let a : ℕ = (s.x2 + s.z2) % p25519 in
    let aa : ℕ = a * a % p25519 in
    let b : ℕ = sub s.x2 s.z2 in
    let bb : ℕ = b * b % p25519 in
    let e : ℕ = sub aa bb in
    let c : ℕ = (s.x3 + s.z3) % p25519 in
    let d : ℕ = sub s.x3 s.z3 in
    let da : ℕ = d * a % p25519 in
    let cb : ℕ = c * b % p25519 in
    record {
      x3 = (da + cb) ^ 2 % p25519;
      z3 = x1 * sub da cb ^ 2 % p25519;
      x2 = aa * bb % p25519;
      z2 = e * (aa + a24 * e) % p25519;
      swap = s.swap;
    }

-- The rounds for t = n - 1 down to 0.
ladder : ℕ → ℕ → ℕ → Ladder → Ladder
unfolding swapped double_and_add
ladder k x1 zero s = s
ladder k x1 (suc t) s =
    let kt : ℕ = k / 2 ^ t % 2 in
    let s1 : Ladder = swapped (record s { swap = bit_xor s.swap kt }) in
    ladder k x1 t (double_and_add x1 (record s1 { swap = kt }))

-- out.to_bytes(32, "little")
pub to_bytes_32 : ℕ → Result Bytes
to_bytes_32 out = if ltb out (256 ^ 32) then ok (to_le 32 out) else err overflow_error

-- The ladder and what follows it, for a clamped scalar; the last reduction is in `multiply`.
ladder_result : Bytes → Bytes → ℕ
unfolding ladder mod_pow
ladder_result clamped u =
    let x1 : ℕ = from_le u % p25519 in
    let start : Ladder = record { x2 = 1; z2 = 0; x3 = x1; z3 = 1; swap = 0 } in
    let end : Ladder = swapped (ladder (from_le clamped) x1 255 start) in
    end.x2 * mod_pow 255 end.z2 (p25519 - 2)

multiply : Bytes → Bytes → Result Bytes
unfolding ladder_result to_bytes_32
multiply clamped u = to_bytes_32 (ladder_result clamped u % p25519)

pub x25519 : Bytes → Bytes → Result Bytes
unfolding multiply clamp_scalar
x25519 scalar u =
    if not (length u == 32)
    then err value_error
    else clamp_scalar scalar >>= λ clamped. multiply clamped u

pub public_from_private : Bytes → Result Bytes
unfolding x25519
public_from_private private = x25519 private (0x09 ∷ replicate 31 0)
