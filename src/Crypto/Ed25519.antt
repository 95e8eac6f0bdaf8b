-- ===== src/Crypto/Ed25519.antt =====
-- reverssh/crypto/ed25519.py. `hashlib.sha512(b).digest()` is an argument and has 64 bytes. The field
-- is that of Curve25519, whose `mod_pow` and `sub` are `pow` and `-` modulo P.
pub mod Check
use rever_ssh.Prelude.{
  ℕ, zero, suc, ◌+◌, ◌-◌, ◌*◌, ◌/◌, ◌%◌, ◌^◌, Bool, true, false, not, ◌&&◌, ◌||◌, ◌++◌, length,
  take, drop, get_or, set, bit_and, bit_or, leb, ◌==◌, if◌then◌else◌,
}
use rever_ssh.Exn.{Result, ok, err, value_error, ◌>>=◌}
use rever_ssh.Bytes.{Bytes}
use rever_ssh.Bytes.Endian.{to_le, from_le}
use rever_ssh.Crypto.Curve25519.{p25519, sub, mod_pow, to_bytes_32}

abbrev pub group_order : ℕ
group_order = 2 ^ 252 + 27742317777372353535851937790883648493

abbrev Point : Type 0
Point = ℕ × ℕ

inv : ℕ → ℕ
inv x = mod_pow 255 x (p25519 - 2)

-- D, I and B
abbrev curve_d : ℕ
curve_d = sub 0 (121665 * mod_pow 255 121666 (p25519 - 2) % p25519)

abbrev root_of_minus_one : ℕ
root_of_minus_one = mod_pow 255 2 ((p25519 - 1) / 4)

abbrev base_point : Point
base_point = (
  15112221349535400772501151409588531511454012693041857206046113283949847762202,
  46316835694926478169428394003475163141307993866256225615783033603165251855960,
)

abbrev identity : Point
identity = (0, 1)

point_add : Point → Point → Point
unfolding inv
point_add (x1, y1) (x2, y2) =
    let den : ℕ = curve_d * x1 * x2 * y1 * y2 % p25519 in
    ((x1 * y2 + x2 * y1) * inv (1 + den) % p25519, (y1 * y2 + x1 * x2) * inv (sub 1 den) % p25519)

-- `while s`, with the digits of `s` bounded by `fuel`
mult_loop : ℕ → ℕ → Point → Point → Point
unfolding point_add
mult_loop zero s q p = q
mult_loop (suc fuel) s q p = elim (s == 0) [
  | true ↦ q
  | false ↦ mult_loop fuel (s / 2) (if s % 2 == 0 then q else point_add q p) (point_add p p)
]

-- Every scalar of the program is below 2 ^ 256.
scalar_mult : ℕ → Point → Point
unfolding mult_loop
scalar_mult s p = mult_loop 256 s identity p

encode_point : Point → Result Bytes
encode_point (x, y) =
    to_bytes_32 y >>= λ out. ok (set out 31 (bit_or (get_or out 31 0) (x % 2 * 128)))

-- The root of `xx`, or the other one for the sign bit.
choose_root : ℕ → ℕ → ℕ → ℕ → Result Point
choose_root x xx sign y =
    if not (sub (x * x) xx == 0)
    then err value_error
    else ok (if x % 2 == sign then x else p25519 - x, y)

pub decode_point : Bytes → Result Point
unfolding choose_root inv
decode_point raw =
    if not (length raw == 32)
    then err value_error
    else let y : ℕ = bit_and (from_le raw) (2 ^ 255 - 1) in
      let sign : ℕ = get_or raw 31 0 / 128 in
      let xx : ℕ = sub (y * y) 1 * inv (curve_d * y * y + 1) % p25519 in
      let x : ℕ = mod_pow 255 xx ((p25519 + 3) / 8) in
      choose_root (if sub (x * x) xx == 0 then x else x * root_of_minus_one % p25519) xx sign y

module _ (sha512 : Bytes → Bytes) where
  secret_scalar : Bytes → Result (ℕ × Bytes)
  secret_scalar seed =
      if not (length seed == 32)
      then err value_error
      else let digest : Bytes = sha512 seed in
        let a : Bytes = take 32 digest in
        let b : Bytes = set a 0 (bit_and (get_or a 0 0) 248) in
        let c : Bytes = set b 31 (bit_and (get_or b 31 0) 63) in
        ok (from_le (set c 31 (bit_or (get_or c 31 0) 64)), drop 32 digest)

  pub public_from_seed : Bytes → Result Bytes
  unfolding secret_scalar scalar_mult encode_point
  public_from_seed seed = do
    (a, prefix) ← secret_scalar seed
    encode_point (scalar_mult a base_point)

  pub sign : Bytes → Bytes → Result Bytes
  unfolding secret_scalar scalar_mult encode_point
  sign seed message = do
    (a, prefix) ← secret_scalar seed
    public ← public_from_seed seed
    let r = from_le (sha512 (prefix ++ message)) % group_order
    r_point ← encode_point (scalar_mult r base_point)
    let k = from_le (sha512 (r_point ++ public ++ message)) % group_order
    s ← to_bytes_32 ((r + k * a) % group_order)
    ok (r_point ++ s)

  equal_points : Point → Point → Bool
  equal_points (x1, y1) (x2, y2) = x1 == x2 && y1 == y2

  -- What follows the decoding of the two points; an exception of it gives False.
  verify_points : Bytes → Bytes → Bytes → Result Point → Result Point → Bool
  unfolding scalar_mult point_add equal_points
  verify_points public message signature (err e) r = false
  verify_points public message signature (ok a) (err e) = false
  verify_points public message signature (ok a) (ok r) =
      let s : ℕ = from_le (drop 32 signature) in
      let k : ℕ = from_le (sha512 (take 32 signature ++ public ++ message)) % group_order in
      if leb group_order s
      then false
      else equal_points (scalar_mult s base_point) (point_add r (scalar_mult k a))

  pub verify : Bytes → Bytes → Bytes → Bool
  unfolding verify_points
  verify public message signature =
      if not (length public == 32) || not (length signature == 64)
      then false
      else verify_points public message signature (decode_point public)
          (decode_point (take 32 signature))
