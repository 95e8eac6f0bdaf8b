-- ===== src/Crypto/Ed25519/Check/Tests.antt =====
-- The identity as key and as first half, with a hash of zeros.
use rever_ssh.Prelude.{◌<◌, ◌≡◌, refl, true, ◌∷◌, ◌++◌, length, take, drop, replicate}
use rever_ssh.Exn.{ok}
use rever_ssh.Bytes.{Bytes}
use rever_ssh.Bytes.Endian.{from_le}
use rever_ssh.Crypto.Curve25519.{sub, mod_pow}
use rever_ssh.Crypto.Ed25519.{
  Point, group_order, decode_point, choose_root, inv, point_add, mult_loop, scalar_mult,
  equal_points, verify_points, verify,
}
use rever_ssh.Crypto.Ed25519.Check.{verify-IsCanonical}

abbrev public : Bytes
public = 1 ∷ replicate 31 0

abbrev signature : Bytes
signature = public ++ replicate 32 0

abbrev zeros : Bytes → Bytes
zeros b = replicate 64 0

accepted : verify zeros public public signature ≡ true
unfolding verify verify_points decode_point choose_root inv point_add mult_loop scalar_mult
    equal_points sub mod_pow from_le
accepted = refl

verify-IsCanonical_example :
    (length public ≡ 32)
    × (length signature ≡ 64)
    × ((p : Point) × (decode_point public ≡ ok p))
    × ((q : Point) × (decode_point (take 32 signature) ≡ ok q))
    × (from_le (drop 32 signature) < group_order)
verify-IsCanonical_example = verify-IsCanonical zeros public public signature accepted
