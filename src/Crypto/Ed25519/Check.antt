-- ===== src/Crypto/Ed25519/Check.antt =====
-- What a signature that verifies is made of.
mod Tests
use rever_ssh.Prelude.{
  ℕ, ◌<◌, ◌≡◌, refl, ◌∙◌, Bool, true, false, not, ◌||◌, length, take, drop, leb, ◌==◌, arith,
  Bool-cases, inl, inr, if◌then◌else◌,
}
use rever_ssh.Exn.{Result, ok, err}
use rever_ssh.Bytes.{Bytes}
use rever_ssh.Bytes.Endian.{from_le}
use rever_ssh.Crypto.Ed25519.{Point, group_order, decode_point, verify_points, verify}

if_true : (c b : Bool) → (if c then false else b) ≡ true → (c ≡ false) × (b ≡ true)
if_true true b h = absurd (ground arith)
if_true false b h = (refl, h)

impossible {ℓ} : {A : Type ℓ} → false ≡ true → A
impossible h = absurd (ground arith)

sizes : (m n : ℕ) → (not (m == 32) || not (n == 64)) ≡ false → (m ≡ 32) × (n ≡ 64)
sizes m n h = (ground arith, ground arith)

leb→lt : (m n : ℕ) → leb m n ≡ false → n < m
leb→lt m n h = ground arith

verify_points-true :
    (sha512 : Bytes → Bytes) (public message signature : Bytes) (a r : Result Point)
    → verify_points sha512 public message signature a r ≡ true
    → (p : Point) × (q : Point) × (a ≡ ok p)
      × (r ≡ ok q)
      × (from_le (drop 32 signature) < group_order)
unfolding verify_points
verify_points-true sha512 public message signature (err e) r h = impossible h
verify_points-true sha512 public message signature (ok a) (err e) h = impossible h
verify_points-true sha512 public message signature (ok a) (ok r) h =
    let (small, same) = if_true _ _ h in
    (a, r, refl, refl, leb→lt group_order (from_le (drop 32 signature)) small)

-- Whatever the hash, if `verify` accepts, the key has 32 bytes and the signature 64, both the key and
-- the signature's first half are points, and the second half is below the group order, so adding the
-- order to it makes no second signature.
verify-IsCanonical :
    (sha512 : Bytes → Bytes) (public message signature : Bytes)
    → verify sha512 public message signature ≡ true
    → (length public ≡ 32)
      × (length signature ≡ 64)
      × ((p : Point) × (decode_point public ≡ ok p))
      × ((q : Point) × (decode_point (take 32 signature) ≡ ok q))
      × (from_le (drop 32 signature) < group_order)
unfolding verify
verify-IsCanonical sha512 public message signature h =
    let (fits, accepted) = if_true _ _ h in
    let (key_size, signature_size) = sizes (length public) (length signature) fits in
    let (p, q, key, front, small) =
      verify_points-true sha512 public message signature (decode_point public)
        (decode_point (take 32 signature)) accepted in
    (key_size, signature_size, (p, key), (q, front), small)
