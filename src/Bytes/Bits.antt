-- ===== src/Bytes/Bits.antt =====
-- Facts about `^`, `&` and `|` at variables: the native operations are recursions on binary digits.
use Prim.Native.Nat.{digits, bitwise, bit_and-bitwise, bit_or-bitwise, bit_xor-bitwise, differ}
use native.Mathlib.Nat.{le_refl, pow-suc, one-le-pow, div-add-mod', mod-lt}
use rever_ssh.Prelude.{
  ℕ, zero, suc, ◌+◌, ◌-◌, ◌*◌, ◌/◌, ◌%◌, ◌^◌, ◌≤◌, ◌<◌, min, max, bit_and, bit_or, bit_xor, ◌≡◌,
  ◌↔◌, refl, sym, ap, ◌∙◌, arith,
}

-- The fuel of `digits` does not matter once it covers the first number.
module _ (z : ℕ → ℕ) (f : ℕ → ℕ → ℕ) where
  digits_enough :
      (a b fuel more : ℕ) → a ≤ fuel → a ≤ more → digits z f fuel a b ≡ digits z f more a b
  digits_enough zero b zero zero h g = refl
  digits_enough zero b zero (suc more) h g = refl
  digits_enough zero b (suc fuel) zero h g = refl
  digits_enough zero b (suc fuel) (suc more) h g = refl
  digits_enough (suc a) b zero more h g = absurd (omega arith)
  digits_enough (suc a) b (suc fuel) zero h g = absurd (omega arith)
  digits_enough (suc a) b (suc fuel) (suc more) h g =
      rw (digits_enough (suc a / 2) (b / 2) fuel more (omega arith) (omega arith))

  low_digit :
      (x y : ℕ)
      → bitwise z f (suc x) y ≡ bitwise z f (suc x / 2) (y / 2) * 2 + f (suc x % 2) (y % 2)
  low_digit x y =
      let enough = digits_enough (suc x / 2) (y / 2) x (suc x / 2) (omega arith) (le_refl _) in
      omega (arith, enough)

pub bit_and_step : (x y : ℕ) → bit_and x y ≡ bit_and (x / 2) (y / 2) * 2 + min (x % 2) (y % 2)
bit_and_step zero y = simp bit_and-bitwise (omega arith)
bit_and_step (suc x) y = simp bit_and-bitwise (low_digit (λ t. 0) min x y)

pub bit_or_step : (x y : ℕ) → bit_or x y ≡ bit_or (x / 2) (y / 2) * 2 + max (x % 2) (y % 2)
bit_or_step zero y = simp bit_or-bitwise (omega arith)
bit_or_step (suc x) y = simp bit_or-bitwise (low_digit (λ t. t) max x y)

differ_digits : (a b : ℕ) → a < 2 → b < 2 → differ a b ≡ (a + b) % 2
differ_digits zero b p q = omega arith
differ_digits (suc zero) zero p q = refl
differ_digits (suc zero) (suc zero) p q = refl
differ_digits (suc zero) (suc (suc b)) p q = absurd (omega arith)
differ_digits (suc (suc a)) b p q = absurd (omega arith)

pub bit_xor_step : (a b : ℕ) → bit_xor a b ≡ bit_xor (a / 2) (b / 2) * 2 + (a % 2 + b % 2) % 2
bit_xor_step zero b = simp bit_xor-bitwise (omega arith)
bit_xor_step (suc a) b = omega (
  arith,
  bit_xor-bitwise (suc a) b,
  bit_xor-bitwise (suc a / 2) (b / 2),
  low_digit (λ y. y) differ a b,
  differ_digits (suc a % 2) (b % 2) (omega arith) (omega arith),
)

-- `^` stays within the width of its arguments, and undoes itself.
pub bit_xor-lt : (k a b : ℕ) → a < 2 ^ k → b < 2 ^ k → bit_xor a b < 2 ^ k
bit_xor-lt zero zero zero p q = p
bit_xor-lt zero zero (suc b) p q = absurd (omega arith)
bit_xor-lt zero (suc a) b p q = absurd (omega arith)
bit_xor-lt (suc k) a b p q = omega (
  arith,
  pow-suc 2 k,
  bit_xor_step a b,
  bit_xor-lt k (a / 2) (b / 2) (omega (arith, pow-suc 2 k)) (omega (arith, pow-suc 2 k)),
)

pub bit_xor_cancel : (k a b : ℕ) → a < 2 ^ k → b < 2 ^ k → bit_xor (bit_xor a b) b ≡ a
bit_xor_cancel zero zero zero p q = refl
bit_xor_cancel zero zero (suc b) p q = absurd (omega arith)
bit_xor_cancel zero (suc a) b p q = absurd (omega arith)
bit_xor_cancel (suc k) a b p q =
    let low : bit_xor a b % 2 ≡ (a % 2 + b % 2) % 2 = omega (arith, bit_xor_step a b) in
    let high : bit_xor a b / 2 ≡ bit_xor (a / 2) (b / 2) = omega (arith, bit_xor_step a b) in
    bit_xor_step (bit_xor a b) b
    ∙ rw (low, high)
        (omega (
          arith,
          bit_xor_cancel k (a / 2) (b / 2) (omega (arith, pow-suc 2 k))
              (omega (arith, pow-suc 2 k)),
        ))

bit_and-zero : (k a : ℕ) → a < 2 ^ k → bit_and a 0 ≡ 0
bit_and-zero zero zero p = refl
bit_and-zero zero (suc a) p = absurd (omega arith)
bit_and-zero (suc k) a p =
    omega (arith, bit_and_step a 0, bit_and-zero k (a / 2) (omega (arith, pow-suc 2 k)))

lt-two-pow : (a : ℕ) → a < 2 ^ a
lt-two-pow zero = omega arith
lt-two-pow (suc a) = omega (arith, pow-suc 2 a, lt-two-pow a)

-- A mask of `k` low ones keeps the low field and drops what is above it.
drop_high : (k high low : ℕ) → low < 2 ^ k → bit_and (high * 2 ^ k + low) (2 ^ k - 1) ≡ low
drop_high zero high low p =
    omega (arith, bit_and-zero (high * 1 + low) (high * 1 + low) (lt-two-pow (high * 1 + low)))
drop_high (suc k) high low p =
    let width : high * 2 ^ suc k ≡ 2 * (high * 2 ^ k) =
      omega (arith, ap (λ (t : ℕ). high * t) (pow-suc 2 k)) in
    let odd : (2 ^ suc k - 1) % 2 ≡ 1 = omega (arith, pow-suc 2 k, one-le-pow k 2) in
    let half : (2 ^ suc k - 1) / 2 ≡ 2 ^ k - 1 = omega (arith, pow-suc 2 k, one-le-pow k 2) in
    let halved : (high * 2 ^ suc k + low) / 2 ≡ high * 2 ^ k + low / 2 = omega arith in
    bit_and_step (high * 2 ^ suc k + low) (2 ^ suc k - 1)
    ∙ rw (odd, half, halved)
        (omega (arith, drop_high k high (low / 2) (omega (arith, pow-suc 2 k))))

pub bit_and_mask : (k a : ℕ) → bit_and a (2 ^ k - 1) ≡ a % 2 ^ k
bit_and_mask k a =
    ap (λ (t : ℕ). bit_and t (2 ^ k - 1)) (sym (div-add-mod' a (2 ^ k)))
    ∙ drop_high k (a / 2 ^ k) (a % 2 ^ k) (mod-lt a (one-le-pow k 2 (omega arith)))

halved : (k a : ℕ) → a < 2 ^ suc k → a / 2 < 2 ^ k
halved k a h = omega (arith, pow-suc 2 k)

pub bit_or-lt : (k a b : ℕ) → a < 2 ^ k → b < 2 ^ k → bit_or a b < 2 ^ k
bit_or-lt zero zero zero p q = p
bit_or-lt zero zero (suc b) p q = absurd (omega arith)
bit_or-lt zero (suc a) b p q = absurd (omega arith)
bit_or-lt (suc k) a b p q =
    omega (
      arith,
      pow-suc 2 k,
      bit_or_step a b,
      bit_or-lt k (a / 2) (b / 2) (halved k a p) (halved k b q),
    )

-- `|` is zero only of zeros, and `^` only of equal numbers.
pub bit_or-zero : (k a b : ℕ) → a < 2 ^ k → b < 2 ^ k → (bit_or a b ≡ 0) ↔ ((a ≡ 0) × (b ≡ 0))
bit_or-zero zero zero zero p q = ground arith
bit_or-zero zero zero (suc b) p q = absurd (omega arith)
bit_or-zero zero (suc a) b p q = absurd (omega arith)
bit_or-zero (suc k) a b p q =
    let (zeros, back) = bit_or-zero k (a / 2) (b / 2) (halved k a p) (halved k b q) in
    (
      λ e.
          let (x, y) = zeros (omega (arith, bit_or_step a b)) in
          (omega (arith, bit_or_step a b), omega (arith, bit_or_step a b)),
      λ (x, y). omega (arith, bit_or_step a b, back (omega arith, omega arith)),
    )

pub bit_xor-zero : (k a b : ℕ) → a < 2 ^ k → b < 2 ^ k → (bit_xor a b ≡ 0) ↔ (a ≡ b)
bit_xor-zero zero zero zero p q = ground arith
bit_xor-zero zero zero (suc b) p q = absurd (omega arith)
bit_xor-zero zero (suc a) b p q = absurd (omega arith)
bit_xor-zero (suc k) a b p q =
    let (same, back) = bit_xor-zero k (a / 2) (b / 2) (halved k a p) (halved k b q) in
    (
      λ e. let x = same (omega (arith, bit_xor_step a b)) in omega (arith, bit_xor_step a b),
      λ e. omega (arith, bit_xor_step a b, back (omega arith)),
    )

-- `&` with a mask stays within the width of the mask.
pub bit_and-lt : (k a b : ℕ) → b < 2 ^ k → bit_and a b < 2 ^ k
bit_and-lt zero a zero p = omega (arith, bit_and-zero a a (lt-two-pow a))
bit_and-lt zero a (suc b) p = absurd (omega arith)
bit_and-lt (suc k) a b p = omega (
  arith,
  pow-suc 2 k,
  bit_and_step a b,
  bit_and-lt k (a / 2) (b / 2) (omega (arith, pow-suc 2 k)),
)
