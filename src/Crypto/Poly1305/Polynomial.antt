-- ===== src/Crypto/Poly1305/Polynomial.antt =====
-- `poly1305_mac` and the polynomial of the chunks of its message.
use native.Mathlib.Nat.{div-add-mod, pow-zero, pow-suc, mul-add-mod_self_left}
use rever_ssh.Prelude.{
  ℕ, zero, suc, ◌+◌, ◌*◌, ◌/◌, ◌%◌, ◌^◌, ◌≡◌, sym, ap, ◌∙◌, List, [], ◌∷◌, ◌++◌, arith, bit_and,
  length, take, drop, All, ==_iff,
}
use rever_ssh.Exn.{ok}
use rever_ssh.Bytes.{Bytes, IsByte}
use rever_ssh.Bytes.Endian.{to_le, from_le, length-to_le, to_le-IsByte}
use rever_ssh.Crypto.Poly1305.{prime, clamp, absorb, poly1305_mac}

-- Each chunk of 16 bytes, the last one perhaps shorter, with a one behind it, as a number.
pub chunks : ℕ → Bytes → List ℕ
chunks zero b = []
chunks (suc fuel) [] = []
chunks (suc fuel) (a ∷ b) = from_le (take 16 (a ∷ b) ++ (1 ∷ [])) ∷ chunks fuel (drop 16 (a ∷ b))

-- c₁ * r ^ n + c₂ * r ^ (n - 1) + ... + cₙ * r
pub polynomial : ℕ → List ℕ → ℕ
polynomial r [] = 0
polynomial r (c ∷ cs) = c * r ^ suc (length cs) + polynomial r cs

mod_step : (p a c r : ℕ) → (a % p + c) * r % p ≡ (a + c) * r % p
mod_step p a c r =
    let whole : (a + c) * r ≡ p * (a / p * r) + (a % p + c) * r =
      omega (arith, ap (λ (t : ℕ). t * r) (div-add-mod a p)) in
    sym (ap (λ (t : ℕ). t % p) whole ∙ mul-add-mod_self_left p (a / p * r) ((a % p + c) * r))

regroup : (acc n r k e : ℕ) → (acc + n) * r * r ^ k + e ≡ acc * r ^ suc k + (n * r ^ suc k + e)
regroup acc n r k e =
    omega (arith, ap (λ (t : ℕ). acc * t) (pow-suc r k), ap (λ (t : ℕ). n * t) (pow-suc r k))

absorb-polynomial :
    (r fuel acc : ℕ) (b : Bytes)
    → absorb r fuel (acc % prime) b
      ≡ (acc * r ^ length (chunks fuel b) + polynomial r (chunks fuel b)) % prime
unfolding absorb chunks polynomial
absorb-polynomial r zero acc b = rw pow-zero (omega arith)
absorb-polynomial r (suc fuel) acc [] = rw pow-zero (omega arith)
absorb-polynomial r (suc fuel) acc (a ∷ b) =
    let n : ℕ = from_le (take 16 (a ∷ b) ++ (1 ∷ [])) in
    let next : Bytes = drop 16 (a ∷ b) in
    let k : ℕ = length (chunks fuel next) in
    let e : ℕ = polynomial r (chunks fuel next) in
    ap (λ (t : ℕ). absorb r fuel t next) (mod_step prime acc n r)
    ∙ absorb-polynomial r fuel ((acc + n) * r) next
    ∙ ap (λ (t : ℕ). t % prime) (regroup acc n r k e)

-- For a key of 32 bytes the tag is the polynomial of the message's chunks at the clamped first half
-- of the key, modulo 2 ^ 130 - 5, plus the second half, modulo 2 ^ 128, in 16 bytes.
pub poly1305_mac_lem :
    (message key : Bytes)
    → length key ≡ 32
    → poly1305_mac message key
      ≡ ok (
          to_le 16 (
            (polynomial (bit_and (from_le (take 16 key)) clamp) (chunks (length message) message)
                % prime
              + from_le (drop 16 key))
            % 2 ^ 128))
unfolding poly1305_mac
poly1305_mac_lem message key h =
    let r : ℕ = bit_and (from_le (take 16 key)) clamp in
    let sum : absorb r (length message) 0 message
        ≡ polynomial r (chunks (length message) message) % prime =
      absorb-polynomial r (length message) 0 message ∙ ap (λ (t : ℕ). t % prime) (omega arith) in
    rw ((==_iff (length key) 32).1 h, sum)

pub poly1305_mac_tag :
    (message key : Bytes)
    → length key ≡ 32
    → (tag : Bytes) × (poly1305_mac message key ≡ ok tag) × (length tag ≡ 16) × All IsByte tag
poly1305_mac_tag message key h =
    let t : ℕ =
      (polynomial (bit_and (from_le (take 16 key)) clamp) (chunks (length message) message) % prime
        + from_le (drop 16 key))
      % 2 ^ 128 in
    (to_le 16 t, poly1305_mac_lem message key h, length-to_le 16 t, to_le-IsByte 16 t)
