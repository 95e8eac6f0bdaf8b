-- ===== src/Bytes/Table.antt =====
-- Facts on all the numbers below a bound, by evaluation.
use rever_ssh.Prelude.{
  ℕ, zero, suc, ◌<◌, ◌≡◌, ap, ◌∙◌, Bool, true, ◌&&◌, [], ◌∷◌, All, get_or, ◌==◌, ==_iff, Bool-cases,
  inl, inr, arith,
}
use rever_ssh.Bytes.{Bytes, IsByte}

unfoldable pub all_below : (ℕ → Bool) → ℕ → Bool
all_below p zero = true
all_below p (suc n) = p n && all_below p n

pub all_below_lem : (p : ℕ → Bool) (n k : ℕ) → all_below p n ≡ true → k < n → p k ≡ true
unfolding all_below
all_below_lem p zero k h small = absurd (omega arith)
all_below_lem p (suc n) k h small = elim (Bool-cases (k == n)) [
  | inl same ↦ ap p ((==_iff k n).0 same) ∙ ground arith
  | inr other ↦ all_below_lem p n k (ground arith) (ground arith)
]

pub get_or-IsByte : (bs : Bytes) (i : ℕ) → All IsByte bs → IsByte (get_or bs i 0)
get_or-IsByte [] i h = omega arith
get_or-IsByte (b ∷ bs) zero (hb, hs) = hb
get_or-IsByte (b ∷ bs) (suc i) (hb, hs) = get_or-IsByte bs i hs
