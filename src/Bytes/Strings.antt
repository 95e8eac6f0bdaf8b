-- ===== src/Bytes/Strings.antt =====
-- `str.split`, `str.join` and the decimal form of a number, on lists of code points.
use rever_ssh.Prelude.{
  ℕ, zero, suc, ◌+◌, ◌-◌, ◌*◌, ◌/◌, ◌%◌, ◌<◌, ◌≡◌, ◌≢◌, All, refl, sym, ap, ◌∙◌, List, [], ◌∷◌,
  ◌++◌, ltb, ◌==◌, if◌then◌else◌, Bool-cases, inl, inr, arith,
}
use rever_ssh.Bytes.{Text}

put_char : ℕ → List Text → List Text
put_char c [] = (c ∷ []) ∷ []
put_char c (word ∷ words) = (c ∷ word) ∷ words

-- text.split(separator), for a separator of one character
unfoldable pub split_on : ℕ → Text → List Text
unfolding put_char
split_on separator [] = [] ∷ []
split_on separator (c ∷ cs) =
    let rest = split_on separator cs in if c == separator then [] ∷ rest else put_char c rest

-- The words hold no separator.
put_char-All :
    (separator c : ℕ) (words : List Text)
    → c ≢ separator
    → All (λ (w : Text). All (λ (x : ℕ). x ≢ separator) w) words
    → All (λ (w : Text). All (λ (x : ℕ). x ≢ separator) w) (put_char c words)
unfolding put_char
put_char-All separator c [] h hs = ((h, tt), tt)
put_char-All separator c (w ∷ ws) h (hw, hs) = ((h, hw), hs)

pub split_on-All :
    (separator : ℕ) (t : Text)
    → All (λ (w : Text). All (λ (x : ℕ). x ≢ separator) w) (split_on separator t)
unfolding split_on
split_on-All separator [] = (tt, tt)
split_on-All separator (c ∷ cs) = elim (Bool-cases (c == separator)) [
  | inl e ↦ rw e (tt, split_on-All separator cs)
  | inr e ↦
      rw e (
        put_char-All separator c (split_on separator cs) (ground arith) (split_on-All separator cs))
]

-- separator.join(words), for a separator of one character
unfoldable pub join_on : ℕ → List Text → Text
join_on separator [] = []
join_on separator (word ∷ []) = word
join_on separator (word ∷ other ∷ words) = word ++ separator ∷ join_on separator (other ∷ words)

-- The decimal digits; each step divides the number by ten.
decimal_from : ℕ → ℕ → Text
decimal_from zero n = []
decimal_from (suc fuel) n =
    let front = decimal_from fuel (n / 10) in
    if ltb n 10 then (n + 48) ∷ [] else front ++ (n % 10 + 48) ∷ []

-- str(n)
unfoldable pub decimal : ℕ → Text
unfolding decimal_from
decimal n = decimal_from (suc n) n

-- The number that digits stand for.
value_from : ℕ → Text → ℕ
value_from acc [] = acc
value_from acc (c ∷ cs) = value_from (acc * 10 + (c - 48)) cs

value_from-append :
    (acc : ℕ) (xs : Text) (c : ℕ)
    → value_from acc (xs ++ c ∷ []) ≡ value_from acc xs * 10 + (c - 48)
unfolding value_from
value_from-append acc [] c = refl
value_from-append acc (x ∷ xs) c = value_from-append (acc * 10 + (x - 48)) xs c

value-decimal : (fuel n : ℕ) → n < fuel → value_from 0 (decimal_from fuel n) ≡ n
unfolding value_from decimal_from
value-decimal zero n h = absurd (omega arith)
value-decimal (suc fuel) n h = elim (Bool-cases (ltb n 10)) [
  | inl e ↦ rw e (omega arith)
  | inr e ↦ rw e (
      value_from-append 0 (decimal_from fuel (n / 10)) (n % 10 + 48)
      ∙ ground (arith, value-decimal fuel (n / 10)))
]

pub decimal_injective : (m n : ℕ) → decimal m ≡ decimal n → m ≡ n
unfolding decimal
decimal_injective m n e =
    sym (value-decimal (suc m) m (omega arith))
    ∙ ap (value_from 0) e
    ∙ value-decimal (suc n) n (omega arith)
