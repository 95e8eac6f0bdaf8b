-- ===== src/Dict.antt =====
-- Python's `dict` as an association list without repeated keys, in the order of insertion.
use rever_ssh.Prelude.{
  ℕ, ◌≡◌, refl, ap, ◌↔◌, Bool-cases, inl, inr, Bool, List, [], ◌∷◌, Option, none, some, arith,
  seq_eq, seq_eq_iff, ==_iff, if◌then◌else◌,
}
use rever_ssh.Prelude.{◌==◌ as nat_beq}

-- Equality of keys.
pub record Key {ℓ} (K : Type ℓ) : Type ℓ where
  pub beq : K → K → Bool
  pub beq_iff : (a b : K) → (beq a b ≡ Bool.true) ↔ (a ≡ b)

instance abbrev pub nat_key : Key ℕ
nat_key = record { beq = nat_beq; beq_iff = ==_iff }

-- Texts and byte strings.
instance abbrev pub seq_key : Key (List ℕ)
seq_key = record { beq = seq_eq; beq_iff = seq_eq_iff }

abbrev pub Dict {ℓ κ} : Type ℓ → Type κ → Type (ℓ ⊔ κ)
Dict K V = List (K × V)

module _ {ℓ κ} {K : Type ℓ} {V : Type κ} ⦃key : Key K⦄ where
  -- d.get(k)
  unfoldable pub get : K → Dict K V → Option V
  get k [] = none
  get k ((j, v) ∷ d) = if key.beq j k then some v else get k d

  -- d[k] = v
  unfoldable pub put : K → V → Dict K V → Dict K V
  put k v [] = (k, v) ∷ []
  put k v ((j, w) ∷ d) = if key.beq j k then (j, v) ∷ d else (j, w) ∷ put k v d

  -- d.pop(k, None), del d[k]
  unfoldable pub remove : K → Dict K V → Dict K V
  remove k [] = []
  remove k ((j, w) ∷ d) = let rest = remove k d in if key.beq j k then rest else (j, w) ∷ rest

  pub get-put :
      (k j : K) (v : V) (d : Dict K V)
      → get j (put k v d) ≡ (if key.beq k j then some v else get j d)
  unfolding get put
  get-put k j v [] = refl
  get-put k j v ((i, w) ∷ d) =
      ground (arith, key.beq_iff k j, key.beq_iff i k, key.beq_iff i j, get-put k j v d)

  pub get-remove :
      (k j : K) (d : Dict K V) → get j (remove k d) ≡ (if key.beq k j then none else get j d)
  unfolding get remove
  get-remove k j [] = ground arith
  get-remove k j ((i, w) ∷ d) =
      ground (arith, key.beq_iff k j, key.beq_iff i k, key.beq_iff i j, get-remove k j d)

  pub get-put_self : (k : K) (v : V) (d : Dict K V) → get k (put k v d) ≡ some v
  get-put_self k v d = ground (arith, get-put k k v d, key.beq_iff k k)

  pub get-remove_self : (k : K) (d : Dict K V) → get k (remove k d) ≡ none
  get-remove_self k d = ground (arith, get-remove k k d, key.beq_iff k k)

  pub remove-remove_self : (k : K) (d : Dict K V) → remove k (remove k d) ≡ remove k d
  unfolding remove
  remove-remove_self k [] = refl
  remove-remove_self k ((j, w) ∷ d) = elim (Bool-cases (key.beq j k)) [
    | inl e ↦ rw e (remove-remove_self k d)
    | inr e ↦ rw (e, e) (ap (λ (t : Dict K V). (j, w) ∷ t) (remove-remove_self k d))
  ]
