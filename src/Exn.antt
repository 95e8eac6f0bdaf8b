-- ===== src/Exn.antt =====
-- What a Python function may raise, as values. A pure function that may raise returns a `Result`.
use rever_ssh.Prelude.{◌≡◌, refl, Bool, true, false, ◌⊎◌, inl, inr}

-- One constructor for each exception class that the modelled code raises.
pub data Exn : Type 0 where
  ssh_decode_error ssh_protocol_error websocket_error : Exn
  value_error unicode_error struct_error index_error key_error overflow_error : Exn
  attribute_error : Exn
  eof_error os_error timeout_error : Exn
  -- a loop of the model ran out of fuel, which no Python code does
  out_of_fuel : Exn

pub data Result {ℓ} (V : Type ℓ) : Type ℓ where
  err : Exn → Result V
  ok : V → Result V

infixl 5 ◌>>=◌ ◌>>◌
abbrev pub ◌>>=◌ {ℓ κ} : {V : Type ℓ} {W : Type κ} → Result V → (V → Result W) → Result W
err e >>= next = err e
ok v >>= next = next v

-- For its effect alone: the value of the first is `None`.
abbrev pub ◌>>◌ {ℓ} : {W : Type ℓ} → Result (Unit {0}) → Result W → Result W
done >> next = done >>= λ _. next

-- `if not b: raise e`
abbrev pub require : Bool → Exn → Result (Unit {0})
require true e = ok tt
require false e = err e

-- A chain that returns has returned at its first step.
pub >>=-eq-ok {ℓ κ} :
    {V : Type ℓ} {W : Type κ} (m : Result V) (next : V → Result W) {w : W}
    → (m >>= next) ≡ ok w
    → (v : V) × (m ≡ ok v) × (next v ≡ ok w)
>>=-eq-ok (err e) next h = cc
>>=-eq-ok (ok v) next h = (v, refl, h)

pub Result-cases {ℓ} :
    {A : Type ℓ} (r : Result A) → ((a : A) × (r ≡ ok a)) ⊎ ((e : Exn) × (r ≡ err e))
Result-cases (ok a) = inl (a, refl)
Result-cases (err e) = inr (e, refl)
