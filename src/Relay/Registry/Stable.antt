-- ===== src/Relay/Registry/Stable.antt =====
-- The registered clients of `ClientRegistry` over a sequence of steps.
use rever_ssh.Prelude.{
  ℕ, ◌≡◌, ◌≢◌, true, false, List, [], ◌∷◌, none, some, All, arith, seq_eq_iff, Bool-cases,
  Option-cases, inl, inr, ◌⊎◌,
}
use rever_ssh.Bytes.{Text}
use rever_ssh.Dict
use rever_ssh.Dict.{Dict, Key, seq_key}
use rever_ssh.Relay.Registry.{Registry, add, get, Op, adding, dying, removing, step, run}

-- What does not end the client `c` under the identifier `i`.
abbrev pub Spares : Text → ℕ → Op → Type 0
Spares i c (adding j d) = Unit
Spares i c (dying d) = d ≢ c
Spares i c (removing j d) = (j ≢ i) ⊎ (d ≢ c)

step-get :
    (i : Text) (c : ℕ) (op : Op) (r : Registry)
    → Spares i c op
    → get i r ≡ some c
    → get i (step op r) ≡ some c
unfolding step get
step-get i c (adding j d) r sp h = ground (arith, Dict.get-put j i d r.clients, seq_eq_iff j i)
step-get i c (dying d) r sp h = ground arith
step-get i c (removing j d) r (inl ne) h =
    ground (arith, Dict.get-remove j i r.clients, seq_eq_iff j i)
step-get i c (removing j d) r (inr ne) h =
    ground (arith, Dict.get-remove j i r.clients, seq_eq_iff j i)

-- As long as nothing ends it, the registered client stays: no other client takes its identifier,
-- and a late `remove` of an earlier client of that identifier does not evict it.
pub run-get :
    (i : Text) (c : ℕ) (ops : List Op) (r : Registry)
    → All (Spares i c) ops
    → get i r ≡ some c
    → get i (run ops r) ≡ some c
unfolding run
run-get i c [] r sp h = h
run-get i c (op ∷ ops) r (s, ss) h = run-get i c ops (step op r) ss (step-get i c op r s h)

-- `add` succeeds exactly if no live client has the identifier; then `get` finds the new client, and
-- otherwise the registry is unchanged.
pub add_lem :
    (i : Text) (c : ℕ) (r : Registry)
    → r.alive c ≡ true
    → ((get i r ≡ none) × ((add i c r).0 ≡ true) × (get i (add i c r).1 ≡ some c))
      ⊎ ((d : ℕ) × (get i r ≡ some d) × (add i c r ≡ (false, r)))
unfolding add get
add_lem i c r h = elim (Option-cases (Dict.get i r.clients)) [
  | inl e ↦ inl (rw e, rw e, rw (e, Dict.get-put_self i c r.clients, h))
  | inr (d, e) ↦ elim (Bool-cases (r.alive d)) [
    | inl a ↦ inr (d, rw (e, a), rw (e, a))
    | inr a ↦ inl (rw (e, a), rw (e, a), rw (e, a, Dict.get-put_self i c r.clients, h))
  ]
]
