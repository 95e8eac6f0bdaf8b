-- ===== src/Relay/Registry/Tests.antt =====
-- Runs of the registry on concrete values.
use rever_ssh.Prelude.{
  ℕ, ◌≡◌, refl, true, false, [], ◌∷◌, none, some, ◌⊎◌, inr, ◌==◌, ◌||◌, arith, codes, seq_eq,
}
use rever_ssh.Bytes.{Text}
use rever_ssh.Dict
use rever_ssh.Relay.Registry
use rever_ssh.Relay.Registry.{Registry, Op, adding, dying, removing, run, add}
use rever_ssh.Relay.Registry.Stable.{run-get, add_lem}

abbrev host : Text
host = codes "host"

-- Client 1 is registered, client 2 is an older one that is dead.
abbrev registry : Registry
registry = record { clients = (host, 1) ∷ []; alive = λ c. c == 1 || c == 3 }

run-get_example :
    Registry.get host (run (dying 2 ∷ removing host 2 ∷ adding host 3 ∷ []) registry) ≡ some 1
unfolding Registry.get Dict.get seq_eq
run-get_example =
    run-get host 1 (dying 2 ∷ removing host 2 ∷ adding host 3 ∷ []) registry
      (λ e. omega arith, (inr (λ e. omega arith), (tt, tt))) refl

add_lem_example :
    ((Registry.get (codes "new") registry ≡ none)
      × ((add (codes "new") 3 registry).0 ≡ true)
      × (Registry.get (codes "new") (add (codes "new") 3 registry).1 ≡ some 3))
    ⊎ ((d : ℕ) × (Registry.get (codes "new") registry ≡ some d)
        × (add (codes "new") 3 registry ≡ (false, registry)))
add_lem_example = add_lem (codes "new") 3 registry refl
