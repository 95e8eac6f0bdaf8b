-- ===== src/Relay/Connection/State/Given.antt =====
-- Steps that return names which were given out.
use rever_ssh.Prelude.{
  ℕ, ◌≤◌, ◌<◌, arith, ◌≡◌, subst, Bool, true, false, Option, none, some, if◌then◌else◌,
}
use rever_ssh.Exn.{Result, ok, err}
use rever_ssh.Relay.Connection.State.{Kind, Connection, Step, and_then, ◌>>=◌, pure, new_object}
use rever_ssh.Relay.Connection.State.Tables.{Keeps}

-- The value, if there is one, has its name below the next id.
pub IsGivenIn : {A : Type 0} → (A → ℕ) → Result (Option A) × Connection → Type 0
IsGivenIn name (ok (some a), s) = name a < s.next_channel_id
IsGivenIn name (ok none, s) = Unit {0}
IsGivenIn name (err e, s) = Unit {0}

pub record Gives {A : Type 0} (name : A → ℕ) (m : Step (Option A)) : Type 0 where
  pub given_in : (s : Connection) → IsGivenIn name (m s)

-- The same behind the giving out of `n`.
pub record GivesFrom {A : Type 0} (n : ℕ) (name : A → ℕ) (m : Step (Option A)) : Type 0 where
  pub given_from : (s : Connection) → n < s.next_channel_id → IsGivenIn name (m s)

module _ {A : Type 0} (name : A → ℕ) where
  pub Gives-some :
      (m : Step (Option A)) (s : Connection) (a : A) (t : Connection)
      → Gives name m
      → m s ≡ (ok (some a), t)
      → name a < t.next_channel_id
  unfolding IsGivenIn
  Gives-some m s a t q e = subst (IsGivenIn name) e (q.given_in s)

  and_then-IsGivenIn :
      {B : Type 0} (o : Result B × Connection) (k : B → Step (Option A))
      → ((b : B) → Gives name (k b))
      → IsGivenIn name (and_then o k)
  unfolding and_then IsGivenIn
  and_then-IsGivenIn (ok b, s) k q = (q b).given_in s
  and_then-IsGivenIn (err e, s) k q = tt

  pub Gives-bind :
      {B : Type 0} (m : Step B) (k : B → Step (Option A))
      → ((b : B) → Gives name (k b))
      → Gives name (m >>= k)
  unfolding ◌>>=◌
  Gives-bind m k q = record { given_in = λ s. and_then-IsGivenIn (m s) k q }

  pub Gives-none : Gives name (pure none)
  unfolding pure IsGivenIn
  Gives-none = record { given_in = λ s. tt }

  and_then-IsGivenIn_from :
      {B : Type 0} (n : ℕ) (o : Result B × Connection) (k : B → Step (Option A))
      → n < o.1.next_channel_id
      → ((b : B) → GivesFrom n name (k b))
      → IsGivenIn name (and_then o k)
  unfolding and_then IsGivenIn
  and_then-IsGivenIn_from n (ok b, s) k below q = (q b).given_from s below
  and_then-IsGivenIn_from n (err e, s) k below q = tt

  pub GivesFrom-bind :
      {B : Type 0} (n : ℕ) (m : Step B) (k : B → Step (Option A))
      → Keeps m
      → ((b : B) → GivesFrom n name (k b))
      → GivesFrom n name (m >>= k)
  unfolding ◌>>=◌
  GivesFrom-bind n m k h q = record {
    given_from = λ s below.
        let more : s.next_channel_id ≤ (m s).1.next_channel_id = h.grows s in
        and_then-IsGivenIn_from n (m s) k (omega arith) q;
  }

  pub GivesFrom-pure : (a : A) → GivesFrom (name a) name (pure (some a))
  unfolding pure IsGivenIn
  GivesFrom-pure a = record { given_from = λ s below. below }

  pub Gives-new_object :
      (kind : Kind) (k : ℕ → Step (Option A))
      → ((n : ℕ) → GivesFrom n name (k n))
      → Gives name (new_object kind >>= k)
  unfolding new_object ◌>>=◌ and_then
  Gives-new_object kind k q = record {
    given_in = λ s. (q s.next_channel_id).given_from _ (omega arith);
  }

  pub if-Gives :
      (b : Bool) (x y : Step (Option A))
      → Gives name x
      → Gives name y
      → Gives name (if b then x else y)
  if-Gives true x y p q = p
  if-Gives false x y p q = q
