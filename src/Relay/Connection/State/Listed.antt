-- ===== src/Relay/Connection/State/Listed.antt =====
-- Steps that put a channel into the connection's table.
use rever_ssh.Prelude.{ℕ, ◌≤◌, ◌<◌, ◌≡◌, refl, sym, ◌∙◌, subst, Option, none, some, arith}
use rever_ssh.Exn.{Result, ok, err}
use rever_ssh.Dict
use rever_ssh.Dict.{Dict, nat_key, get-put_self}
use rever_ssh.Relay.Channel.{new_channel}
use rever_ssh.Relay.Connection.State.{
  Kind, Object, Connection, Step, and_then, ◌>>=◌, pure, modified, modify, new_object, list_channel,
}
use rever_ssh.Relay.Connection.State.Changes.{
  Keeps-modify, Keeps-new_object, list_channel-IsValid, none-some, some_injective,
}
use rever_ssh.Relay.Connection.State.Tables.{HasRecipient, IsValid, Keeps}

-- A step that keeps the tables in order once the id `n` was given out.
pub record KeepsFrom {A : Type 0} (n : ℕ) (m : Step A) : Type 0 where
  pub valid_from : (s : Connection) → IsValid s → n < s.next_channel_id → IsValid (m s).1

and_then-IsValid_from :
    {A B : Type 0} (n : ℕ) (o : Result A × Connection) (k : A → Step B)
    → IsValid o.1
    → n < o.1.next_channel_id
    → ((a : A) → KeepsFrom n (k a))
    → IsValid (and_then o k).1
unfolding and_then
and_then-IsValid_from n (ok a, s) k h below q = (q a).valid_from s h below
and_then-IsValid_from n (err e, s) k h below q = h

pub KeepsFrom-bind :
    {A B : Type 0} (n : ℕ) (m : Step A) (k : A → Step B)
    → Keeps m
    → ((a : A) → KeepsFrom n (k a))
    → KeepsFrom n (m >>= k)
unfolding ◌>>=◌
KeepsFrom-bind n m k q r = record {
  valid_from = λ s h below.
      let more : s.next_channel_id ≤ (m s).1.next_channel_id = q.grows s in
      and_then-IsValid_from n (m s) k (q.valid s h) (omega arith) r;
}

pub KeepsFrom-Keeps : {A : Type 0} (n : ℕ) (m : Step A) → Keeps m → KeepsFrom n m
KeepsFrom-Keeps n m q = record { valid_from = λ s h below. q.valid s h }

modified_self :
    (i : ℕ) (found : Option Object) (f : Object → Object) (d : Dict ℕ Object) (o : Object)
    → Dict.get i d ≡ found
    → Dict.get i (modified i found f d) ≡ some o
    → (p : Object) × (f p ≡ o)
unfolding modified
modified_self i none f d o h e = absurd (none-some (sym h ∙ e))
modified_self i (some p) f d o h e = (p, some_injective (sym (get-put_self i (f p) d) ∙ e))

-- A channel is listed behind a change that gives its object a recipient.
pub KeepsFrom-modify_list :
    {A : Type 0} (i : ℕ) (f : Object → Object) (k : Step A)
    → ((o : Object) → HasRecipient o.base o.kind → HasRecipient (f o).base (f o).kind)
    → ((o : Object) → HasRecipient (f o).base (f o).kind)
    → Keeps k
    → KeepsFrom i (modify i f >>= λ _. (list_channel i >>= λ _. k))
unfolding ◌>>=◌ and_then modify list_channel
KeepsFrom-modify_list i f k keeps gives q = record {
  valid_from = λ s h below. q.valid _ (
      list_channel-IsValid i _ ((Keeps-modify i f keeps).valid s h) below (λ o e.
        let (p, changed) = modified_self i (Dict.get i s.objects) f s.objects o refl e in
        subst (λ t. HasRecipient t.base t.kind) changed (gives p)));
}

-- A new object that needs no recipient is listed at once.
pub Keeps-new_list :
    (kind : Kind)
    → HasRecipient new_channel kind
    → Keeps (new_object kind >>= λ i. (list_channel i >>= λ _. pure i))
unfolding ◌>>=◌ and_then new_object list_channel pure
Keeps-new_list kind q = record {
  valid = λ s h.
      list_channel-IsValid s.next_channel_id _ ((Keeps-new_object kind).valid s h) (omega arith)
        (λ o e.
          subst (λ t. HasRecipient t.base t.kind)
            (some_injective (
              sym (
                get-put_self s.next_channel_id (record { base = new_channel; kind = kind })
                  s.objects)
              ∙ e))
            q);
  grows = λ s. omega arith;
}
