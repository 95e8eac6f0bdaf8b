-- ===== src/Relay/Connection/State/Changes.antt =====
-- The steps that change the tables or the objects.
use rever_ssh.Prelude.{
  ℕ, ◌<◌, ◌≡◌, refl, sym, ◌∙◌, subst, Bool, true, false, Option, none, some, arith, ◌==◌, ==_iff,
  Bool-cases, ◌⊎◌, inl, inr,
}
use rever_ssh.Dict
use rever_ssh.Dict.{Dict, nat_key, get-put, get-remove}
use rever_ssh.Relay.Channel.{new_channel}
use rever_ssh.Relay.Connection.State.{
  Kind, Object, Connection, Step, take_channel_id, object, found, modified, modify, new_object,
  list_channel, pop_channel, when_found, when,
}
use rever_ssh.Relay.Connection.State.Tables.{HasRecipient, IsValid, Keeps, Keeps_same, Keeps-pure}

pub none-some : {V : Type 0} {v : V} → none ≡ some v → ⊥
none-some h = absurd (ground arith)

pub some_injective : {V : Type 0} {v w : V} → some v ≡ some w → v ≡ w
some_injective h = cc

-- A key that `remove` leaves was there before.
pub get-remove-some :
    {V : Type 0} (k j : ℕ) (d : Dict ℕ V) (v : V)
    → Dict.get j (Dict.remove k d) ≡ some v
    → Dict.get j d ≡ some v
get-remove-some k j d v h = grind (arith, get-remove k j d, h)

-- What `put` left was put or was there before.
pub get-put-some :
    {V : Type 0} (k j : ℕ) (v w : V) (d : Dict ℕ V)
    → Dict.get j (Dict.put k v d) ≡ some w
    → ((k ≡ j) × (v ≡ w)) ⊎ (Dict.get j d ≡ some w)
get-put-some k j v w d h = elim (Bool-cases (k == j)) [
  | inl e ↦ inl ((==_iff k j).0 e, some_injective (sym (get-put k j v d ∙ rw e refl) ∙ h))
  | inr e ↦ inr (sym (get-put k j v d ∙ rw e refl) ∙ h)
]

pub Keeps-take_channel_id : (i : ℕ) → Keeps (take_channel_id i)
unfolding take_channel_id
Keeps-take_channel_id i = record {
  valid = λ s h. record {
    named = h.named;
    given = h.given;
    receivable = h.receivable;
    counted = λ k r e. elim (get-put-some s.client.channel_counter k i r s.client.channels e) [
      | inl (same, _) ↦ omega arith
      | inr old ↦ let below : k < s.client.channel_counter = h.counted k r old in omega arith
    ];
  };
  grows = λ s. omega arith;
}

pub Keeps-pop_channel : (i : ℕ) → Keeps (pop_channel i)
unfolding pop_channel
Keeps-pop_channel i = record {
  valid = λ s h. record {
    named = λ k r e. h.named k r (get-remove-some i k s.channels r e);
    given = h.given;
    receivable = λ k r o e. h.receivable k r o (get-remove-some i k s.channels r e);
    counted = h.counted;
  };
  grows = λ s. omega arith;
}

-- An object that a table's name gives is changed so that it keeps its recipient.
modified-some :
    (i k : ℕ) (found : Option Object) (f : Object → Object) (d : Dict ℕ Object) (o : Object)
    → Dict.get i d ≡ found
    → Dict.get k (modified i found f d) ≡ some o
    → (Dict.get k d ≡ some o) ⊎ ((p : Object) × (i ≡ k) × (Dict.get k d ≡ some p) × (f p ≡ o))
unfolding modified
modified-some i k none f d o h e = inl e
modified-some i k (some p) f d o h e = elim (get-put-some i k (f p) o d e) [
  | inl (same, changed) ↦ inr (p, same, subst (λ j. Dict.get j d ≡ some p) same h, changed)
  | inr old ↦ inl old
]

pub Keeps-modify :
    (i : ℕ) (f : Object → Object)
    → ((o : Object) → HasRecipient o.base o.kind → HasRecipient (f o).base (f o).kind)
    → Keeps (modify i f)
unfolding modify
Keeps-modify i f q = record {
  valid = λ s h. record {
    named = h.named;
    given = λ k o e. elim (modified-some i k (Dict.get i s.objects) f s.objects o refl e) [
      | inl old ↦ h.given k o old
      | inr (p, _, old, _) ↦ h.given k p old
    ];
    receivable = λ k r o listed e.
        elim (modified-some i r (Dict.get i s.objects) f s.objects o refl e) [
          | inl old ↦ h.receivable k r o listed old
          | inr (p, _, old, changed) ↦
              subst (λ t. HasRecipient t.base t.kind) changed (q p (h.receivable k r p listed old))
        ];
    counted = h.counted;
  };
  grows = λ s. omega arith;
}

pub Keeps-object : (i : ℕ) → Keeps (object i)
unfolding object
Keeps-object i = Keeps_same (λ s. found (Dict.get i s.objects))

pub Keeps-new_object : (kind : Kind) → Keeps (new_object kind)
unfolding new_object
Keeps-new_object kind = record {
  valid = λ s h. record {
    named = λ k r e.
        let (same, _) = h.named k r e in
        let below : k < s.next_channel_id = (h.named k r e).1 in (same, omega arith);
    given = λ k o e.
        elim (get-put-some s.next_channel_id k (record { base = new_channel; kind = kind }) o
          s.objects e) [
            | inl (same, _) ↦ omega arith
            | inr old ↦ let below : k < s.next_channel_id = h.given k o old in omega arith
          ];
    receivable = λ k r o listed e.
        elim (get-put-some s.next_channel_id r (record { base = new_channel; kind = kind }) o
          s.objects e) [
            | inl (same, _) ↦
                let id : r ≡ k = (h.named k r listed).0 in
                let below : k < s.next_channel_id = (h.named k r listed).1 in absurd (omega arith)
            | inr old ↦ h.receivable k r o listed old
          ];
    counted = h.counted;
  };
  grows = λ s. omega arith;
}

pub Keeps-when_found :
    (found : Option ℕ) (k : ℕ → Step (Unit {0}))
    → ((i : ℕ) → Keeps (k i))
    → Keeps (when_found found k)
unfolding when_found
Keeps-when_found none k q = Keeps-pure tt
Keeps-when_found (some i) k q = q i

pub Keeps-when : (b : Bool) (m : Step (Unit {0})) → Keeps m → Keeps (when b m)
unfolding when
Keeps-when true m q = q
Keeps-when false m q = Keeps-pure tt

-- An object that can be listed: its id was given out, and it has its recipient.
pub list_channel-IsValid :
    (i : ℕ) (s : Connection)
    → IsValid s
    → i < s.next_channel_id
    → ((o : Object) → Dict.get i s.objects ≡ some o → HasRecipient o.base o.kind)
    → IsValid (list_channel i s).1
unfolding list_channel
list_channel-IsValid i s h below q = record {
  named = λ k r e. elim (get-put-some i k i r s.channels e) [
    | inl (same, id) ↦ (sym id ∙ same, omega arith)
    | inr old ↦ h.named k r old
  ];
  given = h.given;
  receivable = λ k r o listed e. elim (get-put-some i k i r s.channels listed) [
    | inl (same, id) ↦ q o (subst (λ j. Dict.get j s.objects ≡ some o) (sym id) e)
    | inr old ↦ h.receivable k r o old e
  ];
  counted = h.counted;
}
