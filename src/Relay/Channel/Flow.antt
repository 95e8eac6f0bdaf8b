-- ===== src/Relay/Channel/Flow.antt =====
-- The waits and reservations of the send window.
use rever_ssh.Prelude.{
  ℕ, ◌+◌, ◌≤◌, ◌<◌, ◌≡◌, ◌≢◌, true, false, List, [], ◌∷◌, Option, some, ◌⊎◌, inl, inr, min, max,
  subst, sym, arith,
}
use rever_ssh.Exn.{ok, err, out_of_fuel, >>=-eq-ok}
use rever_ssh.Relay.Channel.{
  Channel, Wake, adjusted, confirmed, marked_closed, turn, deadline, is_turn, apply_wake,
  wait_for_window, reserve_window, channel_max_packet,
}

-- The packet limit that `set_recipient` keeps.
pub record IsValid (c : Channel) : Type 0 where
  pub least : 1 ≤ c.remote_max_packet
  pub most : c.remote_max_packet ≤ channel_max_packet

-- What the peer grants, in bytes.
abbrev pub grant : Wake → ℕ
grant (adjusted amount) = amount
grant (confirmed recipient window max_packet) = window
grant _ = 0

abbrev pub credit : List Wake → ℕ
credit [] = 0
credit (w ∷ wakes) = grant w + credit wakes

apply_wake-IsValid : (w : Wake) (c : Channel) → IsValid c → IsValid (apply_wake w c)
unfolding apply_wake
apply_wake-IsValid (confirmed r n m) c v = ground arith
apply_wake-IsValid _ c v = ground arith

apply_wake-window :
    (w : Wake) (c : Channel) → (apply_wake w c).remote_window ≤ c.remote_window + grant w
unfolding apply_wake
apply_wake-window (adjusted n) c = omega arith
apply_wake-window _ c = omega arith

-- A recipient and a packet limit that the channel has, or that a call of `set_recipient` gives it:
-- `set_recipient` raises a limit below 1024 to 1024.
abbrev pub Confirmed : List Wake → ℕ → ℕ → Type 0
Confirmed [] r m = ⊥
Confirmed (confirmed recipient window max_packet ∷ wakes) r m =
    ((r ≡ recipient) × (m ≡ max 1024 (min max_packet channel_max_packet))) ⊎ Confirmed wakes r m
Confirmed (adjusted amount ∷ wakes) r m = Confirmed wakes r m
Confirmed (marked_closed ∷ wakes) r m = Confirmed wakes r m
Confirmed (turn ∷ wakes) r m = Confirmed wakes r m
Confirmed (deadline ∷ wakes) r m = Confirmed wakes r m

abbrev pub Agreed : Channel → List Wake → ℕ → ℕ → Type 0
Agreed c wakes r m = ((c.recipient ≡ some r) × (m ≡ c.remote_max_packet)) ⊎ Confirmed wakes r m

some_eq : (r q : ℕ) → ◌≡◌ {A = Option ℕ} (some q) (some r) → r ≡ q
some_eq r q h = grind arith

apply_wake-Agreed :
    (w : Wake) (wakes : List Wake) (c : Channel) (r m : ℕ)
    → Agreed (apply_wake w c) wakes r m
    → Agreed c (w ∷ wakes) r m
unfolding apply_wake
apply_wake-Agreed (adjusted n) wakes c r m h = h
apply_wake-Agreed (confirmed q n p) wakes c r m (inl (e, f)) = inr (inl (some_eq r q e, f))
apply_wake-Agreed (confirmed q n p) wakes c r m (inr h) = inr (inr h)
apply_wake-Agreed marked_closed wakes c r m h = h
apply_wake-Agreed turn wakes c r m h = h
apply_wake-Agreed deadline wakes c r m h = h

is_turn-Agreed :
    (w : Wake) (wakes : List Wake) (c : Channel) (r m : ℕ)
    → is_turn w ≡ true
    → Agreed c wakes r m
    → Agreed c (w ∷ wakes) r m
unfolding is_turn
is_turn-Agreed (adjusted n) wakes c r m e h = h
is_turn-Agreed (confirmed q n p) wakes c r m e h = absurd (cc)
is_turn-Agreed marked_closed wakes c r m e h = h
is_turn-Agreed turn wakes c r m e h = h
is_turn-Agreed deadline wakes c r m e h = h

-- How a wait returns: at a turn with the channel as it is, or after what happens next.
wait-cases :
    (w : Wake) (wakes : List Wake) (c c' : Channel) (rest : List Wake)
    → wait_for_window (w ∷ wakes) c ≡ ok (c', rest)
    → ((is_turn w ≡ true) × (c ≡ c') × (wakes ≡ rest) × (c.closed ≡ false) × (0 < c.remote_window))
      ⊎ (wait_for_window wakes (apply_wake w c) ≡ ok (c', rest))
unfolding wait_for_window
wait-cases w wakes c c' rest h = ground arith

-- What a wait leaves agreed was agreed before.
wait-Agreed :
    (wakes : List Wake) (c c' : Channel) (rest : List Wake) (r m : ℕ)
    → wait_for_window wakes c ≡ ok (c', rest)
    → Agreed c' rest r m
    → Agreed c wakes r m
unfolding wait_for_window
wait-Agreed [] c c' rest r m h a =
    let e : ◌≡◌ {A = Channel × List Wake} (c, []) (c', rest) = ground arith in
    subst (λ (x : Channel × List Wake). Agreed x.0 x.1 r m) (sym e) a
wait-Agreed (w ∷ wakes) c c' rest r m h a = elim (wait-cases w wakes c c' rest h) [
  | inl (t, e, f, _, _) ↦ is_turn-Agreed w wakes c r m t (rw (e, f) a)
  | inr h' ↦ apply_wake-Agreed w wakes c r m (wait-Agreed wakes (apply_wake w c) c' rest r m h' a)
]

pub reserve_window-Agreed :
    (size n : ℕ) (wakes rest : List Wake) (c c' : Channel) (r m : ℕ)
    → reserve_window size wakes c ≡ ok (n, c', rest)
    → Agreed c' rest r m
    → Agreed c wakes r m
unfolding reserve_window
reserve_window-Agreed size n wakes rest c c' r m h a =
    let ((d, ws), p, q) = >>=-eq-ok (wait_for_window wakes c) _ h in
    let (e, f, g) : (d.recipient ≡ c'.recipient)
        × (d.remote_max_packet ≡ c'.remote_max_packet)
        × (ws ≡ rest) =
      ground arith in
    wait-Agreed wakes c d ws r m p (rw (e, f, g) a)

-- A wait that returns leaves an open channel with a window, and invents no credit.
wait-credit :
    (wakes : List Wake) (c c' : Channel) (rest : List Wake)
    → IsValid c
    → wait_for_window wakes c ≡ ok (c', rest)
    → (c'.closed ≡ false)
      × (0 < c'.remote_window)
      × IsValid c'
      × (c'.remote_window + credit rest ≤ c.remote_window + credit wakes)
unfolding wait_for_window
wait-credit [] c c' rest v h = ground arith
wait-credit (w ∷ wakes) c c' rest v h = elim (wait-cases w wakes c c' rest h) [
  | inl (t, e, f, open', some_window) ↦ rw (← e, ← f) (open', some_window, v, omega arith)
  | inr h' ↦
      let (open', some_window, v', paid) =
        wait-credit wakes (apply_wake w c) c' rest (apply_wake-IsValid w c v) h' in
      (open', some_window, v', omega (arith, paid, apply_wake-window w c))
]

wait-ne-fuel : (wakes : List Wake) (c : Channel) → wait_for_window wakes c ≢ err out_of_fuel
unfolding wait_for_window
wait-ne-fuel [] c h = ground arith
wait-ne-fuel (w ∷ wakes) c h = ground (arith, wait-ne-fuel wakes (apply_wake w c))

-- A reservation that returns, on a channel whose packet limit is between 1 and 32768: it is a
-- positive part of what was asked for, is at most the packet limit that the channel then has, which
-- is again between 1 and 32768, and is taken off the window; the channel is not closed; and the
-- window and the credit still to come never grow. The limit is the one that `set_recipient` keeps,
-- which raises a peer's limit below 1024 to 1024.
pub reserve_window_lem :
    (size n : ℕ) (wakes rest : List Wake) (c c' : Channel)
    → 0 < size
    → IsValid c
    → reserve_window size wakes c ≡ ok (n, c', rest)
    → (0 < n)
      × (n ≤ size)
      × (n ≤ c'.remote_max_packet)
      × (n ≤ channel_max_packet)
      × (c'.closed ≡ false)
      × IsValid c'
      × (n + c'.remote_window + credit rest ≤ c.remote_window + credit wakes)
unfolding reserve_window
reserve_window_lem size n wakes rest c c' pos v h =
    let ((d, ws), p, q) = >>=-eq-ok (wait_for_window wakes c) _ h in
    ground (arith, wait-credit wakes c d ws v p)

pub reserve_window-ne-fuel :
    (size : ℕ) (wakes : List Wake) (c : Channel) → reserve_window size wakes c ≢ err out_of_fuel
unfolding reserve_window
reserve_window-ne-fuel size wakes c h = ground (arith, wait-ne-fuel wakes c)
