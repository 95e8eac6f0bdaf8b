-- ===== src/Sftp/Dispatch/Chunks.antt =====
-- `feed` over the pieces in which the channel cuts its bytes.
use rever_ssh.Prelude.{
  ℕ, zero, suc, ◌+◌, ◌-◌, ◌≤◌, ◌≡◌, refl, sym, ap, ◌∙◌, Bool, true, false, ◌||◌, inl, inr, [], ◌∷◌,
  ◌++◌, append_assoc, arith, length, length-append, length-drop, take, drop, take_le-append,
  drop_le-append, ltb, Bool-cases,
}
use rever_ssh.Bytes.{Bytes}
use rever_ssh.Bytes.Endian.{from_be}
use rever_ssh.Sftp.Os.{Outcome, done, raised, Os}
use rever_ssh.Sftp.Server.{Server}
use rever_ssh.Sftp.Dispatch.{handle_packet, after_packet, drain, feed}

-- The loop stops, or a whole packet stands at the front of the buffer.
is_short : Bytes → Bool
is_short b = ltb (length b) 4 || ltb (length b) (4 + from_be (take 4 b))

is_short-nil : is_short [] ≡ true
unfolding is_short
is_short-nil = refl

is_short-false :
    (b : Bytes) → is_short b ≡ false → (4 ≤ length b) × (4 + from_be (take 4 b) ≤ length b)
unfolding is_short
is_short-false b h = ground arith

module _ {F : Type 0} (os : Os F) where
  abbrev Result3 : Type 0
  Result3 = Outcome (Unit {0}) × Bytes × Server F

  abbrev round : Bytes → Server F → (Server F → Result3) → Result3
  round b s next =
      after_packet os (handle_packet os (drop 4 (take (4 + from_be (take 4 b)) b)) s)
        (drop (4 + from_be (take 4 b)) b) next

  drain-short :
      (fuel : ℕ) (b : Bytes) (s : Server F)
      → is_short b ≡ true
      → drain os fuel b s ≡ (done tt, b, s)
  unfolding drain is_short
  drain-short zero b s h = refl
  drain-short (suc fuel) b s h = rw h refl

  drain-round :
      (fuel : ℕ) (b : Bytes) (s : Server F)
      → is_short b ≡ false
      → drain os (suc fuel) b s ≡ round b s (drain os fuel (drop (4 + from_be (take 4 b)) b))
  unfolding drain is_short
  drain-round fuel b s h = rw h refl

  after_packet_ext :
      (o : Outcome (Unit {0}) × Server F) (rest : Bytes) (next other : Server F → Result3)
      → ((s : Server F) → next s ≡ other s)
      → after_packet os o rest next ≡ after_packet os o rest other
  unfolding after_packet
  after_packet_ext (done _, s) rest next other h = h s
  after_packet_ext (raised e, s) rest next other h = refl

  -- Fuel for every byte is enough.
  drain_enough :
      (fuel more : ℕ) (b : Bytes) (s : Server F)
      → length b ≤ fuel
      → length b ≤ more
      → drain os fuel b s ≡ drain os more b s
  drain_enough zero more [] s h k =
      drain-short zero [] s is_short-nil ∙ sym (drain-short more [] s is_short-nil)
  drain_enough zero more (x ∷ b) s h k = absurd (omega arith)
  drain_enough (suc fuel) zero [] s h k =
      drain-short (suc fuel) [] s is_short-nil ∙ sym (drain-short zero [] s is_short-nil)
  drain_enough (suc fuel) zero (x ∷ b) s h k = absurd (omega arith)
  drain_enough (suc fuel) (suc more) b s h k = elim (Bool-cases (is_short b)) [
    | inl e ↦ drain-short (suc fuel) b s e ∙ sym (drain-short (suc more) b s e)
    | inr e ↦
        let rest : Bytes = drop (4 + from_be (take 4 b)) b in
        let shorter : length rest ≡ length b - (4 + from_be (take 4 b)) =
          length-drop (4 + from_be (take 4 b)) b in
        let (four, whole) = is_short-false b e in
        drain-round fuel b s e
        ∙ after_packet_ext (handle_packet os (drop 4 (take (4 + from_be (take 4 b)) b)) s) rest
            (drain os fuel rest) (drain os more rest)
            (λ t. drain_enough fuel more rest t (omega arith) (omega arith))
        ∙ sym (drain-round more b s e)
  ]

  -- What the rounds before `next` leave, `next` takes up.
  after_packet-append :
      (o : Outcome (Unit {0}) × Server F) (rest behind a' : Bytes) (s' : Server F)
      (next more goal : Server F → Result3)
      → ((s : Server F) → next s ≡ (done tt, a', s') → more s ≡ goal s')
      → after_packet os o rest next ≡ (done tt, a', s')
      → after_packet os o behind more ≡ goal s'
  unfolding after_packet
  after_packet-append (done _, s) rest behind a' s' next more goal h e = h s e
  after_packet-append (raised x, s) rest behind a' s' next more goal h e = absurd (ground arith)

  drop-packet :
      (a b : Bytes)
      → is_short a ≡ false
      → drop (4 + from_be (take 4 (a ++ b))) (a ++ b) ≡ drop (4 + from_be (take 4 a)) a ++ b
  drop-packet a b h =
      let (four, whole) = is_short-false a h in
      rw (take_le-append 4 a b four) (drop_le-append (4 + from_be (take 4 a)) a b whole)

  round-append :
      (a b : Bytes) (s : Server F) (next : Bytes → Server F → Result3)
      → is_short a ≡ false
      → round (a ++ b) s (next (drop (4 + from_be (take 4 (a ++ b))) (a ++ b)))
        ≡ after_packet os
            (handle_packet os (drop 4 (take (4 + from_be (take 4 a)) a)) s)
            (drop (4 + from_be (take 4 a)) a ++ b)
            (next (drop (4 + from_be (take 4 a)) a ++ b))
  round-append a b s next h =
      let (four, whole) = is_short-false a h in
      rw (drop-packet a b h) (
        rw (take_le-append 4 a b four)
          (rw (take_le-append (4 + from_be (take 4 a)) a b whole) refl))

  is_short-append : (a b : Bytes) → is_short a ≡ false → is_short (a ++ b) ≡ false
  unfolding is_short
  is_short-append a b h =
      let (four, whole) = is_short-false a h in
      let total : length (a ++ b) ≡ length a + length b = length-append a b in
      rw (take_le-append 4 a b four) ground arith

  -- The loop has nothing to do on the first part alone.
  drain_short-append :
      (fuel : ℕ) (a b : Bytes) (s : Server F) (a' : Bytes) (s' : Server F) (more : ℕ)
      → is_short a ≡ true
      → drain os fuel a s ≡ (done tt, a', s')
      → drain os more (a ++ b) s ≡ drain os more (a' ++ b) s'
  drain_short-append fuel a b s a' s' more short e =
      ap (λ (r : Result3). drain os more (r.1 ++ b) r.2) (sym (drain-short fuel a s short) ∙ e)

  drain-append :
      (fuel : ℕ) (a b : Bytes) (s : Server F) (a' : Bytes) (s' : Server F) (more : ℕ)
      → length a ≤ fuel
      → length (a ++ b) ≤ more
      → drain os fuel a s ≡ (done tt, a', s')
      → drain os more (a ++ b) s ≡ drain os more (a' ++ b) s'
  drain-append zero [] b s a' s' more h k e =
      drain_short-append zero [] b s a' s' more is_short-nil e
  drain-append zero (x ∷ a) b s a' s' more h k e = absurd (omega arith)
  drain-append (suc fuel) [] b s a' s' zero h k e =
      drain_short-append (suc fuel) [] b s a' s' zero is_short-nil e
  drain-append (suc fuel) (x ∷ a) b s a' s' zero h k e = absurd (omega arith)
  drain-append (suc fuel) a b s a' s' (suc more) h k e = elim (Bool-cases (is_short a)) [
    | inl short ↦ drain_short-append (suc fuel) a b s a' s' (suc more) short e
    | inr long ↦
        let rest : Bytes = drop (4 + from_be (take 4 a)) a in
        let packet : Bytes = drop 4 (take (4 + from_be (take 4 a)) a) in
        let shorter : length rest ≡ length a - (4 + from_be (take 4 a)) =
          length-drop (4 + from_be (take 4 a)) a in
        let joined : length (rest ++ b) ≡ length rest + length b = length-append rest b in
        let total : length (a ++ b) ≡ length a + length b = length-append a b in
        let (four, whole) = is_short-false a long in
        drain-round more (a ++ b) s (is_short-append a b long)
        ∙ round-append a b s (drain os more) long
        ∙ after_packet-append (handle_packet os packet s) rest (rest ++ b) a' s'
            (drain os fuel rest) (drain os more (rest ++ b)) (drain os (suc more) (a' ++ b))
            (λ t d.
              drain_enough more (suc more) (rest ++ b) t (omega arith) (omega arith)
              ∙ drain-append fuel rest b t a' s' (suc more) (omega arith) (omega arith) d)
            (sym (drain-round fuel a s long) ∙ e)
  ]

  -- Feeding a chunk and then the next one is feeding both at once: where the first chunk is taken
  -- without an exception, whatever the packets in it and wherever it is cut, the outcome, the bytes
  -- kept in the buffer and the server are those of one call with all the bytes.
  pub feed-append :
      (x y buffer : Bytes) (s : Server F) (buffer' : Bytes) (s' : Server F)
      → feed os x buffer s ≡ (done tt, buffer', s')
      → feed os (x ++ y) buffer s ≡ feed os y buffer' s'
  unfolding feed
  feed-append x y buffer s buffer' s' e =
      let all : Bytes = (buffer ++ x) ++ y in
      let left : Bytes = buffer' ++ y in
      let enough : ℕ = length all + length left in
      rw (← append_assoc buffer x y) (
        drain_enough (length all) enough all s (omega arith) (omega arith)
        ∙ drain-append (length (buffer ++ x)) (buffer ++ x) y s buffer' s' enough (omega arith)
            (omega arith) e
        ∙ drain_enough enough (length left) left s' (omega arith) (omega arith))
