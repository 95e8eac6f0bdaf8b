-- ===== src/Relay/Negotiation/Choice.antt =====
-- The algorithm that is chosen, and the size of the derived keys.
mod Tests
use rever_ssh.Prelude.{
  ℕ, zero, suc, ◌+◌, ◌≤◌, ◌<◌, ◌≡◌, refl, sym, ap, ◌∙◌, Bool, true, false, List, [], ◌∷◌, ◌++◌, All,
  length, length-append, length-take, take, ltb, Bool-cases, inl, inr, arith, if◌then◌else◌,
}
use rever_ssh.Exn.{Result, ok, err, >>=-eq-ok}
use rever_ssh.Bytes.{Bytes, Text}
use rever_ssh.SshEncoding.Writer
use rever_ssh.Relay.Negotiation.{mem, first_common, extend_key, derive_key}

-- The algorithm chosen is one that both sides offer, and none that the client prefers to it is
-- offered by the server.
first_common_lem :
    (client server : List Text) (alg : Text)
    → first_common client server ≡ ok alg
    → (before after : List Text) × (client ≡ before ++ alg ∷ after)
      × (mem alg server ≡ true)
      × All (λ (a : Text). mem a server ≡ false) before
unfolding first_common
first_common_lem [] server alg h = absurd (ground arith)
first_common_lem (a ∷ algs) server alg h = elim (Bool-cases (mem a server)) [
  | inl e ↦
      let same : a ≡ alg = ground arith in
      (
        [],
        algs,
        ap (λ (t : Text). t ∷ algs) same,
        ap (λ (t : Text). mem t server) (sym same) ∙ e,
        tt,
      )
  | inr e ↦
      let (before, after, split, offered, others) =
        first_common_lem algs server alg (ground arith) in
      (a ∷ before, after, ap (λ (t : List Text). a ∷ t) split, offered, (e, others))
]

module _ (sha256 : Bytes → Bytes) (digest : (b : Bytes) → length (sha256 b) ≡ 32) where
  extend_key_lem :
      (fuel : ℕ) (seed : Bytes) (size : ℕ) (out : Bytes)
      → size < length out + fuel
      → 0 < fuel
      → (key : Bytes) × (extend_key sha256 fuel seed size out ≡ ok key) × (size ≤ length key)
  unfolding extend_key
  extend_key_lem zero seed size out h pos = absurd (omega arith)
  extend_key_lem (suc fuel) seed size out h pos = elim (Bool-cases (ltb (length out) size)) [
    | inl e ↦
        let (key, run, long) =
          extend_key_lem fuel seed size (out ++ sha256 (seed ++ out))
            (omega (arith, length-append out (sha256 (seed ++ out)), digest (seed ++ out)))
            (ground arith) in
        (key, rw e run, long)
    | inr e ↦ (out, rw e refl, ground arith)
  ]

  -- If the shared secret has an mpint encoding, and digests have 32 bytes, `_derive_key` returns a
  -- key of the length asked for, whatever it is.
  derive_key-length :
      (k : ℕ) (secret exchange_hash session_id letter : Bytes) (size : ℕ)
      → Writer.mpint k ≡ ok secret
      → (key : Bytes) × (derive_key sha256 k exchange_hash session_id letter size ≡ ok key)
        × (length key ≡ size)
  unfolding derive_key
  derive_key-length k secret exchange_hash session_id letter size h =
      let (key, run, long) =
        extend_key_lem (suc size) (secret ++ exchange_hash) size
          (sha256 (secret ++ exchange_hash ++ letter ++ session_id)) (omega arith) (omega arith) in
      (take size key, rw (h, run) refl, omega (arith, length-take size key))
