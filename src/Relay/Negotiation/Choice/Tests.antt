-- ===== src/Relay/Negotiation/Choice/Tests.antt =====
-- A choice between three algorithms, and a key of 40 bytes.
use rever_ssh.Prelude.{
  ℕ, ◌≡◌, refl, true, false, List, [], ◌∷◌, ◌++◌, All, codes, length, length-replicate, replicate,
  seq_eq,
}
use rever_ssh.Exn.{ok}
use rever_ssh.Bytes.{Bytes, Text}
use rever_ssh.Bytes.Endian.{to_be}
use rever_ssh.SshEncoding.Writer
use rever_ssh.Relay.Negotiation.{mem, first_common, derive_key}
use rever_ssh.Relay.Negotiation.Choice.{first_common_lem, derive_key-length}

abbrev client : List Text
client = codes "a" ∷ codes "b" ∷ codes "c" ∷ []

abbrev server : List Text
server = codes "c" ∷ codes "b" ∷ []

chosen : first_common client server ≡ ok (codes "b")
unfolding first_common mem seq_eq
chosen = refl

first_common_lem_example :
    (before after : List Text) × (client ≡ before ++ codes "b" ∷ after)
    × (mem (codes "b") server ≡ true)
    × All (λ (a : Text). mem a server ≡ false) before
first_common_lem_example = first_common_lem client server (codes "b") chosen

abbrev digest : Bytes → Bytes
digest b = replicate 32 7

digest-length : (b : Bytes) → length (digest b) ≡ 32
digest-length b = length-replicate {A = ℕ} 32 7

secret : Writer.mpint 5 ≡ ok (0 ∷ 0 ∷ 0 ∷ 1 ∷ 5 ∷ [])
unfolding Writer.mpint Writer.bit_length Writer.string Writer.uint32 to_be
secret = refl

derive_key-length_example :
    (key : Bytes) × (derive_key digest 5 (codes "hash") (codes "id") (codes "C") 40 ≡ ok key)
    × (length key ≡ 40)
derive_key-length_example =
    derive_key-length digest digest-length 5 (0 ∷ 0 ∷ 0 ∷ 1 ∷ 5 ∷ []) (codes "hash") (codes "id")
      (codes "C") 40 secret
