-- ===== src/Keys/Tests.antt =====
-- A key of 32 bytes.
use rever_ssh.Prelude.{◌≡◌, refl, ◌∷◌, ◌++◌, codes, replicate}
use rever_ssh.Exn.{ok}
use rever_ssh.Bytes.{Bytes}
use rever_ssh.Bytes.Endian.{to_be}
use rever_ssh.Bytes.Utf8.{encode}
use rever_ssh.SshEncoding.Writer
use rever_ssh.Keys.{ed25519_key_blob, parse_ed25519_key_blob}
use rever_ssh.Keys.RoundTrip.{parse-ed25519_key_blob}

abbrev blob : Bytes
blob = 0 ∷ 0 ∷ 0 ∷ 11 ∷ (codes "ssh-ed25519" ++ 0 ∷ 0 ∷ 0 ∷ 32 ∷ replicate 32 1)

built : ed25519_key_blob (replicate 32 1) ≡ ok blob
unfolding ed25519_key_blob Writer.text Writer.string Writer.uint32 to_be encode
built = refl

parse-ed25519_key_blob_example : parse_ed25519_key_blob blob ≡ ok (replicate 32 1)
parse-ed25519_key_blob_example = parse-ed25519_key_blob (replicate 32 1) blob refl built
