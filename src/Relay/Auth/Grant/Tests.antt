-- ===== src/Relay/Auth/Grant/Tests.antt =====
-- An operator who asks for `host`, whose client approves the key.
use rever_ssh.Prelude.{◌≡◌, refl, Bool, List, [], ◌∷◌, ◌++◌, codes, length, replicate, seq_eq, ◌==◌}
use rever_ssh.Exn.{ok}
use rever_ssh.Bytes.{Bytes, Text}
use rever_ssh.Bytes.Endian.{to_be, from_be}
use rever_ssh.Bytes.Utf8
use rever_ssh.Dict
use rever_ssh.Keys.{parse_ed25519_key_blob}
use rever_ssh.SshEncoding.Reader
use rever_ssh.SshEncoding.Writer
use rever_ssh.Relay.Registry
use rever_ssh.Relay.Registry.{Registry}
use rever_ssh.Relay.Auth.{
  Arrival, signature_of, signed_data, verify_parsed, verify_user_signature, ask_client,
  decide_request, with_signature, with_key, handle_request, userauth, after_request,
  service_request, after_service, authenticate,
}
use rever_ssh.Relay.Auth.Grant.{Admits, Grants, authenticate-Grants}

-- A length below 256 and the bytes.
abbrev field : Bytes → Bytes
field b = 0 ∷ 0 ∷ 0 ∷ length b ∷ b

abbrev key_blob : Bytes
key_blob = field (codes "ssh-ed25519") ++ field (replicate 32 1)

abbrev sig_blob : Bytes
sig_blob = field (codes "ssh-ed25519") ++ field (codes "sig")

abbrev verify : Bytes → Bytes → Bytes → Bool
verify public signed signature = seq_eq signature (codes "sig")

abbrev session : Bytes
session = codes "session"

abbrev fingerprint : Bytes → Text
fingerprint b = codes "SHA256:ab"

abbrev arrival : Bytes → Arrival
arrival b = record {
  payload = b;
  registry = record { clients = (codes "host", 1) ∷ []; alive = λ c. c == 1 };
  approves = λ c username f k. c == 1;
}

abbrev request : Bytes
request =
    50
    ∷ (field (codes "host")
        ++ field (codes "ssh-connection")
        ++ field (codes "publickey")
        ++ 1 ∷ (field (codes "ssh-ed25519") ++ field key_blob ++ field sig_blob))

abbrev arrivals : List Arrival
arrivals = arrival (5 ∷ field (codes "ssh-userauth")) ∷ arrival request ∷ []

abbrev answers : List Bytes
answers = (6 ∷ field (codes "ssh-userauth")) ∷ (52 ∷ []) ∷ []

let_in : authenticate verify fingerprint session arrivals ≡ (answers, ok (codes "host", 1))
unfolding authenticate service_request after_service userauth after_request handle_request with_key
    with_signature verify_user_signature verify_parsed decide_request ask_client signature_of
    signed_data parse_ed25519_key_blob Registry.get Dict.get seq_eq Reader.◌>>=◌ Reader.pure
    Reader.lift Reader.remaining Reader.take_bytes Reader.byte Reader.boolean Reader.uint32
    Reader.string Reader.text Reader.eof Writer.byte Writer.boolean Writer.uint32 Writer.string
    Writer.text to_be from_be Utf8.decode Utf8.encode
let_in = refl

authenticate-Grants_example :
    Admits (λ (a : Arrival). Grants verify fingerprint session a (codes "host") 1) arrivals
authenticate-Grants_example =
    authenticate-Grants verify fingerprint session arrivals answers (codes "host") 1 let_in
