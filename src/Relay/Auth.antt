-- ===== src/Relay/Auth.antt =====
-- `SSHConnection._authenticate`, `_verify_user_signature` and `_auth_failure` of
-- reverssh/relay.py. The packets to come are a list, each with what the other threads hold when it
-- is handled: the registry, and the answers `request_auth` would give. `ed25519.verify`,
-- `public_key_fingerprint` and the session id of the key exchange are arguments.
pub mod Grant
use rever_ssh.Prelude.{
  ℕ, List, [], ◌∷◌, ◌++◌, Bool, true, false, Option, none, some, codes, seq_eq, ◌==◌, ◌||◌,
  if◌then◌else◌,
}
use rever_ssh.Exn
use rever_ssh.Exn.{Result, ok, err, value_error, ssh_protocol_error, eof_error}
use rever_ssh.Bytes.{Bytes, Text}
use rever_ssh.SshEncoding.Writer
use rever_ssh.SshEncoding.Reader.{
  Read, run, pure, lift, byte, boolean, string, text, eof, ◌>>=◌, ◌>>◌,
}
use rever_ssh.Keys.{ssh_ed25519, parse_ed25519_key_blob}
use rever_ssh.Relay.Messages.{
  ssh_msg_ignore, ssh_msg_debug, ssh_msg_service_request, ssh_msg_service_accept,
  ssh_msg_userauth_request, ssh_msg_userauth_failure, ssh_msg_userauth_success,
  ssh_msg_userauth_pk_ok,
}
use rever_ssh.Relay.Registry.{Registry}
use rever_ssh.Relay.Registry

pub record Arrival : Type 0 where
  pub payload : Bytes
  pub registry : Registry
  -- client.request_auth(username, fingerprint, key_blob)
  pub approves : ℕ → Text → Text → Bytes → Bool

abbrev pub ssh_connection : Text
ssh_connection = codes "ssh-connection"

abbrev pub publickey : Text
publickey = codes "publickey"

-- What a request leads to: an answer and the next packet, or the end of the loop with the
-- connection's `identifier` and `client`, and the last answer.
pub data Handled : Type 0 where
  reply : Bytes → Handled
  granted : Text → ℕ → Bytes → Handled

unfoldable pub auth_failure : Result Bytes
auth_failure = Exn.◌>>=◌ (Writer.byte ssh_msg_userauth_failure) (λ m.
    Exn.◌>>=◌ (Writer.name_list (publickey ∷ []))
      (λ names. ok (m ++ names ++ Writer.boolean false)))

unfoldable pub pk_ok : Text → Bytes → Result Bytes
pk_ok key_alg key_blob = Exn.◌>>=◌ (Writer.byte ssh_msg_userauth_pk_ok) (λ m.
    Exn.◌>>=◌ (Writer.text key_alg)
      (λ alg. Exn.◌>>=◌ (Writer.string key_blob) (λ blob. ok (m ++ alg ++ blob))))

-- The `try` block's second half. `return False` and an exception lead to the same result.
unfoldable pub signature_of : Bytes → Result Bytes
signature_of = run (do
  sig_alg ← text
  signature ← string
  eof
  if seq_eq sig_alg ssh_ed25519 then pure signature else lift (err value_error))

-- What the operator signs.
unfoldable pub signed_data : Bytes → Text → Text → Text → Bytes → Result Bytes
signed_data session_id username service key_alg key_blob =
    Exn.◌>>=◌ (Writer.string session_id) (λ a.
      Exn.◌>>=◌ (Writer.byte ssh_msg_userauth_request) (λ b. Exn.◌>>=◌ (Writer.text username) (λ c.
        Exn.◌>>=◌ (Writer.text service) (λ d. Exn.◌>>=◌ (Writer.text publickey) (λ e.
          Exn.◌>>=◌ (Writer.text key_alg) (λ f.
            Exn.◌>>=◌ (Writer.string key_blob)
              (λ g. ok (a ++ b ++ c ++ d ++ e ++ Writer.boolean true ++ f ++ g))))))))

module _ (verify : Bytes → Bytes → Bytes → Bool) (fingerprint : Bytes → Text)
    (session_id : Bytes) where
  verify_parsed : Text → Text → Text → Bytes → Result Bytes → Result Bytes → Result Bool
  verify_parsed username service key_alg key_blob (err e) signature = ok false
  verify_parsed username service key_alg key_blob (ok public) (err e) = ok false
  verify_parsed username service key_alg key_blob (ok public) (ok signature) =
      Exn.◌>>=◌ (signed_data session_id username service key_alg key_blob)
        (λ signed. ok (verify public signed signature))

  unfoldable pub verify_user_signature : Text → Text → Text → Bytes → Bytes → Result Bool
  unfolding verify_parsed
  verify_user_signature username service key_alg key_blob sig_blob =
      verify_parsed username service key_alg key_blob (parse_ed25519_key_blob key_blob)
        (signature_of sig_blob)

  -- The registry has a client for the identifier, or not.
  ask_client : Arrival → Text → Bytes → Option ℕ → Result Handled
  ask_client a username key_blob none = Exn.◌>>=◌ auth_failure (λ b. ok (reply b))
  ask_client a username key_blob (some client) =
      if a.approves client username (fingerprint key_blob) key_blob
      then Exn.◌>>=◌ (Writer.byte ssh_msg_userauth_success) (λ b. ok (granted username client b))
      else Exn.◌>>=◌ auth_failure (λ b. ok (reply b))

  -- What follows the signature test.
  decide_request : Arrival → Text → Bytes → Bool → Result Handled
  decide_request a username key_blob verified =
      if verified
      then ask_client a username key_blob (Registry.get username a.registry)
      else Exn.◌>>=◌ auth_failure (λ b. ok (reply b))

  with_signature : Arrival → Text → Text → Text → Bytes → Read Handled
  with_signature a username service key_alg key_blob = do
    sig_blob ← string
    eof
    lift (
        Exn.◌>>=◌ (verify_user_signature username service key_alg key_blob sig_blob)
          (decide_request a username key_blob))

  with_key : Arrival → Text → Text → Read Handled
  with_key a username service = do
    has_signature ← boolean
    key_alg ← text
    key_blob ← string
    if seq_eq key_alg ssh_ed25519
        then (if has_signature
            then with_signature a username service key_alg key_blob
            else lift (Exn.◌>>=◌ (pk_ok key_alg key_blob) (λ b. ok (reply b))))
        else lift (Exn.◌>>=◌ auth_failure (λ b. ok (reply b)))

  -- One round of the second loop.
  handle_request : Arrival → Read Handled
  handle_request a = do
    msg ← byte
    if msg == ssh_msg_userauth_request
        then (do
          username ← text
          service ← text
          method ← text
          if seq_eq service ssh_connection
              then (if seq_eq method publickey
                  then with_key a username service
                  else lift (Exn.◌>>=◌ auth_failure (λ b. ok (reply b))))
              else lift (Exn.◌>>=◌ auth_failure (λ b. ok (reply b))))
        else lift (err ssh_protocol_error)

  after_request : Result Handled → List Bytes × Result (Text × ℕ) → List Bytes × Result (Text × ℕ)
  after_request (err e) rest = ([], err e)
  after_request (ok (reply b)) rest = (b ∷ rest.0, rest.1)
  after_request (ok (granted username client b)) rest = (b ∷ [], ok (username, client))

  -- The second loop, with what it has sent before it returns or raises.
  userauth : List Arrival → List Bytes × Result (Text × ℕ)
  userauth [] = ([], err eof_error)
  userauth (a ∷ arrivals) = after_request (run (handle_request a) a.payload) (userauth arrivals)

  -- One round of the first loop: the answer that ends it, or none.
  service_request : Read (Option Bytes)
  service_request = do
    msg ← byte
    if msg == ssh_msg_service_request
        then (do
          service ← text
          if seq_eq service (codes "ssh-userauth")
              then lift (
                  Exn.◌>>=◌ (Writer.byte ssh_msg_service_accept)
                    (λ m. Exn.◌>>=◌ (Writer.text service) (λ s. ok (some (m ++ s)))))
              else lift (err ssh_protocol_error))
        else if msg == ssh_msg_ignore || msg == ssh_msg_debug
        then pure none
        else lift (err ssh_protocol_error)

  after_service :
      Result (Option Bytes)
      → List Bytes × Result (Text × ℕ)
      → List Bytes × Result (Text × ℕ)
      → List Bytes × Result (Text × ℕ)
  after_service (err e) next rest = ([], err e)
  after_service (ok none) next rest = next
  after_service (ok (some b)) next rest = (b ∷ rest.0, rest.1)

  pub authenticate : List Arrival → List Bytes × Result (Text × ℕ)
  unfolding service_request userauth handle_request
  authenticate [] = ([], err eof_error)
  authenticate (a ∷ arrivals) =
      after_service (run service_request a.payload) (authenticate arrivals) (userauth arrivals)
