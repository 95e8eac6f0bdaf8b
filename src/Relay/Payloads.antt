-- ===== src/Relay/Payloads.antt =====
-- The payloads of `SSHConnection` (reverssh/relay.py) that open and close channels and begin the key
-- exchange. Each definition gives the payload; the methods send it.
use rever_ssh.Prelude.{
  ℕ, Bool, false, List, [], ◌∷◌, ◌++◌, Option, none, some, codes, ◌==◌, if◌then◌else◌,
}
use rever_ssh.Exn.{Result, ok, ◌>>=◌}
use rever_ssh.Bytes.{Bytes, Text}
use rever_ssh.SshEncoding.Writer.{byte, boolean, uint32, text, name_list}
use rever_ssh.Relay.Messages.{
  ssh_msg_kexinit, ssh_msg_disconnect, ssh_msg_channel_open_failure, ssh_msg_channel_window_adjust,
  ssh_msg_channel_request, ssh_msg_channel_eof,
}
use rever_ssh.Relay.Channel.{Channel}

abbrev pub kex_algorithms : List Text
kex_algorithms = codes "curve25519-sha256" ∷ codes "curve25519-sha256@libssh.org" ∷ []

abbrev pub host_key_algorithms : List Text
host_key_algorithms = codes "ssh-ed25519" ∷ []

abbrev pub ciphers : List Text
ciphers = codes "chacha20-poly1305@openssh.com" ∷ []

abbrev pub macs : List Text
macs = codes "hmac-sha2-256" ∷ codes "none" ∷ []

abbrev pub compressions : List Text
compressions = codes "none" ∷ []

-- The name lists of a KEXINIT, one behind the other.
name_lists : List (List Text) → Result Bytes
name_lists [] = ok []
name_lists (names ∷ rest) = do a ← name_list names; b ← name_lists rest; ok (a ++ b)

-- `cookie` is os.urandom(16)
unfoldable pub make_kexinit : Bytes → Result Bytes
unfolding name_lists
make_kexinit cookie = do
  m ← byte ssh_msg_kexinit
  lists ← name_lists (
      kex_algorithms ∷ host_key_algorithms ∷ ciphers ∷ ciphers ∷ macs ∷ macs ∷ compressions
      ∷ compressions ∷ [] ∷ [] ∷ [])
  reserved ← uint32 0
  ok (m ++ (cookie ++ (lists ++ (boolean false ++ reserved))))

-- A payload for the channel's recipient, or none where there is no recipient.
to_recipient : Channel → (ℕ → Result Bytes) → Result (Option Bytes)
to_recipient c payload = elim c.recipient [
  | none ↦ ok none
  | some recipient ↦ payload recipient >>= λ b. ok (some b)
]

abbrev amount_payload : ℕ → ℕ → Result Bytes
amount_payload amount recipient = do
  m ← byte ssh_msg_channel_window_adjust
  r ← uint32 recipient
  a ← uint32 amount
  ok (m ++ (r ++ a))

unfoldable pub adjust_local_window : Channel → ℕ → Result (Option Bytes)
unfolding to_recipient
adjust_local_window c amount =
    if amount == 0 then ok none else to_recipient c (amount_payload amount)

abbrev request_payload : Text → Bool → Bytes → ℕ → Result Bytes
request_payload request want_reply payload recipient = do
  m ← byte ssh_msg_channel_request
  r ← uint32 recipient
  t ← text request
  ok (m ++ (r ++ (t ++ (boolean want_reply ++ payload))))

unfoldable pub send_channel_request : Channel → Text → Bool → Bytes → Result (Option Bytes)
unfolding to_recipient
send_channel_request c request want_reply payload =
    to_recipient c (request_payload request want_reply payload)

abbrev pub id_payload : ℕ → ℕ → Result Bytes
id_payload message recipient = do m ← byte message; r ← uint32 recipient; ok (m ++ r)

unfoldable pub send_channel_eof : Channel → Result (Option Bytes)
unfolding to_recipient
send_channel_eof c = to_recipient c (id_payload ssh_msg_channel_eof)

unfoldable pub channel_open_failure : ℕ → ℕ → Text → Result Bytes
channel_open_failure recipient reason message = do
  m ← byte ssh_msg_channel_open_failure
  r ← uint32 recipient
  n ← uint32 reason
  t ← text message
  l ← text []
  ok (m ++ (r ++ (n ++ (t ++ l))))

unfoldable pub disconnect : Text → Result Bytes
disconnect message = do
  m ← byte ssh_msg_disconnect
  n ← uint32 11
  t ← text message
  l ← text []
  ok (m ++ (n ++ (t ++ l)))
