-- ===== src/Keys.antt =====
-- reverssh/keys.py: the wire form of an ed25519 public key.
pub mod RoundTrip
mod Tests
use rever_ssh.Prelude.{ℕ, List, ◌++◌, length, codes, seq_eq, ◌==◌, if◌then◌else◌}
use rever_ssh.Exn.{Result, ok, err, value_error}
use rever_ssh.Exn.{◌>>=◌ as bind}
use rever_ssh.Bytes.{Bytes, Text}
use rever_ssh.SshEncoding.Writer
use rever_ssh.SshEncoding.Reader.{Read, run, pure, lift, string, text, eof, ◌>>=◌, ◌>>◌}

abbrev pub ssh_ed25519 : Text
ssh_ed25519 = codes "ssh-ed25519"

unfoldable pub ed25519_key_blob : Bytes → Result Bytes
ed25519_key_blob public =
    bind (Writer.text ssh_ed25519) (λ a. bind (Writer.string public) (λ b. ok (a ++ b)))

unfoldable pub parse_ed25519_key_blob : Bytes → Result Bytes
parse_ed25519_key_blob = run (do
  alg ← text
  if seq_eq alg ssh_ed25519
      then (do
        public ← string
        eof
        if length public == 32 then pure public else lift (err value_error))
      else lift (err value_error))
