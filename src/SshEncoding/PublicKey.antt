-- ===== src/SshEncoding/PublicKey.antt =====
-- `public_key_fingerprint` of reverssh/ssh_encoding.py. `hashlib.sha256` and `base64.b64encode` are
-- arguments.
use rever_ssh.Prelude.{[], ◌∷◌, ◌++◌, ◌&&◌, ◌==◌, codes, if◌then◌else◌}
use rever_ssh.Bytes.{Bytes, Text}
use rever_ssh.Sock.{is_empty}

-- text.rstrip("=")
rstrip_equals : Text → Text
rstrip_equals [] = []
rstrip_equals (c ∷ cs) =
    let rest = rstrip_equals cs in if c == b'=' && is_empty rest then [] else c ∷ rest

unfoldable pub public_key_fingerprint : (Bytes → Bytes) → (Bytes → Text) → Bytes → Text
unfolding rstrip_equals
public_key_fingerprint sha256 b64encode key_blob =
    codes "SHA256:" ++ rstrip_equals (b64encode (sha256 key_blob))
