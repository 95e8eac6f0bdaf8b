-- ===== src/Keys/RoundTrip.antt =====
-- Building and parsing a key blob.
use rever_ssh.Prelude.{◌≡◌, ◌++◌, true, arith, length, seq_eq_self, ==_iff, ◌==◌, if◌then◌else◌}
use rever_ssh.Exn.{ok, err, value_error, >>=-eq-ok}
use rever_ssh.Bytes.{Bytes}
use rever_ssh.SshEncoding.Writer
use rever_ssh.SshEncoding.Reader.{pure, lift, eof, string, ◌>>=◌, ◌>>◌}
use rever_ssh.SshEncoding.RoundTrip.{
  Ends, run-Ends, Ends-bind, Ends-last, Ends-eof, Reads-text, Reads-string,
}
use rever_ssh.Keys.{ssh_ed25519, ed25519_key_blob, parse_ed25519_key_blob}

key_tail :
    (public b : Bytes)
    → length public ≡ 32
    → Writer.string public ≡ ok b
    → Ends
        (do key ← string; eof; if length key == 32 then pure key else lift (err value_error))
        b
        public
key_tail public b size q =
    let fits : (length public == 32) ≡ true = (==_iff (length public) 32).1 size in
    Ends-last _ _ (Reads-string public q) (rw fits (Ends-eof public))

-- If `ed25519_key_blob` succeeds for 32 bytes, `parse_ed25519_key_blob` returns those bytes.
pub parse-ed25519_key_blob :
    (public blob : Bytes)
    → length public ≡ 32
    → ed25519_key_blob public ≡ ok blob
    → parse_ed25519_key_blob blob ≡ ok public
unfolding ed25519_key_blob parse_ed25519_key_blob
parse-ed25519_key_blob public blob size h =
    let (a, p, h1) = >>=-eq-ok (Writer.text ssh_ed25519) _ h in
    let (b, q, h2) = >>=-eq-ok (Writer.string public) _ h1 in
    let shape : a ++ b ≡ blob = ground arith in
    rw (← shape) (
      run-Ends _ (
        Ends-bind _ _ (Reads-text ssh_ed25519 (omega arith) p)
          (rw (seq_eq_self ssh_ed25519) (key_tail public b size q))))
