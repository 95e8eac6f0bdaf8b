-- ===== src/Relay/Connection/Fields.antt =====
-- The fields that the handlers of `SSHConnection` read behind the message number of a packet.
use rever_ssh.Prelude.{ℕ, Bool}
use rever_ssh.Exn.{Result}
use rever_ssh.Bytes.{Bytes, Text}
use rever_ssh.SshEncoding.Reader
use rever_ssh.SshEncoding.Reader.{Read, run}

-- What stands behind the message number of a payload.
unfoldable pub behind_byte : {A : Type 0} → Read A → Bytes → Result A
behind_byte m payload = run (Reader.◌>>=◌ Reader.byte (λ b. m)) payload

unfoldable pub two_uint32 : Read (ℕ × ℕ)
two_uint32 = Reader.◌>>=◌ Reader.uint32 (λ a. Reader.◌>>=◌ Reader.uint32 (λ b. Reader.pure (a, b)))

unfoldable pub id_string : Read (ℕ × Bytes)
id_string = Reader.◌>>=◌ Reader.uint32 (λ a. Reader.◌>>=◌ Reader.string (λ b. Reader.pure (a, b)))

unfoldable pub id_uint32_string : Read (ℕ × ℕ × Bytes)
id_uint32_string =
    Reader.◌>>=◌ Reader.uint32 (λ a.
      Reader.◌>>=◌ Reader.uint32 (λ b. Reader.◌>>=◌ Reader.string (λ c. Reader.pure (a, b, c))))

-- reader.take(reader.remaining())
unfoldable pub take_remaining : Read Bytes
take_remaining r = Reader.take_bytes (Reader.remaining r) r

unfoldable pub global_fields : Read (Text × Bool × Bytes)
unfolding take_remaining
global_fields = Reader.◌>>=◌ Reader.text (λ a.
    Reader.◌>>=◌ Reader.boolean (λ b. Reader.◌>>=◌ take_remaining (λ c. Reader.pure (a, b, c))))

unfoldable pub request_fields : Read (ℕ × Text × Bool × Bytes)
unfolding global_fields
request_fields =
    Reader.◌>>=◌ Reader.uint32
      (λ i. Reader.◌>>=◌ global_fields (λ (a, b, c). Reader.pure (i, a, b, c)))

unfoldable pub bind_fields : Read (Text × ℕ)
bind_fields = Reader.◌>>=◌ Reader.text (λ a. Reader.◌>>=◌ Reader.uint32 (λ b. Reader.pure (a, b)))

unfoldable pub open_fields : Read (Text × ℕ × ℕ × ℕ)
open_fields = Reader.◌>>=◌ Reader.text (λ a. Reader.◌>>=◌ Reader.uint32 (λ b.
    Reader.◌>>=◌ Reader.uint32 (λ c. Reader.◌>>=◌ Reader.uint32 (λ d. Reader.pure (a, b, c, d)))))

unfoldable pub four_uint32 : Read (ℕ × ℕ × ℕ × ℕ)
four_uint32 =
    Reader.◌>>=◌ two_uint32 (λ (a, b). Reader.◌>>=◌ two_uint32 (λ (c, d). Reader.pure (a, b, c, d)))

-- The language behind the message is read and left.
unfoldable pub failure_fields : Read (ℕ × ℕ × Text)
failure_fields = Reader.◌>>=◌ two_uint32 (λ (a, b).
    Reader.◌>>=◌ Reader.text
      (λ message. Reader.◌>>=◌ Reader.text (λ language. Reader.pure (a, b, message))))
