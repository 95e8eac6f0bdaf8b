-- ===== src/SshEncoding/Total.antt =====
-- When the writers return.
use rever_ssh.Prelude.{ℕ, ◌*◌, ◌≤◌, ◌≡◌, ◌++◌, arith, length, All, le→leb}
use rever_ssh.Exn.{ok}
use rever_ssh.Bytes.{Bytes, Text}
use rever_ssh.Bytes.Endian.{to_be}
use rever_ssh.Bytes.Utf8.RoundTrip.{encode_total, IsScalar}
use rever_ssh.SshEncoding.Writer.{uint32, string, text}

abbrev pub IsUint32 : ℕ → Type 0
IsUint32 n = n ≤ 0xffffffff

-- A text that encodes, and whose encoding has a length that fits a uint32.
abbrev pub IsShortText : Text → Type 0
IsShortText t = All IsScalar t × (4 * length t ≤ 0xffffffff)

pub uint32_total : (n : ℕ) → IsUint32 n → uint32 n ≡ ok (to_be 4 n)
unfolding uint32
uint32_total n h = rw (le→leb n 0xffffffff h)

pub string_total : (b : Bytes) → IsUint32 (length b) → string b ≡ ok (to_be 4 (length b) ++ b)
unfolding string
string_total b h = rw (uint32_total (length b) h)

pub text_total : (t : Text) → IsShortText t → (e : Bytes) × (text t ≡ ok e)
unfolding text
text_total t (scalar, short) =
    let (raw, p, l) = encode_total t scalar in
    (to_be 4 (length raw) ++ raw, rw (p, string_total raw (omega arith)))
