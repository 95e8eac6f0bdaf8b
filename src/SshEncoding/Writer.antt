-- ===== src/SshEncoding/Writer.antt =====
-- The encoding functions of reverssh/ssh_encoding.py. Each returns the bytes, or what it raises.
use rever_ssh.Prelude.{
  ℕ, zero, suc, ◌+◌, ◌/◌, Bool, List, [], ◌∷◌, ◌++◌, length, leb, ◌==◌, bit_and, get_or,
  if◌then◌else◌,
}
use rever_ssh.Exn.{Result, ok, err, value_error, struct_error, ◌>>=◌}
use rever_ssh.Bytes.{Bytes, Text}
use rever_ssh.Bytes.Endian.{to_be}
use rever_ssh.Bytes.Utf8.{encode}

-- struct.pack(">B", value)
unfoldable pub byte : ℕ → Result Bytes
byte value = if leb value 0xff then ok (value ∷ []) else err struct_error

unfoldable pub boolean : Bool → Bytes
boolean value = if value then 1 ∷ [] else 0 ∷ []

unfoldable pub uint32 : ℕ → Result Bytes
uint32 value = if leb value 0xffffffff then ok (to_be 4 value) else err value_error

unfoldable pub uint64 : ℕ → Result Bytes
uint64 value = if leb value 0xffffffffffffffff then ok (to_be 8 value) else err value_error

-- string of a bytes value
unfoldable pub string : Bytes → Result Bytes
string value = do size ← uint32 (length value); ok (size ++ value)

-- string of a str value
unfoldable pub text : Text → Result Bytes
text value = do raw ← encode value; string raw

-- ",".join(names)
unfoldable pub join : List Text → Text
join [] = []
join (name ∷ []) = name
join (name ∷ other ∷ names) = name ++ b',' ∷ join (other ∷ names)

unfoldable pub name_list : List Text → Result Bytes
unfolding join
name_list names = do raw ← encode (join names); string raw

-- The number of bits of `value`; `fuel` bounds it.
bit_length_from : ℕ → ℕ → ℕ
bit_length_from zero value = 0
bit_length_from (suc fuel) value =
    let rest = bit_length_from fuel (value / 2) in if value == 0 then 0 else rest + 1

unfoldable pub bit_length : ℕ → ℕ
unfolding bit_length_from
bit_length value = bit_length_from value value

-- A negative value has no number here: the callers pass what `int.from_bytes` returns.
unfoldable pub mpint : ℕ → Result Bytes
mpint value =
    if value == 0
    then uint32 0
    else let raw : Bytes = to_be ((bit_length value + 7) / 8) value in
      if bit_and (get_or raw 0 0) 0x80 == 0 then string raw else string (0 ∷ raw)
