-- ===== src/SshEncoding/Reader.antt =====
-- The class `Reader` of reverssh/ssh_encoding.py. A method takes the reader and returns its value
-- with the reader after it. Where a method raises the reader is dropped: no caller uses it again.
use rever_ssh.Prelude.{
  ℕ, ◌+◌, ◌-◌, Bool, true, false, List, [], ◌∷◌, length, take, drop, ltb, ◌==◌, bit_and,
  if◌then◌else◌,
}
use rever_ssh.Exn
use rever_ssh.Exn.{Result, ok, err, ssh_decode_error, index_error}
use rever_ssh.Bytes.{Bytes, Text}
use rever_ssh.Bytes.Endian.{from_be}
use rever_ssh.Bytes.Utf8.{decode}

pub record Reader : Type 0 where
  pub payload : Bytes
  pub offset : ℕ

-- Reader(data)
abbrev pub reader : Bytes → Reader
reader b = record { payload = b; offset = 0 }

abbrev pub Read {ℓ} : Type ℓ → Type ℓ
Read A = Reader → Result (A × Reader)

infixl 5 ◌>>=◌ ◌>>◌
unfoldable pub ◌>>=◌ {ℓ κ} : {A : Type ℓ} {B : Type κ} → Read A → (A → Read B) → Read B
◌>>=◌ m f r = Exn.◌>>=◌ (m r) (λ (a, r'). f a r')

abbrev pub ◌>>◌ {ℓ} : {B : Type ℓ} → Read (Unit {0}) → Read B → Read B
m >> k = m >>= λ _. k

unfoldable pub pure {ℓ} : {A : Type ℓ} → A → Read A
pure a r = ok (a, r)

-- What does not move the reader.
unfoldable pub lift {ℓ} : {A : Type ℓ} → Result A → Read A
lift m r = Exn.◌>>=◌ m (λ a. ok (a, r))

-- The value alone, as the caller of a fresh reader keeps it.
abbrev pub run {ℓ} : {A : Type ℓ} → Read A → Bytes → Result A
run m b = Exn.◌>>=◌ (m (reader b)) (λ (a, r'). ok a)

unfoldable pub remaining : Reader → ℕ
remaining r = length r.payload - r.offset

-- A size is the value of an unsigned field, so the test for a negative one never holds.
unfoldable pub take_bytes : ℕ → Read Bytes
take_bytes size r =
    if ltb (length r.payload) (r.offset + size)
    then err ssh_decode_error
    else ok (take size (drop r.offset r.payload), record r { offset = r.offset + size })

-- `b[0]`
abbrev pub first : Bytes → Result ℕ
first [] = err index_error
first (b ∷ bs) = ok b

unfoldable pub byte : Read ℕ
byte = do b ← take_bytes 1; lift (first b)

unfoldable pub boolean : Read Bool
boolean = do
  value ← byte
  if value == 0 then pure false else if value == 1 then pure true else lift (err ssh_decode_error)

unfoldable pub uint32 : Read ℕ
uint32 = do b ← take_bytes 4; pure (from_be b)

unfoldable pub uint64 : Read ℕ
uint64 = do b ← take_bytes 8; pure (from_be b)

unfoldable pub string : Read Bytes
string = do size ← uint32; take_bytes size

unfoldable pub text : Read Text
text = do raw ← string; lift (decode raw)

add_char : ℕ → List Text → List Text
add_char c [] = []
add_char c (name ∷ names) = if c == b',' then [] ∷ name ∷ names else (c ∷ name) ∷ names

-- value.split(","): the names before each comma, and what follows the last one
unfoldable pub split : Text → List Text
unfolding add_char
split [] = [] ∷ []
split (c ∷ cs) = add_char c (split cs)

-- `if not raw: return []`
names_of : Bytes → Result (List Text)
names_of [] = ok []
names_of (b ∷ bs) = Exn.◌>>=◌ (decode (b ∷ bs)) (λ t. ok (split t))

unfoldable pub name_list : Read (List Text)
unfolding split names_of
name_list = do raw ← string; lift (names_of raw)

mpint_of : Bytes → Result ℕ
mpint_of [] = ok 0
mpint_of (b ∷ bs) = if bit_and b 0x80 == 0 then ok (from_be (b ∷ bs)) else err ssh_decode_error

unfoldable pub mpint : Read ℕ
unfolding mpint_of
mpint = do raw ← string; lift (mpint_of raw)

unfoldable pub eof : Read (Unit {0})
eof r = if remaining r == 0 then ok (tt, r) else err ssh_decode_error
