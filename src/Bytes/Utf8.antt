-- ===== src/Bytes/Utf8.antt =====
-- `str.encode` and `bytes.decode`: strict UTF-8. A surrogate does not encode; an overlong form, an
-- encoded surrogate, a number past 0x10FFFF and a cut sequence do not decode.
pub mod RoundTrip
use rever_ssh.Prelude.{
  ℕ, ◌+◌, ◌-◌, ◌*◌, ◌/◌, ◌%◌, ◌<◌, ◌&&◌, [], ◌∷◌, ◌++◌, ltb, leb, ◌==◌, if◌then◌else◌,
}
use rever_ssh.Exn.{Result, ok, err, unicode_error, ◌>>=◌}
use rever_ssh.Bytes.{Bytes, Text}

-- What a Python `str` can hold.
abbrev pub IsChar : ℕ → Type 0
IsChar c = c < 0x110000

encode_char : ℕ → Result Bytes
encode_char c =
    if ltb c 0x80
    then ok (c ∷ [])
    else if ltb c 0x800
    then ok ((0xc0 + c / 64) ∷ (0x80 + c % 64) ∷ [])
    else if leb 0xd800 c && leb c 0xdfff
    then err unicode_error
    else if ltb c 0x10000
    then ok ((0xe0 + c / 4096) ∷ (0x80 + c / 64 % 64) ∷ (0x80 + c % 64) ∷ [])
    else ok
        ((0xf0 + c / 262144) ∷ (0x80 + c / 4096 % 64) ∷ (0x80 + c / 64 % 64) ∷ (0x80 + c % 64) ∷ [])

-- text.encode()
unfoldable pub encode : Text → Result Bytes
unfolding encode_char
encode [] = ok []
encode (c ∷ cs) = do e ← encode_char c; rest ← encode cs; ok (e ++ rest)

-- Between two characters, or inside one: the bytes that are still to come, the range of the next
-- one, and the bits so far.
pub data Phase : Type 0 where
  between : Phase
  inside : ℕ → ℕ → ℕ → ℕ → Phase

first_byte : ℕ → Result (Text × Phase)
first_byte b =
    if ltb b 0x80
    then ok (b ∷ [], between)
    else if ltb b 0xc2
    then err unicode_error
    else if ltb b 0xe0
    then ok ([], inside 1 0x80 0xbf (b - 0xc0))
    else if ltb b 0xf0
    then ok (
      [],
      inside 2 (if b == 0xe0 then 0xa0 else 0x80) (if b == 0xed then 0x9f else 0xbf) (b - 0xe0),
    )
    else if ltb b 0xf5
    then ok (
      [],
      inside 3 (if b == 0xf0 then 0x90 else 0x80) (if b == 0xf4 then 0x8f else 0xbf) (b - 0xf0),
    )
    else err unicode_error

next_byte : ℕ → ℕ → ℕ → ℕ → ℕ → Result (Text × Phase)
next_byte left lo hi acc b =
    let bits = acc * 64 + (b - 0x80) in
    if leb lo b && leb b hi
    then (if left == 1 then ok (bits ∷ [], between) else ok ([], inside (left - 1) 0x80 0xbf bits))
    else err unicode_error

step : Phase → ℕ → Result (Text × Phase)
unfolding first_byte next_byte
step between b = first_byte b
step (inside left lo hi acc) b = next_byte left lo hi acc b

decode_from : Phase → Bytes → Result Text
decode_from between [] = ok []
decode_from (inside left lo hi acc) [] = err unicode_error
decode_from p (b ∷ bs) = do (out, p') ← step p b; rest ← decode_from p' bs; ok (out ++ rest)

-- data.decode()
unfoldable pub decode : Bytes → Result Text
unfolding decode_from step
decode = decode_from between
