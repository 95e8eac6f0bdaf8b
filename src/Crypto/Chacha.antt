-- ===== src/Crypto/Chacha.antt =====
-- reverssh/crypto/chacha.py: ChaCha20 with a 64-bit counter and a 64-bit nonce.
pub mod Stream
use rever_ssh.Prelude.{
  ℕ, zero, suc, ◌+◌, ◌-◌, ◌*◌, ◌/◌, ◌%◌, ◌^◌, List, [], ◌∷◌, ◌++◌, map, bit_and, bit_or, bit_xor,
  length, get_or, set, take, drop, leb, ◌==◌, if◌then◌else◌, codes,
}
use rever_ssh.Exn.{Result, ok, err, value_error, struct_error, out_of_fuel, ◌>>=◌}
use rever_ssh.Bytes.{Bytes}
use rever_ssh.Bytes.Endian.{to_le, from_le}

abbrev pub low32 : ℕ
low32 = 0xffffffff

rotl32 : ℕ → ℕ → ℕ
rotl32 value shift = bit_or (bit_and (value * 2 ^ shift) low32) (value / 2 ^ (32 - shift))

add_to : ℕ → ℕ → List ℕ → List ℕ
add_to i j state = set state i (bit_and (get_or state i 0 + get_or state j 0) low32)

mix_to : ℕ → ℕ → ℕ → List ℕ → List ℕ
unfolding rotl32
mix_to i j shift state = set state i (rotl32 (bit_xor (get_or state i 0) (get_or state j 0)) shift)

-- The eight assignments, in their order.
quarter_round : ℕ → ℕ → ℕ → ℕ → List ℕ → List ℕ
unfolding add_to mix_to
quarter_round a b c d s0 =
    let s1 = add_to a b s0 in
    let s2 = mix_to d a 16 s1 in
    let s3 = add_to c d s2 in
    let s4 = mix_to b c 12 s3 in
    let s5 = add_to a b s4 in let s6 = mix_to d a 8 s5 in let s7 = add_to c d s6 in mix_to b c 7 s7

double_round : List ℕ → List ℕ
unfolding quarter_round
double_round w0 =
    let w1 = quarter_round 0 4 8 12 w0 in
    let w2 = quarter_round 1 5 9 13 w1 in
    let w3 = quarter_round 2 6 10 14 w2 in
    let w4 = quarter_round 3 7 11 15 w3 in
    let w5 = quarter_round 0 5 10 15 w4 in
    let w6 = quarter_round 1 6 11 12 w5 in
    let w7 = quarter_round 2 7 8 13 w6 in quarter_round 3 4 9 14 w7

rounds : ℕ → List ℕ → List ℕ
unfolding double_round
rounds zero working = working
rounds (suc n) working = rounds n (double_round working)

-- struct.unpack("<nI", b), for a `b` of 4 * n bytes
words : Bytes → List ℕ
words (a ∷ b ∷ c ∷ d ∷ rest) = from_le (a ∷ b ∷ c ∷ d ∷ []) ∷ words rest
words _ = []

-- struct.pack("<nI", *ws)
pack_words : List ℕ → Result Bytes
pack_words [] = ok []
pack_words (w ∷ ws) =
    let packed = pack_words ws in
    if leb w 0xffffffff then packed >>= (λ rest. ok (to_le 4 w ++ rest)) else err struct_error

abbrev indices : List ℕ
indices = 0 ∷ 1 ∷ 2 ∷ 3 ∷ 4 ∷ 5 ∷ 6 ∷ 7 ∷ 8 ∷ 9 ∷ 10 ∷ 11 ∷ 12 ∷ 13 ∷ 14 ∷ 15 ∷ []

start_state : Bytes → Bytes → ℕ → List ℕ
unfolding words from_le
start_state key nonce counter =
    words (codes "expand 32-byte k")
    ++ (words key ++ (bit_and counter low32 ∷ bit_and (counter / 2 ^ 32) low32 ∷ words nonce))

pub chacha20_block : Bytes → Bytes → ℕ → Result Bytes
chacha20_block key nonce counter =
    if length key == 32
    then (if length nonce == 8
        then (let state = start_state key nonce counter in
            let working = rounds 10 state in
            pack_words (map (λ i. bit_and (get_or working i 0 + get_or state i 0) low32) indices))
        else err value_error)
    else err value_error

-- bytes(a ^ b for a, b in zip(chunk, block))
xor_bytes : Bytes → Bytes → Bytes
xor_bytes [] block = []
xor_bytes (a ∷ chunk) [] = []
xor_bytes (a ∷ chunk) (b ∷ block) = bit_xor a b ∷ xor_bytes chunk block

-- The loop over the chunks of 64 bytes; `left` is what the loop has not reached.
xor_chunks : (ℕ → Result Bytes) → ℕ → ℕ → Bytes → Result Bytes
xor_chunks block zero counter left = err out_of_fuel
xor_chunks block (suc fuel) counter [] = ok []
xor_chunks block (suc fuel) counter (b ∷ left) = do
  keys ← block counter
  rest ← xor_chunks block fuel (bit_and (counter + 1) 0xffffffffffffffff) (drop 64 (b ∷ left))
  ok (xor_bytes (take 64 (b ∷ left)) keys ++ rest)

pub chacha20_xor : Bytes → Bytes → ℕ → Bytes → Result Bytes
chacha20_xor key nonce counter b = xor_chunks (chacha20_block key nonce) (suc (length b)) counter b
