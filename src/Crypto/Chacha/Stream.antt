-- ===== src/Crypto/Chacha/Stream.antt =====
-- `chacha20_xor`, its blocks and its loop.
use rever_ssh.Prelude.{
  ℕ, zero, suc, ◌+◌, ◌-◌, ◌*◌, ◌≤◌, ◌<◌, ◌≡◌, refl, sym, ap, ap₂, ◌∙◌, Bool-cases, inl, inr, true,
  leb, List, [], ◌∷◌, ◌++◌, map, arith, bit_and, length, length-append, length-take, length-drop,
  take, drop, take-append, drop-append, take-append-drop, take_all, drop_all, append-nil, min, All,
  All-append, All-take, All-drop, ==_iff, get_or, subst,
}
use rever_ssh.Exn.{Result, ok, ◌>>=◌, >>=-eq-ok}
use rever_ssh.Bytes.{Bytes, IsByte}
use rever_ssh.Bytes.Bits.{bit_xor-lt, bit_xor_cancel, bit_and-lt}
use rever_ssh.Bytes.Endian.{to_le, to_le-IsByte, length-to_le}
use rever_ssh.Crypto.Chacha.{
  chacha20_block, chacha20_xor, xor_bytes, xor_chunks, pack_words, start_state, rounds, indices,
  low32,
}

-- What `chacha20_block` returns has 64 bytes, and it returns for keys and nonces of the right size.
abbrev IsBlock : Bytes → Type 0
IsBlock b = (length b ≡ 64) × All IsByte b

pack_words-ok :
    (ws : List ℕ) (b : Bytes) → pack_words ws ≡ ok b → (length b ≡ 4 * length ws) × All IsByte b
unfolding pack_words
pack_words-ok [] b h = let e : ◌≡◌ {A = Bytes} [] b = ground arith in rw (← e) (refl, tt)
pack_words-ok (w ∷ ws) b h = elim (Bool-cases (leb w 0xffffffff)) [
  | inr e ↦ absurd (ground arith)
  | inl e ↦
      let (rest, p, q) = >>=-eq-ok (pack_words ws) _ (rw e at h) in
      let (size, bytes) = pack_words-ok ws rest p in
      let shape : to_le 4 w ++ rest ≡ b = ground arith in
      rw (← shape) (
        omega (arith, length-append (to_le 4 w) rest, length-to_le 4 w, size),
        All-append IsByte (to_le 4 w) rest (to_le-IsByte 4 w) bytes,
      )
]

-- Words that were masked pack.
pack_words_total :
    (f : ℕ → ℕ) (is : List ℕ)
    → (b : Bytes) × (pack_words (map (λ i. bit_and (f i) low32) is) ≡ ok b)
unfolding pack_words
pack_words_total f [] = ([], refl)
pack_words_total f (i ∷ is) =
    let (rest, e) = pack_words_total f is in
    let small : bit_and (f i) low32 < 4294967296 = bit_and-lt 32 (f i) low32 (omega arith) in
    let fits : leb (bit_and (f i) low32) 0xffffffff ≡ true = ground arith in
    (to_le 4 (bit_and (f i) low32) ++ rest, rw (fits, e) refl)

pub chacha20_block-IsBlock :
    (key nonce : Bytes) (counter : ℕ) (b : Bytes)
    → chacha20_block key nonce counter ≡ ok b
    → IsBlock b
unfolding chacha20_block
chacha20_block-IsBlock key nonce counter b h =
    let state = start_state key nonce counter in
    let working = rounds 10 state in
    let packed : pack_words
          (map (λ i. bit_and (get_or working i 0 + get_or state i 0) low32) indices)
        ≡ ok b =
      ground arith in
    pack_words-ok _ b packed

pub chacha20_block_total :
    (key nonce : Bytes) (counter : ℕ)
    → length key ≡ 32
    → length nonce ≡ 8
    → (b : Bytes) × (chacha20_block key nonce counter ≡ ok b)
unfolding chacha20_block
chacha20_block_total key nonce counter hk hn =
    let state = start_state key nonce counter in
    let working = rounds 10 state in
    let (b, e) = pack_words_total (λ i. get_or working i 0 + get_or state i 0) indices in
    (b, rw ((==_iff (length key) 32).1 hk, (==_iff (length nonce) 8).1 hn) e)

xor_bytes_lem :
    (c k : Bytes)
    → length c ≤ length k
    → All IsByte c
    → All IsByte k
    → (length (xor_bytes c k) ≡ length c)
      × All IsByte (xor_bytes c k)
      × (xor_bytes (xor_bytes c k) k ≡ c)
unfolding xor_bytes
xor_bytes_lem [] k h hc hk = (refl, tt, refl)
xor_bytes_lem (a ∷ c) [] h hc hk = absurd (omega arith)
xor_bytes_lem (a ∷ c) (b ∷ k) h (ha, hc) (hb, hk) =
    let (len, bytes, back) = xor_bytes_lem c k (omega arith) hc hk in
    (ap suc len, (bit_xor-lt 8 a b ha hb, bytes), ap₂ ◌∷◌ (bit_xor_cancel 8 a b ha hb) back)

-- A full chunk and what follows it, or a short chunk and nothing.
chunk_split :
    (n : ℕ) (c rest : Bytes)
    → length c ≤ n
    → (length c < n → length rest ≡ 0)
    → (take n (c ++ rest) ≡ c) × (drop n (c ++ rest) ≡ rest)
chunk_split n c [] short last =
    (rw append-nil (take_all n c short), rw append-nil (drop_all n c short))
chunk_split n c (x ∷ rest) short last =
    let full : length c ≡ n = grind arith in
    (take-append n c (x ∷ rest) full, drop-append n c (x ∷ rest) full)

module _ (block : ℕ → Result Bytes)
    (blocks : (n : ℕ) (b : Bytes) → block n ≡ ok b → IsBlock b) where
  xor_step :
      (fuel counter : ℕ) (b : Bytes)
      → 0 < length b
      → xor_chunks block (suc fuel) counter b ≡ (do
        keys ← block counter
        rest ← xor_chunks block fuel (bit_and (counter + 1) 0xffffffffffffffff) (drop 64 b)
        ok (xor_bytes (take 64 b) keys ++ rest))
  unfolding xor_chunks
  xor_step fuel counter [] h = absurd (omega arith)
  xor_step fuel counter (a ∷ b) h = refl

  -- The second run meets the same blocks.
  xor_chunks_lem :
      (fuel counter : ℕ) (b out : Bytes)
      → All IsByte b
      → xor_chunks block fuel counter b ≡ ok out
      → (length out ≡ length b) × All IsByte out × (xor_chunks block fuel counter out ≡ ok b)
  unfolding xor_chunks
  xor_chunks_lem zero counter b out hb h = cc
  xor_chunks_lem (suc fuel) counter [] out hb h =
      let e : ◌≡◌ {A = Bytes} [] out = ground arith in rw (← e) (refl, tt, refl)
  xor_chunks_lem (suc fuel) counter (a ∷ b) out hb h =
      let (keys, p, q) = >>=-eq-ok (block counter) _ h in
      let next : ℕ = bit_and (counter + 1) 0xffffffffffffffff in
      let (rest, r, s) = >>=-eq-ok (xor_chunks block fuel next (drop 64 (a ∷ b))) _ q in
      let (size, bytes) = blocks counter keys p in
      let c : Bytes = take 64 (a ∷ b) in
      let c' : Bytes = xor_bytes c keys in
      let c_len : length c ≡ min 64 (length (a ∷ b)) = length-take 64 (a ∷ b) in
      let d_len : length (drop 64 (a ∷ b)) ≡ length (a ∷ b) - 64 = length-drop 64 (a ∷ b) in
      let (len, bytes', back) =
        xor_bytes_lem c keys (omega arith) (All-take IsByte 64 (a ∷ b) hb) bytes in
      let (len', bytes'', back') =
        xor_chunks_lem fuel next (drop 64 (a ∷ b)) rest (All-drop IsByte 64 (a ∷ b) hb) r in
      let (front, behind) = chunk_split 64 c' rest (omega arith) (λ short. omega arith) in
      let shape : c' ++ rest ≡ out = ground arith in
      rw (← shape) (
        omega (arith, length-append c' rest),
        All-append IsByte c' rest bytes' bytes'',
        xor_step fuel counter (c' ++ rest) (omega (arith, length-append c' rest))
            ∙ rw (p, front, behind, back', back)
                (ap (λ (t : Bytes). ok t) (take-append-drop 64 (a ∷ b))),
      )

-- Where `chacha20_xor` returns, it keeps the length, and applied once more it gives back the bytes.
pub chacha20_xor-chacha20_xor :
    (key nonce : Bytes) (counter : ℕ) (b out : Bytes)
    → All IsByte b
    → chacha20_xor key nonce counter b ≡ ok out
    → (length out ≡ length b) × All IsByte out × (chacha20_xor key nonce counter out ≡ ok b)
unfolding chacha20_xor
chacha20_xor-chacha20_xor key nonce counter b out hb h =
    let (len, bytes, back) =
      xor_chunks_lem (chacha20_block key nonce) (chacha20_block-IsBlock key nonce) (suc (length b))
        counter b out hb h in
    (
      len,
      bytes,
      subst (λ (n : ℕ). xor_chunks (chacha20_block key nonce) (suc n) counter out ≡ ok b) (sym len)
          back,
    )

xor_chunks_total :
    (key nonce : Bytes) (fuel counter : ℕ) (b : Bytes)
    → length key ≡ 32
    → length nonce ≡ 8
    → length b < fuel
    → (out : Bytes) × (xor_chunks (chacha20_block key nonce) fuel counter b ≡ ok out)
unfolding xor_chunks
xor_chunks_total key nonce zero counter b hk hn h = absurd (omega arith)
xor_chunks_total key nonce (suc fuel) counter [] hk hn h = ([], refl)
xor_chunks_total key nonce (suc fuel) counter (a ∷ b) hk hn h =
    let (keys, p) = chacha20_block_total key nonce counter hk hn in
    let (rest, q) =
      xor_chunks_total key nonce fuel (bit_and (counter + 1) 0xffffffffffffffff) (drop 64 (a ∷ b))
        hk hn (omega (arith, length-drop 64 (a ∷ b))) in
    (xor_bytes (take 64 (a ∷ b)) keys ++ rest, rw (p, q))

-- With a key of 32 bytes and a nonce of 8 `chacha20_xor` returns, whatever the data and the counter:
-- every block's words fit the four bytes that `struct.pack` gives them.
pub chacha20_xor_total :
    (key nonce : Bytes) (counter : ℕ) (b : Bytes)
    → length key ≡ 32
    → length nonce ≡ 8
    → (out : Bytes) × (chacha20_xor key nonce counter b ≡ ok out)
unfolding chacha20_xor
chacha20_xor_total key nonce counter b hk hn =
    xor_chunks_total key nonce (suc (length b)) counter b hk hn (omega arith)
