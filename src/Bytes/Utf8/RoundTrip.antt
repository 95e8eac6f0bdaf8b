-- ===== src/Bytes/Utf8/RoundTrip.antt =====
-- Encoding and decoding of texts, one after the other.
use rever_ssh.Prelude.{
  ℕ, ◌+◌, ◌-◌, ◌*◌, ◌/◌, ◌%◌, ◌≤◌, ◌<◌, ◌≡◌, refl, ◌∙◌, ◌&&◌, ◌⊎◌, [], ◌∷◌, ◌++◌, arith, All,
  length, length-append, ltb, leb, ◌==◌, if◌then◌else◌, Bool-cases, false, inl, inr,
}
use rever_ssh.Exn.{Result, ok, err, ◌>>=◌, >>=-eq-ok}
use rever_ssh.Bytes.{Bytes, Text}
use rever_ssh.Bytes.Utf8.{
  encode_char, encode, Phase, between, inside, step, decode_from, decode, IsChar,
}

bind-ok {ℓ} : {A : Type ℓ} (m : Result A) → (m >>= λ a. ok a) ≡ m
bind-ok (ok a) = refl
bind-ok (err e) = refl

silent :
    (p p' : Phase) (b : ℕ) (bs : Bytes)
    → step p b ≡ ok ([], p')
    → decode_from p (b ∷ bs) ≡ decode_from p' bs
unfolding decode_from
silent p p' b bs h = rw h (bind-ok (decode_from p' bs))

emits :
    (p : Phase) (b c : ℕ) (bs : Bytes)
    → step p b ≡ ok (c ∷ [], between)
    → decode_from p (b ∷ bs) ≡ (do rest ← decode_from between bs; ok (c ∷ rest))
unfolding decode_from
emits p b c bs h = rw h

module _ (c acc low : ℕ) (bs : Bytes) (small : low < 64) where
  -- The last byte of a character, and one before it.
  closes :
      acc * 64 + low ≡ c
      → decode_from (inside 1 0x80 0xbf acc) ((0x80 + low) ∷ bs)
        ≡ (do rest ← decode_from between bs; ok (c ∷ rest))
  closes e = emits (inside 1 0x80 0xbf acc) (0x80 + low) c bs (unfold step in ground arith)

  continues :
      (left lo hi : ℕ)
      → 1 < left
      → lo ≤ 0x80 + low
      → 0x80 + low ≤ hi
      → acc * 64 + low ≡ c
      → decode_from (inside left lo hi acc) ((0x80 + low) ∷ bs)
        ≡ decode_from (inside (left - 1) 0x80 0xbf c) bs
  continues left lo hi l p q e =
      silent (inside left lo hi acc) (inside (left - 1) 0x80 0xbf c) (0x80 + low) bs
        (unfold step in ground arith)

module _ (c : ℕ) (bs : Bytes) where
  two_bytes :
      0x80 ≤ c
      → c < 0x800
      → decode_from between ((0xc0 + c / 64) ∷ (0x80 + c % 64) ∷ bs)
        ≡ (do rest ← decode_from between bs; ok (c ∷ rest))
  two_bytes p q =
      silent between (inside 1 0x80 0xbf (c / 64)) (0xc0 + c / 64) _ (unfold step in ground arith)
      ∙ closes c (c / 64) (c % 64) bs (omega arith) (omega arith)

  three_bytes :
      0x800 ≤ c
      → c < 0x10000
      → (leb 0xd800 c && leb c 0xdfff) ≡ false
      → decode_from between ((0xe0 + c / 4096) ∷ (0x80 + c / 64 % 64) ∷ (0x80 + c % 64) ∷ bs)
        ≡ (do rest ← decode_from between bs; ok (c ∷ rest))
  three_bytes p q s =
      let b : ℕ = 0xe0 + c / 4096 in
      let lo : ℕ = if b == 0xe0 then 0xa0 else 0x80 in
      let hi : ℕ = if b == 0xed then 0x9f else 0xbf in
      silent between (inside 2 lo hi (c / 4096)) b _ (unfold step in ground arith)
      ∙ continues (c / 64) (c / 4096) (c / 64 % 64) ((0x80 + c % 64) ∷ bs) (omega arith) 2 lo hi
          (omega arith) (ground arith) (ground arith) (omega arith)
      ∙ closes c (c / 64) (c % 64) bs (omega arith) (omega arith)

  four_bytes :
      0x10000 ≤ c
      → IsChar c
      → decode_from between (
          (0xf0 + c / 262144)
          ∷ (0x80 + c / 4096 % 64)
          ∷ (0x80 + c / 64 % 64)
          ∷ (0x80 + c % 64)
          ∷ bs)
        ≡ (do rest ← decode_from between bs; ok (c ∷ rest))
  four_bytes p q =
      let b : ℕ = 0xf0 + c / 262144 in
      let lo : ℕ = if b == 0xf0 then 0x90 else 0x80 in
      let hi : ℕ = if b == 0xf4 then 0x8f else 0xbf in
      let low : Bytes = (0x80 + c % 64) ∷ bs in
      silent between (inside 3 lo hi (c / 262144)) b _ (unfold step in ground arith)
      ∙ continues (c / 4096) (c / 262144) (c / 4096 % 64) ((0x80 + c / 64 % 64) ∷ low) (omega arith)
          3 lo hi (omega arith) (ground arith) (ground arith) (omega arith)
      ∙ continues (c / 64) (c / 4096) (c / 64 % 64) low (omega arith) 2 0x80 0xbf (omega arith)
          (omega arith) (omega arith) (omega arith)
      ∙ closes c (c / 64) (c % 64) bs (omega arith) (omega arith)

-- A character's bytes decode to that character, and leave the decoder between two characters.
decode-encode_char :
    (c : ℕ) (e bs : Bytes)
    → IsChar c
    → encode_char c ≡ ok e
    → decode_from between (e ++ bs) ≡ (do rest ← decode_from between bs; ok (c ∷ rest))
unfolding encode_char
decode-encode_char c e bs h p = elim (Bool-cases (ltb c 0x80)) [
  | inl a ↦ ground (arith, emits between c c bs (unfold step in ground arith))
  | inr a ↦ elim (Bool-cases (ltb c 0x800)) [
    | inl b ↦ ground (arith, two_bytes c bs (ground arith) (ground arith))
    | inr b ↦ elim (Bool-cases (leb 0xd800 c && leb c 0xdfff)) [
      | inl s ↦ ground arith
      | inr s ↦ elim (Bool-cases (ltb c 0x10000)) [
        | inl d ↦ ground (arith, three_bytes c bs (ground arith) (ground arith) s)
        | inr d ↦ ground (arith, four_bytes c bs (ground arith) h)
      ]
    ]
  ]
]

pub decode-encode : (t : Text) (bs : Bytes) → All IsChar t → encode t ≡ ok bs → decode bs ≡ ok t
unfolding encode decode_from decode
decode-encode [] bs h p = ground arith
decode-encode (c ∷ cs) bs (hc, hs) p =
    let (e, pe, q) = >>=-eq-ok (encode_char c) _ p in
    let (rest, pr, r) = >>=-eq-ok (encode cs) _ q in
    ground (arith, decode-encode_char c e rest hc pe, decode-encode cs rest hs pr)

-- A character that encodes: anything but a surrogate.
abbrev pub IsScalar : ℕ → Type 0
IsScalar c = IsChar c × ((c < 0xd800) ⊎ (0xe000 ≤ c))

encode_char_total : (c : ℕ) → IsScalar c → (e : Bytes) × (encode_char c ≡ ok e) × (length e ≤ 4)
unfolding encode_char
encode_char_total c h = elim (Bool-cases (ltb c 0x80)) [
  | inl a ↦ (c ∷ [], rw a, omega arith)
  | inr a ↦ elim (Bool-cases (ltb c 0x800)) [
    | inl b ↦ ((0xc0 + c / 64) ∷ (0x80 + c % 64) ∷ [], rw (a, b), omega arith)
    | inr b ↦
        let s : (leb 0xd800 c && leb c 0xdfff) ≡ false = ground arith in
        elim (Bool-cases (ltb c 0x10000)) [
          | inl d ↦ (
            (0xe0 + c / 4096) ∷ (0x80 + c / 64 % 64) ∷ (0x80 + c % 64) ∷ [],
            rw (a, b, s, d),
            omega arith,
          )
          | inr d ↦ (
            (0xf0 + c / 262144)
                ∷ (0x80 + c / 4096 % 64)
                ∷ (0x80 + c / 64 % 64)
                ∷ (0x80 + c % 64)
                ∷ [],
            rw (a, b, s, d),
            omega arith,
          )
        ]
  ]
]

pub encode_total :
    (t : Text) → All IsScalar t → (e : Bytes) × (encode t ≡ ok e) × (length e ≤ 4 * length t)
unfolding encode
encode_total [] h = ([], refl, omega arith)
encode_total (c ∷ cs) (hc, hs) =
    let (e, p, l) = encode_char_total c hc in
    let (rest, q, m) = encode_total cs hs in
    (e ++ rest, rw (p, q), omega (arith, length-append e rest))

pub All-IsScalar-IsChar : (t : Text) → All IsScalar t → All IsChar t
All-IsScalar-IsChar [] h = tt
All-IsScalar-IsChar (c ∷ cs) (hc, hs) = (hc.0, All-IsScalar-IsChar cs hs)
