-- ===== src/SshPacket/Cipher/Seal.antt =====
-- Sealing and opening packets (`OpenSSHChaCha20Poly1305`, `_constant_time_equal`).
use rever_ssh.Prelude.{
  ℕ, ◌+◌, ◌-◌, ◌≤◌, ◌<◌, ◌≡◌, ◌↔◌, refl, sym, ap, ◌∙◌, true, false, [], ◌∷◌, ◌++◌, append_assoc,
  arith, bit_or, bit_xor, length, length-append, length-take, length-drop, take, drop, take-append,
  drop-append, take-append-drop, All, All-take, All-drop, ltb, ◌==◌, ==_iff, le→ltb_false,
  Bool-cases, inl, inr,
}
use rever_ssh.Exn.{ok, >>=-eq-ok}
use rever_ssh.Bytes.{Bytes, IsByte}
use rever_ssh.Bytes.Bits.{bit_or-lt, bit_xor-lt, bit_or-zero, bit_xor-zero}
use rever_ssh.Bytes.Endian.{from_be}
use rever_ssh.Crypto.Chacha.{chacha20_block, chacha20_xor}
use rever_ssh.Crypto.Chacha.Stream.{chacha20_xor-chacha20_xor, chacha20_block-IsBlock}
use rever_ssh.Crypto.Poly1305.{poly1305_mac}
use rever_ssh.Crypto.Poly1305.Polynomial.{poly1305_mac_tag}
use rever_ssh.SshPacket.Cipher.{
  Cipher, nonce_of, encrypt_packet, decrypt_packet, decrypt_length, differences,
  constant_time_equal,
}

differences_lem :
    (result : ℕ) (a b : Bytes)
    → result < 256
    → All IsByte a
    → All IsByte b
    → length a ≡ length b
    → (differences result a b ≡ 0) ↔ ((result ≡ 0) × (a ≡ b))
unfolding differences
differences_lem result [] [] hr ha hb len = ground arith
differences_lem result [] (y ∷ b) hr ha hb len = absurd (omega arith)
differences_lem result (x ∷ a) [] hr ha hb len = absurd (omega arith)
differences_lem result (x ∷ a) (y ∷ b) hr (hx, ha) (hy, hb) len = ground (
  arith,
  bit_or-zero 8 result (bit_xor x y) hr (bit_xor-lt 8 x y hx hy),
  bit_xor-zero 8 x y hx hy,
  differences_lem (bit_or result (bit_xor x y)) a b
      (bit_or-lt 8 result (bit_xor x y) hr (bit_xor-lt 8 x y hx hy)) ha hb (omega arith),
)

-- The comparison that looks at every byte decides equality.
pub constant_time_equal_iff :
    (a b : Bytes) → All IsByte a → All IsByte b → (constant_time_equal a b ≡ true) ↔ (a ≡ b)
unfolding constant_time_equal
constant_time_equal_iff a b ha hb = elim (Bool-cases (length a == length b)) [
  | inl e ↦
      let len : length a ≡ length b = ground arith in
      let (zero→eq, eq→zero) = differences_lem 0 a b (omega arith) ha hb len in
      rw e ((λ h. (zero→eq ((==_iff _ 0).0 h)).1), (λ h. (==_iff _ 0).1 (eq→zero (refl, h))))
  | inr e ↦ rw e ((λ h. cc), (λ h. ground (arith, ap (λ (t : Bytes). length t) h)))
]

module _ (el ep tag : Bytes) (el_size : length el ≡ 4) (tag_size : length tag ≡ 16) where
  wire_length : length (el ++ (ep ++ tag)) ≡ length ep + 20
  wire_length = omega (arith, length-append el (ep ++ tag), length-append ep tag)

  body_length : length (el ++ ep) ≡ length (el ++ (ep ++ tag)) - 16
  body_length = omega (arith, wire_length, length-append el ep)

  slice_length : take 4 (el ++ (ep ++ tag)) ≡ el
  slice_length = take-append 4 el (ep ++ tag) el_size

  slice_payload : drop 4 (take (length (el ++ (ep ++ tag)) - 16) (el ++ (ep ++ tag))) ≡ ep
  slice_payload =
      let n : ℕ = length (el ++ (ep ++ tag)) - 16 in
      ap (λ (t : Bytes). drop 4 t)
        (ap (λ (t : Bytes). take n t) (sym (append_assoc el ep tag))
          ∙ take-append n (el ++ ep) tag body_length)
      ∙ drop-append 4 el ep el_size

  slice_tag : drop (length (el ++ (ep ++ tag)) - 16) (el ++ (ep ++ tag)) ≡ tag
  slice_tag =
      let n : ℕ = length (el ++ (ep ++ tag)) - 16 in
      ap (λ (t : Bytes). drop n t) (sym (append_assoc el ep tag))
      ∙ drop-append n (el ++ ep) tag body_length

-- A wire packet opens once its parts are known.
opens :
    (c : Cipher) (seq : ℕ) (el ep tag block pl payload : Bytes)
    → length el ≡ 4
    → length tag ≡ 16
    → All IsByte tag
    → chacha20_block c.payload_key (nonce_of seq) 0 ≡ ok block
    → poly1305_mac (el ++ ep) (take 32 block) ≡ ok tag
    → chacha20_xor c.length_key (nonce_of seq) 0 el ≡ ok pl
    → chacha20_xor c.payload_key (nonce_of seq) 1 ep ≡ ok payload
    → decrypt_packet c seq (el ++ (ep ++ tag)) ≡ ok (pl ++ payload)
unfolding decrypt_packet
opens c seq el ep tag block pl payload hel htag btag hb ht hl hp =
    let long : ltb (length (el ++ (ep ++ tag))) 20 ≡ false =
      le→ltb_false _ _ (omega (arith, wire_length el ep tag hel htag)) in
    let equal : constant_time_equal tag tag ≡ true =
      (constant_time_equal_iff tag tag btag btag).1 refl in
    rw (
      long,
      slice_length el ep tag hel htag,
      slice_payload el ep tag hel htag,
      slice_tag el ep tag hel htag,
      hb,
      ht,
      equal,
      hl,
      hp,
    )

-- A packet of at least four bytes that is encrypted decrypts to itself under the same sequence
-- number, and its length field decrypts on its own; the ciphertext is 16 bytes longer.
pub decrypt_packet-encrypt_packet :
    (c : Cipher) (seq : ℕ) (plain wire : Bytes)
    → length c.payload_key ≡ 32
    → All IsByte plain
    → 4 ≤ length plain
    → encrypt_packet c seq plain ≡ ok wire
    → (decrypt_packet c seq wire ≡ ok plain)
      × (decrypt_length c seq (take 4 wire) ≡ ok (from_be (take 4 plain)))
      × (length wire ≡ length plain + 16)
unfolding encrypt_packet decrypt_length
decrypt_packet-encrypt_packet c seq plain wire key bytes long h =
    let (el, p1, h1) = >>=-eq-ok (chacha20_xor c.length_key (nonce_of seq) 0 (take 4 plain)) _ h in
    let (block, p2, h2) = >>=-eq-ok (chacha20_block c.payload_key (nonce_of seq) 0) _ h1 in
    let (ep, p3, h3) =
      >>=-eq-ok (chacha20_xor c.payload_key (nonce_of seq) 1 (drop 4 plain)) _ h2 in
    let (tag, p4, h4) = >>=-eq-ok (poly1305_mac (el ++ ep) (take 32 block)) _ h3 in
    let shape : el ++ (ep ++ tag) ≡ wire = ground arith in
    let (len, b1, back) =
      chacha20_xor-chacha20_xor c.length_key (nonce_of seq) 0 (take 4 plain) el
        (All-take IsByte 4 plain bytes) p1 in
    let (len', b2, back') =
      chacha20_xor-chacha20_xor c.payload_key (nonce_of seq) 1 (drop 4 plain) ep
        (All-drop IsByte 4 plain bytes) p3 in
    let (size, b3) = chacha20_block-IsBlock c.payload_key (nonce_of seq) 0 block p2 in
    let (tag', q, tag_size, tag_bytes) =
      poly1305_mac_tag (el ++ ep) (take 32 block) (omega (arith, length-take 32 block)) in
    let same : tag' ≡ tag = cc (p4, q) in
    let el_size : length el ≡ 4 = omega (arith, length-take 4 plain) in
    let tag_size' : length tag ≡ 16 = rw (← same) tag_size in
    let tag_bytes' : All IsByte tag = rw (← same) tag_bytes in
    rw (← shape) (
      opens c seq el ep tag block (take 4 plain) (drop 4 plain) el_size tag_size' tag_bytes' p2 p4
            back back'
          ∙ ap (λ (t : Bytes). ok t) (take-append-drop 4 plain),
      rw (slice_length el ep tag el_size tag_size', (==_iff (length el) 4).1 el_size, back),
      omega (arith, wire_length el ep tag el_size tag_size', length-drop 4 plain),
    )
