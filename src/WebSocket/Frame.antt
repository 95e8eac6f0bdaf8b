-- ===== src/WebSocket/Frame.antt =====
-- `_frame` and `_read_frame` of `WebSocketStream`, one after the other.
use rever_ssh.Prelude.{
  ℕ, zero, suc, ◌+◌, ◌%◌, ◌≤◌, ◌<◌, ◌≡◌, refl, ap, ap₂, ◌∙◌, Bool, true, false, [], ◌∷◌, ◌++◌,
  append_assoc, append-nil, length, All, get_or, not, bit_and, bit_or, ltb, leb, ◌==◌, ◌&&◌,
  if◌then◌else◌, Bool-cases, inl, inr, arith,
}
use rever_ssh.Exn.{Result, ok, >>=-eq-ok}
use rever_ssh.Bytes.{Bytes, IsByte}
use rever_ssh.Bytes.Table.{all_below, all_below_lem, get_or-IsByte}
use rever_ssh.Bytes.Bits.{bit_xor_cancel}
use rever_ssh.Bytes.Endian.{to_be, length-to_be, from_be-to_be}
use rever_ssh.Sock.{Sock, IsLive, pending, recv_exact}
use rever_ssh.Sock.Exact.{recv_exact_lem}
use rever_ssh.WebSocket.{mask_from, pack_q, frame_header, frame, read_length, recv_if, read_frame}

second_ok : ℕ → Bool
second_ok k =
    bit_and (bit_or 0x80 k) 0x7f == k
    && not (bit_and (bit_or 0x80 k) 0x80 == 0)
    && bit_and (bit_or 0 k) 0x7f == k
    && bit_and (bit_or 0 k) 0x80 == 0

second_all : all_below second_ok 128 ≡ true
unfolding all_below second_ok
second_all = refl

first_ok : ℕ → Bool
first_ok k = bit_and (bit_or 0x80 k) 0x0f == k && not (bit_and (bit_or 0x80 k) 0x80 == 0)

first_all : all_below first_ok 16 ≡ true
unfolding all_below first_ok
first_all = refl

mask_from_cancel :
    (i : ℕ) (mask payload : Bytes)
    → All IsByte mask
    → All IsByte payload
    → mask_from i mask (mask_from i mask payload) ≡ payload
unfolding mask_from
mask_from_cancel i mask [] hm hp = refl
mask_from_cancel i mask (b ∷ bs) hm (hb, hp) =
    ap₂ ◌∷◌ (bit_xor_cancel 8 b (get_or mask (i % 4) 0) hb (get_or-IsByte mask (i % 4) hm))
      (mask_from_cancel (i + 1) mask bs hm hp)

length-mask_from :
    (i : ℕ) (mask payload : Bytes) → length (mask_from i mask payload) ≡ length payload
unfolding mask_from
length-mask_from i mask [] = refl
length-mask_from i mask (b ∷ bs) = ap suc (length-mask_from (i + 1) mask bs)

-- `m` takes `e` from the front of the stream, returns `v` and leaves the rest.
abbrev Takes {ℓ} : {A : Type ℓ} → (Sock → Result (A × Sock)) → Bytes → A → Type ℓ
Takes m e v =
    (rest : Bytes) (s : Sock)
    → IsLive s
    → pending s ≡ e ++ rest
    → (s' : Sock) × (m s ≡ ok (v, s')) × (pending s' ≡ rest) × IsLive s' × (s'.sent ≡ s.sent)

recv_exact-Takes : (n : ℕ) (e : Bytes) → length e ≡ n → Takes (recv_exact n) e e
recv_exact-Takes n e size rest s live next = recv_exact_lem n e rest s size live next

recv_if-Takes : (n : ℕ) (e : Bytes) → length e ≡ n → Takes (recv_if (not (n == 0)) n) e e
unfolding recv_if
recv_if-Takes zero [] size rest s live next = (s, refl, next, live, refl)
recv_if-Takes zero (b ∷ e) size rest s live next = absurd (omega arith)
recv_if-Takes (suc n) e size rest s live next =
    let some_ : not (suc n == 0) ≡ true = ground arith in
    rw some_ (recv_exact_lem (suc n) e rest s size live next)

read_length-Takes_2 : (n : ℕ) → n ≤ 0xffff → Takes (read_length 126) (to_be 2 n) n
unfolding read_length
read_length-Takes_2 n small rest s live next =
    let (s', run, left, live', sent) =
      recv_exact_lem 2 (to_be 2 n) rest s (length-to_be 2 n) live next in
    (s', rw (run, from_be-to_be 2 n (omega arith)) refl, left, live', sent)

read_length-Takes_8 : (n : ℕ) → n ≤ 0xffffffffffffffff → Takes (read_length 127) (to_be 8 n) n
unfolding read_length
read_length-Takes_8 n small rest s live next =
    let (s', run, left, live', sent) =
      recv_exact_lem 8 (to_be 8 n) rest s (length-to_be 8 n) live next in
    (s', rw (run, from_be-to_be 8 n (omega arith)) refl, left, live', sent)

read_length-Takes_0 : (n : ℕ) → n < 126 → Takes (read_length n) [] n
unfolding read_length
read_length-Takes_0 n small rest s live next =
    let a : (n == 126) ≡ false = ground arith in
    let b : (n == 127) ≡ false = ground arith in (s, rw (a, b) refl, next, live, refl)

-- The header is two bytes, and an extension from which the length is read.
frame_header_lem :
    (first mask_bit size : ℕ) (header : Bytes)
    → frame_header first mask_bit size ≡ ok header
    → (code : ℕ) × (ext : Bytes) × (header ≡ first ∷ bit_or mask_bit code ∷ ext)
      × (code < 128)
      × Takes (read_length code) ext size
unfolding frame_header pack_q
frame_header_lem first mask_bit size header h = elim (Bool-cases (ltb size 126)) [
  | inl e ↦ (size, [], ground arith, ground arith, read_length-Takes_0 size (ground arith))
  | inr e ↦ elim (Bool-cases (leb size 0xffff)) [
    | inl f ↦
        (126, to_be 2 size, ground arith, omega arith, read_length-Takes_2 size (ground arith))
    | inr f ↦ elim (Bool-cases (leb size 0xffffffffffffffff)) [
      | inl g ↦
          (127, to_be 8 size, ground arith, omega arith, read_length-Takes_8 size (ground arith))
      | inr g ↦ absurd (ground arith)
    ]
  ]
]

read_frame-runs :
    (first second size opcode : ℕ) (mask payload : Bytes) (masked fin : Bool) (s s1 s2 s3 s4 : Sock)
    → recv_exact 2 s ≡ ok (first ∷ second ∷ [], s1)
    → not (bit_and second 0x80 == 0) ≡ masked
    → read_length (bit_and second 0x7f) s1 ≡ ok (size, s2)
    → recv_if masked 4 s2 ≡ ok (mask, s3)
    → recv_if (not (size == 0)) size s3 ≡ ok (payload, s4)
    → not (bit_and first 0x80 == 0) ≡ fin
    → bit_and first 0x0f ≡ opcode
    → read_frame s ≡ ok ((fin, opcode, if masked then mask_from 0 mask payload else payload), s4)
unfolding read_frame
read_frame-runs first second size opcode mask payload masked fin s s1 s2 s3 s4 h1 h2 h3 h4 h5 h6
      h7 =
    rw (h1, h2, h3, h4, h5, h6, h7) refl

reassoc :
    (two ext m b rest : Bytes)
    → ((two ++ ext) ++ m ++ b) ++ rest ≡ two ++ (ext ++ (m ++ (b ++ rest)))
reassoc two ext m b rest = simp append_assoc

second_byte :
    (masked : Bool) (code : ℕ)
    → code < 128
    → (bit_and (bit_or (if masked then 0x80 else 0) code) 0x7f ≡ code)
      × (not (bit_and (bit_or (if masked then 0x80 else 0) code) 0x80 == 0) ≡ masked)
unfolding second_ok
second_byte true code small =
    let h : second_ok code ≡ true = all_below_lem second_ok 128 code second_all small in
    (ground arith, ground arith)
second_byte false code small =
    let h : second_ok code ≡ true = all_below_lem second_ok 128 code second_all small in
    (ground arith, ground arith)

first_byte :
    (opcode : ℕ)
    → opcode < 16
    → (bit_and (bit_or 0x80 opcode) 0x0f ≡ opcode)
      × (not (bit_and (bit_or 0x80 opcode) 0x80 == 0) ≡ true)
unfolding first_ok
first_byte opcode small =
    let h : first_ok opcode ≡ true = all_below_lem first_ok 16 opcode first_all small in
    (ground arith, ground arith)

-- The mask and the payload, as they stand behind the header.
abbrev mask_part : Bool → Bytes → Bytes
mask_part masked mask = if masked then mask else []

abbrev body_part : Bool → Bytes → Bytes → Bytes
body_part masked mask payload = if masked then mask_from 0 mask payload else payload

mask-Takes :
    (masked : Bool) (mask : Bytes)
    → length mask ≡ 4
    → Takes (recv_if masked 4) (mask_part masked mask) (mask_part masked mask)
unfolding recv_if
mask-Takes true mask size rest s live next = recv_exact_lem 4 mask rest s size live next
mask-Takes false mask size rest s live next = (s, refl, next, live, refl)

length-body_part :
    (masked : Bool) (mask payload : Bytes) → length (body_part masked mask payload) ≡ length payload
length-body_part true mask payload = length-mask_from 0 mask payload
length-body_part false mask payload = refl

unmasked :
    (masked : Bool) (mask payload : Bytes)
    → All IsByte mask
    → All IsByte payload
    → body_part masked (mask_part masked mask) (body_part masked mask payload) ≡ payload
unmasked true mask payload hm hp = mask_from_cancel 0 mask payload hm hp
unmasked false mask payload hm hp = refl

frame_parts :
    (masked : Bool) (mask : Bytes) (opcode : ℕ) (payload wire : Bytes)
    → frame masked mask opcode payload ≡ ok wire
    → (header : Bytes) × (frame_header
          (bit_or 0x80 opcode)
          (if masked then 0x80 else 0)
          (length payload)
        ≡ ok header)
      × (wire ≡ header ++ mask_part masked mask ++ body_part masked mask payload)
unfolding frame
frame_parts true mask opcode payload wire h =
    let (header, p, q) = >>=-eq-ok (frame_header (bit_or 0x80 opcode) 0x80 (length payload)) _ h in
    (header, p, ground arith)
frame_parts false mask opcode payload wire h =
    let (header, p, q) = >>=-eq-ok (frame_header (bit_or 0x80 opcode) 0 (length payload)) _ h in
    let shape : header ++ payload ≡ wire = ground arith in
    (header, p, ground (arith, append-nil header))

-- If `_frame` succeeds for a four-bit opcode, with a mask of four bytes where it masks, and its
-- bytes reach the other side at the front of the stream, cut into pieces in any way, then
-- `_read_frame` returns a final frame with the opcode and the payload, leaves what follows and
-- sends nothing.
pub read_frame-frame :
    (masked : Bool) (mask : Bytes) (opcode : ℕ) (payload wire rest : Bytes) (s : Sock)
    → length mask ≡ 4
    → All IsByte mask
    → All IsByte payload
    → opcode < 16
    → frame masked mask opcode payload ≡ ok wire
    → IsLive s
    → pending s ≡ wire ++ rest
    → (s' : Sock) × (read_frame s ≡ ok ((true, opcode, payload), s'))
      × (pending s' ≡ rest)
      × IsLive s'
      × (s'.sent ≡ s.sent)
read_frame-frame masked mask opcode payload wire rest s hm mask_bytes payload_bytes four_bits run
      live next =
    let (header, hrun, whole) = frame_parts masked mask opcode payload wire run in
    let (code, ext, hshape, hcode, takes) =
      frame_header_lem (bit_or 0x80 opcode) (if masked then 0x80 else 0) (length payload) header
        hrun in
    let m : Bytes = mask_part masked mask in
    let b : Bytes = body_part masked mask payload in
    let two : Bytes = bit_or 0x80 opcode ∷ bit_or (if masked then 0x80 else 0) code ∷ [] in
    let start : pending s ≡ two ++ (ext ++ (m ++ (b ++ rest))) =
      next
      ∙ ap (λ (t : Bytes). t ++ rest) (whole ∙ ap (λ (t : Bytes). t ++ m ++ b) hshape)
      ∙ reassoc two ext m b rest in
    let (s1, run1, next1, live1, sent1) =
      recv_exact_lem 2 two (ext ++ (m ++ (b ++ rest))) s refl live start in
    let (s2, run2, next2, live2, sent2) = takes (m ++ (b ++ rest)) s1 live1 next1 in
    let (s3, run3, next3, live3, sent3) = mask-Takes masked mask hm (b ++ rest) s2 live2 next2 in
    let (s4, run4, next4, live4, sent4) =
      recv_if-Takes (length payload) b (length-body_part masked mask payload) rest s3 live3 next3 in
    let (low, high) = second_byte masked code hcode in
    let (op, fin) = first_byte opcode four_bits in
    (
      s4,
      read_frame-runs (bit_or 0x80 opcode) (bit_or (if masked then 0x80 else 0) code)
            (length payload) opcode m b masked true s s1 s2 s3 s4 run1 high
            (ap (λ (t : ℕ). read_length t s1) low ∙ run2) run3 run4 fin op
          ∙ ap (λ (t : Bytes). ok ((true, opcode, t), s4))
              (unmasked masked mask payload mask_bytes payload_bytes),
      next4,
      live4,
      sent4 ∙ sent3 ∙ sent2 ∙ sent1,
    )
