-- ===== src/SshEncoding/RoundTrip.antt =====
-- What the writers write, before the reader.
use rever_ssh.Prelude.{
  ℕ, ◌+◌, ◌-◌, ◌≡◌, refl, sym, ap, ◌∙◌, Bool, true, false, [], ◌∷◌, ◌++◌, append-nil, append_assoc,
  arith, length, length-append, take-append, drop-append, All, ltb, ◌==◌, subst, le→ltb_false,
}
use rever_ssh.Exn.{Result, ok, >>=-eq-ok}
use rever_ssh.Bytes.{Bytes, Text}
use rever_ssh.Bytes.Endian.{to_be, length-to_be, from_be-to_be}
use rever_ssh.Bytes.Utf8.{encode, IsChar}
use rever_ssh.Bytes.Utf8.RoundTrip.{decode-encode}
use rever_ssh.SshEncoding.Writer
use rever_ssh.SshEncoding.Reader
use rever_ssh.SshEncoding.Reader.{Reader, Read, reader, run, pure, lift, eof, ◌>>=◌, ◌>>◌}

-- A reader between `before` and `after`.
abbrev pub between : Bytes → Bytes → Reader
between before after = record { payload = before ++ after; offset = length before }

-- `m` reads `e` as `v` and stops right behind it.
pub record Reads {ℓ} {A : Type ℓ} (m : Read A) (e : Bytes) (v : A) : Type ℓ where
  pub at :
      (before after : Bytes) → m (between before (e ++ after)) ≡ ok (v, between (before ++ e) after)

-- The same where `e` is all that is left.
pub record Ends {ℓ} {A : Type ℓ} (m : Read A) (e : Bytes) (v : A) : Type ℓ where
  pub at : (before : Bytes) → m (between before e) ≡ ok (v, between (before ++ e) [])

between_eq :
    (before e after : Bytes) (n : ℕ)
    → length e ≡ n
    → record { payload = before ++ (e ++ after); offset = length before + n }
      ≡ between (before ++ e) after
between_eq before e after n h = λ i. record {
  payload = sym (append_assoc before e after) i;
  offset = (ap (λ (k : ℕ). length before + k) (sym h) ∙ sym (length-append before e)) i;
}

take_bytes-Reads : (n : ℕ) (e : Bytes) → length e ≡ n → Reads (Reader.take_bytes n) e e
unfolding Reader.take_bytes
take_bytes-Reads n e h = record {
  at = λ before after.
      let room : ltb (length (before ++ (e ++ after))) (length before + n) ≡ false =
        le→ltb_false _ _
          (omega (arith, length-append before (e ++ after), length-append e after)) in
      rw
        (
          room,
          drop-append (length before) before (e ++ after) refl,
          take-append n e after h,
          between_eq before e after n h,
        )
        refl;
}

module _ {ℓ} {A : Type ℓ} where
  pub Reads-pure : (v : A) → Reads (pure v) [] v
  unfolding pure
  Reads-pure v = record { at = λ before after. rw append-nil }

  pub Ends-eof : (v : A) → Ends (eof >> pure v) [] v
  unfolding eof pure ◌>>=◌ Reader.remaining
  Ends-eof v = record {
    at = λ before.
        let once : before ≡ before ++ [] = sym (append-nil before) in
        let twice : before ++ [] ≡ before ++ [] ++ [] = sym (append-nil (before ++ [])) in
        let done : (length (before ++ []) - length before == 0) ≡ true =
          ground (arith, length-append before []) in
        rw done (λ i. ok (v, record { payload = twice i; offset = length (once i) }));
  }

module _ {ℓ κ} {A : Type ℓ} {B : Type κ} {e f : Bytes} {v : A} {w : B} where
  pub Reads-bind :
      (m : Read A) (k : A → Read B) → Reads m e v → Reads (k v) f w → Reads (m >>= k) (e ++ f) w
  unfolding ◌>>=◌
  Reads-bind m k p q = record {
    at = λ before after.
        rw (append_assoc, p.at before (f ++ after), q.at (before ++ e) after)
          (ap (λ (t : Bytes). ok (w, between t after)) (append_assoc before e f));
  }

  pub Ends-bind :
      (m : Read A) (k : A → Read B) → Reads m e v → Ends (k v) f w → Ends (m >>= k) (e ++ f) w
  unfolding ◌>>=◌
  Ends-bind m k p q = record {
    at = λ before.
        rw (p.at before f, q.at (before ++ e))
          (ap (λ (t : Bytes). ok (w, between t [])) (append_assoc before e f));
  }

module _ {ℓ κ} {A : Type ℓ} {B : Type κ} {e : Bytes} {v : A} {w : B} where
  -- The last field of a payload, and the last step of a field.
  pub Ends-last : (m : Read A) (k : A → Read B) → Reads m e v → Ends (k v) [] w → Ends (m >>= k) e w
  Ends-last m k p q = subst (λ (t : Bytes). Ends (m >>= k) t w) (append-nil e) (Ends-bind m k p q)

  pub Reads-last :
      (m : Read A) (k : A → Read B) → Reads m e v → Reads (k v) [] w → Reads (m >>= k) e w
  Reads-last m k p q =
      subst (λ (t : Bytes). Reads (m >>= k) t w) (append-nil e) (Reads-bind m k p q)

pub Reads-lift {ℓ} : {A : Type ℓ} (r : Result A) (v : A) → r ≡ ok v → Reads (lift r) [] v
unfolding lift
Reads-lift r v h = record { at = λ before after. rw (h, append-nil) }

-- A whole payload, read from its front.
pub run-Ends {ℓ} : {A : Type ℓ} (m : Read A) {e : Bytes} {v : A} → Ends m e v → run m e ≡ ok v
run-Ends m p = rw (p.at [])

-- The same for a reader that does not look for the end.
pub run-Reads {ℓ} : {A : Type ℓ} (m : Read A) {e : Bytes} {v : A} → Reads m e v → run m e ≡ ok v
run-Reads m {e} {v} p = subst (λ (t : Bytes). run m t ≡ ok v) (append-nil e) (rw (p.at [] []))

module _ {e : Bytes} where
  pub Reads-uint32 : (v : ℕ) → Writer.uint32 v ≡ ok e → Reads Reader.uint32 e v
  unfolding Writer.uint32 Reader.uint32
  Reads-uint32 v h =
      let shape : to_be 4 v ≡ e = ground arith in
      Reads-last _ _ (take_bytes-Reads 4 e (rw (← shape) (length-to_be 4 v)))
        (rw (← shape, from_be-to_be 4 v (ground arith)) (Reads-pure v))

  pub Reads-uint64 : (v : ℕ) → Writer.uint64 v ≡ ok e → Reads Reader.uint64 e v
  unfolding Writer.uint64 Reader.uint64
  Reads-uint64 v h =
      let shape : to_be 8 v ≡ e = ground arith in
      Reads-last _ _ (take_bytes-Reads 8 e (rw (← shape) (length-to_be 8 v)))
        (rw (← shape, from_be-to_be 8 v (ground arith)) (Reads-pure v))

  pub Reads-byte : (v : ℕ) → Writer.byte v ≡ ok e → Reads Reader.byte e v
  unfolding Writer.byte Reader.byte
  Reads-byte v h =
      let shape : v ∷ [] ≡ e = ground arith in
      rw (← shape) (Reads-last _ _ (take_bytes-Reads 1 (v ∷ []) refl) (Reads-lift _ v refl))

pub Reads-string : {e : Bytes} (v : Bytes) → Writer.string v ≡ ok e → Reads Reader.string e v
unfolding Writer.string Reader.string
Reads-string {e} v h =
    let (size, p, q) = >>=-eq-ok (Writer.uint32 (length v)) _ h in
    let shape : size ++ v ≡ e = ground arith in
    rw (← shape) (Reads-bind _ _ (Reads-uint32 (length v) p) (take_bytes-Reads (length v) v refl))

pub Reads-boolean : (v : Bool) → Reads Reader.boolean (Writer.boolean v) v
unfolding Writer.boolean Reader.boolean Writer.byte
Reads-boolean true = Reads-last _ _ (Reads-byte 1 refl) (Reads-pure true)
Reads-boolean false = Reads-last _ _ (Reads-byte 0 refl) (Reads-pure false)

pub Reads-text :
    {e : Bytes} (v : Text) → All IsChar v → Writer.text v ≡ ok e → Reads Reader.text e v
unfolding Writer.text Reader.text
Reads-text v c h =
    let (raw, p, q) = >>=-eq-ok (encode v) _ h in
    Reads-last _ _ (Reads-string raw q) (Reads-lift _ v (decode-encode v raw c p))
