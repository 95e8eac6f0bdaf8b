-- ===== src/Client/Approval/Trust.antt =====
-- What trusting an operator changes, and for whom.
mod Tests
use rever_ssh.Prelude.{
  ℕ, ◌≡◌, refl, sym, codes, ap, ap₂, ◌∙◌, Bool, true, false, not, ◌&&◌, ◌||◌, List, [], ◌∷◌, ◌++◌,
  Option, none, some, seq_eq, seq_eq_self, seq_eq→eq, Bool-cases, ==_self, ==_iff, inl, inr, ◌↔◌,
  ◌⊎◌, arith, ◌==◌, if◌then◌else◌, append_assoc, All,
}
use rever_ssh.Exn.{ok, err}
use rever_ssh.Bytes.{Bytes, Text}
use rever_ssh.Sock.{is_empty}
use rever_ssh.Client.Approval.{
  is_space, is_break, lstrip, rstrip, strip, add_first, splitlines, is_entry, any_entry, contains,
  any_line, add, KnownOperators, OperatorApproval, mem, lower, is_one_of, ask, ask_operator,
  approve_by, approve, is_strict, persist,
}

-- A text that ends with a line break, or is empty.
IsClosed : Text → Type 0
IsClosed [] = Unit
IsClosed (c ∷ []) = is_break c ≡ true
IsClosed (c ∷ d ∷ cs) = IsClosed (d ∷ cs)

-- What the fingerprints of the program are: no space and no line break, and no comment.
record IsFingerprint (fp : Text) : Type 0 where
  no_space : All (λ (c : ℕ). is_space c ≡ false) fp
  no_break : All (λ (c : ℕ). is_break c ≡ false) fp
  entry : is_entry fp ≡ true

add_first-cons :
    (c : ℕ) (lines : List Text) → (l : Text) × (ls : List Text) × (add_first c lines ≡ l ∷ ls)
unfolding add_first
add_first-cons c [] = (c ∷ [], [], refl)
add_first-cons c (l ∷ ls) = (c ∷ l, ls, refl)

splitlines-cons :
    (c : ℕ) (cs : Text) → (l : Text) × (ls : List Text) × (splitlines (c ∷ cs) ≡ l ∷ ls)
unfolding splitlines add_first
splitlines-cons c cs = elim (Bool-cases (is_break c)) [
  | inl e ↦ ([], splitlines cs, rw e)
  | inr e ↦ rw e (add_first-cons c (splitlines cs))
]

add_first-append :
    (c : ℕ) (l : Text) (ls more lines : List Text)
    → lines ≡ l ∷ ls
    → add_first c (lines ++ more) ≡ add_first c lines ++ more
unfolding add_first
add_first-append c l ls more lines e = rw e refl

-- A line break separates the lines before it from those behind it.
splitlines-append : (a b : Text) → IsClosed a → splitlines (a ++ b) ≡ splitlines a ++ splitlines b
unfolding splitlines IsClosed
splitlines-append [] b h = refl
splitlines-append (c ∷ []) b h = rw h refl
splitlines-append (c ∷ d ∷ cs) b h =
    let (l, ls, e) = splitlines-cons d cs in
    elim (Bool-cases (is_break c)) [
      | inl f ↦ rw f (ap (λ (t : List Text). [] ∷ t) (splitlines-append (d ∷ cs) b h))
      | inr f ↦ rw f (
          ap (add_first c) (splitlines-append (d ∷ cs) b h)
          ∙ add_first-append c l ls (splitlines b) (splitlines (d ∷ cs)) e)
    ]

splitlines-line :
    (fp : Text) → All (λ (c : ℕ). is_break c ≡ false) fp → splitlines (fp ++ b'\n' ∷ []) ≡ fp ∷ []
unfolding splitlines add_first is_break
splitlines-line [] h = refl
splitlines-line (c ∷ fp) (hc, h) = rw (hc, splitlines-line fp h) refl

lstrip_self : (fp : Text) → All (λ (c : ℕ). is_space c ≡ false) fp → lstrip fp ≡ fp
unfolding lstrip
lstrip_self [] h = refl
lstrip_self (c ∷ cs) (hc, h) = rw hc refl

rstrip_self : (fp : Text) → All (λ (c : ℕ). is_space c ≡ false) fp → rstrip fp ≡ fp
unfolding rstrip
rstrip_self [] h = refl
rstrip_self (c ∷ cs) (hc, h) = rw hc (ap (λ (t : Text). c ∷ t) (rstrip_self cs h))

any_entry-append :
    (fp : Text) (xs ys : List Text) → any_entry fp (xs ++ ys) ≡ (any_entry fp xs || any_entry fp ys)
unfolding any_entry
any_entry-append fp [] ys = refl
any_entry-append fp (x ∷ xs) ys = elim (Bool-cases (is_entry (strip x) && seq_eq (strip x) fp)) [
  | inl e ↦ rw e refl
  | inr e ↦ rw e (any_entry-append fp xs ys)
]

strip_self : (fp : Text) → IsFingerprint fp → strip fp ≡ fp
unfolding strip
strip_self fp h = ap rstrip (lstrip_self fp h.no_space) ∙ rstrip_self fp h.no_space

or_false : (b : Bool) → (b || false) ≡ b
or_false true = refl
or_false false = refl

or_true : (b : Bool) → (b || true) ≡ true
or_true true = refl
or_true false = refl

-- The line that is added is an entry for its fingerprint only.
any_entry-line : (fp q : Text) → IsFingerprint fp → any_entry q (fp ∷ []) ≡ seq_eq fp q
unfolding any_entry
any_entry-line fp q h = rw (strip_self fp h, h.entry) (or_false (seq_eq fp q))

any_line-any_entry :
    (fp : Text) (lines : List Text)
    → IsFingerprint fp
    → any_line fp lines ≡ true
    → any_entry fp lines ≡ true
unfolding any_line any_entry
any_line-any_entry fp [] h e = e
any_line-any_entry fp (line ∷ lines) h e = elim (Bool-cases (seq_eq (strip line) fp)) [
  | inl same ↦
      let entry : is_entry (strip line) ≡ true =
        ap is_entry (seq_eq→eq (strip line) fp same) ∙ h.entry in
      ground arith
  | inr other ↦
      let later : any_line fp lines ≡ true = ground arith in
      let found : any_entry fp lines ≡ true = any_line-any_entry fp lines h later in
      rw (found, other) (or_true _)
]

IsClosedFile : KnownOperators → Type 0
IsClosedFile none = Unit
IsClosedFile (some file) = IsClosed file

contains-add :
    (fp q : Text) (known : KnownOperators)
    → IsFingerprint fp
    → IsClosedFile known
    → contains q (add fp known) ≡ (contains q known || seq_eq fp q)
unfolding contains add IsClosedFile
contains-add fp q none h closed = rw (splitlines-line fp h.no_break) (any_entry-line fp q h)
contains-add fp q (some file) h closed = elim (Bool-cases (any_line fp (splitlines file))) [
  | inl e ↦ elim (Bool-cases (seq_eq fp q)) [
    | inl same ↦
        let there : any_entry q (splitlines file) ≡ true =
          ap (λ (t : Text). any_entry t (splitlines file)) (sym (seq_eq→eq fp q same))
          ∙ any_line-any_entry fp (splitlines file) h e in
        rw (e, there) refl
    | inr other ↦ rw (e, other) (sym (or_false _))
  ]
  | inr e ↦ rw e (
      ap (λ (t : Text). any_entry q (splitlines t)) (append_assoc file fp (b'\n' ∷ []))
      ∙ ap (any_entry q) (
          splitlines-append file (fp ++ b'\n' ∷ []) closed
          ∙ ap (λ (t : List Text). splitlines file ++ t) (splitlines-line fp h.no_break))
      ∙ any_entry-append q (splitlines file) (fp ∷ [])
      ∙ ap (λ (t : Bool). any_entry q (splitlines file) || t) (any_entry-line fp q h))
]

-- Without an allow-list, once a fingerprint without spaces and line breaks that is no comment is
-- persisted to a file that is absent or empty or ends with a line break, it is approved, and not to
-- be persisted again, whether there is a terminal or not; the decision on another fingerprint is
-- what it was.
approve-persist :
    (fp q : Text) (a : OperatorApproval) (tty : Bool) (answers : List Text) (key_blob : Bytes)
    → IsFingerprint fp
    → IsClosedFile a.known
    → a.allowed_key_blobs ≡ none
    → approve (persist fp a) tty answers q key_blob
      ≡ (if seq_eq fp q then ok (true, false) else approve a tty answers q key_blob)
unfolding approve approve_by persist ask_operator is_strict
approve-persist fp q a tty answers key_blob h closed mode = elim (Bool-cases (seq_eq fp q)) [
  | inl same ↦ rw (mode, contains-add fp q a.known h closed, same, or_true) refl
  | inr other ↦ rw (mode, contains-add fp q a.known h closed, other, or_false) refl
]

-- Some answer is `t` or `trust`, up to case and the spaces around it.
IsTrusted : List Text → Type 0
IsTrusted [] = ⊥
IsTrusted (line ∷ lines) =
    (is_one_of (lower (strip line)) (codes "t" ∷ codes "trust" ∷ []) ≡ true) ⊎ IsTrusted lines

ask-IsTrusted :
    (answers : List Text) (approved : Bool)
    → ask answers ≡ ok (approved, true)
    → (approved ≡ true) × IsTrusted answers
unfolding ask IsTrusted
ask-IsTrusted [] approved h = absurd (ground arith)
ask-IsTrusted (line ∷ lines) approved h =
    let answer = lower (strip line) in
    elim (Bool-cases (is_one_of answer (codes "o" ∷ codes "once" ∷ codes "y" ∷ codes "yes" ∷ []))) [
      | inl once ↦ absurd (ground arith)
      | inr e ↦ elim (Bool-cases (is_one_of answer (codes "t" ∷ codes "trust" ∷ []))) [
        | inl trust ↦ (ground arith, inl trust)
        | inr f ↦
            elim (Bool-cases
              (is_one_of answer (codes "r" ∷ codes "reject" ∷ codes "n" ∷ codes "no" ∷ [] ∷ []))) [
                | inl refused ↦ absurd (ground arith)
                | inr g ↦
                    let (same, later) = ask-IsTrusted lines approved (ground arith) in
                    (same, inr later)
              ]
      ]
    ]

approve_by-IsTrusted :
    (allowed : Option (List Bytes)) (known : KnownOperators) (tty : Bool) (answers : List Text)
    (fp : Text) (key_blob : Bytes) (approved : Bool)
    → approve_by allowed known tty answers fp key_blob ≡ ok (approved, true)
    → (approved ≡ true)
      × (allowed ≡ none)
      × (tty ≡ true)
      × (contains fp known ≡ false)
      × IsTrusted answers
unfolding approve_by ask_operator
approve_by-IsTrusted (some allowed) known tty answers fp key_blob approved h =
    elim (Bool-cases (mem key_blob allowed)) [
      | inl e ↦ absurd (ground arith)
      | inr e ↦ absurd (ground arith)
    ]
approve_by-IsTrusted none known tty answers fp key_blob approved h =
    elim (Bool-cases (contains fp known)) [
      | inl e ↦ absurd (ground arith)
      | inr e ↦ elim (Bool-cases tty) [
        | inl interactive ↦
            let (yes_, trust) = ask-IsTrusted answers approved (ground arith) in
            (yes_, refl, interactive, e, trust)
        | inr f ↦ absurd (ground arith)
      ]
    ]

-- Only `trust` at a terminal makes the client keep a fingerprint: if the decision is to persist,
-- then the operator is approved, there is no allow-list, there is a terminal, the fingerprint was
-- not known, and some answer is `t` or `trust`.
approve-IsTrusted :
    (a : OperatorApproval) (tty : Bool) (answers : List Text) (fp : Text) (key_blob : Bytes)
    (approved : Bool)
    → approve a tty answers fp key_blob ≡ ok (approved, true)
    → (approved ≡ true)
      × (a.allowed_key_blobs ≡ none)
      × (tty ≡ true)
      × (contains fp a.known ≡ false)
      × IsTrusted answers
unfolding approve
approve-IsTrusted a = approve_by-IsTrusted a.allowed_key_blobs a.known
