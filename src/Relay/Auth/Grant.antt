-- ===== src/Relay/Auth/Grant.antt =====
-- Whom `_authenticate` lets in.
mod Tests
use rever_ssh.Prelude.{
  ℕ, List, [], ◌∷◌, ◌++◌, codes, length, sym, ◌≡◌, refl, ap, ◌∙◌, subst, Bool, true, false, Option,
  none, some, seq_eq, seq_eq→eq, ◌⊎◌, inl, inr, ◌==◌, ==_iff, ◌||◌, if◌then◌else◌, arith,
  Bool-cases, Option-cases,
}
use rever_ssh.Exn
use rever_ssh.Exn.{Result, ok, err, >>=-eq-ok, Result-cases}
use rever_ssh.Bytes.{Bytes, Text}
use rever_ssh.SshEncoding.Writer
use rever_ssh.Relay.Messages.{
  ssh_msg_userauth_success, ssh_msg_userauth_request, ssh_msg_service_request,
  ssh_msg_service_accept, ssh_msg_ignore, ssh_msg_debug,
}
use rever_ssh.Bytes.Endian.{to_be}
use rever_ssh.Bytes.Utf8.{encode}
use rever_ssh.SshEncoding.Reader.{Reader, Read, reader, run, lift, pure, byte, text, ◌>>=◌}
use rever_ssh.Keys.{ssh_ed25519, parse_ed25519_key_blob}
use rever_ssh.Relay.Registry
use rever_ssh.Relay.Auth.{
  Arrival, Handled, reply, granted, auth_failure, pk_ok, signature_of, signed_data, ssh_connection,
  publickey, verify_parsed, verify_user_signature, ask_client, decide_request, with_signature,
  with_key, handle_request, userauth, after_request, service_request, after_service, authenticate,
}

data Somewhere {ℓ} {A : Type ℓ} (P : A → Type ℓ) : List A → Type ℓ where
  here : {x : A} {xs : List A} → P x → Somewhere P (x ∷ xs)
  there : {x : A} {xs : List A} → Somewhere P xs → Somewhere P (x ∷ xs)

ok_eq {ℓ} : {A : Type ℓ} {a b : A} → ok a ≡ ok b → a ≡ b
ok_eq h = ground arith

-- A packet that the first loop takes without an answer: IGNORE or DEBUG.
IsIgnored : Bytes → Type 0
IsIgnored b = (n : ℕ) × (r : Reader) × (byte (reader b) ≡ ok (n, r)) × ((n ≡ 2) ⊎ (n ≡ 4))

-- SERVICE_REQUEST for the service ssh-userauth.
IsServiceRequest : Bytes → Type 0
IsServiceRequest b =
    (r : Reader) × (r' : Reader) × (byte (reader b) ≡ ok (5, r))
    × (text r ≡ ok (codes "ssh-userauth", r'))

-- Ignored packets, the service request, and packets of which one satisfies `P`.
data Admits (P : Arrival → Type 0) : List Arrival → Type 0 where
  ignored :
      {a : Arrival} {later : List Arrival}
      → IsIgnored a.payload
      → Admits P later
      → Admits P (a ∷ later)
  served :
      {a : Arrival} {later : List Arrival}
      → IsServiceRequest a.payload
      → Somewhere P later
      → Admits P (a ∷ later)

-- RFC 4251, section 5: a string with its length.
abbrev field : Bytes → Bytes
field b = to_be 4 (length b) ++ b

-- RFC 4252, section 7: what a signature covers, for the algorithm ssh-ed25519.
abbrev pub signed_bytes : Bytes → Bytes → Bytes → Bytes
signed_bytes session_id name key_blob =
    field session_id
    ++ 50 ∷ []
    ++ field name
    ++ field (codes "ssh-connection")
    ++ field (codes "publickey")
    ++ 1 ∷ []
    ++ field (codes "ssh-ed25519")
    ++ field key_blob

uint32-ok : (n : ℕ) (b : Bytes) → Writer.uint32 n ≡ ok b → b ≡ to_be 4 n
unfolding Writer.uint32
uint32-ok n b h = ground arith

string-ok : (b a : Bytes) → Writer.string b ≡ ok a → a ≡ field b
unfolding Writer.string
string-ok b a h =
    let (n, p, q) = >>=-eq-ok (Writer.uint32 (length b)) _ h in
    let e : n ++ b ≡ a = ground arith in
    sym e ∙ ap (λ (t : Bytes). t ++ b) (uint32-ok (length b) n p)

text-ok :
    (t : Text) (a : Bytes) → Writer.text t ≡ ok a → (b : Bytes) × (encode t ≡ ok b) × (a ≡ field b)
unfolding Writer.text
text-ok t a h = let (b, p, q) = >>=-eq-ok (encode t) _ h in (b, p, string-ok b a q)

signed-shape :
    (a c d e f g signed a' c' d' e' f' g' : Bytes)
    → ok (a ++ 50 ∷ [] ++ c ++ d ++ e ++ 1 ∷ [] ++ f ++ g) ≡ ok signed
    → a ≡ a'
    → c ≡ c'
    → d ≡ d'
    → e ≡ e'
    → f ≡ f'
    → g ≡ g'
    → signed ≡ a' ++ 50 ∷ [] ++ c' ++ d' ++ e' ++ 1 ∷ [] ++ f' ++ g'
signed-shape a c d e f g signed a' c' d' e' f' g' h pa pc pd pe pf pg =
    sym (ok_eq h) ∙ rw (pa, pc, pd, pe, pf, pg) refl

constant-ok : (t : Text) (raw a : Bytes) → encode t ≡ ok raw → Writer.text t ≡ ok a → a ≡ field raw
constant-ok t raw a e h =
    let (b, p, q) = text-ok t a h in q ∙ ap (λ (x : Bytes). field x) (ok_eq (sym p ∙ e))

signed_data-ok :
    (session_id : Bytes) (username : Text) (key_blob signed : Bytes)
    → signed_data session_id username ssh_connection ssh_ed25519 key_blob ≡ ok signed
    → (name : Bytes) × (encode username ≡ ok name)
      × (signed ≡ signed_bytes session_id name key_blob)
unfolding signed_data Writer.byte Writer.boolean encode
signed_data-ok session_id username key_blob signed h =
    let (a, pa, h1) = >>=-eq-ok (Writer.string session_id) _ h in
    let (c, pc, h2) = >>=-eq-ok (Writer.text username) _ h1 in
    let (d, pd, h3) = >>=-eq-ok (Writer.text ssh_connection) _ h2 in
    let (e, pe, h4) = >>=-eq-ok (Writer.text publickey) _ h3 in
    let (f, pf, h5) = >>=-eq-ok (Writer.text ssh_ed25519) _ h4 in
    let (g, pg, h6) = >>=-eq-ok (Writer.string key_blob) _ h5 in
    let (name, encoded, shape) = text-ok username c pc in
    (
      name,
      encoded,
      signed-shape a c d e f g signed _ _ _ _ _ _ h6 (string-ok session_id a pa) shape
          (constant-ok ssh_connection (codes "ssh-connection") d refl pd)
          (constant-ok publickey (codes "publickey") e refl pe)
          (constant-ok ssh_ed25519 (codes "ssh-ed25519") f refl pf) (string-ok key_blob g pg),
    )

-- In the form that a proof goes on with.
with_bind {ℓ κ μ} :
    {A : Type ℓ} {B : Type κ} {C : Type μ} (m : Read A) (k : A → Read B) (r : Reader)
    {x : B × Reader}
    → (m >>= k) r ≡ ok x
    → ((a : A) (r' : Reader) → k a r' ≡ ok x → C)
    → C
unfolding ◌>>=◌
with_bind m k r h go = let ((a, r'), p, q) = >>=-eq-ok (m r) _ h in go a r' q

with_read {ℓ κ μ} :
    {A : Type ℓ} {B : Type κ} {C : Type μ} (m : Read A) (k : A → Read B) (r : Reader)
    {x : B × Reader}
    → (m >>= k) r ≡ ok x
    → ((a : A) (r' : Reader) → m r ≡ ok (a, r') → k a r' ≡ ok x → C)
    → C
unfolding ◌>>=◌
with_read m k r h go = let ((a, r'), p, q) = >>=-eq-ok (m r) _ h in go a r' p q

pure-ok {ℓ} : {A : Type ℓ} (a v : A) (r r' : Reader) → pure a r ≡ ok (v, r') → v ≡ a
unfolding pure
pure-ok a v r r' h = ground arith

either : (n : ℕ) → (n == ssh_msg_ignore || n == ssh_msg_debug) ≡ true → (n ≡ 2) ⊎ (n ≡ 4)
either n h = ground arith

lift-ok {ℓ} : {A : Type ℓ} (m : Result A) (r r' : Reader) (v : A) → lift m r ≡ ok (v, r') → m ≡ ok v
unfolding lift
lift-ok m r r' v h = let (a, p, q) = >>=-eq-ok m _ h in ground arith

if-ok {ℓ} :
    {A : Type ℓ} (c : Bool) (m k : Read A) (r : Reader) {x : A × Reader}
    → (if c then m else k) r ≡ ok x
    → ((c ≡ true) × (m r ≡ ok x)) ⊎ (k r ≡ ok x)
if-ok true m k r h = inl (refl, h)
if-ok false m k r h = inr h

if_result-ok {ℓ} :
    {A : Type ℓ} (c : Bool) (m k : Result A) {x : A}
    → (if c then m else k) ≡ ok x
    → ((c ≡ true) × (m ≡ ok x)) ⊎ (k ≡ ok x)
if_result-ok true m k h = inl (refl, h)
if_result-ok false m k h = inr h

lift_err {ℓ} : {A : Type ℓ} (e : Exn.Exn) (r : Reader) {x : A × Reader} → lift (err e) r ≡ ok x → ⊥
unfolding lift
lift_err e r h = ground arith

-- A reply is not a grant.
reply-granted {ℓ} :
    {C : Type ℓ} (m : Result Bytes) (username : Text) (client : ℕ) (b : Bytes)
    → Exn.◌>>=◌ m (λ t. ok (reply t)) ≡ ok (granted username client b)
    → C
reply-granted (ok t) username client b h = absurd (ground arith)
reply-granted (err e) username client b h = absurd (ground arith)

lift_reply-granted {ℓ} :
    {C : Type ℓ} (m : Result Bytes) (r r' : Reader) (username : Text) (client : ℕ) (b : Bytes)
    → lift (Exn.◌>>=◌ m (λ t. ok (reply t))) r ≡ ok (granted username client b, r')
    → C
lift_reply-granted m r r' username client b h =
    reply-granted m username client b (lift-ok _ r r' _ h)

granted_eq :
    (t u : Text) (c d : ℕ) (b b' : Bytes) (approves : ℕ → Bool)
    → ok (granted t c b) ≡ ok (granted u d b')
    → approves c ≡ true
    → (t ≡ u) × (some c ≡ some d) × (approves d ≡ true)
granted_eq t u c d b b' approves same e =
    let names : t ≡ u = ground arith in let ids : c ≡ d = ground arith in (names, ap some ids, cc)

module _ (verify : Bytes → Bytes → Bytes → Bool) (fingerprint : Bytes → Text)
    (session_id : Bytes) where
  -- The client that the registry holds for the identifier approved a key, and a signature with that
  -- key on the session and on the request was verified.
  record Grants (a : Arrival) (username : Text) (client : ℕ) : Type 0 where
    key_blob : Bytes
    public : Bytes
    signed : Bytes
    signature : Bytes
    parsed : parse_ed25519_key_blob key_blob ≡ ok public
    name : Bytes
    encoded : encode username ≡ ok name
    covers : signed ≡ signed_bytes session_id name key_blob
    verified : verify public signed signature ≡ true
    registered : Registry.get username a.registry ≡ some client
    approved : a.approves client username (fingerprint key_blob) key_blob ≡ true

  verify_parsed-true :
      (username service key_alg : Text) (key_blob : Bytes) (k s : Result Bytes)
      → verify_parsed verify fingerprint session_id username service key_alg key_blob k s ≡ ok true
      → (public : Bytes) × (signature : Bytes) × (signed : Bytes) × (k ≡ ok public)
        × (signed_data session_id username service key_alg key_blob ≡ ok signed)
        × (verify public signed signature ≡ true)
  unfolding verify_parsed
  verify_parsed-true username service key_alg key_blob (err e) s h = absurd (ground arith)
  verify_parsed-true username service key_alg key_blob (ok k) (err e) h = absurd (ground arith)
  verify_parsed-true username service key_alg key_blob (ok k) (ok s) h =
      let (signed, p, q) =
        >>=-eq-ok (signed_data session_id username service key_alg key_blob) _ h in
      (k, s, signed, refl, p, ground arith)

  ask_client-granted :
      (a : Arrival) (username : Text) (key_blob : Bytes) (found : Option ℕ) (u : Text) (client : ℕ)
      (b : Bytes)
      → ask_client verify fingerprint session_id a username key_blob found ≡ ok (granted u client b)
      → (username ≡ u)
        × (found ≡ some client)
        × (a.approves client username (fingerprint key_blob) key_blob ≡ true)
  unfolding ask_client
  ask_client-granted a username key_blob none u client b h = reply-granted auth_failure u client b h
  ask_client-granted a username key_blob (some c) u client b h =
      elim (if_result-ok (a.approves c username (fingerprint key_blob) key_blob)
        (Exn.◌>>=◌ (Writer.byte ssh_msg_userauth_success) (λ t. ok (granted username c t)))
        (Exn.◌>>=◌ auth_failure (λ t. ok (reply t))) h) [
          | inl (e, p) ↦
              let (b', q, same) = >>=-eq-ok (Writer.byte ssh_msg_userauth_success) _ p in
              granted_eq username u c client b' b
                (λ n. a.approves n username (fingerprint key_blob) key_blob) same e
          | inr p ↦ reply-granted auth_failure u client b p
        ]

  with_signature-granted :
      (a : Arrival) (username : Text) (key_blob : Bytes) (u : Text) (client : ℕ) (b : Bytes)
      (r r' : Reader)
      → with_signature verify fingerprint session_id a username ssh_connection ssh_ed25519 key_blob
          r
        ≡ ok (granted u client b, r')
      → Grants a u client
  unfolding with_signature verify_user_signature decide_request
  with_signature-granted a username key_blob u client b r r' h =
      with_bind _ _ r h (λ sig_blob r1 h1. with_bind _ _ r1 h1 (λ done r2 h2.
        let (v, p, q) =
          >>=-eq-ok
            (verify_user_signature verify fingerprint session_id username ssh_connection ssh_ed25519
              key_blob sig_blob)
            (decide_request verify fingerprint session_id a username key_blob)
            (lift-ok _ r2 r' _ h2) in
        elim (if_result-ok v
          (ask_client verify fingerprint session_id a username key_blob
            (Registry.get username a.registry))
          (Exn.◌>>=◌ auth_failure (λ t. ok (reply t))) q) [
            | inl (e, asked) ↦
                let (same, found, agreed) =
                  ask_client-granted a username key_blob _ u client b asked in
                let (public, signature, signed, parsed, covers, verified) =
                  verify_parsed-true username ssh_connection ssh_ed25519 key_blob _ _
                    (p ∙ ap ok e) in
                let (name, encoded, shape) =
                  signed_data-ok session_id username key_blob signed covers in
                subst (λ (t : Text). Grants a t client) same
                  (record {
                    key_blob = key_blob;
                    public = public;
                    signed = signed;
                    signature = signature;
                    parsed = parsed;
                    name = name;
                    encoded = encoded;
                    covers = shape;
                    verified = verified;
                    registered = found;
                    approved = agreed;
                  })
            | inr refused ↦ reply-granted auth_failure u client b refused
          ]))

  with_key-granted :
      (a : Arrival) (username : Text) (u : Text) (client : ℕ) (b : Bytes) (r r' : Reader)
      → with_key verify fingerprint session_id a username ssh_connection r
        ≡ ok (granted u client b, r')
      → Grants a u client
  unfolding with_key
  with_key-granted a username u client b r r' h = with_bind _ _ r h (λ has_signature r1 h1.
      with_bind _ _ r1 h1 (λ key_alg r2 h2. with_bind _ _ r2 h2 (λ key_blob r3 h3.
        elim (if-ok (seq_eq key_alg ssh_ed25519) _ _ r3 h3) [
          | inl (alg, h4) ↦ elim (if-ok has_signature _ _ r3 h4) [
            | inl (e, h5) ↦ with_signature-granted a username key_blob u client b r3 r' (
                subst
                  (λ (t : Text).
                    with_signature verify fingerprint session_id a username ssh_connection t
                      key_blob r3
                    ≡ ok (granted u client b, r'))
                  (seq_eq→eq key_alg ssh_ed25519 alg) h5)
            | inr refused ↦ lift_reply-granted (pk_ok key_alg key_blob) r3 r' u client b refused
          ]
          | inr refused ↦ lift_reply-granted auth_failure r3 r' u client b refused
        ])))

  handle_request-granted :
      (a : Arrival) (u : Text) (client : ℕ) (b : Bytes) (r r' : Reader)
      → handle_request verify fingerprint session_id a r ≡ ok (granted u client b, r')
      → Grants a u client
  unfolding handle_request
  handle_request-granted a u client b r r' h = with_bind _ _ r h (λ msg r1 h1.
      elim (if-ok (msg == ssh_msg_userauth_request) _ _ r1 h1) [
        | inl (is_request, h2) ↦ with_bind _ _ r1 h2 (λ username r2 h3.
            with_bind _ _ r2 h3 (λ service r3 h4. with_bind _ _ r3 h4 (λ method r4 h5.
              elim (if-ok (seq_eq service ssh_connection) _ _ r4 h5) [
                | inl (known, h6) ↦ elim (if-ok (seq_eq method publickey) _ _ r4 h6) [
                  | inl (by_key, h7) ↦ with_key-granted a username u client b r4 r' (
                      subst
                        (λ (t : Text).
                          with_key verify fingerprint session_id a username t r4
                          ≡ ok (granted u client b, r'))
                        (seq_eq→eq service ssh_connection known) h7)
                  | inr refused ↦ lift_reply-granted auth_failure r4 r' u client b refused
                ]
                | inr refused ↦ lift_reply-granted auth_failure r4 r' u client b refused
              ])))
        | inr refused ↦ absurd (lift_err _ r1 refused)
      ])

  after_request-granted :
      (a : Arrival) (run_ : Result Handled) (later : List Bytes × Result (Text × ℕ))
      (sent : List Bytes) (u : Text) (client : ℕ)
      → after_request verify fingerprint session_id run_ later ≡ (sent, ok (u, client))
      → ((b : Bytes) × (run_ ≡ ok (granted u client b))) ⊎ (later.1 ≡ ok (u, client))
  unfolding after_request
  after_request-granted a (err e) later sent u client h = absurd (ground arith)
  after_request-granted a (ok (reply b)) later sent u client h = inr (ap (λ t. t.1) h)
  after_request-granted a (ok (granted t c b)) later sent u client h =
      let same : ◌≡◌ {A = Result (Text × ℕ)} (ok (t, c)) (ok (u, client)) = ap (λ t. t.1) h in
      let names : t ≡ u = ground arith in let ids : c ≡ client = ground arith in inl (b, cc)

  after_service-granted :
      (m : Result (Option Bytes)) (next later : List Bytes × Result (Text × ℕ)) (sent : List Bytes)
      (u : Text) (client : ℕ)
      → after_service verify fingerprint session_id m next later ≡ (sent, ok (u, client))
      → ((m ≡ ok none) × (next ≡ (sent, ok (u, client))))
        ⊎ ((b : Bytes) × (m ≡ ok (some b)) × (later.1 ≡ ok (u, client)))
  unfolding after_service
  after_service-granted (err e) next later sent u client h = absurd (ground arith)
  after_service-granted (ok none) next later sent u client h = inl (refl, h)
  after_service-granted (ok (some b)) next later sent u client h = inr (b, refl, ap (λ t. t.1) h)

  -- How a round of the first loop returns.
  service_request-ok :
      (b : Bytes) (o : Option Bytes)
      → run (service_request verify fingerprint session_id) b ≡ ok o
      → ((o ≡ none) × IsIgnored b) ⊎ ((t : Bytes) × (o ≡ some t) × IsServiceRequest b)
  unfolding service_request IsServiceRequest IsIgnored
  service_request-ok b o h =
      let ((v, r'), p, q) =
        >>=-eq-ok (service_request verify fingerprint session_id (reader b)) _ h in
      let same : v ≡ o = ok_eq q in
      with_read _ _ (reader b) p (λ msg r1 took h1.
        elim (if-ok (msg == ssh_msg_service_request) _ _ r1 h1) [
          | inl (e, h2) ↦ with_read _ _ r1 h2 (λ name r2 named h3.
              elim (if-ok (seq_eq name (codes "ssh-userauth")) _ _ r2 h3) [
                | inl (f, h4) ↦
                    let (m, x, h5) =
                      >>=-eq-ok (Writer.byte ssh_msg_service_accept) _ (lift-ok _ r2 r' v h4) in
                    let (t, y, h6) = >>=-eq-ok (Writer.text name) _ h5 in
                    inr (
                      m ++ t,
                      sym same ∙ sym (ok_eq h6),
                      (
                        r1,
                        r2,
                        took ∙ ap (λ (n : ℕ). ok (n, r1)) ((==_iff msg 5).0 e),
                        named
                            ∙ ap (λ (n : Text). ok (n, r2))
                                (seq_eq→eq name (codes "ssh-userauth") f),
                      ),
                    )
                | inr refused ↦ absurd (lift_err _ r2 refused)
              ])
          | inr h2 ↦ elim (if-ok (msg == ssh_msg_ignore || msg == ssh_msg_debug) _ _ r1 h2) [
            | inl (e, h3) ↦ inl (sym same ∙ pure-ok none v r1 r' h3, (msg, r1, took, either msg e))
            | inr refused ↦ absurd (lift_err _ r1 refused)
          ]
        ])

  userauth-granted :
      (arrivals : List Arrival) (u : Text) (client : ℕ)
      → (userauth verify fingerprint session_id arrivals).1 ≡ ok (u, client)
      → Somewhere (λ (a : Arrival). Grants a u client) arrivals
  unfolding userauth
  userauth-granted [] u client h = absurd (ground arith)
  userauth-granted (a ∷ arrivals) u client h =
      let done = run (handle_request verify fingerprint session_id a) a.payload in
      let later = userauth verify fingerprint session_id arrivals in
      elim (after_request-granted a done later
        (after_request verify fingerprint session_id done later).0 u client
        (λ i. ((after_request verify fingerprint session_id done later).0, h i))) [
          | inl (b, e) ↦
              let ((v, r'), p, q) =
                >>=-eq-ok (handle_request verify fingerprint session_id a (reader a.payload)) _ e in
              here (
                handle_request-granted a u client b (reader a.payload) r'
                  (p ∙ ap (λ t. ok (t, r')) (ok_eq q)))
          | inr e ↦ there (userauth-granted arrivals u client e)
        ]

  -- An operator is let in only if the packets are IGNORE and DEBUG packets, then a SERVICE_REQUEST
  -- for ssh-userauth, and then packets among which there is one at whose handling the registry holds
  -- the client of the operator's identifier, that client approved the key, and `verify` accepted a
  -- signature with the key on the bytes that RFC 4252 lists, written out with the session id, the
  -- identifier in UTF-8 and the key.
  authenticate-Grants :
      (arrivals : List Arrival) (sent : List Bytes) (u : Text) (client : ℕ)
      → authenticate verify fingerprint session_id arrivals ≡ (sent, ok (u, client))
      → Admits (λ (a : Arrival). Grants a u client) arrivals
  unfolding authenticate
  authenticate-Grants [] sent u client h = absurd (ground arith)
  authenticate-Grants (a ∷ arrivals) sent u client h =
      elim (after_service-granted (run (service_request verify fingerprint session_id) a.payload)
        (authenticate verify fingerprint session_id arrivals)
        (userauth verify fingerprint session_id arrivals) sent u client h) [
          | inl (e, next) ↦ elim (service_request-ok a.payload none e) [
            | inl (_, skipped) ↦ ignored skipped (authenticate-Grants arrivals sent u client next)
            | inr (t, f, _) ↦ absurd (ground arith)
          ]
          | inr (b, e, next) ↦ elim (service_request-ok a.payload (some b) e) [
            | inl (f, _) ↦ absurd (ground arith)
            | inr (_, _, asked) ↦ served asked (userauth-granted arrivals u client next)
          ]
        ]
