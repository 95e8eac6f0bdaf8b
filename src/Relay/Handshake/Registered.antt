-- ===== src/Relay/Handshake/Registered.antt =====
-- Which clients are started.
mod Tests
use rever_ssh.Prelude.{
  ℕ, ◌≡◌, ◌≢◌, refl, sym, ap, ◌∙◌, ◌⊎◌, inl, inr, Bool, true, false, Bool-cases, ◌||◌, List, [],
  ◌∷◌, Option, none, some, codes, arith, if◌then◌else◌,
}
use rever_ssh.Exn.{Result, ok, err, os_error}
use rever_ssh.Bytes.{Bytes, Text}
use rever_ssh.Sock.{Sock, is_empty}
use rever_ssh.Bytes.Endian.{to_be}
use rever_ssh.Bytes.Utf8.{encode}
use rever_ssh.SshEncoding.Writer.{text, string, uint32, boolean}
use rever_ssh.PrivateProtocol.Pack.{pack_register_result}
use rever_ssh.PrivateProtocol.Frame.{FrameType, read_frame, send_frame}
use rever_ssh.PrivateProtocol.Unpack.{unpack_register}
use rever_ssh.Relay.Registry
use rever_ssh.Relay.Registry.{Registry, add}
use rever_ssh.Relay.Registry.Stable.{add_lem}
use rever_ssh.Relay.Handshake.{
  Handshake, has_space, is_register, send_result, not_started, refuse, start, answer_add, register,
  first_frame, handle_reverse_client,
}

-- The client has an identifier that is well-formed and that no live client had.
IsEntered : ℕ → Registry → Registry → Text → Type 0
IsEntered client r r' identifier =
    (identifier ≢ [])
    × (has_space identifier ≡ false)
    × (Registry.get identifier r ≡ none)
    × (Registry.get identifier r' ≡ some client)

-- Started and entered; or nothing was registered; or entered and not started, as the answer could
-- not be sent.
Registers : Bool → ℕ → Registry → Handshake → Type 0
Registers lost client r h =
    ((identifier : Text) × (lost ≡ false)
      × (h.started ≡ some identifier)
      × IsEntered client r h.registry identifier)
    ⊎ (((h.started ≡ none) × (h.registry ≡ r))
        ⊎ ((identifier : Text) × (lost ≡ true)
            × (h.started ≡ none)
            × IsEntered client r h.registry identifier))

not_started-Registers :
    (lost : Bool) (client : ℕ) (r : Registry) (s : Sock) (answer : Result Sock)
    → Registers lost client r (not_started r s answer)
unfolding Registers not_started
not_started-Registers lost client r s (ok s') = inr (inl (refl, refl))
not_started-Registers lost client r s (err e) = inr (inl (refl, refl))

refuse-Registers :
    (lost : Bool) (client : ℕ) (message : Text) (r : Registry) (s : Sock)
    → Registers lost client r (refuse lost message r s)
unfolding refuse
refuse-Registers lost client message r s = not_started-Registers lost client r s _

send_result_ok : (s : Sock) → (s' : Sock) × (send_result false true (codes "registered") s ≡ ok s')
unfolding send_result pack_register_result text encode string uint32 send_frame boolean to_be
send_result_ok s = (_, refl)

send_result_lost : (s : Sock) → send_result true true (codes "registered") s ≡ err os_error
unfolding send_result pack_register_result text encode string uint32 boolean to_be
send_result_lost s = refl

entered :
    (client : ℕ) (identifier : Text) (r r' : Registry)
    → identifier ≢ []
    → has_space identifier ≡ false
    → Registry.get identifier r ≡ none
    → Registry.get identifier r' ≡ some client
    → IsEntered client r r' identifier
unfolding IsEntered
entered client identifier r r' full clear free found = (full, clear, free, found)

answer_add-Registers :
    (lost : Bool) (client : ℕ) (identifier : Text) (r : Registry) (o : Bool × Registry) (s : Sock)
    → identifier ≢ []
    → has_space identifier ≡ false
    → Registry.get identifier r ≡ none
    → o.0 ≡ true
    → Registry.get identifier o.1 ≡ some client
    → Registers lost client r (answer_add lost identifier o s)
unfolding answer_add Registers start
answer_add-Registers lost client identifier r (false, r') s full clear free added found =
    absurd (ground arith)
answer_add-Registers false client identifier r (true, r') s full clear free added found =
    let (s', sent) = send_result_ok s in
    rw sent (inl (identifier, refl, refl, entered client identifier r r' full clear free found))
answer_add-Registers true client identifier r (true, r') s full clear free added found =
    rw (send_result_lost s)
      (inr (inr (identifier, refl, refl, entered client identifier r r' full clear free found)))

add-Registers :
    (lost : Bool) (client : ℕ) (identifier : Text) (r : Registry) (s : Sock)
    → r.alive client ≡ true
    → identifier ≢ []
    → has_space identifier ≡ false
    → Registers lost client r (answer_add lost identifier (Registry.add identifier client r) s)
unfolding answer_add
add-Registers lost client identifier r s alive full clear =
    elim (add_lem identifier client r alive) [
      | inr (d, _, e) ↦
          rw e (refuse-Registers lost client (codes "identifier already registered") r s)
      | inl (free, added, found) ↦
          answer_add-Registers lost client identifier r (Registry.add identifier client r) s full
            clear free added found
    ]

register-Registers :
    (lost : Bool) (client : ℕ) (named : Result Text) (r : Registry) (s : Sock)
    → r.alive client ≡ true
    → Registers lost client r (register lost client named r s)
unfolding register Registers
register-Registers lost client (err e) r s alive = inr (inl (refl, refl))
register-Registers lost client (ok []) r s alive =
    refuse-Registers lost client (codes "invalid identifier") r s
register-Registers lost client (ok (c ∷ cs)) r s alive = elim (Bool-cases (has_space (c ∷ cs))) [
  | inl e ↦ rw e (refuse-Registers lost client (codes "invalid identifier") r s)
  | inr e ↦ rw e (add-Registers lost client (c ∷ cs) r s alive (λ h. absurd (ground arith)) e)
]

first_frame-Registers :
    (lost : Bool) (client : ℕ) (got : Result ((FrameType × Bytes) × Sock)) (r : Registry) (s : Sock)
    → r.alive client ≡ true
    → Registers lost client r (first_frame lost client got r s)
unfolding first_frame Registers
first_frame-Registers lost client (err e) r s alive = inr (inl (refl, refl))
first_frame-Registers lost client (ok ((t, payload), s')) r s alive =
    elim (Bool-cases (is_register t)) [
      | inl e ↦ rw e (register-Registers lost client (unpack_register payload) r s' alive)
      | inr e ↦
          rw e (refuse-Registers lost client (codes "first frame must register identifier") r s')
    ]

-- Whatever the new connection sends, for a client object that is alive: either the client is
-- started, under an identifier that is not empty, has no white space, had no live client before, and
-- now gives this client; or it is not started and the registry is what it was; or the answer could
-- not be sent as the peer was lost, the client is not started, and the registry nevertheless gives
-- it under such an identifier.
handle_reverse_client-Registers :
    (lost : Bool) (client : ℕ) (r : Registry) (s : Sock)
    → r.alive client ≡ true
    → Registers lost client r (handle_reverse_client lost client r s)
unfolding handle_reverse_client
handle_reverse_client-Registers lost client r s alive =
    first_frame-Registers lost client (read_frame s) r s alive
