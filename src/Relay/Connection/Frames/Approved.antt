-- ===== src/Relay/Connection/Frames/Approved.antt =====
-- Which AUTH_RESPONSE decides a question of `request_auth`.
use rever_ssh.Prelude.{ℕ, ◌≡◌, ◌≢◌, refl, ◌⊎◌, inl, inr, Bool, Option, none, some, arith, ==_iff}
use rever_ssh.Exn.{ok}
use rever_ssh.Dict
use rever_ssh.Dict.{nat_key, get-put, get-put_self, get-remove_self}
use rever_ssh.Relay.Connection.State.{Connection, ◌>>=◌, and_then, pure, get_state, modify_client}
use rever_ssh.Relay.Connection.Frames.{set_approved, auth_response, auth_result, finish_auth}

pending-cases : (p : Option (Unit {0})) → (p ≡ none) ⊎ (p ≡ some tt)
pending-cases none = inl refl
pending-cases (some tt) = inr refl

-- Another key's entry stays.
get-put_other :
    (i j : ℕ) (v : Bool) (d : Dict.Dict ℕ Bool) → i ≢ j → Dict.get j (Dict.put i v d) ≡ Dict.get j d
get-put_other i j v d h = grind (arith, get-put i j v d, ==_iff i j)

-- An AUTH_RESPONSE for a question that waits decides it: `request_auth` then returns its answer, and
-- the question waits no longer. One for an id that does not wait, because it was never asked, was
-- answered before or has timed out, decides nothing. Neither changes the answer to another question.
pub auth_response-finish_auth :
    (s : Connection) (auth_id other : ℕ) (value persist : Bool)
    → auth_id ≢ other
    → (((Dict.get auth_id s.client.pending_auth ≡ some tt)
          × ((finish_auth auth_id (auth_response (auth_id, value, persist) s).1).0 ≡ ok value))
        ⊎ ((Dict.get auth_id s.client.pending_auth ≡ none)
            × ((auth_response (auth_id, value, persist) s).1.client.approved ≡ s.client.approved)))
      × (Dict.get auth_id (auth_response (auth_id, value, persist) s).1.client.pending_auth ≡ none)
      × (Dict.get other (auth_response (auth_id, value, persist) s).1.client.approved
          ≡ Dict.get other s.client.approved)
unfolding auth_response set_approved finish_auth auth_result modify_client get_state ◌>>=◌ and_then
    pure
auth_response-finish_auth s auth_id other value persist h =
    elim (pending-cases (Dict.get auth_id s.client.pending_auth)) [
      | inl e ↦
          (inr (e, rw e refl), rw e (get-remove_self auth_id s.client.pending_auth), rw e refl)
      | inr e ↦ (
        inl (e, rw e (rw (get-put_self auth_id value s.client.approved) refl)),
        rw e (get-remove_self auth_id s.client.pending_auth),
        rw e (get-put_other auth_id other value s.client.approved h),
      )
    ]
