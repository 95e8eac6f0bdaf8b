-- ===== src/Relay/Connection/Global/Kept.antt =====
-- The channel tables under the handler of global requests.
use rever_ssh.Prelude.{ℕ, Bool, Option, none, some, arith, seq_eq, codes, ◌||◌}
use rever_ssh.Exn.{Result, ok, err}
use rever_ssh.Bytes.{Bytes, Text}
use rever_ssh.Dict.{Dict}
use rever_ssh.Relay.Connection.State.Changes.{Keeps-when}
use rever_ssh.Relay.Connection.State.Tables.{
  Keeps, Keeps-bind, Keeps-lift, Keeps-get_state, Keeps-send_payload,
}
use rever_ssh.Relay.Connection.Objects.Kept.{if-Keeps}
use rever_ssh.Relay.Connection.Global.{
  put_forwards, close_listener, is_os_error, enable_forward, cancel_forward, global_request,
  handle_global_request,
}

put_forwards-Keeps : (forwards : Dict (Text × ℕ) ℕ) → Keeps (put_forwards forwards)
unfolding put_forwards
put_forwards-Keeps forwards = record {
  valid = λ s h. record {
    named = h.named;
    given = h.given;
    receivable = h.receivable;
    counted = h.counted;
  };
  grows = λ s. omega arith;
}

close_listener-Keeps : (listener : Option ℕ) → Keeps (close_listener listener)
unfolding close_listener
close_listener-Keeps none = record { valid = λ s h. h; grows = λ s. omega arith }
close_listener-Keeps (some listener) = record {
  valid = λ s h. record {
    named = h.named;
    given = h.given;
    receivable = h.receivable;
    counted = h.counted;
  };
  grows = λ s. omega arith;
}

enable_forward-Keeps :
    (bind_address : Text) (bind_port : ℕ) (want_reply : Bool) (r : Result (ℕ × ℕ))
    → Keeps (enable_forward bind_address bind_port want_reply r)
unfolding enable_forward
enable_forward-Keeps bind_address bind_port want_reply (ok (listener, actual_port)) =
    Keeps-bind _ _ Keeps-get_state (λ s.
      Keeps-bind _ _ (put_forwards-Keeps _) (λ _. Keeps-when want_reply _ (Keeps-send_payload _)))
enable_forward-Keeps bind_address bind_port want_reply (err e) =
    if-Keeps (is_os_error e) _ _ (Keeps-when want_reply _ (Keeps-send_payload _)) (Keeps-lift _)

cancel_forward-Keeps :
    (bind_address : Text) (bind_port : ℕ) (want_reply : Bool)
    → Keeps (cancel_forward bind_address bind_port want_reply)
unfolding cancel_forward
cancel_forward-Keeps bind_address bind_port want_reply = Keeps-bind _ _ Keeps-get_state (λ s.
    Keeps-bind _ _ (put_forwards-Keeps _) (λ _.
      Keeps-bind _ _ (close_listener-Keeps _)
        (λ _. Keeps-when want_reply _ (Keeps-send_payload _))))

global_request-Keeps :
    (listen : Text → ℕ → Result (ℕ × ℕ)) (request : Text) (want_reply : Bool) (rest : Bytes)
    → Keeps (global_request listen request want_reply rest)
unfolding global_request
global_request-Keeps listen request want_reply rest =
    if-Keeps (seq_eq request (codes "tcpip-forward")) _ _
      (Keeps-bind _ _ (Keeps-lift _)
        (λ (bind_address, bind_port). enable_forward-Keeps bind_address bind_port want_reply _))
      (if-Keeps (seq_eq request (codes "cancel-tcpip-forward")) _ _
        (Keeps-bind _ _ (Keeps-lift _)
          (λ (bind_address, bind_port). cancel_forward-Keeps bind_address bind_port want_reply))
        (if-Keeps
          (seq_eq request (codes "keepalive@openssh.com")
            || seq_eq request (codes "no-more-sessions@openssh.com"))
          _ _ (Keeps-when want_reply _ (Keeps-send_payload _))
          (Keeps-when want_reply _ (Keeps-send_payload _))))

pub handle_global_request-Keeps :
    (listen : Text → ℕ → Result (ℕ × ℕ)) (payload : Bytes)
    → Keeps (handle_global_request listen payload)
unfolding handle_global_request
handle_global_request-Keeps listen payload =
    Keeps-bind _ _ (Keeps-lift _)
      (λ (request, want_reply, rest). global_request-Keeps listen request want_reply rest)
