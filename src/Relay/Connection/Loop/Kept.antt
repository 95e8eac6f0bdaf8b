-- ===== src/Relay/Connection/Loop/Kept.antt =====
-- The channel tables under the packets of the SSH client.
use rever_ssh.Prelude.{ℕ, Bool, Option, none, some, ◌||◌, ◌==◌, length}
use rever_ssh.Exn.{Result}
use rever_ssh.Bytes.{Bytes, Text}
use rever_ssh.Relay.Channel.{Channel}
use rever_ssh.Relay.Connection.State.{
  Kind, remote, forwarded, find_channel, when_found, Step, ◌>>=◌,
}
use rever_ssh.Relay.Connection.State.Changes.{
  Keeps-object, Keeps-pop_channel, Keeps-when, Keeps-when_found,
}
use rever_ssh.Relay.Connection.State.Tables.{
  HasRecipient, Keeps, Keeps-bind, Keeps-pure, Keeps-lift, Keeps-get_state, Keeps-send_payload,
  Keeps-send_frame, Keeps-find_channel,
}
use rever_ssh.Relay.Connection.Objects.Kept.{
  send_option-Keeps, if-Keeps, modify_kind-Keeps, add_window-Keeps, set_recipient-Keeps,
  on_ssh_data-Keeps, on_ssh_extended_data-Keeps, on_ssh_eof-Keeps, on_ssh_close-Keeps,
}
use rever_ssh.Relay.Connection.Global.Kept.{handle_global_request-Keeps}
use rever_ssh.Relay.Connection.Open.{Opening, Extra}
use rever_ssh.Relay.Connection.Open.Kept.{begin_open-Keeps, begin_open-Gives}
use rever_ssh.Relay.Connection.State.{lift}
use rever_ssh.Relay.Connection.State.Given.{Gives, Gives-bind, Gives-none, if-Gives}
use rever_ssh.Relay.Messages
use rever_ssh.Relay.Connection.Objects.{client_channel_request}
use rever_ssh.Relay.Connection.Loop.{
  open_result, handle_open_confirmation, handle_open_failure, reply_to, refuse_request,
  channel_request, request_for, handle_channel_request, adjust_window, window_adjust, channel_data,
  channel_extended_data, channel_eof, answer_close, channel_close, unimplemented, at_once,
  handle_packet,
}

open_result-HasRecipient :
    (r : Bool × Text) (base : Channel) (kind : Kind)
    → HasRecipient base kind
    → HasRecipient base (open_result r kind)
unfolding HasRecipient open_result
open_result-HasRecipient r base (remote channel_id) h = h
open_result-HasRecipient r base (forwarded result out closed) h = tt

handle_open_confirmation-Keeps : (payload : Bytes) → Keeps (handle_open_confirmation payload)
unfolding handle_open_confirmation
handle_open_confirmation-Keeps payload =
    Keeps-bind _ _ (Keeps-lift _) (λ (local_id, sender, window, most).
      Keeps-bind _ _ (Keeps-find_channel local_id) (λ found. Keeps-when_found found _ (λ i.
        Keeps-bind _ _ (set_recipient-Keeps i sender window most)
          (λ _. modify_kind-Keeps i _ (open_result-HasRecipient _)))))

handle_open_failure-Keeps : (payload : Bytes) → Keeps (handle_open_failure payload)
unfolding handle_open_failure
handle_open_failure-Keeps payload = Keeps-bind _ _ (Keeps-lift _) (λ (local_id, reason, message).
    Keeps-bind _ _ (Keeps-pop_channel local_id)
      (λ found. Keeps-when_found found _ (λ i. modify_kind-Keeps i _ (open_result-HasRecipient _))))

reply_to-Keeps : (message : ℕ) (recipient : Option ℕ) → Keeps (reply_to message recipient)
unfolding reply_to
reply_to-Keeps message none = Keeps-lift _
reply_to-Keeps message (some r) = Keeps-send_payload _

refuse_request-Keeps :
    (want_reply : Bool) (recipient : Option ℕ) → Keeps (refuse_request want_reply recipient)
unfolding refuse_request
refuse_request-Keeps want_reply none = Keeps-pure tt
refuse_request-Keeps want_reply (some r) = Keeps-when want_reply _ (Keeps-send_payload _)

channel_request-Keeps :
    (request : Text) (want_reply : Bool) (rest : Bytes) (recipient : Option ℕ) (kind : Kind)
    → Keeps (channel_request request want_reply rest recipient kind)
unfolding channel_request client_channel_request
channel_request-Keeps request want_reply rest recipient (remote (some c)) =
    Keeps-bind _ _ (Keeps-send_frame _ _)
      (λ _. Keeps-when want_reply _ (reply_to-Keeps _ recipient))
channel_request-Keeps request want_reply rest recipient (remote none) =
    refuse_request-Keeps want_reply recipient
channel_request-Keeps request want_reply rest recipient (forwarded result out closed) =
    refuse_request-Keeps want_reply recipient

request_for-Keeps :
    (local_id : ℕ) (request : Text) (want_reply : Bool) (rest : Bytes) (found : Option ℕ)
    → Keeps (request_for local_id request want_reply rest found)
unfolding request_for
request_for-Keeps local_id request want_reply rest none =
    Keeps-when want_reply _ (Keeps-send_payload _)
request_for-Keeps local_id request want_reply rest (some i) =
    Keeps-bind _ _ (Keeps-object i)
      (λ o. channel_request-Keeps request want_reply rest o.base.recipient o.kind)

handle_channel_request-Keeps : (payload : Bytes) → Keeps (handle_channel_request payload)
unfolding handle_channel_request
handle_channel_request-Keeps payload =
    Keeps-bind _ _ (Keeps-lift _) (λ (local_id, request, want_reply, rest).
      Keeps-bind _ _ (Keeps-find_channel local_id)
        (request_for-Keeps local_id request want_reply rest))

adjust_window-Keeps : (i amount : ℕ) → Keeps (adjust_window i amount)
unfolding adjust_window
adjust_window-Keeps i amount = Keeps-bind _ _ (Keeps-object i) (λ o. send_option-Keeps _)

-- What is done to the channel of an id, if there is one.
found-Keeps :
    (local_id : ℕ) (k : ℕ → Step (Unit {0}))
    → ((i : ℕ) → Keeps (k i))
    → Keeps (find_channel local_id >>= λ found. when_found found k)
found-Keeps local_id k q =
    Keeps-bind _ _ (Keeps-find_channel local_id) (λ found. Keeps-when_found found k q)

window_adjust-Keeps : (r : ℕ × ℕ) → Keeps (window_adjust r)
unfolding window_adjust
window_adjust-Keeps (local_id, amount) = found-Keeps local_id _ (λ i. add_window-Keeps i amount)

channel_data-Keeps : (r : ℕ × Bytes) → Keeps (channel_data r)
unfolding channel_data
channel_data-Keeps (local_id, b) =
    found-Keeps local_id _
      (λ i. Keeps-bind _ _ (on_ssh_data-Keeps i b) (λ _. adjust_window-Keeps i (length b)))

channel_extended_data-Keeps : (r : ℕ × ℕ × Bytes) → Keeps (channel_extended_data r)
unfolding channel_extended_data
channel_extended_data-Keeps (local_id, data_type, b) = found-Keeps local_id _ (λ i.
    Keeps-bind _ _ (on_ssh_extended_data-Keeps i data_type b)
      (λ _. adjust_window-Keeps i (length b)))

channel_eof-Keeps : (local_id : ℕ) → Keeps (channel_eof local_id)
unfolding channel_eof
channel_eof-Keeps local_id = found-Keeps local_id _ on_ssh_eof-Keeps

answer_close-Keeps : (recipient : Option ℕ) → Keeps (answer_close recipient)
unfolding answer_close
answer_close-Keeps none = Keeps-pure tt
answer_close-Keeps (some r) = Keeps-send_payload _

channel_close-Keeps : (local_id : ℕ) → Keeps (channel_close local_id)
unfolding channel_close
channel_close-Keeps local_id = Keeps-bind _ _ (Keeps-pop_channel local_id) (λ found.
    Keeps-when_found found _ (λ i.
      Keeps-bind _ _ (on_ssh_close-Keeps i)
        (λ _. Keeps-bind _ _ (Keeps-object i) (λ o. answer_close-Keeps o.base.recipient))))

unimplemented-Keeps : Keeps unimplemented
unfolding unimplemented
unimplemented-Keeps = Keeps-bind _ _ Keeps-get_state (λ s. Keeps-send_payload _)

at_once-Keeps : (m : Step (Unit {0})) → Keeps m → Keeps (at_once m)
unfolding at_once
at_once-Keeps m q = Keeps-bind _ _ q (λ _. Keeps-pure none)

-- A handler of what was read.
reads-Keeps :
    {A : Type 0} (r : Result A) (k : A → Step (Unit {0}))
    → ((a : A) → Keeps (k a))
    → Keeps (at_once (lift r >>= k))
reads-Keeps r k q = at_once-Keeps _ (Keeps-bind _ _ (Keeps-lift r) q)

pub handle_packet-Keeps :
    (listen : Text → ℕ → Result (ℕ × ℕ)) (dumps : Extra → Text) (payload : Bytes)
    → Keeps (handle_packet listen dumps payload)
unfolding handle_packet
handle_packet-Keeps listen dumps payload = Keeps-bind _ _ (Keeps-lift _) (λ msg.
    if-Keeps (msg == Messages.ssh_msg_global_request) _ _
      (at_once-Keeps _ (handle_global_request-Keeps listen payload))
      (if-Keeps (msg == Messages.ssh_msg_channel_open) _ _ (begin_open-Keeps dumps payload) (
        if-Keeps (msg == Messages.ssh_msg_channel_open_confirmation) _ _
          (at_once-Keeps _ (handle_open_confirmation-Keeps payload))
          (if-Keeps (msg == Messages.ssh_msg_channel_open_failure) _ _
            (at_once-Keeps _ (handle_open_failure-Keeps payload))
            (if-Keeps (msg == Messages.ssh_msg_channel_window_adjust) _ _
              (reads-Keeps _ _ window_adjust-Keeps)
              (if-Keeps (msg == Messages.ssh_msg_channel_data) _ _
                (reads-Keeps _ _ channel_data-Keeps)
                (if-Keeps (msg == Messages.ssh_msg_channel_extended_data) _ _
                  (reads-Keeps _ _ channel_extended_data-Keeps)
                  (if-Keeps (msg == Messages.ssh_msg_channel_eof) _ _
                    (reads-Keeps _ _ channel_eof-Keeps)
                    (if-Keeps (msg == Messages.ssh_msg_channel_close) _ _
                      (reads-Keeps _ _ channel_close-Keeps)
                      (if-Keeps (msg == Messages.ssh_msg_channel_request) _ _
                        (at_once-Keeps _ (handle_channel_request-Keeps payload))
                        (if-Keeps (msg == Messages.ssh_msg_ignore || msg == Messages.ssh_msg_debug)
                          _ _ (Keeps-pure none) (at_once-Keeps _ unimplemented-Keeps))))))))))))

at_once-Gives : (m : Step (Unit {0})) → Gives (λ (o : Opening). o.local_id) (at_once m)
unfolding at_once
at_once-Gives m = Gives-bind _ _ _ (λ _. Gives-none _)

pub handle_packet-Gives :
    (listen : Text → ℕ → Result (ℕ × ℕ)) (dumps : Extra → Text) (payload : Bytes)
    → Gives (λ (o : Opening). o.local_id) (handle_packet listen dumps payload)
unfolding handle_packet
handle_packet-Gives listen dumps payload = Gives-bind _ _ _ (λ msg.
    if-Gives _ (msg == Messages.ssh_msg_global_request) _ _ (at_once-Gives _) (
      if-Gives _ (msg == Messages.ssh_msg_channel_open) _ _ (begin_open-Gives dumps payload) (
        if-Gives _ (msg == Messages.ssh_msg_channel_open_confirmation) _ _ (at_once-Gives _) (
          if-Gives _ (msg == Messages.ssh_msg_channel_open_failure) _ _ (at_once-Gives _) (
            if-Gives _ (msg == Messages.ssh_msg_channel_window_adjust) _ _ (at_once-Gives _) (
              if-Gives _ (msg == Messages.ssh_msg_channel_data) _ _ (at_once-Gives _) (
                if-Gives _ (msg == Messages.ssh_msg_channel_extended_data) _ _ (at_once-Gives _) (
                  if-Gives _ (msg == Messages.ssh_msg_channel_eof) _ _ (at_once-Gives _) (
                    if-Gives _ (msg == Messages.ssh_msg_channel_close) _ _ (at_once-Gives _) (
                      if-Gives _ (msg == Messages.ssh_msg_channel_request) _ _ (at_once-Gives _) (
                        if-Gives _ (msg == Messages.ssh_msg_ignore || msg == Messages.ssh_msg_debug)
                          _ _ (Gives-none _) (at_once-Gives _))))))))))))
