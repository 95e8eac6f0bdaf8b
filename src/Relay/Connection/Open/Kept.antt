-- ===== src/Relay/Connection/Open/Kept.antt =====
-- The channel tables while a channel opens.
use rever_ssh.Prelude.{ℕ, refl, Bool, true, false, Option, none, some, seq_eq, codes, not}
use rever_ssh.Bytes.{Bytes, Text}
use rever_ssh.Relay.Channel
use rever_ssh.Relay.Channel.{Channel, Wake}
use rever_ssh.Relay.Connection.State.{Kind, remote, forwarded}
use rever_ssh.Relay.Connection.State.Changes.{
  Keeps-new_object, Keeps-take_channel_id, get-remove-some,
}
use rever_ssh.Relay.Connection.State.Tables.{
  HasRecipient, Keeps, Keeps-bind, Keeps-pure, Keeps-lift, Keeps-get_state, Keeps-send_payload,
  Keeps-send_frame, Keeps-modify_client,
}
use rever_ssh.Relay.Connection.Objects.Kept.{received, if-Keeps, modify_kind-Keeps}
use rever_ssh.Relay.Connection.State.Given.{
  Gives, Gives-bind, Gives-none, GivesFrom-bind, GivesFrom-pure, Gives-new_object, if-Gives,
}
use rever_ssh.Relay.Connection.State.Listed.{
  KeepsFrom, KeepsFrom-bind, KeepsFrom-Keeps, KeepsFrom-modify_list,
}
use rever_ssh.Relay.Connection.Open.{
  Extra, session, Opening, set_remote_id, client_open_channel, open_failure, open_remote,
  begin_open, client_opened, answer_open, finish_open,
}

set_remote_id-HasRecipient :
    (channel_id : ℕ) (base : Channel) (kind : Kind)
    → HasRecipient base kind
    → HasRecipient base (set_remote_id channel_id kind)
unfolding HasRecipient set_remote_id
set_remote_id-HasRecipient channel_id base (remote _) h = h
set_remote_id-HasRecipient channel_id base (forwarded result out closed) h = tt

client_open_channel-Keeps :
    (dumps : Extra → Text) (i : ℕ) (extra : Extra) → Keeps (client_open_channel dumps i extra)
unfolding client_open_channel
client_open_channel-Keeps dumps i extra = Keeps-bind _ _ (Keeps-take_channel_id i) (λ c.
    Keeps-bind _ _ (modify_kind-Keeps i (set_remote_id c) (set_remote_id-HasRecipient c))
      (λ _. Keeps-bind _ _ (Keeps-send_frame _ _) (λ _. Keeps-pure c)))

open_failure-Keeps :
    (sender reason : ℕ) (message : Text) → Keeps (open_failure sender reason message)
unfolding open_failure
open_failure-Keeps sender reason message =
    Keeps-bind _ _ (Keeps-send_payload _) (λ _. Keeps-pure none)

open_remote-Keeps :
    (dumps : Extra → Text) (sender window most : ℕ) (extra : Extra)
    → Keeps (open_remote dumps sender window most extra)
unfolding open_remote
open_remote-Keeps dumps sender window most extra =
    Keeps-bind _ _ (Keeps-new_object _)
      (λ i. Keeps-bind _ _ (client_open_channel-Keeps dumps i extra) (λ c. Keeps-pure _))

pub begin_open-Keeps : (dumps : Extra → Text) (payload : Bytes) → Keeps (begin_open dumps payload)
unfolding begin_open
begin_open-Keeps dumps payload =
    Keeps-bind _ _ (Keeps-lift _) (λ (channel_type, sender, window, most).
      Keeps-bind _ _ Keeps-get_state (λ s.
        if-Keeps (not s.authenticated) _ _ (open_failure-Keeps sender _ _) (
          if-Keeps (seq_eq channel_type (codes "session")) _ _
            (open_remote-Keeps dumps sender window most session)
            (if-Keeps (seq_eq channel_type (codes "direct-tcpip")) _ _
              (Keeps-bind _ _ (Keeps-lift _) (open_remote-Keeps dumps sender window most))
              (open_failure-Keeps sender _ _)))))

client_opened-Keeps : (o : Opening) (value : Option (Bool × Text)) → Keeps (client_opened o value)
unfolding client_opened
client_opened-Keeps o none =
    Keeps-bind _ _
      (Keeps-modify_client _ (λ c h k r e. h k r (get-remove-some o.channel_id k c.channels r e)))
      (λ _. Keeps-pure _)
client_opened-Keeps o (some (true, message)) = Keeps-pure _
client_opened-Keeps o (some (false, message)) =
    Keeps-bind _ _
      (Keeps-modify_client _ (λ c h k r e. h k r (get-remove-some o.channel_id k c.channels r e)))
      (λ _. Keeps-pure _)

set_recipient-HasRecipient :
    (recipient window most : ℕ) (base : Channel) (kind : Kind)
    → HasRecipient (Channel.set_recipient recipient window most base) kind
unfolding Channel.set_recipient
set_recipient-HasRecipient recipient window most base kind = received _ kind (recipient, refl)

answer_open-KeepsFrom : (o : Opening) (r : Bool × Text) → KeepsFrom o.local_id (answer_open o r)
unfolding answer_open
answer_open-KeepsFrom o (false, message) = KeepsFrom-Keeps o.local_id _ (Keeps-send_payload _)
answer_open-KeepsFrom o (true, message) =
    KeepsFrom-modify_list o.local_id _ _
      (λ t h.
        set_recipient-HasRecipient o.sender_channel o.sender_window o.sender_max_packet t.base
          t.kind)
      (λ t.
        set_recipient-HasRecipient o.sender_channel o.sender_window o.sender_max_packet t.base
          t.kind)
      (Keeps-send_payload _)

pub finish_open-KeepsFrom : (o : Opening) → KeepsFrom o.local_id (finish_open o)
unfolding finish_open
finish_open-KeepsFrom o =
    KeepsFrom-bind o.local_id _ _ Keeps-get_state
      (λ s. KeepsFrom-bind o.local_id _ _ (client_opened-Keeps o _) (answer_open-KeepsFrom o))

open_remote-Gives :
    (dumps : Extra → Text) (sender window most : ℕ) (extra : Extra)
    → Gives (λ (o : Opening). o.local_id) (open_remote dumps sender window most extra)
unfolding open_remote
open_remote-Gives dumps sender window most extra = Gives-new_object _ (remote none) _ (λ i.
    GivesFrom-bind _ i _ _ (client_open_channel-Keeps dumps i extra) (λ c. GivesFrom-pure _ _))

open_failure-Gives :
    (sender reason : ℕ) (message : Text)
    → Gives (λ (o : Opening). o.local_id) (open_failure sender reason message)
unfolding open_failure
open_failure-Gives sender reason message = Gives-bind _ _ _ (λ _. Gives-none _)

pub begin_open-Gives :
    (dumps : Extra → Text) (payload : Bytes)
    → Gives (λ (o : Opening). o.local_id) (begin_open dumps payload)
unfolding begin_open
begin_open-Gives dumps payload = Gives-bind _ _ _ (λ (channel_type, sender, window, most).
    Gives-bind _ _ _ (λ s. if-Gives _ (not s.authenticated) _ _ (open_failure-Gives sender _ _) (
      if-Gives _ (seq_eq channel_type (codes "session")) _ _
        (open_remote-Gives dumps sender window most session)
        (if-Gives _ (seq_eq channel_type (codes "direct-tcpip")) _ _
          (Gives-bind _ _ _ (open_remote-Gives dumps sender window most))
          (open_failure-Gives sender _ _)))))
