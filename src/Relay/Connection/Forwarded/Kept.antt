-- ===== src/Relay/Connection/Forwarded/Kept.antt =====
-- The channel tables under the connections to forwarded ports.
use rever_ssh.Prelude.{ℕ, true, false, [], none}
use rever_ssh.Bytes.{Bytes, Text}
use rever_ssh.Relay.Connection.State.{forwarded}
use rever_ssh.Relay.Connection.State.Changes.{Keeps-object}
use rever_ssh.Relay.Connection.State.Tables.{
  HasRecipient, Keeps, Keeps-bind, Keeps-pure, Keeps-send_payload,
}
use rever_ssh.Relay.Connection.Objects.Kept.{
  if-Keeps, on_ssh_close-Keeps, send_channel_close-Keeps, remote_data-Keeps, remote_eof-Keeps,
}
use rever_ssh.Relay.Connection.State.Listed.{Keeps-new_list}
use rever_ssh.Relay.Connection.Forwarded.{
  create_forwarded_channel, begin_conn, is_open, finish_conn, forward_data, forward_end,
}

pub begin_conn-Keeps :
    (bind_address : Text) (port : ℕ) (origin_host : Text) (origin_port : ℕ)
    → Keeps (begin_conn bind_address port origin_host origin_port)
unfolding begin_conn create_forwarded_channel HasRecipient
begin_conn-Keeps bind_address port origin_host origin_port =
    Keeps-bind _ _ (Keeps-new_list (forwarded none [] false) tt)
      (λ i. Keeps-bind _ _ (Keeps-send_payload _) (λ _. Keeps-pure i))

pub finish_conn-Keeps : (i : ℕ) → Keeps (finish_conn i)
unfolding finish_conn
finish_conn-Keeps i = Keeps-bind _ _ (Keeps-object i) (λ o.
    if-Keeps (is_open o.kind) _ _ (Keeps-pure true)
      (Keeps-bind _ _ (on_ssh_close-Keeps i) (λ _. Keeps-pure false)))

pub forward_data-Keeps : (i : ℕ) (b : Bytes) → Keeps (forward_data i b)
unfolding forward_data
forward_data-Keeps i b = remote_data-Keeps i b

pub forward_end-Keeps : (i : ℕ) → Keeps (forward_end i)
unfolding forward_end
forward_end-Keeps i = Keeps-bind _ _ (remote_eof-Keeps i) (λ _. send_channel_close-Keeps i)
