-- ===== src/Relay/Connection/Loop/Answers.antt =====
-- What the packets for one channel send.
use rever_ssh.Prelude.{
  ℕ, ◌+◌, ◌≤◌, ◌≡◌, refl, ltb, length-append, ap, ◌∙◌, true, false, List, [], ◌∷◌, ◌++◌, none, some,
  arith, length, ◌==◌,
}
use rever_ssh.Exn.{ok}
use rever_ssh.Bytes.{Bytes}
use rever_ssh.Bytes.Endian.{to_be, length-to_be}
use rever_ssh.Dict
use rever_ssh.Dict.{nat_key, get-put_self, get-remove_self, remove-remove_self}
use rever_ssh.SshEncoding.Writer.{byte}
use rever_ssh.SshEncoding.Total.{IsUint32, uint32_total, string_total}
use rever_ssh.PrivateProtocol.Frame.{FrameType, max_frame}
use rever_ssh.PrivateProtocol.Pack.{pack_channel_id, pack_channel_data}
use rever_ssh.Relay.Messages
use rever_ssh.Relay.Channel.{Channel, mark_closed}
use rever_ssh.Relay.Payloads.{id_payload, adjust_local_window}
use rever_ssh.Relay.Connection.State.{
  remote, Object, Connection, and_then, ◌>>=◌, pure, lift, push_sent, send_payload, modify_client,
  push_frame, send_frame, found, object, modified, modify, pop_channel, find_channel, when_found,
}
use rever_ssh.Relay.Connection.Objects.{
  client_channel_data, on_kind_data, on_ssh_data, send_some, send_option, client_channel_close,
  forget_channel, with_remote, on_kind_close, on_ssh_close,
}
use rever_ssh.Relay.Connection.Loop.{adjust_window, channel_data, answer_close, channel_close}

-- A RemoteRelayChannel of the table with its two ids, and a client whose socket takes data.
pub record Stands (s : Connection) (local_id i channel_id recipient : ℕ) (base : Channel)
    : Type 0 where
  pub listed : Dict.get local_id s.channels ≡ some i
  pub made : Dict.get i s.objects ≡ some (record { base = base; kind = remote (some channel_id) })
  pub addressed : base.recipient ≡ some recipient
  pub short_recipient : IsUint32 recipient
  pub short_channel_id : IsUint32 channel_id
  pub connected : s.client.connected ≡ true

-- The state behind a CLOSE.
abbrev pub closed : Connection → ℕ → ℕ → ℕ → ℕ → Channel → Connection
closed s local_id i channel_id recipient base = record s {
  channels = Dict.remove local_id s.channels;
  objects =
      Dict.put i (record { base = record base { closed = true }; kind = remote (some channel_id) })
        s.objects;
  client = record s.client {
    channels = Dict.remove channel_id s.client.channels;
    frames = s.client.frames ++ (FrameType.channel_close, to_be 4 channel_id) ∷ [];
  };
  sent = s.sent ++ (97 ∷ to_be 4 recipient) ∷ [];
}

id_payload_total :
    (recipient : ℕ)
    → IsUint32 recipient
    → id_payload Messages.ssh_msg_channel_close recipient ≡ ok (97 ∷ to_be 4 recipient)
unfolding byte
id_payload_total recipient h = rw (uint32_total recipient h) refl

frame_fits : (b : Bytes) → length b ≤ 16777215 → ltb max_frame (length b + 1) ≡ false
frame_fits b h = ground arith

channel_close_lem :
    (s : Connection) (local_id i channel_id recipient : ℕ) (base : Channel)
    → Stands s local_id i channel_id recipient base
    → channel_close local_id s ≡ (ok tt, closed s local_id i channel_id recipient base)
unfolding channel_close answer_close on_ssh_close on_kind_close with_remote client_channel_close
    forget_channel send_frame push_frame send_payload push_sent lift modify modified modify_client
    mark_closed object found pop_channel when_found ◌>>=◌ and_then pure pack_channel_id
channel_close_lem s local_id i channel_id recipient base h =
    let o : Object = record {
      base = record base { closed = true };
      kind = remote (some channel_id);
    } in
    rw h.listed (
      rw h.made (
        rw (get-put_self i o s.objects) (
          rw (uint32_total channel_id h.short_channel_id) (
            rw (frame_fits (to_be 4 channel_id) (omega (arith, length-to_be 4 channel_id))) (
              rw h.connected (
                rw (get-put_self i o s.objects)
                  (rw h.addressed (rw (id_payload_total recipient h.short_recipient) refl))))))))

-- A CLOSE for an id that the table does not have.
channel_close_unknown :
    (s : Connection) (local_id : ℕ)
    → Dict.get local_id s.channels ≡ none
    → channel_close local_id s ≡ (ok tt, record s { channels = Dict.remove local_id s.channels })
unfolding channel_close pop_channel when_found pure ◌>>=◌ and_then
channel_close_unknown s local_id h = rw h refl

-- For a RemoteRelayChannel of the table whose ids fit a uint32, and a client whose socket takes
-- data: an SSH_MSG_CHANNEL_CLOSE marks the
-- channel closed and takes it out of both tables, sends one CHANNEL_CLOSE frame with its remote
-- channel id to the client and one SSH_MSG_CHANNEL_CLOSE with its recipient back, and changes
-- nothing else; a second SSH_MSG_CHANNEL_CLOSE for the id then changes and sends nothing.
pub channel_close-Stands :
    (s : Connection) (local_id i channel_id recipient : ℕ) (base : Channel)
    → Stands s local_id i channel_id recipient base
    → (channel_close local_id s ≡ (ok tt, closed s local_id i channel_id recipient base))
      × (channel_close local_id (closed s local_id i channel_id recipient base)
          ≡ (ok tt, closed s local_id i channel_id recipient base))
channel_close-Stands s local_id i channel_id recipient base h = (
  channel_close_lem s local_id i channel_id recipient base h,
  channel_close_unknown (closed s local_id i channel_id recipient base) local_id
        (get-remove_self local_id s.channels)
      ∙ ap (λ d. (ok tt, record (closed s local_id i channel_id recipient base) { channels = d }))
          (remove-remove_self local_id s.channels),
)

-- What DATA leaves: the frame for the client, and the window given back unless there was no data.
pub adjusted : List Bytes → ℕ → Bytes → List Bytes
adjusted sent recipient [] = sent
adjusted sent recipient (b ∷ bs) =
    sent ++ (93 ∷ (to_be 4 recipient ++ to_be 4 (length (b ∷ bs)))) ∷ []

abbrev pub passed : Connection → ℕ → ℕ → Bytes → Connection
unfolding adjusted
passed s channel_id recipient b = record s {
  client = record s.client {
    frames =
        s.client.frames
        ++ (FrameType.channel_data, to_be 4 channel_id ++ (to_be 4 (length b) ++ b)) ∷ [];
  };
  sent = adjusted s.sent recipient b;
}

data_frame_fits :
    (channel_id : ℕ) (b : Bytes)
    → length b ≤ 16777207
    → length (to_be 4 channel_id ++ (to_be 4 (length b) ++ b)) ≤ 16777215
data_frame_fits channel_id b h = omega (
  arith,
  length-append (to_be 4 channel_id) (to_be 4 (length b) ++ b),
  length-append (to_be 4 (length b)) b,
  length-to_be 4 channel_id,
  length-to_be 4 (length b),
)

length_positive : (x : ℕ) (b : Bytes) → (length (x ∷ b) == 0) ≡ false
length_positive x b = ground arith

-- For a RemoteRelayChannel of the table whose ids fit a uint32, a client whose socket takes data,
-- and data of at most 16777207 bytes, which is what one frame of 16 MiB holds: an
-- SSH_MSG_CHANNEL_DATA sends one CHANNEL_DATA frame with the remote channel id and all of the data
-- to the client, gives the sender back a window of exactly the data's length by one
-- SSH_MSG_CHANNEL_WINDOW_ADJUST, or sends none for empty data, and changes nothing else.
pub channel_data-Stands :
    (s : Connection) (local_id i channel_id recipient : ℕ) (base : Channel) (b : Bytes)
    → Stands s local_id i channel_id recipient base
    → length b ≤ 16777207
    → channel_data (local_id, b) s ≡ (ok tt, passed s channel_id recipient b)
unfolding channel_data adjust_window send_option send_some adjust_local_window on_ssh_data
    on_kind_data with_remote client_channel_data send_frame push_frame push_sent lift object found
    find_channel when_found ◌>>=◌ and_then pure pack_channel_data byte adjusted
channel_data-Stands s local_id i channel_id recipient base [] h short = rw h.listed (
    rw h.made (
      rw (uint32_total channel_id h.short_channel_id) (
        rw (string_total [] (omega arith)) (
          rw (frame_fits _ (data_frame_fits channel_id [] short))
            (rw h.connected (rw h.made refl))))))
channel_data-Stands s local_id i channel_id recipient base (x ∷ b) h short = rw h.listed (
    rw h.made (
      rw (uint32_total channel_id h.short_channel_id) (
        rw (string_total (x ∷ b) (omega arith)) (
          rw (frame_fits _ (data_frame_fits channel_id (x ∷ b) short)) (
            rw h.connected (
              rw h.made (
                rw h.addressed (
                  rw (uint32_total recipient h.short_recipient) (
                    rw (uint32_total (length (x ∷ b)) (omega arith))
                      (rw (length_positive x b) refl))))))))))
