-- ===== src/Relay/Channel.antt =====
-- The send window of `SSHChannelBase`, and the loops of `SSHConnection` that send channel data
-- through it (reverssh/relay.py).
pub mod Flow
pub mod Send
mod Tests
use rever_ssh.Prelude.{
  ℕ, zero, suc, ◌+◌, ◌-◌, ◌≤◌, Bool, true, false, List, [], ◌∷◌, ◌++◌, Option, none, some, min, max,
  length, take, drop, ltb, ◌==◌, if◌then◌else◌,
}
use rever_ssh.Exn.{Exn, Result, ok, err, eof_error, timeout_error, value_error, out_of_fuel, ◌>>=◌}
use rever_ssh.Bytes.{Bytes}
use rever_ssh.SshEncoding.Writer.{byte, uint32, string}

abbrev pub channel_max_packet : ℕ
channel_max_packet = 32768

abbrev pub channel_window : ℕ
channel_window = 0x7fffffff

pub record Channel : Type 0 where
  pub recipient : Option ℕ
  pub remote_window : ℕ
  pub remote_max_packet : ℕ
  pub closed : Bool

-- SSHChannelBase(ssh, local_id)
abbrev pub new_channel : Channel
new_channel = record {
  recipient = none;
  remote_window = 0;
  remote_max_packet = channel_max_packet;
  closed = false;
}

unfoldable pub set_recipient : ℕ → ℕ → ℕ → Channel → Channel
set_recipient recipient window max_packet c = record c {
  recipient = some recipient;
  remote_window = window;
  remote_max_packet = max 1024 (min max_packet channel_max_packet);
}

unfoldable pub add_window : ℕ → Channel → Channel
add_window amount c = record c { remote_window = min 0xffffffff (c.remote_window + amount) }

unfoldable pub mark_closed : Channel → Channel
mark_closed c = record c { closed = true }

-- What happens to a channel that a thread sends on, in its order: the calls of other threads, and
-- the turns at which the sender has the lock of the condition and tests it. `turn` is one within the
-- sixty seconds, `deadline` one behind them.
pub data Wake : Type 0 where
  adjusted : ℕ → Wake
  confirmed : ℕ → ℕ → ℕ → Wake
  marked_closed : Wake
  turn : Wake
  deadline : Wake

apply_wake : Wake → Channel → Channel
unfolding set_recipient add_window mark_closed
apply_wake (adjusted amount) c = add_window amount c
apply_wake (confirmed recipient window max_packet) c = set_recipient recipient window max_packet c
apply_wake marked_closed c = mark_closed c
apply_wake turn c = c
apply_wake deadline c = c

is_deadline : Wake → Bool
is_deadline deadline = true
is_deadline _ = false

is_turn : Wake → Bool
is_turn turn = true
is_turn deadline = true
is_turn _ = false

-- The `while` loop of `reserve_window`, and the test behind it. `wakes` is what happens from here
-- on, also before the sender has the lock for the first time; where nothing more happens it has its
-- turn, and the deadline passes.
wait_for_window : List Wake → Channel → Result (Channel × List Wake)
unfolding apply_wake is_deadline is_turn
wait_for_window [] c =
    if c.closed
    then err eof_error
    else if ltb 0 c.remote_window
    then ok (c, [])
    else err timeout_error
wait_for_window (w ∷ wakes) c =
    let more = wait_for_window wakes (apply_wake w c) in
    if is_turn w
    then (if c.closed
        then err eof_error
        else if ltb 0 c.remote_window
        then ok (c, wakes)
        else if is_deadline w
        then err timeout_error
        else more)
    else more

-- The size that was reserved, the channel after it, and the wakes that were not used.
pub reserve_window : ℕ → List Wake → Channel → Result (ℕ × Channel × List Wake)
reserve_window size wakes c = do
  (c', rest) ← wait_for_window wakes c
  let chunk = min size (min c'.remote_window c'.remote_max_packet)
  ok (chunk, record c' { remote_window = c'.remote_window - chunk }, rest)

-- byte(SSH_MSG_CHANNEL_DATA) + uint32(recipient) + string(chunk)
unfoldable pub data_payload : ℕ → Bytes → Result Bytes
data_payload recipient chunk = do
  m ← byte 94
  r ← uint32 recipient
  d ← string chunk
  ok (m ++ (r ++ d))

-- byte(SSH_MSG_CHANNEL_EXTENDED_DATA) + uint32(recipient) + uint32(data_type) + string(chunk)
unfoldable pub extended_payload : ℕ → ℕ → Bytes → Result Bytes
extended_payload data_type recipient chunk = do
  m ← byte 95
  r ← uint32 recipient
  t ← uint32 data_type
  d ← string chunk
  ok (m ++ (r ++ (t ++ d)))

-- What a loop has sent when it ends, and how it ended.
abbrev pub Outcome : Type 0
Outcome = List Bytes × Result (Channel × List Wake)

-- The loops call this with a recipient; without one `uint32(None)` would raise.
pub for_recipient : (ℕ → Bytes → Result Bytes) → Option ℕ → Bytes → Result Bytes
for_recipient payload none chunk = err value_error
for_recipient payload (some r) chunk = payload r chunk

send_then : Result Bytes → Outcome → Outcome
send_then (ok p) (out, r) = (p ∷ out, r)
send_then (err e) rest = ([], err e)

-- `while pos < len(data)`
send_loop : (ℕ → Bytes → Result Bytes) → ℕ → ℕ → Bytes → List Wake → Channel → Outcome
unfolding for_recipient send_then
send_loop payload zero pos b wakes c = ([], err out_of_fuel)
send_loop payload (suc fuel) pos b wakes c =
    if ltb pos (length b)
    then (elim (reserve_window (length b - pos) wakes c) [
      | ok (size, c', rest) ↦
          send_then (for_recipient payload c'.recipient (take size (drop pos b)))
            (send_loop payload fuel (pos + size) b rest c')
      | err e ↦ ([], err e)
    ])
    else ([], ok (c, wakes))

send_if_open : (ℕ → Bytes → Result Bytes) → Option ℕ → Bytes → List Wake → Channel → Outcome
unfolding send_loop
send_if_open payload none b wakes c = ([], ok (c, wakes))
send_if_open payload (some r) b wakes c = send_loop payload (suc (length b)) 0 b wakes c

pub send_channel_data : Bytes → List Wake → Channel → Outcome
unfolding send_if_open
send_channel_data b wakes c = send_if_open data_payload c.recipient b wakes c

pub send_channel_extended_data : ℕ → Bytes → List Wake → Channel → Outcome
unfolding send_if_open
send_channel_extended_data data_type b wakes c =
    send_if_open (extended_payload data_type) c.recipient b wakes c
