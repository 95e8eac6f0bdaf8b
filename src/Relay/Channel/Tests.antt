-- ===== src/Relay/Channel/Tests.antt =====
-- Runs of the send window on a concrete channel.
use rever_ssh.Prelude.{◌+◌, ◌≡◌, refl, false, List, [], ◌∷◌, some, ◌<◌, ◌≤◌, arith}
use rever_ssh.Relay.Channel.{
  Channel, Wake, adjusted, turn, deadline, reserve_window, channel_max_packet, wait_for_window,
}
use rever_ssh.Relay.Channel.Flow.{IsValid, credit, reserve_window_lem}

-- A channel whose window is smaller than what is to be sent.
abbrev channel : Channel
channel = record { recipient = some 7; remote_window = 2; remote_max_packet = 1024; closed = false }

abbrev channel-IsValid : IsValid channel
channel-IsValid = record { least = omega arith; most = omega arith }

abbrev wakes : List Wake
wakes = adjusted 2 ∷ turn ∷ deadline ∷ []

reserve_window_lem_example :
    (0 < 4)
    × (4 ≤ 5)
    × (4 ≤ 1024)
    × (4 ≤ channel_max_packet)
    × (false ≡ false)
    × IsValid (record channel { remote_window = 0 })
    × (4 + 0 + 0 ≤ 2 + credit wakes)
unfolding reserve_window wait_for_window
reserve_window_lem_example =
    reserve_window_lem 5 4 wakes (deadline ∷ []) channel (record channel { remote_window = 0 })
      (omega arith) channel-IsValid refl
