-- ===== src/Hub/EgressQueue/Tests.antt =====
-- A queue with one frame waiting on channel 7.
use can_hub.Base.{◌≡◌, refl, true, false, [], ◌∷◌, none, some}
use can_hub.Hub.EgressQueue.{
  EgressQueue, reset, push, place, pop_channel_head, append_channel_tail, fill_slot,
  fullest_channel, fullest_from, pop_channel, has_pending, channel_pending, front_of_channel,
  front_enqueued_us, next_pending_channel, next_pending_from,
}
use can_hub.Hub.EgressQueue.Scans.{Turn, next_pending_channel-Turn}

one_frame : EgressQueue
one_frame = (push reset 7 (1 ∷ 2 ∷ []) 2 99).1

one_frame_runs :
    (has_pending one_frame ≡ true)
    × (channel_pending one_frame 7 ≡ true)
    × (front_enqueued_us one_frame 7 ≡ 99)
    × (front_of_channel one_frame 6 ≡ none)
    × ((next_pending_channel one_frame).0 ≡ some 7)
    × (fullest_channel one_frame ≡ 7)
    × (has_pending (pop_channel one_frame 7) ≡ false)
unfolding one_frame push reset place pop_channel_head append_channel_tail fill_slot fullest_channel
    fullest_from has_pending channel_pending front_enqueued_us front_of_channel next_pending_channel
    next_pending_from pop_channel
one_frame_runs = (refl, refl, refl, refl, refl, refl, refl)

next_pending_channel-Turn_example : Turn one_frame 0 256 (next_pending_channel one_frame)
next_pending_channel-Turn_example = next_pending_channel-Turn one_frame
