-- ===== src/Agent/Tests.antt =====
-- The pacer of interface 1 at half a megabit, and a map of two channels.
use can_hub.Protocol.Register.{RegisterAck}
use can_hub.Base.{
  ◌/◌, ◌≤◌, ◌≡◌, refl, true, false, [], ◌∷◌, none, some, arith, min, get_or, set, replicate,
}
use can_hub.Agent.TxPacer.{TxPacer, IsSized, update, update_bounds}
use can_hub.Agent.ChannelMap
use can_hub.Agent.ChannelMap.{
  ChannelMap, search_channel, assign_from_ack, channel_for_interface, interface_for_channel,
  interface_for_channel_sound, interface_for_channel_complete,
}

abbrev paced : TxPacer
paced = record {
  credit = set (replicate 16 0) 1 500000;
  last_tx_dropped = set (replicate 16 0) 1 7;
  seen = set (replicate 16 false) 1 true;
}

paced-IsSized : IsSized paced
paced-IsSized = omega arith

update_bounds_example :
    (get_or (update paced 1 1000000 8).1.credit 1 0 ≡ (update paced 1 1000000 8).0)
    × ((update paced 1 1000000 8).0 ≤ 1000000)
    × (min 500000 (1000000 / 16) ≤ (update paced 1 1000000 8).0)
update_bounds_example =
    update_bounds paced 1 1000000 8 paced-IsSized (omega arith) (omega arith) (omega arith)

abbrev two : ChannelMap
two = record { interface_count = 2; channels = 4 ∷ 9 ∷ replicate 14 0 }

-- The hub gives channels 4 and 9 to two interfaces.
abbrev accepted : RegisterAck
accepted = record { status = 0; interface_count = 2; channels = 4 ∷ 9 ∷ [] }

assign_from_ack_runs :
    ((assign_from_ack ChannelMap.reset accepted 2).0 ≡ true)
    × (interface_for_channel (assign_from_ack ChannelMap.reset accepted 2).1 9 ≡ some 1)
    × (channel_for_interface (assign_from_ack ChannelMap.reset accepted 2).1 2 ≡ none)
    × ((assign_from_ack ChannelMap.reset accepted 3).0 ≡ false)
unfolding assign_from_ack ChannelMap.reset search_channel channel_for_interface
    interface_for_channel
assign_from_ack_runs = (refl, refl, refl, refl)
