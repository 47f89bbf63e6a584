-- ===== src/Hub/InterfaceRegistry/Tests.antt =====
-- Runs of the registry, and its theorems at concrete registries.
use mathlib.Core.Option
use can_hub.Base.{
  ℕ, zero, suc, ◌+◌, ◌*◌, ◌^◌, ◌≤◌, ◌<◌, ◌≡◌, ◌≢◌, refl, List, [], ◌∷◌, map, some, true, false,
  arith, Text, find_index, find, str_eq, page, length, get_or, drop, replicate, live,
}
use can_hub.Protocol.Register.{RegisterMessage, RegisterAck, encode, decode, encode_ack, decode_ack}
use can_hub.Protocol.Register.RoundTrip
use can_hub.Protocol.Wire.{IsText, IsText-cons, IsText-nil}
use can_hub.Protocol.Message.{All}
use can_hub.Agent.ChannelMap
use can_hub.Agent.ChannelMap.{ChannelMap, assign_from_ack, channel_for_interface}
use can_hub.Shared.EgressShaper.{EgressShaper}
use can_hub.Shared.EgressShaper
use can_hub.Shared.EgressShaper.Bounds.{credit}
use can_hub.Shared.EgressShaper.Bounds
use can_hub.Hub.InterfaceRegistry.{
  InterfaceRegistry, in_use, list_entry, reset, register_agent, colliding_peer, find_by_id,
  find_by_name, find_by_agent_channel, add_virtual, is_virtual, remove_virtual, remove_peer,
  refuses_frame, set_fd_capable, count_frame, set_tx_dropped, paced_rate, apply_advertised_rate,
  count_entries, list_from, any_name, is_registration_colliding, is_peer_registered, register_from,
  add_entry, fill_entry, find_free_entry, names_match, find_mutable_by_agent_channel,
}
use can_hub.Hub.InterfaceRegistry.Invariant.{IsValid, reset-IsValid}
use can_hub.Hub.InterfaceRegistry.Registration.{
  AreDistinct, register_agent-IsValid, register_agent_refused,
}
use can_hub.Hub.InterfaceRegistry.Reach.{
  here, next, registering, pacing, registries_reached-IsValid,
}
use can_hub.Hub.InterfaceRegistry.Served.{named}
use can_hub.Hub.InterfaceRegistry.Pacing.{Send, send_all, bits_through, shaper_of, channel_paced}
use can_hub.Hub.InterfaceRegistry.Listing.{list_all, list_all_lem}
use can_hub.Hub.InterfaceRegistry.OverWire.{register_over_wire}

abbrev agent : Text
agent = 65 ∷ []

abbrev two_buses : RegisterMessage
two_buses = record {
  agent_name = agent;
  interface_count = 2;
  interface_names = (99 ∷ 48 ∷ []) ∷ (99 ∷ 49 ∷ []) ∷ [];
  fd_reported = true;
  fd_interfaces = 2;
}

abbrev registered : InterfaceRegistry
registered = (register_agent reset 7 two_buses).2

two_buses-AreDistinct : AreDistinct two_buses
unfolding str_eq
two_buses-AreDistinct zero zero l h = absurd (omega arith)
two_buses-AreDistinct zero (suc zero) l h = refl
two_buses-AreDistinct zero (suc (suc j)) l h = absurd (omega arith)
two_buses-AreDistinct (suc i) j l h = absurd (omega arith)

ids_left : reset.next_interface_id + 2 < 2 ^ 32
unfolding reset
ids_left = omega arith

registered-IsValid : IsValid registered
registered-IsValid =
    register_agent-IsValid reset 7 two_buses reset-IsValid two_buses-AreDistinct (omega arith)
      ids_left

lookups :
    (count_entries registered ≡ 2)
    × (colliding_peer registered two_buses ≡ some 7)
    × (named (find_by_id registered 2) ≡ some (agent, 99 ∷ 49 ∷ []))
    × (named (find_by_name registered agent (99 ∷ 48 ∷ [])) ≡ some (agent, 99 ∷ 48 ∷ []))
    × ((list_from registered 1).1 ≡ false)
    × (count_entries (remove_peer registered 7) ≡ 0)
unfolding register_agent register_from add_entry fill_entry find_free_entry is_peer_registered
    is_registration_colliding any_name names_match count_entries colliding_peer find_by_id
    find_by_name list_from list_entry remove_peer reset find_index find str_eq page
lookups = (refl, refl, refl, refl, refl, refl)

-- The first interface cannot take FD frames, the second can; a virtual one has the next id.
states :
    (Option.map (λ e. refuses_frame e 1) (find_by_id registered 1) ≡ some true)
    × (Option.map (λ e. refuses_frame e 1) (find_by_id (set_fd_capable registered 1 true) 1)
        ≡ some false)
    × (Option.map is_virtual (find_by_id (add_virtual registered agent (118 ∷ [])).1 3) ≡ some true)
    × (count_entries (remove_virtual (add_virtual registered agent (118 ∷ [])).1 3) ≡ 2)
    × (Option.map (λ e. e.frames_received) (find_by_id (count_frame registered 1) 1) ≡ some 1)
    × (Option.map (λ e. e.tx_dropped) (find_by_agent_channel (set_tx_dropped registered 7 1 5) 7 1)
        ≡ some 5)
    × (paced_rate 500000 0 ≡ 400000)
unfolding register_agent register_from add_entry fill_entry find_free_entry is_peer_registered
    is_registration_colliding any_name names_match find_by_id find_by_name find_by_agent_channel
    reset find_index find str_eq refuses_frame set_fd_capable add_virtual is_virtual remove_virtual
    count_frame set_tx_dropped paced_rate find_mutable_by_agent_channel count_entries
states = (refl, refl, refl, refl, refl, refl, refl)

-- A registration that names one interface twice is accepted, and there are two entries of one name.
abbrev twice : RegisterMessage
twice = record two_buses { interface_names = (99 ∷ []) ∷ (99 ∷ []) ∷ [] }

named_twice :
    ((register_agent reset 7 twice).0 ≡ true)
    × (named (find_by_agent_channel (register_agent reset 7 twice).2 7 0) ≡ some (agent, 99 ∷ []))
    × (named (find_by_agent_channel (register_agent reset 7 twice).2 7 1) ≡ some (agent, 99 ∷ []))
unfolding register_agent register_from add_entry fill_entry find_free_entry is_peer_registered
    is_registration_colliding any_name names_match find_by_agent_channel reset find_index find
    str_eq
named_twice = (refl, refl, refl)

refused : (register_agent registered 7 two_buses).0 ≡ false
unfolding register_agent register_from add_entry fill_entry find_free_entry is_peer_registered
    is_registration_colliding any_name names_match reset find_index str_eq
refused = refl

register_agent_refused_example :
    (register_agent registered 7 two_buses).2.entries ≡ registered.entries
register_agent_refused_example =
    register_agent_refused registered 7 two_buses registered-IsValid refused

abbrev paced : InterfaceRegistry
paced = apply_advertised_rate registered 7 0 500000 0 1000

registries_reached-IsValid_example : IsValid paced
registries_reached-IsValid_example = registries_reached-IsValid (
    next (next here (registering 7 two_buses two_buses-AreDistinct (omega arith) ids_left))
      (pacing 7 0 500000 0 1000))

paced-IsValid : IsValid paced
paced-IsValid = registries_reached-IsValid (
    next (next here (registering 7 two_buses two_buses-AreDistinct (omega arith) ids_left))
      (pacing 7 0 500000 0 1000))

abbrev full_bucket : EgressShaper
full_bucket = record {
  rate_bits_per_s = 400000;
  tokens_bits = 8192;
  burst_bits = 8192;
  remainder = 0;
  last_us = 1000;
}

full_bucket-IsValid : Bounds.IsValid full_bucket
full_bucket-IsValid = record {
  capped = omega arith;
  part = omega arith;
  rate = omega arith;
  small = omega arith;
}

paced_bucket : shaper_of 7 0 paced ≡ some full_bucket
unfolding shaper_of apply_advertised_rate paced_rate find_mutable_by_agent_channel register_agent
    register_from add_entry fill_entry find_free_entry is_peer_registered is_registration_colliding
    any_name names_match reset find_by_agent_channel find_index find str_eq EgressShaper.init
paced_bucket = refl

abbrev two_sends : List Send
two_sends =
    record { peer = 7; channel = 0; now = 2000; bits = 100 }
    ∷ record { peer = 7; channel = 1; now = 2500; bits = 900 }
    ∷ record { peer = 7; channel = 0; now = 3000; bits = 8000 }
    ∷ []

channel_paced_example :
    (t : EgressShaper) × (shaper_of 7 0 (send_all paced two_sends) ≡ some t)
    × (bits_through 7 0 paced two_sends * 1000000 + 400000 * 1000
        ≤ credit full_bucket + 400000 * t.last_us)
channel_paced_example =
    channel_paced 7 0 two_sends paced full_bucket (omega arith) paced-IsValid paced_bucket
      full_bucket-IsValid (omega arith) (omega arith)

list_all_lem_example : list_all 256 registered 0 ≡ map list_entry (live in_use registered.entries)
list_all_lem_example = list_all_lem registered 256 (omega (arith, registered-IsValid.sized))

two_buses-IsValid : RoundTrip.IsValid two_buses
unfolding All
two_buses-IsValid =
    let bus : (c : ℕ) → c ≢ 0 → IsText (99 ∷ c ∷ []) = λ c some_byte.
      IsText-cons 99 (c ∷ []) (omega arith) (IsText-cons c [] some_byte IsText-nil) in
    record {
      agent = IsText-cons 65 [] (omega arith) IsText-nil;
      agent_short = omega arith;
      few = omega arith;
      sized = refl;
      names = (
        (bus 48 (omega arith), omega arith, omega arith),
        ((bus 49 (omega arith), omega arith, omega arith), tt),
      );
      mask = omega arith;
      unreported = λ silent. cc;
    }

accepted : (register_agent reset 7 two_buses).0 ≡ true
unfolding register_agent register_from add_entry fill_entry find_free_entry is_peer_registered
    is_registration_colliding any_name names_match reset find_index str_eq
accepted = refl

abbrev no_ack : RegisterAck
no_ack = record { status = 9; interface_count = 0; channels = replicate 16 5 }

reset_entries : length reset.entries ≡ 256
unfolding reset
reset_entries = refl

reset_channels : length ChannelMap.reset.channels ≡ 16
unfolding ChannelMap.reset
reset_channels = refl

register_over_wire_example :
    (decode (drop 4 (encode two_buses 392)) 388 ≡ some two_buses)
    × ((ack : RegisterAck) × (decode_ack no_ack
            (drop 4 (encode_ack (register_agent reset 7 two_buses).1 24))
            20
          ≡ some ack)
        × ((assign_from_ack ChannelMap.reset ack 2).0 ≡ true)
        × ((i : ℕ)
            → i < 2
            → (channel : ℕ) × (channel_for_interface (assign_from_ack ChannelMap.reset ack 2).1 i
                ≡ some channel)
              × (named (find_by_agent_channel registered 7 channel)
                  ≡ some (agent, get_or two_buses.interface_names i []))))
register_over_wire_example =
    register_over_wire reset 7 two_buses ChannelMap.reset no_ack two_buses-IsValid reset_entries
      reset_channels refl accepted
