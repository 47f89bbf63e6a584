-- ===== src/Hub/ClientSession/Tests.antt =====
-- A session with one interface open on channel 0.
use can_hub.Base.{
  ◌≡◌, refl, true, false, [], ◌∷◌, none, some, arith, ◌==◌, if◌then◌else◌, get_or, find_index, find,
  find_from, Text,
}
use can_hub.Hub.ClientSession.{
  ClientSession, ChannelOpenRequest, blank, reset, open_interface, find_free, find_by_channel,
  allocate_channel, allocate_from, interface_for_channel, channel_for_interface, detach_interface,
  reattach_interface, can_write, channel_reliable, holds_channels, holds_reliable,
  binding_for_channel, next_binding_for_interface, channel_accepts, set_filters,
  take_reliable_binding, matches_filter,
}
use can_hub.Hub.ClientSession.Invariant.{IsValid, reset-IsValid}
use can_hub.Hub.ClientSession.Dormancy.{
  here, next, opening, reachable-IsValid, open_interface_routes, reattach-detach,
}

abbrev truck : Text
truck = b't' ∷ b'r' ∷ []

abbrev can0 : Text
can0 = b'c' ∷ b'0' ∷ []

abbrev request : ChannelOpenRequest
request = record {
  interface_id = 9;
  suppress_echo = true;
  can_write = true;
  reliable = false;
  error_frames = false;
  agent_name = truck;
  interface_name = can0;
}

opened : ClientSession
opened = (open_interface reset request).1

reachable-IsValid_example : IsValid opened
unfolding opened
reachable-IsValid_example = reachable-IsValid (next here (opening request))

opened_runs : (interface_for_channel opened 0 ≡ some 9) × (channel_for_interface opened 9 ≡ some 0)
unfolding opened open_interface reset find_free find_index allocate_channel allocate_from
    find_by_channel interface_for_channel channel_for_interface find
opened_runs = (refl, refl)

open_interface_routes_example :
    interface_for_channel (open_interface reset request).1 0
    ≡ (elim (open_interface reset request).0 [
      | none ↦ interface_for_channel reset 0
      | some channel ↦ if 0 == channel then some 9 else interface_for_channel reset 0
    ])
open_interface_routes_example = open_interface_routes reset request 0 reset-IsValid

reattach-detach_example :
    (get_or (reattach_interface (detach_interface opened 9) truck can0 21 false).1.bindings 0 blank
      ≡ record (get_or opened.bindings 0 blank) {
        interface_id = 21;
        can_write = false;
        dormant = false;
      })
    × ((reattach_interface (detach_interface opened 9) truck can0 21 false).0 ≡ true)
unfolding opened open_interface reset find_free find_index allocate_channel allocate_from
    find_by_channel
reattach-detach_example =
    reattach-detach opened truck can0 9 21 false 0 (omega arith) refl refl refl

-- A reader and a writer of the bus, and a filter that one of them sets.
opened_reads :
    (can_write opened 0 ≡ true)
    × (channel_reliable opened 0 ≡ false)
    × (holds_channels opened ≡ true)
    × (holds_reliable opened 9 ≡ false)
    × (binding_for_channel opened 0 ≡ some 0)
    × (next_binding_for_interface opened 9 0 ≡ (some 0, 1))
    × (channel_accepts opened 0 0x123 ≡ true)
    × (channel_accepts
          (set_filters opened 0 (record { can_id = 0x100; can_mask = 0x700 } ∷ []) 1).1
          0
          0x223
        ≡ false)
    × ((take_reliable_binding opened).0 ≡ none)
unfolding opened open_interface reset find_free find_index allocate_channel allocate_from
    find_by_channel find can_write channel_reliable holds_channels holds_reliable
    binding_for_channel next_binding_for_interface find_from channel_accepts matches_filter
    set_filters take_reliable_binding
opened_reads = (refl, refl, refl, refl, refl, refl, refl, refl, refl)
