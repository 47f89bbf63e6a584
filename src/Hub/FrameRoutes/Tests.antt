-- ===== src/Hub/FrameRoutes/Tests.antt =====
-- Runs of the routing, and its theorems at a concrete registry and directory.
use mathlib.Core.List.{Memᴰ}
use can_hub.Base.{
  zero, suc, ◌+◌, ◌-◌, ◌%◌, ◌^◌, ◌≡◌, ◌<◌, refl, [], ◌∷◌, true, false, arith, length, set, take,
  replicate, get_or-replicate, find, find_index, str_eq, find_from,
}
use can_hub.Hub.ClientSession
use can_hub.Hub.ClientSession.{interface_for_channel, channel_reliable, next_binding_for_interface}
use can_hub.Protocol.Register.{RegisterMessage}
use can_hub.Hub.InterfaceRegistry
use can_hub.Hub.InterfaceRegistry.{
  InterfaceRegistry, register_agent, register_from, add_entry, fill_entry, find_free_entry,
  is_peer_registered, is_registration_colliding, any_name, names_match, find_by_id,
  find_by_agent_channel,
}
use can_hub.Hub.InterfaceRegistry.Invariant.{IsValid, reset-IsValid}
use can_hub.Hub.InterfaceRegistry.Registration.{AreDistinct, register_agent-IsValid}
use can_hub.Hub.HubPeer
use can_hub.Hub.HubPeer.{HubPeer}
use can_hub.Hub.PeerDirectory.{PeerDirectory}
use can_hub.Hub.FrameRoutes.{
  FrameRoute, add_route, from_agent, from_client, route_to, to_interface, to_peer, to_peers,
}
use can_hub.Hub.FrameRoutes.Destinations.{IsSized, all_routes, to_interface_lem}
use can_hub.Hub.FrameRoutes.BothWays.{client_routes_back}

abbrev one_bus : RegisterMessage
one_bus = record {
  agent_name = 65 ∷ [];
  interface_count = 1;
  interface_names = (99 ∷ []) ∷ [];
  fd_reported = false;
  fd_interfaces = 0;
}

abbrev registry : InterfaceRegistry
registry = (register_agent InterfaceRegistry.reset 7 one_bus).2

-- A client that holds the interface open on channel 3, in slot 0 of the directory.
abbrev client : HubPeer
client = record HubPeer.blank {
  in_use = true;
  peer_id = 9;
  role = 2;
  session = record {
    bindings = set (replicate 32 ClientSession.blank) 5 (record ClientSession.blank {
      in_use = true;
      interface_id = 1;
      channel = 3;
      reliable = true;
    });
    next_channel = 4;
  };
}

abbrev directory : PeerDirectory
directory = record { peers = set (replicate 512 HubPeer.blank) 0 client }

abbrev to_agent : FrameRoute
to_agent = record { peer_id = 7; channel = 0; suppress_echo = false; reliable = true }

routed :
    (from_client registry client 3 16384 ≡ (to_agent ∷ [], 0))
    × (from_client registry client 4 16384 ≡ ([], 0))
    × (from_agent registry directory 7 0 0 ≡ ([], 1))
unfolding register_agent register_from add_entry fill_entry find_free_entry is_peer_registered
    is_registration_colliding any_name names_match InterfaceRegistry.reset find_by_id
    find_by_agent_channel from_client from_agent to_interface to_peers to_peer add_route route_to
    interface_for_channel channel_reliable next_binding_for_interface find find_index str_eq
    find_from ClientSession.reset
routed = (refl, refl, refl)

directory-IsSized : IsSized directory.peers
unfolding IsSized ClientSession.reset
directory-IsSized zero h = refl
directory-IsSized (suc i) h = rw (get_or-replicate {A = HubPeer} 511 i HubPeer.blank) refl

ids_left : InterfaceRegistry.reset.next_interface_id + 1 < 2 ^ 32
unfolding InterfaceRegistry.reset
ids_left = omega arith

one_bus-AreDistinct : AreDistinct one_bus
one_bus-AreDistinct i j l h = absurd (omega arith)

registry-IsValid : IsValid registry
registry-IsValid =
    register_agent-IsValid InterfaceRegistry.reset 7 one_bus reset-IsValid one_bus-AreDistinct
      (omega arith) ids_left

to_interface_lem_example :
    to_interface directory 1 4
    ≡ (take 4 (all_routes 1 directory.peers), (length (all_routes 1 directory.peers) - 4) % 2 ^ 16)
to_interface_lem_example = to_interface_lem directory 1 4 directory-IsSized

client_routes_back_example :
    (back : FrameRoute) × Memᴰ back (from_agent registry directory 7 0 16384).0
    × (back.peer_id ≡ 9)
    × (back.channel ≡ 3)
client_routes_back_example =
    client_routes_back registry directory 0 3 16384 0 to_agent registry-IsValid refl
      directory-IsSized (omega arith) refl (omega arith) routed.0 (omega arith)
