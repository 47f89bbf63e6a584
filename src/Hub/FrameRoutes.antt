-- ===== src/Hub/FrameRoutes.antt =====
-- Where a frame goes from an agent or from a client (src/hub/domain/frame_routes.{h,c}). The routes
-- array and its count are one list.
use can_hub.Base.{
  ℕ, zero, suc, ◌+◌, ◌%◌, ◌^◌, Bool, true, false, not, ◌&&◌, List, [], ◌∷◌, ◌++◌, Option, none,
  some, ◌==◌, if◌then◌else◌, length, get_or,
}
use can_hub.Hub.ClientSession
use can_hub.Hub.ClientSession.{
  ChannelBinding, bindings_max, channel_reliable, interface_for_channel, next_binding_for_interface,
}
use can_hub.Hub.InterfaceRegistry.{InterfaceRegistry, find_by_agent_channel, find_by_id}
use can_hub.Hub.HubPeer.{HubPeer, role_client}
use can_hub.Hub.PeerDirectory.{PeerDirectory}
pub mod Destinations
pub mod BothWays
mod Tests

pub record FrameRoute : Type 0 where
  pub peer_id : ℕ
  pub channel : ℕ
  pub suppress_echo : Bool
  pub reliable : Bool

pub route_to : HubPeer → ChannelBinding → FrameRoute
route_to p b = record {
  peer_id = p.peer_id;
  channel = b.channel;
  suppress_echo = b.suppress_echo;
  reliable = b.reliable;
}

-- The body of the inner loop: the routes and the count of the dropped ones, with another binding.
pub add_route : ℕ → List FrameRoute × ℕ → FrameRoute → List FrameRoute × ℕ
add_route routes_max (routes, dropped) route =
    if length routes == routes_max
    then (routes, (dropped + 1) % 2 ^ 16)
    else (routes ++ (route ∷ []), dropped)

-- The inner loop from an iterator on: it stops where there is no binding left, or out of fuel.
pub to_peer : ℕ → HubPeer → ℕ → ℕ → ℕ → List FrameRoute × ℕ → List FrameRoute × ℕ
to_peer zero p interface_id routes_max iterator acc = acc
to_peer (suc fuel) p interface_id routes_max iterator acc =
    let next = next_binding_for_interface p.session interface_id iterator in
    elim next.0 [
      | none ↦ acc
      | some i ↦
          let route = route_to p (get_or p.session.bindings i ClientSession.blank) in
          to_peer fuel p interface_id routes_max next.1 (add_route routes_max acc route)
    ]

-- The outer loop over the peers left.
pub to_peers : List HubPeer → ℕ → ℕ → List FrameRoute × ℕ → List FrameRoute × ℕ
to_peers [] interface_id routes_max acc = acc
to_peers (p ∷ rest) interface_id routes_max acc = to_peers rest interface_id routes_max (
    if p.in_use && p.role == role_client
    then to_peer (bindings_max + 1) p interface_id routes_max 0 acc
    else acc)

pub to_interface : PeerDirectory → ℕ → ℕ → List FrameRoute × ℕ
to_interface d interface_id routes_max = to_peers d.peers interface_id routes_max ([], 0)

pub from_agent : InterfaceRegistry → PeerDirectory → ℕ → ℕ → ℕ → List FrameRoute × ℕ
from_agent r d agent_peer_id agent_channel routes_max =
    elim (find_by_agent_channel r agent_peer_id agent_channel) [
      | none ↦ ([], 0)
      | some e ↦ to_interface d e.interface_id routes_max
    ]

pub from_client : InterfaceRegistry → HubPeer → ℕ → ℕ → List FrameRoute × ℕ
from_client r p client_channel routes_max =
    if routes_max == 0 then ([], 0) else (elim (interface_for_channel p.session client_channel) [
      | none ↦ ([], 0)
      | some interface_id ↦ elim (find_by_id r interface_id) [
        | none ↦ ([], 0)
        | some e ↦ (
          record {
            peer_id = e.agent_peer_id;
            channel = e.agent_channel;
            suppress_echo = false;
            reliable = channel_reliable p.session client_channel;
          }
              ∷ [],
          0,
        )
      ]
    ])
