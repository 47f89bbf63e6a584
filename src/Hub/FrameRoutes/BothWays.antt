-- ===== src/Hub/FrameRoutes/BothWays.antt =====
-- The way to the agent and the way back.
use mathlib.Core.List.{Memᴰ}
use can_hub.Base.{
  ℕ, ◌≤◌, ◌<◌, ◌≡◌, ◌≢◌, refl, sym, ap, ◌∙◌, inl, inr, Bool, true, false, List, [], ◌∷◌, some,
  arith, ◌==◌, length, get_or, take_all, find, find_index, find_index_sound, find-find_index,
  count_unique, find_index_complete, Option-cases,
}
use can_hub.Hub.ClientSession
use can_hub.Hub.ClientSession.{routes_from, interface_for_channel}
use can_hub.Hub.InterfaceRegistry.{
  InterfaceRegistry, InterfaceEntry, has_id, on_channel, find_by_agent_channel, find_by_id,
}
use can_hub.Hub.InterfaceRegistry
use can_hub.Hub.InterfaceRegistry.Invariant.{IsValid}
use can_hub.Hub.HubPeer
use can_hub.Hub.PeerDirectory.{PeerDirectory}
use can_hub.Hub.FrameRoutes.{FrameRoute, route_to, from_agent, from_client}
use can_hub.Hub.FrameRoutes.Destinations.{
  IsSized, is_client, all_routes, all_routes_complete, length-all_routes, to_interface_lem,
}

-- What a search found, at its index.
found_at :
    {A : Type 0} (p : A → Bool) (xs : List A) (d x : A)
    → find p xs ≡ some x
    → (k : ℕ) × (k < length xs) × (get_or xs k d ≡ x) × (p x ≡ true)
found_at p xs d x h = elim (Option-cases (find_index p xs)) [
  | inl miss ↦ absurd (ground (arith, miss, find-find_index p xs d))
  | inr (k, hit) ↦
      let (low, there) = find_index_sound p xs d hit in
      let same : get_or xs k d ≡ x = ground (arith, hit, find-find_index p xs d) in
      (k, low, same, rw (← same) there)
]

abbrev Sent : Type 0
Sent = List FrameRoute × ℕ

nothing_sent : (route : FrameRoute) (dropped : ℕ) → ◌≢◌ {A = Sent} ([], 0) (route ∷ [], dropped)
nothing_sent route dropped e = cc

-- In a valid registry an entry of an agent is found by its channel.
entry_by_channel :
    (r : InterfaceRegistry) (e : InterfaceEntry) (interface_id : ℕ)
    → IsValid r
    → find_by_id r interface_id ≡ some e
    → e.agent_peer_id ≢ 0
    → find_by_agent_channel r e.agent_peer_id e.agent_channel ≡ some e
unfolding find_by_id find_by_agent_channel
entry_by_channel r e interface_id v found agent =
    let (k, low, here, passes) =
      found_at (has_id interface_id) r.entries InterfaceRegistry.blank e found in
    let test = on_channel e.agent_peer_id e.agent_channel in
    let mine : test e ≡ true = ground arith in
    let held : test (get_or r.entries k InterfaceRegistry.blank) ≡ true = rw here mine in
    let (j, hit, first) = find_index_complete test r.entries InterfaceRegistry.blank k low held in
    let (inside, there) = find_index_sound test r.entries InterfaceRegistry.blank hit in
    let same : j ≡ k =
      count_unique test r.entries InterfaceRegistry.blank j k
        (v.channels e.agent_peer_id e.agent_channel agent) inside low there held in
    find-find_index test r.entries InterfaceRegistry.blank ∙ rw (hit, same, here) refl

-- If a frame of a client's channel goes to an agent, then the frames that this agent sends on the
-- channel they go to come back to the client on its own; in a valid registry and a directory of the
-- arrays' sizes, with room for FRAME_ROUTES_MAX routes.
pub client_routes_back :
    (r : InterfaceRegistry) (d : PeerDirectory) (i client_channel routes_max dropped : ℕ)
    (route : FrameRoute)
    → IsValid r
    → length d.peers ≡ 512
    → IsSized d.peers
    → i < 512
    → is_client (get_or d.peers i HubPeer.blank) ≡ true
    → 16384 ≤ routes_max
    → from_client r (get_or d.peers i HubPeer.blank) client_channel routes_max
      ≡ (route ∷ [], dropped)
    → route.peer_id ≢ 0
    → (back : FrameRoute) × Memᴰ back (from_agent r d route.peer_id route.channel routes_max).0
      × (back.peer_id ≡ (get_or d.peers i HubPeer.blank).peer_id)
      × (back.channel ≡ client_channel)
unfolding from_client from_agent interface_for_channel route_to find_by_id
client_routes_back r d i client_channel routes_max dropped route v full sized low client room sent
      agent =
    let p = get_or d.peers i HubPeer.blank in
    let some_room : (routes_max == 0) ≡ false = ground arith in
    elim (Option-cases (find (routes_from client_channel) p.session.bindings)) [
      | inl shut ↦ absurd (nothing_sent route dropped (rw (some_room, shut) at sent))
      | inr (b, opened) ↦ elim (Option-cases (find_by_id r b.interface_id)) [
        | inl gone ↦ absurd (nothing_sent route dropped (rw (some_room, opened, gone) at sent))
        | inr (e, known) ↦
            let (j, inside, here, passes) =
              found_at (routes_from client_channel) p.session.bindings ClientSession.blank b
                opened in
            let (k, there, same, has) =
              found_at (has_id b.interface_id) r.entries InterfaceRegistry.blank e known in
            let sent_one = rw (some_room, opened, known) at sent in
            let to_peer : e.agent_peer_id ≡ route.peer_id =
              ap (λ x. (get_or x.0 0 route).peer_id) sent_one in
            let to_channel : e.agent_channel ≡ route.channel =
              ap (λ x. (get_or x.0 0 route).channel) sent_one in
            let by_channel =
              entry_by_channel r e b.interface_id v known (λ hub. agent (sym to_peer ∙ hub)) in
            let its_id : e.interface_id ≡ b.interface_id = ground arith in
            let own = get_or p.session.bindings j ClientSession.blank in
            let its_channel : own.channel ≡ client_channel = rw here (ground arith) in
            let fits = length-all_routes b.interface_id d.peers sized in
            (
              route_to p own,
              rw
                  (
                    ← to_peer,
                    ← to_channel,
                    by_channel,
                    from_agent,
                    its_id,
                    to_interface_lem d b.interface_id routes_max sized,
                    take_all routes_max (all_routes b.interface_id d.peers) (omega arith),
                  )
                  (all_routes_complete b.interface_id d.peers i j (omega arith) client inside
                    (rw here (ground arith))),
              refl,
              its_channel,
            )
      ]
    ]
