-- ===== src/Hub/InterfaceRegistry/OverWire.antt =====
-- A registration with its two messages.
use can_hub.Base.{
  ℕ, ◌≤◌, ◌<◌, ◌≡◌, refl, true, some, arith, List, [], length, get_or, take, drop, overlay,
  take-overlay-take,
}
use can_hub.Protocol.Register.{RegisterMessage, RegisterAck, encode, decode, encode_ack, decode_ack}
use can_hub.Protocol.Register.RoundTrip
use can_hub.Protocol.Register.RoundTrip.{register_read_back, register_ack_read_back}
use can_hub.Agent.ChannelMap.{ChannelMap, assign_from_ack, channel_for_interface}
use can_hub.Hub.InterfaceRegistry.{InterfaceRegistry, register_agent, find_by_agent_channel}
use can_hub.Hub.InterfaceRegistry.Served.{named, register_agent_served, register_agent_acked}

-- Only the acknowledged channels are read.
assign_same :
    (map : ChannelMap) (ack : RegisterAck) (channels : List ℕ) (n : ℕ)
    → take ack.interface_count channels ≡ take ack.interface_count ack.channels
    → assign_from_ack map (record ack { channels = channels }) n ≡ assign_from_ack map ack n
unfolding assign_from_ack
assign_same map ack channels n same = rw same refl

-- A valid REGISTER reaches the hub as the agent meant it. If the registry accepts it, then the
-- REGISTER_ACK gives the agent, whatever was in the message it decodes into, a channel for each of
-- its interfaces, on which the hub finds the interface of that name.
pub register_over_wire :
    (r : InterfaceRegistry) (peer : ℕ) (m : RegisterMessage) (map : ChannelMap) (self : RegisterAck)
    → RoundTrip.IsValid m
    → length r.entries ≡ 256
    → length map.channels ≡ 16
    → length self.channels ≡ 16
    → (register_agent r peer m).0 ≡ true
    → (decode (drop 4 (encode m 392)) 388 ≡ some m)
      × ((ack : RegisterAck) × (decode_ack self
              (drop 4 (encode_ack (register_agent r peer m).1 24))
              20
            ≡ some ack)
          × ((assign_from_ack map ack m.interface_count).0 ≡ true)
          × ((i : ℕ)
              → i < m.interface_count
              → (channel : ℕ) × (channel_for_interface
                    (assign_from_ack map ack m.interface_count).1
                    i
                  ≡ some channel)
                × (named (find_by_agent_channel (register_agent r peer m).2 peer channel)
                    ≡ some (m.agent_name, get_or m.interface_names i []))))
register_over_wire r peer m map self v sized mapped selfed ok =
    let sent = (register_agent r peer m).1 in
    let (count, channels) = register_agent_acked r peer m sized v.few ok in
    let few : sent.interface_count ≤ 16 = omega (arith, count, v.few) in
    let received : RegisterAck = record sent {
      channels = overlay self.channels (take sent.interface_count sent.channels);
    } in
    let kept : take sent.interface_count received.channels
        ≡ take sent.interface_count sent.channels =
      take-overlay-take sent.interface_count self.channels sent.channels (omega arith)
        (omega arith) in
    let same = assign_same map sent received.channels m.interface_count kept in
    let (assigned, served) = register_agent_served r peer m map sized v.few mapped ok in
    (
      register_read_back m 392 v (omega arith),
      (
        received,
        register_ack_read_back sent self 24 few channels (omega arith),
        rw same assigned,
        λ i h. let (channel, at, found) = served i h in (channel, rw same at, found),
      ),
    )
