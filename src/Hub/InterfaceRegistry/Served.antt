-- ===== src/Hub/InterfaceRegistry/Served.antt =====
-- A registration as the hub and the agent see it afterwards.
use mathlib.Core.Option
use can_hub.Protocol.Register.{RegisterAck, RegisterMessage}
use can_hub.Base.{
  ℕ, zero, suc, ◌+◌, ◌≤◌, ◌<◌, ◌≡◌, refl, ap, ◌∙◌, inl, inr, Bool, true, false, not, [], Option,
  some, arith, ltb, ◌==◌, if◌then◌else◌, length, get_or, get_or-set_self, get_or-set_ne, set, Text,
  count, count-set, find_index_sound, Option-cases, Bool-cases, length-set, count-zero_of_imp,
  is_some-find_index, find, find-set-hit, find-set-false, get_or-overlay-take, replicate,
}
use can_hub.Hub.InterfaceRegistry.{
  InterfaceEntry, InterfaceRegistry, blank, in_use, of_peer, on_channel, is_peer_registered,
  is_registration_colliding, find_free_entry, fill_entry, add_entry, register_from, register_agent,
  find_by_agent_channel,
}
use can_hub.Agent.ChannelMap.{ChannelMap, assign_from_ack, channel_for_interface}

-- The names of an interface found.
abbrev pub named : Option InterfaceEntry → Option (Text × Text)
named = Option.map (λ e. (e.agent_name, e.interface_name))

module _ (peer : ℕ) (m : RegisterMessage) where
  -- What the loop has done when it ends well, from turn `i` on.
  record IsDone (i : ℕ) (r : InterfaceRegistry) (ack : RegisterAck)
      (done : Bool × RegisterAck × InterfaceRegistry) : Type 0 where
    serves :
        (c : ℕ)
        → c < m.interface_count
        → named (find (on_channel peer c) done.2.entries) ≡ (
            if ltb c i
            then named (find (on_channel peer c) r.entries)
            else some (m.agent_name, get_or m.interface_names c []))
    acked :
        (c : ℕ)
        → c < m.interface_count
        → get_or done.1.channels c 0 ≡ (if ltb c i then get_or ack.channels c 0 else c)
    accepted : done.1.status ≡ 0
    counted : done.1.interface_count ≡ ack.interface_count
    sized : length done.1.channels ≡ length ack.channels

  register_from-IsDone :
      (left i : ℕ) (r : InterfaceRegistry) (ack : RegisterAck)
      → length r.entries ≡ 256
      → length ack.channels ≡ 16
      → i + left ≡ m.interface_count
      → m.interface_count ≤ 16
      → ((c : ℕ) → i ≤ c → count (on_channel peer c) r.entries ≡ 0)
      → (register_from left i r peer m ack).0 ≡ true
      → IsDone i r ack (register_from left i r peer m ack)
  unfolding register_from add_entry fill_entry find_free_entry
  register_from-IsDone zero i r ack sized acks e small fresh ok = record {
    serves = λ c h. ground arith;
    acked = λ c h. ground arith;
    accepted = refl;
    counted = refl;
    sized = refl;
  }
  register_from-IsDone (suc left) i r ack sized acks e small fresh ok =
      elim (Option-cases (find_free_entry r)) [
        | inl full ↦ absurd (ground (arith, full))
        | inr (k, hit) ↦
            let (low, unused) = find_index_sound (λ e. not (in_use e)) r.entries blank hit in
            let free : (get_or r.entries k blank).in_use ≡ false = ground arith in
            let new = fill_entry (get_or r.entries k blank) r.next_interface_id peer m i in
            let ih =
              register_from-IsDone left (i + 1) (add_entry r k peer m i)
                (record ack { channels = set ack.channels i i })
                (length-set r.entries k new ∙ sized) (length-set ack.channels i i ∙ acks)
                (omega arith) small
                (λ c h.
                  ground
                    (arith, free, fresh c, count-set (on_channel peer c) r.entries k new blank))
                (rw (hit, register_from) at ok) in
            rw (hit, register_from)
              (record {
                serves = λ c h. elim (Bool-cases (c == i)) [
                  | inl same ↦
                      let at : c ≡ i = ground arith in
                      let found : find (on_channel peer c) (set r.entries k new) ≡ some new =
                        find-set-hit (on_channel peer c) r.entries k new low (fresh c (omega arith))
                          (ground arith) in
                      ground (arith, ih.serves c h, at, ap named found)
                  | inr other ↦
                      let kept : find (on_channel peer c) (set r.entries k new)
                          ≡ find (on_channel peer c) r.entries =
                        find-set-false (on_channel peer c) r.entries k new blank (ground arith)
                          (ground arith) in
                      ground (arith, ih.serves c h, ap named kept)
                ];
                acked = λ c h. ground (
                  arith,
                  ih.acked c,
                  get_or-set_self ack.channels i i 0,
                  get_or-set_ne ack.channels i c i 0,
                );
                accepted = ih.accepted;
                counted = ih.counted;
                sized = ih.sized ∙ length-set ack.channels i i;
              })
      ]

-- A registration of up to 16 interfaces that is accepted is acknowledged so that the agent's channel
-- map gives interface `i` a channel, on which the hub then finds the interface of that name.
pub register_agent_served :
    (r : InterfaceRegistry) (peer : ℕ) (m : RegisterMessage) (map : ChannelMap)
    → length r.entries ≡ 256
    → m.interface_count ≤ 16
    → length map.channels ≡ 16
    → (register_agent r peer m).0 ≡ true
    → let mapped = assign_from_ack map (register_agent r peer m).1 m.interface_count in
      (mapped.0 ≡ true)
      × ((i : ℕ)
          → i < m.interface_count
          → (channel : ℕ) × (channel_for_interface mapped.1 i ≡ some channel)
            × (named (find_by_agent_channel (register_agent r peer m).2 peer channel)
                ≡ some (m.agent_name, get_or m.interface_names i [])))
unfolding register_agent is_peer_registered find_by_agent_channel assign_from_ack
    channel_for_interface
register_agent_served r peer m map sized small channels ok =
    elim (Bool-cases (is_peer_registered r peer)) [
      | inl again ↦ absurd (ground (arith, again))
      | inr new_peer ↦ elim (Bool-cases (is_registration_colliding r m)) [
        | inl clash ↦ absurd (ground (arith, new_peer, clash))
        | inr no_clash ↦
            let ack : RegisterAck = record {
              status = 0;
              interface_count = m.interface_count;
              channels = replicate 16 0;
            } in
            let done =
              register_from-IsDone peer m m.interface_count 0 r ack sized refl (omega arith) small
                (λ c h.
                  count-zero_of_imp (of_peer peer) (on_channel peer c) r.entries
                    (λ e mine. ground arith)
                    (ground (arith, is_some-find_index (of_peer peer) r.entries)))
                (rw (new_peer, no_clash, register_agent) at ok) in
            let result = register_from m.interface_count 0 r peer m ack in
            rw (new_peer, no_clash, register_agent)
              (
                ground (arith, done.accepted, done.counted),
                λ i h. (
                  i,
                  ground (
                    arith,
                    done.accepted,
                    done.counted,
                    done.acked i h,
                    done.sized,
                    get_or-overlay-take m.interface_count map.channels result.1.channels i 0,
                  ),
                  ground (arith, done.serves i h),
                ),
              )
      ]
    ]

-- The acknowledgement of a registration that is accepted.
pub register_agent_acked :
    (r : InterfaceRegistry) (peer : ℕ) (m : RegisterMessage)
    → length r.entries ≡ 256
    → m.interface_count ≤ 16
    → (register_agent r peer m).0 ≡ true
    → ((register_agent r peer m).1.interface_count ≡ m.interface_count)
      × (length (register_agent r peer m).1.channels ≡ 16)
unfolding register_agent is_peer_registered
register_agent_acked r peer m sized small ok = elim (Bool-cases (is_peer_registered r peer)) [
  | inl again ↦ absurd (ground (arith, again))
  | inr new_peer ↦ elim (Bool-cases (is_registration_colliding r m)) [
    | inl clash ↦ absurd (ground (arith, new_peer, clash))
    | inr no_clash ↦
        let ack : RegisterAck = record {
          status = 0;
          interface_count = m.interface_count;
          channels = replicate 16 0;
        } in
        let done =
          register_from-IsDone peer m m.interface_count 0 r ack sized refl (omega arith) small
            (λ c h.
              count-zero_of_imp (of_peer peer) (on_channel peer c) r.entries
                (λ e mine. ground arith)
                (ground (arith, is_some-find_index (of_peer peer) r.entries)))
            (rw (new_peer, no_clash, register_agent) at ok) in
        rw (new_peer, no_clash, register_agent) (done.counted, done.sized)
  ]
]
