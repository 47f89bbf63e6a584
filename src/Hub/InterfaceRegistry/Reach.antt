-- ===== src/Hub/InterfaceRegistry/Reach.antt =====
-- The invariant under all the registry's operations.
use can_hub.Protocol.Register.{RegisterMessage}
use can_hub.Base.{
  ℕ, ◌+◌, ◌-◌, ◌^◌, ◌≤◌, ◌<◌, ◌≡◌, refl, ◌∙◌, inl, inr, Bool, true, false, not, ◌&&◌, arith, length,
  get_or, Text, find_index, find_index_sound, Option-cases, length-update_where,
  get_or-update_where, count-update_where, take_all, find, count-zero_of_find,
}
use can_hub.Hub.InterfaceRegistry.{
  InterfaceEntry, InterfaceRegistry, blank, in_use, of_peer, has_id, on_channel, names_match,
  has_name, reset, find_free_entry, remove_peer, register_agent, find_by_name, add_virtual,
  is_virtual, remove_virtual, set_fd_capable, update_at, count_frame, set_tx_dropped,
  apply_advertised_rate, find_mutable_by_agent_channel, try_egress, egress_entry, egress_delay_us,
}
use can_hub.Hub.InterfaceRegistry.Invariant.{
  IsValid, reset-IsValid, filled-IsValid, clear-IsValid, changed-IsValid,
}
use can_hub.Hub.InterfaceRegistry.Registration.{AreDistinct, register_agent-IsValid}

module _ {r : InterfaceRegistry} (v : IsValid r) where
  -- A virtual interface whose names fit their buffers.
  add_virtual-IsValid :
      (agent name : Text)
      → length agent ≤ 127
      → length name ≤ 15
      → r.next_interface_id < 2 ^ 32 - 1
      → IsValid (add_virtual r agent name).1
  unfolding add_virtual find_free_entry find_by_name
  add_virtual-IsValid agent name short short_name room =
      elim (Option-cases (find (has_name agent name) r.entries)) [
        | inr (e, taken) ↦ rw (taken, add_virtual) v
        | inl absent ↦ elim (Option-cases (find_index (λ e. not (in_use e)) r.entries)) [
          | inl full ↦ rw (absent, full, add_virtual) v
          | inr (k, hit) ↦
              let (low, unused) = find_index_sound (λ e. not (in_use e)) r.entries blank hit in
              let free : (get_or r.entries k blank).in_use ≡ false = ground arith in
              rw (absent, hit, add_virtual, take_all 127 agent short, take_all 15 name short_name)
                (filled-IsValid v k
                  (record (get_or r.entries k blank) {
                    in_use = true;
                    interface_id = r.next_interface_id;
                    agent_peer_id = 0;
                    agent_name = agent;
                    interface_name = name;
                  })
                  (omega (arith, v.sized)) free refl refl room
                  (count-zero_of_find (has_name agent name) r.entries absent)
                  (λ ne. absurd (ne refl)))
        ]
      ]

  update_at-IsValid :
      (test : InterfaceEntry → Bool) (f : InterfaceEntry → InterfaceEntry)
      → ((e : InterfaceEntry) → test e ≡ true → e.in_use ≡ true)
      → ((e : InterfaceEntry)
          → ((f e).in_use ≡ e.in_use)
            × ((f e).interface_id ≡ e.interface_id)
            × ((f e).agent_peer_id ≡ e.agent_peer_id)
            × ((f e).agent_channel ≡ e.agent_channel)
            × ((f e).agent_name ≡ e.agent_name)
            × ((f e).interface_name ≡ e.interface_name))
      → IsValid (update_at r (find_index test r.entries) f)
  update_at-IsValid test f live kept = elim (Option-cases (find_index test r.entries)) [
    | inl miss ↦ rw (miss, update_at) v
    | inr (k, hit) ↦
        let (low, there) = find_index_sound test r.entries blank hit in
        let e = get_or r.entries k blank in
        let (used, id, peer, channel, agent, name) = kept e in
        rw (hit, update_at)
          (changed-IsValid v k (f e) (omega (arith, v.sized)) (used ∙ live e there) (live e there)
            id peer channel agent name)
  ]

  set_fd_capable-IsValid : (id : ℕ) (fd : Bool) → IsValid (set_fd_capable r id fd)
  unfolding set_fd_capable names_match
  set_fd_capable-IsValid id fd =
      let f : InterfaceEntry → InterfaceEntry =
        λ e. record e { fd_reported = true; fd_capable = fd } in
      record {
        sized = length-update_where (has_id id) f r.entries ∙ v.sized;
        cleared = λ i h free.
            ground
              (arith, v.cleared i h, v.sized, get_or-update_where (has_id id) f r.entries i blank);
        ids = λ x. rw (count-update_where (has_id x) (has_id id) f r.entries (λ e. refl)) (v.ids x);
        unused = λ x h.
            rw (count-update_where (has_id x) (has_id id) f r.entries (λ e. refl)) (v.unused x h);
        names = λ a n.
            rw (count-update_where (has_name a n) (has_id id) f r.entries (λ e. refl))
              (v.names a n);
        channels = λ p c ne.
            rw (count-update_where (on_channel p c) (has_id id) f r.entries (λ e. refl))
              (v.channels p c ne);
      }

  pub try_egress-IsValid :
      (peer channel bits now : ℕ) → IsValid (try_egress r peer channel bits now).1
  unfolding try_egress egress_entry find_mutable_by_agent_channel
  try_egress-IsValid peer channel bits now =
      elim (Option-cases (find_index (on_channel peer channel) r.entries)) [
        | inl miss ↦ rw (miss, try_egress) v
        | inr (k, hit) ↦
            let (low, there) = find_index_sound (on_channel peer channel) r.entries blank hit in
            let used : (get_or r.entries k blank).in_use ≡ true = ground arith in
            rw (hit, try_egress)
              (changed-IsValid v k _ (omega (arith, v.sized)) used used refl refl refl refl refl)
      ]

  egress_delay_us-IsValid :
      (peer channel bits now : ℕ) → IsValid (egress_delay_us r peer channel bits now).1
  unfolding egress_delay_us find_mutable_by_agent_channel
  egress_delay_us-IsValid peer channel bits now =
      elim (Option-cases (find_index (on_channel peer channel) r.entries)) [
        | inl miss ↦ rw (miss, egress_delay_us) v
        | inr (k, hit) ↦
            let (low, there) = find_index_sound (on_channel peer channel) r.entries blank hit in
            let used : (get_or r.entries k blank).in_use ≡ true = ground arith in
            rw (hit, egress_delay_us)
              (changed-IsValid v k _ (omega (arith, v.sized)) used used refl refl refl refl refl)
      ]

-- The operations, as steps. A registration names no interface twice and a virtual interface has
-- names that fit; the ids have not run out.
pub data Step (r : InterfaceRegistry) : InterfaceRegistry → Type 0 where
  registering :
      (peer : ℕ) (m : RegisterMessage)
      → AreDistinct m
      → m.interface_count ≤ length m.interface_names
      → r.next_interface_id + m.interface_count < 2 ^ 32
      → Step r (register_agent r peer m).2
  leaving : (peer : ℕ) → Step r (remove_peer r peer)
  adding :
      (agent name : Text)
      → length agent ≤ 127
      → length name ≤ 15
      → r.next_interface_id < 2 ^ 32 - 1
      → Step r (add_virtual r agent name).1
  removing : (id : ℕ) → Step r (remove_virtual r id)
  reporting : (id : ℕ) (fd : Bool) → Step r (set_fd_capable r id fd)
  counting : (id : ℕ) → Step r (count_frame r id)
  dropping : (peer channel dropped : ℕ) → Step r (set_tx_dropped r peer channel dropped)
  pacing :
      (peer channel advertised credit now : ℕ)
      → Step r (apply_advertised_rate r peer channel advertised credit now)
  sending : (peer channel bits now : ℕ) → Step r (try_egress r peer channel bits now).1
  delaying : (peer channel bits now : ℕ) → Step r (egress_delay_us r peer channel bits now).1

pub data Reach (r : InterfaceRegistry) : InterfaceRegistry → Type 0 where
  here : Reach r r
  next : {s t : InterfaceRegistry} → Reach r s → Step s t → Reach r t

Step-IsValid : {r s : InterfaceRegistry} → Step r s → IsValid r → IsValid s
unfolding remove_peer remove_virtual count_frame set_tx_dropped apply_advertised_rate
    find_mutable_by_agent_channel
Step-IsValid {r} (registering peer m distinct named room) v =
    register_agent-IsValid r peer m v distinct named room
Step-IsValid (leaving peer) v = clear-IsValid v (of_peer peer)
Step-IsValid (adding agent name short short_name room) v =
    add_virtual-IsValid v agent name short short_name room
Step-IsValid (removing id) v = clear-IsValid v (λ e. has_id id e && is_virtual e)
Step-IsValid (reporting id fd) v = set_fd_capable-IsValid v id fd
Step-IsValid (counting id) v =
    update_at-IsValid v (has_id id) _ (λ e h. ground arith)
      (λ e. (refl, refl, refl, refl, refl, refl))
Step-IsValid (dropping peer channel dropped) v =
    update_at-IsValid v (on_channel peer channel) _ (λ e h. ground arith)
      (λ e. (refl, refl, refl, refl, refl, refl))
Step-IsValid (pacing peer channel advertised credit now) v =
    update_at-IsValid v (on_channel peer channel) _ (λ e h. ground arith)
      (λ e. (refl, refl, refl, refl, refl, refl))
Step-IsValid (sending peer channel bits now) v = try_egress-IsValid v peer channel bits now
Step-IsValid (delaying peer channel bits now) v = egress_delay_us-IsValid v peer channel bits now

-- Every registry that the calls can reach from an empty one, with registrations that name no
-- interface twice, virtual names that fit their buffers, and as long as the ids do not run out, has
-- no two live entries with one id, none with an id still to be given, no two with the same agent and
-- interface name, and no two on one channel of an agent.
pub registries_reached-IsValid : {r : InterfaceRegistry} → Reach reset r → IsValid r
registries_reached-IsValid here = reset-IsValid
registries_reached-IsValid (next reached step) =
    Step-IsValid step (registries_reached-IsValid reached)
