-- ===== src/Hub/InterfaceRegistry/Registration.antt =====
-- What a registration does: all interfaces of the agent, or nothing.
use can_hub.Protocol.Register.{RegisterAck, RegisterMessage}
use can_hub.Base.{
  ℕ, zero, suc, ◌+◌, ◌-◌, ◌^◌, ◌≤◌, ◌<◌, ◌≡◌, refl, ◌∙◌, inl, inr, true, false, not, [], some,
  arith, ◌==◌, length, get_or, get_or-set_self, get_or-set_ne, set, take, str_eq, count, count-set,
  find_index_sound, Option-cases, Bool-cases, length-set, update_where, clear_none, clear-set,
  count-zero_of_imp, is_some-find_index, get_or-take, length-take, find_index_complete,
}
use can_hub.Hub.InterfaceRegistry.{
  InterfaceEntry, InterfaceRegistry, blank, in_use, of_peer, on_channel, names_match, has_name,
  is_peer_registered, any_name, collides, is_registration_colliding, find_free_entry, remove_peer,
  fill_entry, add_entry, register_from, register_agent,
}
use can_hub.Hub.InterfaceRegistry.Invariant.{
  IsValid, filled-IsValid, clear-IsValid, names_match_sound,
}

-- No interface is named twice in a registration.
abbrev pub AreDistinct : RegisterMessage → Type 0
AreDistinct m =
    (i j : ℕ)
    → i < j
    → j < m.interface_count
    → str_eq (get_or m.interface_names i []) (get_or m.interface_names j []) ≡ false

-- The registry in the loop at turn `i`: the names and channels to come are free.
record IsOpen (r : InterfaceRegistry) (peer : ℕ) (m : RegisterMessage) (i : ℕ) : Type 0 where
  valid : IsValid r
  new_names :
      (j : ℕ)
      → i ≤ j
      → j < m.interface_count
      → count (has_name m.agent_name (get_or m.interface_names j [])) r.entries ≡ 0
  new_channels : (c : ℕ) → i ≤ c → count (on_channel peer c) r.entries ≡ 0

module _ (peer : ℕ) (m : RegisterMessage) (distinct : AreDistinct m) where
  add_entry-IsOpen :
      (r : InterfaceRegistry) (k i : ℕ)
      → IsOpen r peer m i
      → find_free_entry r ≡ some k
      → i < m.interface_count
      → r.next_interface_id < 2 ^ 32 - 1
      → IsOpen (add_entry r k peer m i) peer m (i + 1)
  unfolding add_entry fill_entry find_free_entry names_match
  add_entry-IsOpen r k i o hit turn room =
      let (low, unused) = find_index_sound (λ e. not (in_use e)) r.entries blank hit in
      let free : (get_or r.entries k blank).in_use ≡ false = ground arith in
      let inside : k < 256 = omega (arith, o.valid.sized) in
      let e = fill_entry (get_or r.entries k blank) r.next_interface_id peer m i in
      record {
        valid =
            filled-IsValid o.valid k e inside free refl refl room (o.new_names i (omega arith) turn)
              (λ ne. o.new_channels i (omega arith));
        new_names = λ j h l. ground (
          arith,
          free,
          distinct i j,
          o.new_names j,
          o.valid.sized,
          count-set (has_name m.agent_name (get_or m.interface_names j [])) r.entries k e blank,
        );
        new_channels = λ c h. ground (
          arith,
          free,
          o.new_channels c,
          o.valid.sized,
          count-set (on_channel peer c) r.entries k e blank,
        );
      }

  -- The guards of the registration open the loop.
  start-IsOpen :
      (r : InterfaceRegistry)
      → IsValid r
      → m.interface_count ≤ length m.interface_names
      → is_peer_registered r peer ≡ false
      → is_registration_colliding r m ≡ false
      → IsOpen r peer m 0
  unfolding is_peer_registered is_registration_colliding any_name
  start-IsOpen r v named new_peer no_clash = record {
    valid = v;
    new_names = λ j low high.
        count-zero_of_imp (collides m) (has_name m.agent_name (get_or m.interface_names j []))
          r.entries (λ e mine. clash e j high mine)
          (ground (arith, is_some-find_index (collides m) r.entries));
    new_channels = λ c h.
        count-zero_of_imp (of_peer peer) (on_channel peer c) r.entries (λ e mine. ground arith)
          (ground (arith, is_some-find_index (of_peer peer) r.entries));
  }
    where
      clash :
          (e : InterfaceEntry) (j : ℕ)
          → j < m.interface_count
          → has_name m.agent_name (get_or m.interface_names j []) e ≡ true
          → collides m e ≡ true
      clash e j high mine =
          let (agent, name) =
            names_match_sound e m.agent_name (get_or m.interface_names j []) (ground arith) in
          let short = get_or-take m.interface_count m.interface_names j [] high in
          let found =
            find_index_complete (names_match e m.agent_name)
              (take m.interface_count m.interface_names) [] j
              (omega (arith, length-take m.interface_count m.interface_names))
              (rw short (ground arith)) in
          rw found.1 (ground arith)

  register_from-IsValid :
      (left i : ℕ) (r : InterfaceRegistry) (ack : RegisterAck)
      → IsOpen r peer m i
      → i + left ≡ m.interface_count
      → r.next_interface_id + left < 2 ^ 32
      → IsValid (register_from left i r peer m ack).2
  unfolding register_from remove_peer add_entry
  register_from-IsValid zero i r ack o e room = o.valid
  register_from-IsValid (suc left) i r ack o e room = elim (Option-cases (find_free_entry r)) [
    | inl full ↦ rw (full, register_from) (clear-IsValid o.valid (of_peer peer))
    | inr (k, hit) ↦
        rw (hit, register_from)
          (register_from-IsValid left (i + 1) (add_entry r k peer m i)
            (record ack { channels = set ack.channels i i })
            (add_entry-IsOpen r k i o hit (omega arith) (omega arith)) (omega arith) (omega arith))
  ]

-- A registration keeps the registry valid, whatever its outcome.
pub register_agent-IsValid :
    (r : InterfaceRegistry) (peer : ℕ) (m : RegisterMessage)
    → IsValid r
    → AreDistinct m
    → m.interface_count ≤ length m.interface_names
    → r.next_interface_id + m.interface_count < 2 ^ 32
    → IsValid (register_agent r peer m).2
unfolding register_agent
register_agent-IsValid r peer m v distinct named room =
    elim (Bool-cases (is_peer_registered r peer)) [
      | inl again ↦ rw (again, register_agent) v
      | inr new_peer ↦ elim (Bool-cases (is_registration_colliding r m)) [
        | inl clash ↦ rw (new_peer, clash, register_agent) v
        | inr no_clash ↦
            rw (new_peer, no_clash, register_agent)
              (register_from-IsValid peer m distinct m.interface_count 0 r _
                (start-IsOpen peer m distinct r v named new_peer no_clash) (omega arith) room)
      ]
    ]

-- The loop that runs out of room has removed what it added.
rollback :
    (peer : ℕ) (m : RegisterMessage) (left i : ℕ) (r : InterfaceRegistry) (ack : RegisterAck)
    → length r.entries ≡ 256
    → ((j : ℕ)
        → j < 256
        → (get_or r.entries j blank).in_use ≡ false
        → get_or r.entries j blank ≡ blank)
    → (register_from left i r peer m ack).0 ≡ false
    → (register_from left i r peer m ack).2.entries
      ≡ update_where (of_peer peer) (λ _. blank) r.entries
unfolding register_from remove_peer add_entry fill_entry find_free_entry
rollback peer m zero i r ack sized cleared failed = cc
rollback peer m (suc left) i r ack sized cleared failed = elim (Option-cases (find_free_entry r)) [
  | inl full ↦ rw (full, register_from) refl
  | inr (k, hit) ↦
      let (low, unused) = find_index_sound (λ e. not (in_use e)) r.entries blank hit in
      let free : (get_or r.entries k blank).in_use ≡ false = ground arith in
      let e = fill_entry (get_or r.entries k blank) r.next_interface_id peer m i in
      rw (hit, register_from)
        (rollback peer m left (i + 1) (add_entry r k peer m i)
            (record ack { channels = set ack.channels i i }) (length-set r.entries k e ∙ sized)
            (λ j h. elim (Bool-cases (k == j)) [
              | inl same ↦
                  let at : k ≡ j = ground arith in
                  rw (← at, get_or-set_self r.entries k e blank low) (λ empty. cc)
              | inr other ↦
                  rw (get_or-set_ne r.entries k j e blank (λ same. ground arith)) (cleared j h)
            ])
            (rw (hit, register_from) at failed)
          ∙ clear-set (of_peer peer) blank r.entries k e blank low (cleared k (omega arith) free)
              (ground arith))
]

-- A registration that is refused, at whatever point, leaves the entries of a valid registry as they
-- were.
pub register_agent_refused :
    (r : InterfaceRegistry) (peer : ℕ) (m : RegisterMessage)
    → IsValid r
    → (register_agent r peer m).0 ≡ false
    → (register_agent r peer m).2.entries ≡ r.entries
unfolding register_agent is_peer_registered
register_agent_refused r peer m v failed = elim (Bool-cases (is_peer_registered r peer)) [
  | inl again ↦ rw (again, register_agent) refl
  | inr new_peer ↦ elim (Bool-cases (is_registration_colliding r m)) [
    | inl clash ↦ rw (new_peer, clash, register_agent) refl
    | inr no_clash ↦
        rw (new_peer, no_clash, register_agent)
          (rollback peer m m.interface_count 0 r _ v.sized v.cleared
              (rw (new_peer, no_clash, register_agent) at failed)
            ∙ clear_none (of_peer peer) blank r.entries
                (ground (arith, is_some-find_index (of_peer peer) r.entries)))
  ]
]
