-- ===== src/Hub/InterfaceRegistry/Invariant.antt =====
-- The invariant of the registry under its operations.
use can_hub.Base.{
  ℕ, ◌+◌, ◌-◌, ◌%◌, ◌^◌, ◌≤◌, ◌<◌, ◌≡◌, ◌≢◌, refl, sym, ◌∙◌, subst, inl, inr, Bool, true, false,
  arith, ◌==◌, length, get_or, get_or-set_self, get_or-set_ne, get_or-replicate, set, Text,
  str_eq_sound, count, count-set, Bool-cases, length-set, count-replicate-false, update_where,
  length-update_where, get_or-update_where, count-clear,
}
use can_hub.Hub.InterfaceRegistry.{
  InterfaceEntry, InterfaceRegistry, blank, has_id, on_channel, names_match, has_name, reset,
}

-- 256 entries of which the free ones are clear; no two with one id, none with an id to come; no two
-- with the same names; and no two on the same channel of an agent.
pub record IsValid (r : InterfaceRegistry) : Type 0 where
  pub sized : length r.entries ≡ 256
  pub cleared :
      (i : ℕ)
      → i < 256
      → (get_or r.entries i blank).in_use ≡ false
      → get_or r.entries i blank ≡ blank
  pub ids : (id : ℕ) → count (has_id id) r.entries ≤ 1
  pub unused : (id : ℕ) → r.next_interface_id ≤ id → count (has_id id) r.entries ≡ 0
  pub names : (agent name : Text) → count (has_name agent name) r.entries ≤ 1
  pub channels : (peer channel : ℕ) → peer ≢ 0 → count (on_channel peer channel) r.entries ≤ 1

pub reset-IsValid : IsValid reset
unfolding reset
reset-IsValid = record {
  sized = refl;
  cleared = λ i h free. get_or-replicate {A = InterfaceEntry} 256 i blank;
  ids = λ id. omega (arith, count-replicate-false (has_id id) 256 blank refl);
  unused = λ id h. count-replicate-false (has_id id) 256 blank refl;
  names = λ a n. omega (arith, count-replicate-false (has_name a n) 256 blank refl);
  channels = λ p c ne. omega (arith, count-replicate-false (on_channel p c) 256 blank refl);
}

pub names_match_sound :
    (e : InterfaceEntry) (a n : Text)
    → names_match e a n ≡ true
    → (e.agent_name ≡ a) × (e.interface_name ≡ n)
unfolding names_match
names_match_sound e a n h =
    (ground (arith, str_eq_sound e.agent_name a), ground (arith, str_eq_sound e.interface_name n))

module _ {r : InterfaceRegistry} (v : IsValid r) where
  -- A free entry is filled in: with the next id, new names, and a new channel or the hub's own peer.
  pub filled-IsValid :
      (k : ℕ) (e : InterfaceEntry)
      → k < 256
      → (get_or r.entries k blank).in_use ≡ false
      → e.in_use ≡ true
      → e.interface_id ≡ r.next_interface_id
      → r.next_interface_id < 2 ^ 32 - 1
      → count (has_name e.agent_name e.interface_name) r.entries ≡ 0
      → (e.agent_peer_id ≢ 0 → count (on_channel e.agent_peer_id e.agent_channel) r.entries ≡ 0)
      → IsValid (record {
        entries = set r.entries k e;
        next_interface_id = (r.next_interface_id + 1) % 2 ^ 32;
      })
  filled-IsValid k e inside free used id room fresh_names fresh_channel = record {
    sized = length-set r.entries k e ∙ v.sized;
    cleared = λ i h. elim (Bool-cases (k == i)) [
      | inl same ↦
          let at : k ≡ i = ground arith in
          rw (← at, get_or-set_self r.entries k e blank (omega (arith, v.sized))) (λ empty. cc)
      | inr other ↦ rw (get_or-set_ne r.entries k i e blank (λ same. ground arith)) (v.cleared i h)
    ];
    ids = λ x.
        ground
          (arith, id, used, v.ids x, v.unused x, v.sized, count-set (has_id x) r.entries k e blank);
    unused = λ x h.
        ground (arith, id, used, v.unused x, v.sized, count-set (has_id x) r.entries k e blank);
    names = λ a n. elim (Bool-cases (names_match e a n)) [
      | inl mine ↦
          let (agent, name) = names_match_sound e a n mine in
          let none_there : count (has_name a n) r.entries ≡ 0 = rw (← agent, ← name) fresh_names in
          ground (arith, free, none_there, v.sized, count-set (has_name a n) r.entries k e blank)
      | inr other ↦
          ground
            (arith, free, other, v.names a n, v.sized, count-set (has_name a n) r.entries k e blank)
    ];
    channels = λ p c ne. elim (Bool-cases (on_channel p c e)) [
      | inl mine ↦
          let peer : e.agent_peer_id ≡ p = ground arith in
          let channel : e.agent_channel ≡ c = ground arith in
          let none_there : count (on_channel p c) r.entries ≡ 0 =
            subst (λ x. count (on_channel p x) r.entries ≡ 0) channel
              (subst (λ x. count (on_channel x e.agent_channel) r.entries ≡ 0) peer
                (fresh_channel (λ z. ne (sym peer ∙ z)))) in
          ground (arith, free, none_there, v.sized, count-set (on_channel p c) r.entries k e blank)
      | inr other ↦ ground (
        arith,
        free,
        other,
        v.channels p c ne,
        v.sized,
        count-set (on_channel p c) r.entries k e blank,
      )
    ];
  }

  -- Entries are cleared.
  pub clear-IsValid :
      (p : InterfaceEntry → Bool)
      → IsValid (record r { entries = update_where p (λ _. blank) r.entries })
  clear-IsValid p = record {
    sized = length-update_where p (λ _. blank) r.entries ∙ v.sized;
    cleared = λ i h free.
        ground
          (arith, v.cleared i h, v.sized, get_or-update_where p (λ _. blank) r.entries i blank);
    ids = λ x. omega (arith, v.ids x, count-clear p blank (has_id x) r.entries refl);
    unused = λ x h. omega (arith, v.unused x h, count-clear p blank (has_id x) r.entries refl);
    names = λ a n. omega (arith, v.names a n, count-clear p blank (has_name a n) r.entries refl);
    channels = λ q c ne.
        omega (arith, v.channels q c ne, count-clear p blank (on_channel q c) r.entries refl);
  }

  -- An entry is changed, but not what it is found by.
  pub changed-IsValid :
      (k : ℕ) (e : InterfaceEntry)
      → k < 256
      → e.in_use ≡ true
      → (get_or r.entries k blank).in_use ≡ true
      → e.interface_id ≡ (get_or r.entries k blank).interface_id
      → e.agent_peer_id ≡ (get_or r.entries k blank).agent_peer_id
      → e.agent_channel ≡ (get_or r.entries k blank).agent_channel
      → e.agent_name ≡ (get_or r.entries k blank).agent_name
      → e.interface_name ≡ (get_or r.entries k blank).interface_name
      → IsValid (record r { entries = set r.entries k e })
  unfolding names_match
  changed-IsValid k e inside used was id peer channel agent name =
      let old = get_or r.entries k blank in
      let same_name : (a n : Text) → has_name a n e ≡ has_name a n old =
        λ a n. rw (used, was, agent, name) refl in
      record {
        sized = length-set r.entries k e ∙ v.sized;
        cleared = λ i h. elim (Bool-cases (k == i)) [
          | inl same ↦
              let at : k ≡ i = ground arith in
              rw (← at, get_or-set_self r.entries k e blank (omega (arith, v.sized))) (λ empty. cc)
          | inr other ↦
              rw (get_or-set_ne r.entries k i e blank (λ same. ground arith)) (v.cleared i h)
        ];
        ids = λ x. ground (arith, v.ids x, v.sized, count-set (has_id x) r.entries k e blank);
        unused =
            λ x h. ground (arith, v.unused x h, v.sized, count-set (has_id x) r.entries k e blank);
        names = λ a n. ground (
          arith,
          v.names a n,
          same_name a n,
          v.sized,
          count-set (has_name a n) r.entries k e blank,
        );
        channels = λ p c ne.
            ground
              (arith, v.channels p c ne, v.sized, count-set (on_channel p c) r.entries k e blank);
      }
