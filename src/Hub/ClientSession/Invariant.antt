-- ===== src/Hub/ClientSession/Invariant.antt =====
-- The invariant of a session, and what opening and closing do.
use can_hub.Protocol.Subscribe.{CanFilter}
use can_hub.Base.{
  ℕ, ◌+◌, ◌%◌, ◌≤◌, ◌<◌, ◌≡◌, refl, ◌∙◌, ◌⊎◌, inl, inr, Bool, true, false, not, ◌&&◌, List, Option,
  none, some, arith, ltb, if◌then◌else◌, length, get_or, set, find_index, Text, count, count-set,
  find_index_sound, Option-cases, Bool-cases, update_where, count-update_where, length-update_where,
  length-set, full_of_none, count-replicate-false,
}
use can_hub.Hub.ClientSession.{
  ClientSession, ChannelBinding, ChannelOpenRequest, blank, on_channel, live_on, find_by_channel,
  find_free, reset, open_interface, bind_channel, fill_binding, close_channel, set_filters,
  detach_interface, reattach_interface, take_reliable_binding, reattaches,
}
use can_hub.Hub.ClientSession.Channels.{allocate_channel_total}

pub record IsValid (s : ClientSession) : Type 0 where
  pub sized : length s.bindings ≡ 32
  pub next_in : s.next_channel < 256
  pub distinct : (channel : ℕ) → count (on_channel channel) s.bindings ≤ 1

pub reset-IsValid : IsValid reset
unfolding reset
reset-IsValid = record {
  sized = refl;
  next_in = omega arith;
  distinct = λ c. omega (arith, count-replicate-false (on_channel c) 32 blank refl);
}

-- What `ClientSession_OpenInterface` does on each way out.
pub data Opened (s : ClientSession) (request : ChannelOpenRequest)
    : Option ℕ × ClientSession → Type 0 where
  full : count (λ b. b.in_use) s.bindings ≡ 32 → Opened s request (none, s)
  bound :
      (slot channel : ℕ)
      → slot < 32
      → (get_or s.bindings slot blank).in_use ≡ false
      → channel < 256
      → count (on_channel channel) s.bindings ≡ 0
      → Opened s request (
        some channel,
        record {
          bindings =
              set s.bindings slot (fill_binding (get_or s.bindings slot blank) request channel);
          next_channel = (channel + 1) % 256;
        },
      )

-- In a valid session, opening an interface is refused only when all 32 bindings are in use, and
-- changes nothing then; otherwise it fills a free binding, on a channel that no binding of the
-- session holds, and the next channel is the one after it.
pub open_interface-Opened :
    (s : ClientSession) (request : ChannelOpenRequest)
    → IsValid s
    → Opened s request (open_interface s request)
unfolding open_interface find_free
open_interface-Opened s request v =
    elim (Option-cases (find_index (λ b. not b.in_use) s.bindings)) [
      | inl busy ↦
          rw (busy, open_interface) (full (full_of_none (λ b. b.in_use) s.bindings busy ∙ v.sized))
      | inr (slot, free) ↦
          let (inside, unused) = find_index_sound (λ b. not b.in_use) s.bindings blank free in
          let (channel, allocated, low, fresh) = allocate_channel_total s v.sized v.next_in in
          rw (free, open_interface, allocated, bind_channel)
            (bound slot channel (omega (arith, v.sized)) (ground (arith, unused)) low fresh)
    ]

-- A session with one binding replaced, whose channel is the old one or free.
module _ {s : ClientSession} (v : IsValid s) (i n : ℕ) (b : ChannelBinding) (inside : i < 32)
    (small : n < 256) where
  replace-IsValid :
      ((c : ℕ)
        → on_channel c b ≡ true
        → (on_channel c (get_or s.bindings i blank) ≡ true) ⊎ (count (on_channel c) s.bindings ≡ 0))
      → IsValid (record { bindings = set s.bindings i b; next_channel = n })
  replace-IsValid one = record {
    sized = length-set s.bindings i b ∙ v.sized;
    next_in = small;
    distinct = λ c. elim (Bool-cases (on_channel c b)) [
      | inl held ↦ elim (one c held) [
        | inl old ↦ ground (arith, v.distinct c, counted c)
        | inr free ↦ ground (arith, counted c)
      ]
      | inr other ↦ ground (arith, v.distinct c, counted c)
    ];
  }
    where
      counted :
          (c : ℕ)
          → count (on_channel c) (set s.bindings i b)
              + (if on_channel c (get_or s.bindings i blank) then 1 else 0)
            ≡ count (on_channel c) s.bindings + (if on_channel c b then 1 else 0)
      counted c = count-set (on_channel c) s.bindings i b blank (omega (arith, v.sized))

Opened-IsValid :
    {s : ClientSession} {request : ChannelOpenRequest} {r : Option ℕ × ClientSession}
    → IsValid s
    → Opened s request r
    → IsValid r.1
unfolding fill_binding
Opened-IsValid v (full busy) = v
Opened-IsValid {s} {request} v (bound slot channel inside unused low fresh) =
    replace-IsValid v slot ((channel + 1) % 256)
      (fill_binding (get_or s.bindings slot blank) request channel) inside (omega arith)
      (λ c held. inr (ground (arith, held, fresh)))

-- A session with bindings changed where the change does not touch use and channel.
module _ {s : ClientSession} (v : IsValid s) (q : ChannelBinding → Bool)
    (f : ChannelBinding → ChannelBinding)
    (same : (c : ℕ) (b : ChannelBinding) → on_channel c (f b) ≡ on_channel c b) where
  update-IsValid : IsValid (record s { bindings = update_where q f s.bindings })
  update-IsValid = record {
    sized = length-update_where q f s.bindings ∙ v.sized;
    next_in = v.next_in;
    distinct =
        λ c. omega (arith, count-update_where (on_channel c) q f s.bindings (same c), v.distinct c);
  }

module _ {s : ClientSession} (v : IsValid s) where
  pub open_interface-IsValid : (request : ChannelOpenRequest) → IsValid (open_interface s request).1
  open_interface-IsValid request = Opened-IsValid v (open_interface-Opened s request v)

  pub close_channel-IsValid : (channel : ℕ) → IsValid (close_channel s channel)
  unfolding close_channel find_by_channel
  close_channel-IsValid channel = elim (Option-cases (find_index (on_channel channel) s.bindings)) [
    | inl absent ↦ rw (absent, close_channel) v
    | inr (i, hit) ↦
        let (inside, held) = find_index_sound (on_channel channel) s.bindings blank hit in
        rw (hit, close_channel)
          (replace-IsValid v i s.next_channel blank (omega (arith, v.sized)) v.next_in
            (λ c e. absurd (ground arith)))
  ]

  pub set_filters-IsValid :
      (channel n : ℕ) (filters : List CanFilter) → IsValid (set_filters s channel filters n).1
  unfolding set_filters find_by_channel
  set_filters-IsValid channel n filters =
      elim (Option-cases (find_index (on_channel channel) s.bindings)) [
        | inl absent ↦ rw (absent, set_filters) v
        | inr (i, hit) ↦
            let (inside, held) = find_index_sound (on_channel channel) s.bindings blank hit in
            elim (Bool-cases (ltb 16 n)) [
              | inl many ↦ rw (hit, set_filters, many) v
              | inr few ↦
                  rw (hit, set_filters, few)
                    (replace-IsValid v i s.next_channel _ (omega (arith, v.sized)) v.next_in
                      (λ c e. inl e))
            ]
      ]

  pub take_reliable_binding-IsValid : IsValid (take_reliable_binding s).1
  unfolding take_reliable_binding
  take_reliable_binding-IsValid =
      elim (Option-cases (find_index (λ b. b.in_use && b.reliable) s.bindings)) [
        | inl absent ↦ rw (absent, take_reliable_binding) v
        | inr (i, hit) ↦
            let (inside, held) =
              find_index_sound (λ b. b.in_use && b.reliable) s.bindings blank hit in
            rw (hit, take_reliable_binding)
              (replace-IsValid v i s.next_channel blank (omega (arith, v.sized)) v.next_in
                (λ c e. absurd (ground arith)))
      ]

  pub detach_interface-IsValid : (interface_id : ℕ) → IsValid (detach_interface s interface_id)
  unfolding detach_interface
  detach_interface-IsValid interface_id = update-IsValid v (live_on interface_id) _ (λ c b. refl)

  pub reattach_interface-IsValid :
      (agent_name interface_name : Text) (interface_id : ℕ) (can_write : Bool)
      → IsValid (reattach_interface s agent_name interface_name interface_id can_write).1
  unfolding reattach_interface
  reattach_interface-IsValid agent_name interface_name interface_id can_write =
      update-IsValid v (reattaches agent_name interface_name) _ (λ c b. refl)
