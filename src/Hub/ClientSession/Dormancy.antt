-- ===== src/Hub/ClientSession/Dormancy.antt =====
-- Routing through a session: an opened channel, and a flapping agent.
use can_hub.Protocol.Subscribe.{CanFilter}
use can_hub.Base.{
  ℕ, ◌<◌, ◌≡◌, refl, ◌∙◌, inl, inr, Bool, true, false, List, [], ◌∷◌, Option, none, some, arith,
  ◌==◌, if◌then◌else◌, length, get_or, take, Text, str_eq_refl, count, find-set-false, find-set-hit,
  find-none_of_count, update_where, get_or-update_where, length-update_where, find_index_complete,
  Bool-cases,
}
use can_hub.Hub.ClientSession.{
  ClientSession, ChannelBinding, ChannelOpenRequest, blank, on_channel, live_on, routes_from, reset,
  open_interface, fill_binding, close_channel, set_filters, detach_interface, reattach_interface,
  take_reliable_binding, reattaches, interface_for_channel, channel_for_interface,
}
use can_hub.Hub.ClientSession.Invariant.{
  IsValid, Opened, full, bound, open_interface-Opened, open_interface-IsValid,
  close_channel-IsValid, set_filters-IsValid, take_reliable_binding-IsValid,
  detach_interface-IsValid, reattach_interface-IsValid, reset-IsValid,
}

-- The routes of a session after an open: the new channel leads to the interface, every other
-- channel where it led before.
abbrev RoutesAdded : ClientSession → ChannelOpenRequest → Option ℕ × ClientSession → ℕ → Type 0
RoutesAdded s request r c = interface_for_channel r.1 c ≡ (elim r.0 [
  | none ↦ interface_for_channel s c
  | some channel ↦ if c == channel then some request.interface_id else interface_for_channel s c
])

none_routed :
    (c : ℕ) (bs : List ChannelBinding) → count (on_channel c) bs ≡ 0 → count (routes_from c) bs ≡ 0
none_routed c [] h = refl
none_routed c (b ∷ bs) h = ground (arith, none_routed c bs)

Opened-RoutesAdded :
    {s : ClientSession} {request : ChannelOpenRequest} {r : Option ℕ × ClientSession}
    → IsValid s
    → Opened s request r
    → (c : ℕ) → RoutesAdded s request r c
unfolding interface_for_channel fill_binding
Opened-RoutesAdded v (full busy) c = refl
Opened-RoutesAdded {s} {request} v (bound slot channel inside unused low fresh) c =
    let b = fill_binding (get_or s.bindings slot blank) request channel in
    elim (Bool-cases (c == channel)) [
      | inl same ↦ rw (
        same,
        find-set-hit (routes_from c) s.bindings slot b (omega (arith, v.sized))
            (none_routed c s.bindings (ground (arith, same, fresh))) (ground (arith, same)),
      )
      | inr other ↦ rw (
        other,
        find-set-false (routes_from c) s.bindings slot b blank (ground (arith, unused))
            (ground (arith, other)),
      )
    ]

-- In a valid session, after `ClientSession_OpenInterface` the channel that it returns leads to the
-- interface asked for, and every other channel leads where it led before; if it returns none, all
-- channels lead where they led before.
pub open_interface_routes :
    (s : ClientSession) (request : ChannelOpenRequest) (c : ℕ)
    → IsValid s
    → RoutesAdded s request (open_interface s request) c
open_interface_routes s request c v = Opened-RoutesAdded v (open_interface-Opened s request v) c

module _ (s : ClientSession) (agent_name interface_name : Text) (old new : ℕ) (writes : Bool)
    (i : ℕ) where
  abbrev held : ChannelBinding
  held = get_or s.bindings i blank

  -- When the interface of a live binding is detached and the interface of the same agent and name
  -- is reattached, the reattaching reports a binding, and the binding is live under the new
  -- interface id and the new permission to write, and otherwise as it was.
  pub reattach-detach :
      i < length s.bindings
      → live_on old held ≡ true
      → held.agent_name ≡ agent_name
      → held.interface_name ≡ interface_name
      → let again =
          reattach_interface (detach_interface s old) agent_name interface_name new writes in
        (get_or again.1.bindings i blank
          ≡ record held { interface_id = new; can_write = writes; dormant = false })
        × (again.0 ≡ true)
  unfolding reattach_interface detach_interface
  reattach-detach inside live agent interface =
      let sleep = λ (b : ChannelBinding). record b { dormant = true } in
      let asleep = update_where (live_on old) sleep s.bindings in
      let len = length-update_where (live_on old) sleep s.bindings in
      let is_asleep : get_or asleep i blank ≡ record held { dormant = true } =
        get_or-update_where (live_on old) sleep s.bindings i blank inside ∙ rw live in
      let matches : reattaches agent_name interface_name (get_or asleep i blank) ≡ true =
        rw
          (
            is_asleep,
            agent,
            interface,
            str_eq_refl (take 128 agent_name),
            str_eq_refl (take 16 interface_name),
          )
          (ground (arith, live)) in
      let (j, found, low) =
        find_index_complete (reattaches agent_name interface_name) asleep blank i
          (omega (arith, len)) matches in
      (
        get_or-update_where (reattaches agent_name interface_name) _ asleep i blank
              (omega (arith, len))
            ∙ rw (matches, is_asleep),
        rw found,
      )

detached_none :
    (interface_id : ℕ) (bs : List ChannelBinding)
    → count
        (live_on interface_id)
        (update_where (live_on interface_id) (λ b. record b { dormant = true }) bs)
      ≡ 0
detached_none interface_id [] = refl
detached_none interface_id (b ∷ bs) = ground (arith, detached_none interface_id bs)

-- After an interface is detached no channel is found for it.
detach_interface_routes :
    (s : ClientSession) (interface_id : ℕ)
    → channel_for_interface (detach_interface s interface_id) interface_id ≡ none
unfolding channel_for_interface detach_interface
detach_interface_routes s interface_id =
    rw (find-none_of_count (live_on interface_id) _ (detached_none interface_id s.bindings))

-- The calls that change a session.
pub data Step (s : ClientSession) : ClientSession → Type 0 where
  opening : (request : ChannelOpenRequest) → Step s (open_interface s request).1
  closing : (channel : ℕ) → Step s (close_channel s channel)
  filtering :
      (channel n : ℕ) (filters : List CanFilter) → Step s (set_filters s channel filters n).1
  taking : Step s (take_reliable_binding s).1
  detaching : (interface_id : ℕ) → Step s (detach_interface s interface_id)
  reattaching :
      (agent_name interface_name : Text) (interface_id : ℕ) (can_write : Bool)
      → Step s (reattach_interface s agent_name interface_name interface_id can_write).1

pub data Reach (s : ClientSession) : ClientSession → Type 0 where
  here : Reach s s
  next : {t u : ClientSession} → Reach s t → Step t u → Reach s u

Step-IsValid : {s t : ClientSession} → Step s t → IsValid s → IsValid t
Step-IsValid (opening request) v = open_interface-IsValid v request
Step-IsValid (closing channel) v = close_channel-IsValid v channel
Step-IsValid (filtering channel n filters) v = set_filters-IsValid v channel n filters
Step-IsValid taking v = take_reliable_binding-IsValid v
Step-IsValid (detaching interface_id) v = detach_interface-IsValid v interface_id
Step-IsValid (reattaching agent_name interface_name interface_id can_write) v =
    reattach_interface-IsValid v agent_name interface_name interface_id can_write

-- In every session that the calls can reach from an empty one there are 32 bindings, and no two
-- bindings in use share a channel.
pub reachable-IsValid : {s : ClientSession} → Reach reset s → IsValid s
reachable-IsValid here = reset-IsValid
reachable-IsValid (next r step) = Step-IsValid step (reachable-IsValid r)
