-- ===== src/Hub/InterfaceRegistry/Pacing.antt =====
-- Pacing: what the shaper of an interface lets through, whatever is sent on the others between.
use mathlib.Core.Option
use can_hub.Base.{
  ℕ, ◌+◌, ◌*◌, ◌≤◌, ◌≡◌, ◌≢◌, refl, ap, inl, inr, Bool, true, false, ◌&&◌, List, [], ◌∷◌, Option,
  some, arith, ◌==◌, if◌then◌else◌, get_or, find_index, find_index_sound, Option-cases, Bool-cases,
  find-find_index, find-set-only, find-set-false,
}
use can_hub.Shared.EgressShaper.{EgressShaper}
use can_hub.Shared.EgressShaper.Bounds
use can_hub.Shared.EgressShaper.Bounds.{credit}
use can_hub.Shared.EgressShaper.Conformance.{attempt, sent, finish, InOrder, sent_bound}
use can_hub.Hub.InterfaceRegistry.{
  InterfaceRegistry, blank, on_channel, find_by_agent_channel, find_mutable_by_agent_channel,
  try_egress, egress_entry,
}
use can_hub.Hub.InterfaceRegistry.Invariant.{IsValid}
use can_hub.Hub.InterfaceRegistry.Reach.{try_egress-IsValid}

-- A frame of some bits for a channel of an agent, at a time.
pub record Send : Type 0 where
  pub peer : ℕ
  pub channel : ℕ
  pub now : ℕ
  pub bits : ℕ

send : InterfaceRegistry → Send → Bool × InterfaceRegistry
send r s = try_egress r s.peer s.channel s.bits s.now

pub send_all : InterfaceRegistry → List Send → InterfaceRegistry
send_all r [] = r
send_all r (s ∷ rest) = send_all (send r s).1 rest

send-IsValid : {r : InterfaceRegistry} → IsValid r → (s : Send) → IsValid (send r s).1
unfolding send
send-IsValid v s = try_egress-IsValid v s.peer s.channel s.bits s.now

module _ (peer channel : ℕ) where
  abbrev is_for : Send → Bool
  is_for s = s.peer == peer && s.channel == channel

  -- The times and bits of the sends on the channel.
  abbrev pub attempts : List Send → List (ℕ × ℕ)
  attempts [] = []
  attempts (s ∷ rest) = if is_for s then (s.now, s.bits) ∷ attempts rest else attempts rest

  -- The bits let through on the channel.
  pub bits_through : InterfaceRegistry → List Send → ℕ
  bits_through r [] = 0
  bits_through r (s ∷ rest) =
      (if is_for s && (send r s).0 then s.bits else 0) + bits_through (send r s).1 rest

  unfoldable pub shaper_of : InterfaceRegistry → Option EgressShaper
  shaper_of r = Option.map (λ e. e.shaper) (find_by_agent_channel r peer channel)

  module _ (ne : peer ≢ 0) {r : InterfaceRegistry} (v : IsValid r) (sh : EgressShaper)
      (held : shaper_of r ≡ some sh) (s : Send) where
    send_own :
        is_for s ≡ true
        → ((send r s).0 ≡ (attempt sh (s.now, s.bits)).0)
          × (shaper_of (send r s).1 ≡ some (attempt sh (s.now, s.bits)).1)
    unfolding send try_egress egress_entry find_mutable_by_agent_channel shaper_of
        find_by_agent_channel attempt
    send_own mine =
        let p : s.peer ≡ peer = ground arith in
        let c : s.channel ≡ channel = ground arith in
        elim (Option-cases (find_index (on_channel peer channel) r.entries)) [
          | inl miss ↦
              absurd
                (ground (arith, miss, find-find_index (on_channel peer channel) r.entries blank))
          | inr (k, hit) ↦
              let (low, there) = find_index_sound (on_channel peer channel) r.entries blank hit in
              let e = get_or r.entries k blank in
              let same : e.shaper ≡ sh =
                ground (arith, hit, find-find_index (on_channel peer channel) r.entries blank) in
              let new = (egress_entry e s.bits s.now).1 in
              let only = v.channels peer channel ne in
              rw
                (
                  p,
                  c,
                  hit,
                  try_egress,
                  find-set-only (on_channel peer channel) r.entries k new blank low (ground arith)
                      (ground arith),
                )
                (rw same (refl, refl))
        ]

    send_other : is_for s ≡ false → shaper_of (send r s).1 ≡ some sh
    unfolding send try_egress egress_entry find_mutable_by_agent_channel shaper_of
        find_by_agent_channel
    send_other other = elim (Option-cases (find_index (on_channel s.peer s.channel) r.entries)) [
      | inl miss ↦ rw (miss, try_egress) held
      | inr (k, hit) ↦
          let (low, there) = find_index_sound (on_channel s.peer s.channel) r.entries blank hit in
          let new = (egress_entry (get_or r.entries k blank) s.bits s.now).1 in
          rw
            (
              hit,
              try_egress,
              find-set-false (on_channel peer channel) r.entries k new blank (ground arith)
                  (ground arith),
            )
            held
    ]

  all_sent :
      (sends : List Send) (r : InterfaceRegistry) (sh : EgressShaper)
      → peer ≢ 0
      → IsValid r
      → shaper_of r ≡ some sh
      → (bits_through r sends ≡ sent sh (attempts sends))
        × (shaper_of (send_all r sends) ≡ some (finish sh (attempts sends)))
  unfolding bits_through send_all sent finish
  all_sent [] r sh ne v held = (refl, held)
  all_sent (s ∷ rest) r sh ne v held =
      let after : IsValid (send r s).1 = send-IsValid v s in
      elim (Bool-cases (is_for s)) [
        | inl mine ↦
            let (granted, next) = send_own ne v sh held s mine in
            let ih = all_sent rest (send r s).1 (attempt sh (s.now, s.bits)).1 ne after next in
            rw (mine, granted)
              (ap (λ n. (if (attempt sh (s.now, s.bits)).0 then s.bits else 0) + n) ih.0, ih.1)
        | inr other ↦
            let next = send_other ne v sh held s other in
            let ih = all_sent rest (send r s).1 sh ne after next in
            rw other (omega (arith, ih.0), ih.1)
      ]

-- In a valid registry, however sends on all channels are mixed, the bits let through on one channel
-- of an agent, in millionths, are at most what its shaper had in hand and its rate times the time
-- from its last refill to the last send on it, if that shaper is valid and has a rate, and the sends
-- on the channel are of at most the burst and at times that do not go back.
pub channel_paced :
    (peer channel : ℕ) (sends : List Send) (r : InterfaceRegistry) (sh : EgressShaper)
    → peer ≢ 0
    → IsValid r
    → shaper_of peer channel r ≡ some sh
    → Bounds.IsValid sh
    → sh.rate_bits_per_s ≢ 0
    → InOrder sh.burst_bits sh.last_us (attempts peer channel sends)
    → (t : EgressShaper) × (shaper_of peer channel (send_all r sends) ≡ some t)
      × (bits_through peer channel r sends * 1000000 + sh.rate_bits_per_s * sh.last_us
          ≤ credit sh + sh.rate_bits_per_s * t.last_us)
channel_paced peer channel sends r sh ne v held valid paced order =
    let (through, after) = all_sent peer channel sends r sh ne v held in
    (
      finish sh (attempts peer channel sends),
      after,
      rw through (omega (arith, sent_bound sh (attempts peer channel sends) valid paced order)),
    )
