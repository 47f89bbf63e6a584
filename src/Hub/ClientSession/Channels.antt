-- ===== src/Hub/ClientSession/Channels.antt =====
-- Channel allocation: of 33 consecutive channels one is free, since there are 32 bindings.
use can_hub.Base.{
  ℕ, zero, suc, ◌+◌, ◌-◌, ◌%◌, ◌≤◌, ◌<◌, ◌≡◌, refl, inl, inr, List, [], ◌∷◌, Option, none, some,
  arith, if◌then◌else◌, length, find_index, count, count-zero_of_none, find_index_sound, count-pos,
  Option-cases,
}
use can_hub.Hub.ClientSession.{
  ClientSession, ChannelBinding, blank, on_channel, find_by_channel, allocate_from,
  allocate_channel,
}

-- How often a binding's channel occurs among `n` consecutive channels from `from` on.
single : ChannelBinding → ℕ → ℕ → ℕ
single b from zero = 0
single b from (suc n) = (if on_channel from b then 1 else 0) + single b ((from + 1) % 256) n

-- The same for a list of bindings.
total : List ChannelBinding → ℕ → ℕ → ℕ
total bs from zero = 0
total bs from (suc n) = count (on_channel from) bs + total bs ((from + 1) % 256) n

single-zero :
    (b : ChannelBinding) (from n : ℕ)
    → from < 256
    → b.channel < 256
    → n ≤ (b.channel + 256 - from) % 256
    → single b from n ≡ 0
unfolding single
single-zero b from zero h k l = refl
single-zero b from (suc n) h k l =
    ground (arith, single-zero b ((from + 1) % 256) n (omega arith) k (omega arith))

single-le : (b : ChannelBinding) (from n : ℕ) → from < 256 → n ≤ 256 → single b from n ≤ 1
unfolding single
single-le b from zero h l = omega arith
single-le b from (suc n) h l = ground (
  arith,
  single-le b ((from + 1) % 256) n (omega arith) (omega arith),
  single-zero b ((from + 1) % 256) n,
)

total-cons :
    (b : ChannelBinding) (bs : List ChannelBinding) (from n : ℕ)
    → total (b ∷ bs) from n ≡ single b from n + total bs from n
unfolding total single
total-cons b bs from zero = refl
total-cons b bs from (suc n) = omega (arith, total-cons b bs ((from + 1) % 256) n)

total-nil : (from n : ℕ) → total [] from n ≡ 0
unfolding total
total-nil from zero = refl
total-nil from (suc n) = omega (arith, total-nil ((from + 1) % 256) n)

total-le :
    (bs : List ChannelBinding) (from n : ℕ) → from < 256 → n ≤ 256 → total bs from n ≤ length bs
total-le [] from n h l = omega (arith, total-nil from n)
total-le (b ∷ bs) from n h l =
    omega (arith, total-cons b bs from n, single-le b from n h l, total-le bs from n h l)

taken :
    (s : ClientSession) (attempts from : ℕ)
    → (allocate_from s attempts from).0 ≡ none
    → attempts ≤ total s.bindings from attempts
unfolding allocate_from find_by_channel total
taken s zero from h = omega arith
taken s (suc attempts) from h = elim (Option-cases (find_index (on_channel from) s.bindings)) [
  | inl free ↦ absurd (ground (arith, free))
  | inr (i, busy) ↦
      let (inside, hit) = find_index_sound (on_channel from) s.bindings blank busy in
      omega (
        arith,
        taken s attempts ((from + 1) % 256) (ground (arith, busy)),
        count-pos (on_channel from) s.bindings i blank inside hit,
      )
]

allocated :
    (s : ClientSession) (attempts from : ℕ) {channel : ℕ}
    → (allocate_from s attempts from).0 ≡ some channel
    → from < 256
    → (channel < 256)
      × (count (on_channel channel) s.bindings ≡ 0)
      × ((allocate_from s attempts from).1 ≡ (channel + 1) % 256)
unfolding allocate_from find_by_channel
allocated s zero from {channel} h l = cc
allocated s (suc attempts) from {channel} h l =
    elim (Option-cases (find_index (on_channel from) s.bindings)) [
      | inl free ↦ ground (arith, free, count-zero_of_none (on_channel from) s.bindings free)
      | inr (i, busy) ↦
          ground (arith, busy, allocated s attempts ((from + 1) % 256) {channel = channel})
    ]

-- With 32 bindings and a next channel under 256, allocation succeeds within its 33 attempts, with a
-- channel under 256 that no binding holds, and moves on to the channel after it.
pub allocate_channel_total :
    (s : ClientSession)
    → length s.bindings ≡ 32
    → s.next_channel < 256
    → (channel : ℕ) × (allocate_channel s ≡ (some channel, (channel + 1) % 256))
      × (channel < 256)
      × (count (on_channel channel) s.bindings ≡ 0)
unfolding allocate_channel
allocate_channel_total s sized small = elim (Option-cases (allocate_from s 33 s.next_channel).0) [
  | inl none_free ↦ absurd (
      omega (
        arith,
        taken s 33 s.next_channel none_free,
        total-le s.bindings s.next_channel 33 small (omega arith),
      ))
  | inr (channel, found) ↦
      let (low, fresh, moved) = allocated s 33 s.next_channel found small in
      (channel, pair_eq (allocate_from s 33 s.next_channel) found moved, low, fresh)
]
  where
    pair_eq : (p : Option ℕ × ℕ) {a : Option ℕ} {b : ℕ} → p.0 ≡ a → p.1 ≡ b → p ≡ (a, b)
    pair_eq p e f = λ i. (e i, f i)
