-- ===== src/Hub/EgressQueue/Scans.antt =====
-- The two scans over the channels: whose turn it is, and who has the most frames.
use can_hub.Base.{
  ℕ, zero, suc, ◌+◌, ◌%◌, ◌^◌, ◌≤◌, ◌<◌, ◌≡◌, refl, ◌∙◌, ◌⊎◌, inl, inr, true, false, List, [], ◌∷◌,
  Option, none, some, arith, ltb, ◌==◌, length, get_or, Bool-cases,
}
use can_hub.Hub.EgressQueue.{
  EgressQueue, EgressChannelList, no_list, list_at, channel_pending, fullest_from, fullest_channel,
  next_pending_from, next_pending_channel,
}

-- The outcome of the scan that started at the cursor and stands at turn `i`.
pub data Turn (q : EgressQueue) (i last : ℕ) : Option ℕ × EgressQueue → Type 0 where
  idle :
      ((j : ℕ) → i ≤ j → j < last → channel_pending q ((q.cursor + j) % 256) ≡ false)
      → Turn q i last (none, q)
  turn :
      (j : ℕ)
      → i ≤ j
      → j < last
      → channel_pending q ((q.cursor + j) % 256) ≡ true
      → ((k : ℕ) → i ≤ k → k < j → channel_pending q ((q.cursor + k) % 256) ≡ false)
      → Turn q i last
          (some ((q.cursor + j) % 256), record q { cursor = ((q.cursor + j) % 256 + 1) % 256 })

later :
    {q : EgressQueue} {i last : ℕ} {r : Option ℕ × EgressQueue}
    → channel_pending q ((q.cursor + i) % 256) ≡ false
    → Turn q (i + 1) last r
    → Turn q i last r
later {q} {i} {last} quiet (idle none_waits) = idle (λ j low high. elim (Bool-cases (i == j)) [
  | inl same ↦ let at : i ≡ j = ground arith in rw (← at) quiet
  | inr other ↦ none_waits j (ground arith) high
])
later {q} {i} {last} quiet (turn j low high waits first) =
    turn j (omega arith) high waits (λ k from to. elim (Bool-cases (i == k)) [
      | inl same ↦ let at : i ≡ k = ground arith in rw (← at) quiet
      | inr other ↦ first k (ground arith) to
    ])

scan :
    (q : EgressQueue) (left i last : ℕ)
    → last ≡ i + left
    → Turn q i last (next_pending_from left i q)
unfolding next_pending_from channel_pending
scan q zero i last e = idle (λ j low high. absurd (omega arith))
scan q (suc left) i last e = elim (Bool-cases (ltb 0 (list_at q ((q.cursor + i) % 256)).count)) [
  | inl waits ↦
      rw waits (turn i (omega arith) (omega arith) waits (λ k from to. absurd (omega arith)))
  | inr quiet ↦ rw quiet (later quiet (scan q left (i + 1) last (omega arith)))
]

-- The channel served is the first with a frame from the cursor on, around all 256, and the cursor
-- moves behind it; without one nothing changes, and no channel of the 256 has a frame.
pub next_pending_channel-Turn : (q : EgressQueue) → Turn q 0 256 (next_pending_channel q)
unfolding next_pending_channel
next_pending_channel-Turn q = scan q 256 0 256 refl

fullest_from_lem :
    (xs : List EgressChannelList) (i best best_count : ℕ)
    → ((fullest_from xs i best best_count ≡ best)
        × ((k : ℕ) → k < length xs → (get_or xs k no_list).count ≤ best_count))
      ⊎ ((j : ℕ) × (j < length xs)
          × (fullest_from xs i best best_count ≡ i + j)
          × (best_count < (get_or xs j no_list).count)
          × ((k : ℕ) → k < length xs → (get_or xs k no_list).count ≤ (get_or xs j no_list).count))
unfolding fullest_from
fullest_from_lem [] i best best_count = inl (refl, λ k h. absurd (omega arith))
fullest_from_lem (l ∷ rest) i best best_count = elim (Bool-cases (ltb best_count l.count)) [
  | inl more ↦ rw more (elim (fullest_from_lem rest (i + 1) i l.count) [
    | inl (same, all) ↦ inr (
      0,
      omega arith,
      same ∙ omega arith,
      ground arith,
      λ k h. bounded k h l.count (omega arith) all,
    )
    | inr (j, inside, at, bigger, all) ↦
        inr (
          suc j,
          omega arith,
          at ∙ omega arith,
          ground arith,
          λ k h. bounded k h _ (omega arith) all,
        )
  ])
  | inr less ↦ rw less (elim (fullest_from_lem rest (i + 1) best best_count) [
    | inl (same, all) ↦ inl (same, λ k h. bounded k h best_count (ground arith) all)
    | inr (j, inside, at, bigger, all) ↦
        inr (suc j, omega arith, at ∙ omega arith, bigger, λ k h. bounded k h _ (ground arith) all)
  ])
]
  where
    bounded :
        (k : ℕ)
        → k < length (l ∷ rest)
        → (n : ℕ) → l.count ≤ n
        → ((m : ℕ) → m < length rest → (get_or rest m no_list).count ≤ n)
        → (get_or (l ∷ rest) k no_list).count ≤ n
    bounded zero h n first others = first
    bounded (suc k) h n first others = others k (omega arith)

-- In a queue of 256 channels, the channel chosen to give up a frame is one of them, and no other
-- has more frames.
fullest_channel_lem :
    (q : EgressQueue) (channel : ℕ)
    → length q.channels ≡ 256
    → channel < 256
    → (fullest_channel q < 256)
      × ((list_at q channel).count ≤ (list_at q (fullest_channel q)).count)
unfolding fullest_channel
fullest_channel_lem q channel sized inside = elim (fullest_from_lem q.channels 0 0 0) [
  | inl (same, all) ↦ let none_waits = all channel (omega arith) in (omega arith, omega arith)
  | inr (j, low, at, bigger, all) ↦
      let small : fullest_from q.channels 0 0 0 % 2 ^ 8 ≡ j = omega arith in
      rw small (omega arith, all channel (omega arith))
]
