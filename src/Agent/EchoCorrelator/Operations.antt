-- ===== src/Agent/EchoCorrelator/Operations.antt =====
-- The operations of the correlator against the queue of an interface.
use mathlib.Core.Option
use can_hub.Base.{
  ℕ, zero, suc, ◌+◌, ◌-◌, ◌%◌, ◌≤◌, ◌<◌, ◌≡◌, refl, sym, ap, ◌∙◌, true, false, List, [], ◌∷◌, ◌++◌,
  Option, none, some, arith, leb, ◌==◌, if◌then◌else◌, length, get_or, drop, take, tabulate,
  length-tabulate, take-tabulate, drop-tabulate, inl, inr, Bool-cases, Option-cases,
  get_or-replicate, get_or-replicate_in, replicate,
}
use can_hub.Agent.EchoCorrelator.{
  EchoCorrelator, slot_at, push, drop_newest, find_position, drop_through, pop_match, reset,
}
use can_hub.Agent.EchoCorrelator.Refine.{
  IsValid, pending, ring, skip, skip-pending, skip-IsValid, drop_oldest-skip, store-pending,
  store-IsValid, count_set,
}

-- A queue that forgets its oldest entry when it is full.
abbrev pub push_queue : List (ℕ × ℕ) → ℕ × ℕ → List (ℕ × ℕ)
push_queue q x = (if length q == 32 then drop 1 q else q) ++ (x ∷ [])

-- The first entry with an identifier, and the entries after it.
unfoldable pub pop_first : ℕ → List (ℕ × ℕ) → Option (ℕ × List (ℕ × ℕ))
pop_first can_id [] = none
pop_first can_id ((token, id) ∷ q) = if id == can_id then some (token, q) else pop_first can_id q

-- For a valid queue of an interface, a push appends the token and identifier, after dropping the
-- oldest entry of a queue of 32, and the queue is valid after it.
pub push_enqueues :
    {c : EchoCorrelator} {i : ℕ} (token can_id : ℕ)
    → IsValid c i
    → (pending (push c i token can_id) i ≡ push_queue (pending c i) (token, can_id))
      × IsValid (push c i token can_id) i
unfolding push skip
push_enqueues {c} {i} token can_id v =
    let n = get_or c.count i 0 in
    let inside : leb 16 i ≡ false = ground (arith, v.interface) in
    let len =
      length-tabulate (ring (get_or c.tokens i []) (get_or c.can_ids i []) (get_or c.head i 0)) 0
        n in
    elim (Bool-cases (n == 32)) [
      | inl full ↦
          let some_pending : 0 < n = ground arith in
          let v' = skip-IsValid v 1 (omega arith) in
          let room : get_or (skip v 1).count i 0 < 32 =
            rw (count_set v (get_or c.count i 0 - 1)) (omega (arith, v.count_in)) in
          rw (inside, full, len, full, drop_oldest-skip v some_pending)
            (
              store-pending v' token can_id room
                  ∙ ap (λ q. q ++ ((token, can_id) ∷ [])) (skip-pending v 1 (omega arith)),
              store-IsValid v' token can_id room,
            )
      | inr spare ↦
          let room : n < 32 = ground (arith, v.count_in) in
          rw (inside, spare, len, spare)
            (store-pending v token can_id room, store-IsValid v token can_id room)
    ]

search_miss :
    (c : EchoCorrelator) (i can_id left p : ℕ)
    → find_position c i can_id left p ≡ none
    → pop_first can_id
        (tabulate (ring (get_or c.tokens i []) (get_or c.can_ids i []) (get_or c.head i 0)) p left)
      ≡ none
unfolding find_position pop_first slot_at
search_miss c i can_id zero p h = refl
search_miss c i can_id (suc left) p h = ground (arith, search_miss c i can_id left (p + 1))

search_hit :
    (c : EchoCorrelator) (i can_id left p : ℕ) {q : ℕ}
    → find_position c i can_id left p ≡ some q
    → (p ≤ q)
      × (q < p + left)
      × (pop_first can_id (
            tabulate
              (ring (get_or c.tokens i []) (get_or c.can_ids i []) (get_or c.head i 0))
              p
              left)
          ≡ some (
            get_or (get_or c.tokens i []) ((get_or c.head i 0 + q) % 32) 0,
            tabulate
                (ring (get_or c.tokens i []) (get_or c.can_ids i []) (get_or c.head i 0))
                (q + 1)
                (p + left - (q + 1)),
          ))
unfolding find_position pop_first slot_at
search_hit c i can_id zero p h = cc
search_hit c i can_id (suc left) p {q} h =
    ground (arith, search_hit c i can_id left (p + 1) {q = q})

drop_through-skip :
    {c : EchoCorrelator} {i : ℕ} (v : IsValid c i) (q : ℕ)
    → q < get_or c.count i 0
    → drop_through c i q ≡ skip v (q + 1)
unfolding drop_through skip
drop_through-skip {c} {i} v q h = ground (arith, v.count_in)

-- For a valid queue of an interface, a match takes the oldest entry with the identifier, gives its
-- token, and drops it with all that are older; without such an entry there is no token and the
-- queue stays. The queue is valid after it.
pub pop_match_refines :
    {c : EchoCorrelator} {i : ℕ} (can_id : ℕ)
    → IsValid c i
    → ((pop_match c i can_id).0 ≡ Option.map (λ x. x.0) (pop_first can_id (pending c i)))
      × (pending (pop_match c i can_id).1 i
          ≡ (elim (pop_first can_id (pending c i)) [ none ↦ pending c i | some (t, rest) ↦ rest ]))
      × IsValid (pop_match c i can_id).1 i
unfolding pop_match slot_at
pop_match_refines {c} {i} can_id v =
    let n = get_or c.count i 0 in
    let inside : leb 16 i ≡ false = ground (arith, v.interface) in
    elim (Option-cases (find_position c i can_id n 0)) [
      | inl miss ↦ rw (inside, miss, search_miss c i can_id n 0 miss) (refl, refl, v)
      | inr (q, hit) ↦
          let (low, high, popped) = search_hit c i can_id n 0 hit in
          let through = drop_through-skip v q (omega arith) in
          rw (inside, hit, popped, through)
            (
              refl,
              skip-pending v (q + 1) (omega arith)
                  ∙ drop-tabulate
                      (ring (get_or c.tokens i []) (get_or c.can_ids i []) (get_or c.head i 0))
                      (q + 1) 0 n (q + 1) (0 + n - (q + 1)) (omega arith) (omega arith),
              skip-IsValid v (q + 1) (omega arith),
            )
    ]

-- For a valid queue of an interface, dropping the newest entry leaves the entries before it, and an
-- empty queue as it is.
drop_newest_refines :
    {c : EchoCorrelator} {i : ℕ}
    → IsValid c i
    → pending (drop_newest c i) i ≡ take (length (pending c i) - 1) (pending c i)
unfolding drop_newest
drop_newest_refines {c} {i} v =
    let n = get_or c.count i 0 in
    let f = ring (get_or c.tokens i []) (get_or c.can_ids i []) (get_or c.head i 0) in
    let inside : leb 16 i ≡ false = ground (arith, v.interface) in
    elim (Bool-cases (n == 0)) [
      | inl zero_count ↦
          rw (inside, zero_count, length-tabulate f 0 n) (sym (take_all n zero_count))
      | inr more ↦
          rw (inside, more, count_set v ((n + 256 - 1) % 256), length-tabulate f 0 n)
            (ap (tabulate f 0) (less n more (v.count_in))
              ∙ sym (take-tabulate f (n - 1) 0 n (omega arith)))
    ]
  where
    take_all :
        (n : ℕ)
        → (n == 0) ≡ true
        → take
            (n - 1)
            (tabulate (ring (get_or c.tokens i []) (get_or c.can_ids i []) (get_or c.head i 0)) 0 n)
          ≡ tabulate (ring (get_or c.tokens i []) (get_or c.can_ids i []) (get_or c.head i 0)) 0 n
    take_all zero e = refl
    take_all (suc n) e = absurd (ground arith)

    less : (n : ℕ) → (n == 0) ≡ false → n ≤ 32 → (n + 256 - 1) % 256 ≡ n - 1
    less n e l = ground arith

pub reset-IsValid : (i : ℕ) → i < 16 → IsValid reset i × (pending reset i ≡ [])
unfolding reset
reset-IsValid i h = (
  record {
    interface = h;
    all_tokens = refl;
    all_can_ids = refl;
    all_heads = refl;
    all_counts = refl;
    tokens_row = rw (rows i h) refl;
    can_ids_row = rw (rows i h) refl;
    head_in = rw (get_or-replicate {A = ℕ} 16 i 0) (omega arith);
    count_in = rw (get_or-replicate {A = ℕ} 16 i 0) (omega arith);
  },
  rw (get_or-replicate {A = ℕ} 16 i 0) refl,
)
  where
    rows : (i : ℕ) → i < 16 → get_or (replicate 16 (replicate 32 0)) i [] ≡ replicate {A = ℕ} 32 0
    rows i h = get_or-replicate_in 16 i (replicate 32 0) [] h
