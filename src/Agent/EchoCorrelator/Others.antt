-- ===== src/Agent/EchoCorrelator/Others.antt =====
-- An operation on one interface's queue and the queues of the others.
use can_hub.Base.{
  ℕ, ◌+◌, ◌-◌, ◌%◌, ◌≡◌, ◌≢◌, refl, [], arith, get_or, get_or-set_ne, inl, inr, Option-cases,
}
use can_hub.Agent.EchoCorrelator.{
  EchoCorrelator, drop_oldest, store, push, drop_newest, find_position, drop_through, pop_match,
}
use can_hub.Agent.EchoCorrelator.Refine.{pending}

-- The four rows of an interface are as they were.
abbrev SameAt : EchoCorrelator → EchoCorrelator → ℕ → Type 0
SameAt c c' j =
    (get_or c'.tokens j [] ≡ get_or c.tokens j [])
    × (get_or c'.can_ids j [] ≡ get_or c.can_ids j [])
    × (get_or c'.head j 0 ≡ get_or c.head j 0)
    × (get_or c'.count j 0 ≡ get_or c.count j 0)

pending_same : (c c' : EchoCorrelator) (j : ℕ) → SameAt c c' j → pending c' j ≡ pending c j
pending_same c c' j s = rw (s.0, s.1, s.2, s.3)

module _ (c : EchoCorrelator) (i j : ℕ) (ne : i ≢ j) where
  drop_oldest-SameAt : SameAt c (drop_oldest c i) j
  unfolding drop_oldest
  drop_oldest-SameAt =
      (refl, refl, get_or-set_ne c.head i j _ 0 ne, get_or-set_ne c.count i j _ 0 ne)

  store-SameAt : (token can_id : ℕ) → SameAt c (store c i token can_id) j
  unfolding store
  store-SameAt token can_id = (
    get_or-set_ne c.tokens i j _ [] ne,
    get_or-set_ne c.can_ids i j _ [] ne,
    refl,
    get_or-set_ne c.count i j _ 0 ne,
  )

  drop_through-SameAt : (q : ℕ) → SameAt c (drop_through c i q) j
  unfolding drop_through
  drop_through-SameAt q =
      (refl, refl, get_or-set_ne c.head i j _ 0 ne, get_or-set_ne c.count i j _ 0 ne)

  drop_newest-SameAt : SameAt c (drop_newest c i) j
  unfolding drop_newest
  drop_newest-SameAt =
      ground (arith, get_or-set_ne c.count i j ((get_or c.count i 0 + 256 - 1) % 256) 0 ne)

push-SameAt :
    (c : EchoCorrelator) (i j token can_id : ℕ) → i ≢ j → SameAt c (push c i token can_id) j
unfolding push
push-SameAt c i j token can_id ne = ground (
  arith,
  drop_oldest-SameAt c i j ne,
  store-SameAt c i j ne token can_id,
  store-SameAt (drop_oldest c i) i j ne token can_id,
)

pop_match-SameAt :
    (c : EchoCorrelator) (i j can_id : ℕ) → i ≢ j → SameAt c (pop_match c i can_id).1 j
unfolding pop_match
pop_match-SameAt c i j can_id ne =
    elim (Option-cases (find_position c i can_id (get_or c.count i 0) 0)) [
      | inl miss ↦ rw (miss, pop_match) (ground arith)
      | inr (q, hit) ↦ ground (arith, hit, drop_through-SameAt c i j ne q)
    ]

-- A push, a drop of the newest entry and a match on one interface leave the queue of every other
-- interface as it was.
others_kept :
    (c : EchoCorrelator) (i j token can_id : ℕ)
    → i ≢ j
    → (pending (push c i token can_id) j ≡ pending c j)
      × (pending (drop_newest c i) j ≡ pending c j)
      × (pending (pop_match c i can_id).1 j ≡ pending c j)
others_kept c i j token can_id ne = (
  pending_same c (push c i token can_id) j (push-SameAt c i j token can_id ne),
  pending_same c (drop_newest c i) j (drop_newest-SameAt c i j ne),
  pending_same c (pop_match c i can_id).1 j (pop_match-SameAt c i j can_id ne),
)
