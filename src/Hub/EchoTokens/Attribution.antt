-- ===== src/Hub/EchoTokens/Attribution.antt =====
-- The invariant of the token table, and the client that an echo is attributed to.
use can_hub.Base.{
  ℕ, zero, suc, ◌+◌, ◌-◌, ◌*◌, ◌%◌, ◌≤◌, ◌<◌, ◌≡◌, ◌≢◌, refl, ◌∙◌, inl, inr, false, none, some,
  arith, ◌==◌, length, get_or, set, find_index, bit_and, count, count-set, count-pos,
  count-replicate-false, count-zero_of_none, find_index_sound, length-set, get_or-set_self,
  get_or-set_ne, Option-cases,
}
use can_hub.Hub.EchoTokens.{
  EchoTokens, reset, find_owner_index, claim_from, claim_free_index, issue, originator,
}

pub record IsValid (s : EchoTokens) : Type 0 where
  pub sized : length s.owner_peer_ids ≡ 63
  pub next_in : s.next_index < 63
  pub distinct : (client : ℕ) → client ≢ 0 → count (λ owner. owner == client) s.owner_peer_ids ≤ 1

pub reset-IsValid : IsValid reset
unfolding reset
reset-IsValid = record {
  sized = refl;
  next_in = omega arith;
  distinct = λ c ne. omega (arith, count-replicate-false (λ owner. owner == c) 63 0 (ground arith));
}

claim_from_sound :
    (s : EchoTokens) (left i : ℕ) {j : ℕ}
    → claim_from s left i ≡ some j
    → (j < 63) × (get_or s.owner_peer_ids j 0 ≡ 0)
unfolding claim_from
claim_from_sound s zero i h = cc
claim_from_sound s (suc left) i {j} h = ground (arith, claim_from_sound s left (i + 1) {j = j})

claim_from-none :
    (s : EchoTokens) (left i k : ℕ)
    → claim_from s left i ≡ none
    → i ≤ k
    → k < i + left
    → get_or s.owner_peer_ids ((s.next_index + k) % 63) 0 ≢ 0
unfolding claim_from
claim_from-none s zero i k h l m e = absurd (omega arith)
claim_from-none s (suc left) i k h l m e = ground (arith, claim_from-none s left (i + 1) k)

claim_none : (s : EchoTokens) → claim_from s 63 0 ≡ none → claim_free_index s ≡ (none, s)
unfolding claim_free_index
claim_none s e = rw (e, claim_free_index)

claim_some :
    (s : EchoTokens) (i : ℕ)
    → claim_from s 63 0 ≡ some i
    → claim_free_index s ≡ (some i, record s { next_index = (i + 1) % 63 })
unfolding claim_free_index
claim_some s i e = rw (e, claim_free_index)

-- What `EchoTokens_Issue` does on each way out.
data Issued (s : EchoTokens) (client : ℕ) : ℕ × EchoTokens → Type 0 where
  known : (i : ℕ) → i < 63 → get_or s.owner_peer_ids i 0 ≡ client → Issued s client (i + 1, s)
  claimed :
      (i : ℕ)
      → i < 63
      → get_or s.owner_peer_ids i 0 ≡ 0
      → count (λ owner. owner == client) s.owner_peer_ids ≡ 0
      → Issued s client (
        i + 1,
        record { owner_peer_ids = set s.owner_peer_ids i client; next_index = (i + 1) % 63 },
      )
  refused :
      ((k : ℕ) → k < 63 → get_or s.owner_peer_ids k 0 ≢ 0)
      → count (λ owner. owner == client) s.owner_peer_ids ≡ 0
      → Issued s client (0, s)

issue-Issued :
    (s : EchoTokens) (client : ℕ) → client ≢ 0 → IsValid s → Issued s client (issue s client)
unfolding issue find_owner_index
issue-Issued s client ne v =
    let real : (client == 0) ≡ false = ground arith in
    elim (Option-cases (find_index (λ owner. owner == client) s.owner_peer_ids)) [
      | inr (i, hit) ↦
          let (inside, mine) = find_index_sound (λ owner. owner == client) s.owner_peer_ids 0 hit in
          let small : (i + 1) % 256 ≡ i + 1 = omega (arith, v.sized) in
          rw (real, hit, small) (known i (omega (arith, v.sized)) (ground (arith, mine)))
      | inl new ↦
          let none_yet = count-zero_of_none (λ owner. owner == client) s.owner_peer_ids new in
          elim (Option-cases (claim_from s 63 0)) [
            | inl full ↦
                rw (real, new, claim_none s full)
                  (refused
                    (λ k l.
                      let spot : (s.next_index + (k + 63 - s.next_index) % 63) % 63 ≡ k =
                        omega (arith, v.next_in) in
                      rw spot at (
                        claim_from-none s 63 0 ((k + 63 - s.next_index) % 63) full (omega arith)
                          (omega arith)))
                    none_yet)
            | inr (i, free) ↦
                let (inside, empty) = claim_from_sound s 63 0 free in
                let small : (i + 1) % 256 ≡ i + 1 = omega arith in
                rw (real, new, claim_some s i free, small) (claimed i inside empty none_yet)
          ]
    ]

Issued-IsValid :
    {s : EchoTokens} {client : ℕ} {r : ℕ × EchoTokens}
    → client ≢ 0
    → IsValid s
    → Issued s client r
    → IsValid r.1
Issued-IsValid ne v (known i inside mine) = v
Issued-IsValid {s} {client} ne v (claimed i inside empty new) = record {
  sized = length-set s.owner_peer_ids i client ∙ v.sized;
  next_in = omega arith;
  distinct = λ c cne. ground (
    arith,
    new,
    empty,
    v.distinct c cne,
    v.sized,
    count-set (λ owner. owner == c) s.owner_peer_ids i client 0,
  );
}
Issued-IsValid ne v (refused full new) = v

-- Route flags that carry a token and the echo bit.
abbrev IsEchoOf : ℕ → ℕ → Type 0
IsEchoOf route_flags token = (bit_and route_flags 0xFC ≡ token * 4) × (bit_and route_flags 2 ≢ 0)

Issued-owner :
    {s : EchoTokens} {client : ℕ} {r : ℕ × EchoTokens}
    → IsValid s
    → Issued s client r
    → r.0 ≢ 0
    → (r.0 ≤ 63) × (get_or r.1.owner_peer_ids (r.0 - 1) 0 ≡ client)
Issued-owner {s} v (known i inside mine) h =
    let back : i + 1 - 1 ≡ i = omega arith in (omega arith, rw back mine)
Issued-owner {s} {client} v (claimed i inside empty new) h =
    let back : i + 1 - 1 ≡ i = omega arith in
    (omega arith, rw back (get_or-set_self s.owner_peer_ids i client 0 (omega (arith, v.sized))))
Issued-owner v (refused full new) h = absurd (h refl)

Issued-kept :
    {s : EchoTokens} {client : ℕ} {r : ℕ × EchoTokens} (k : ℕ)
    → Issued s client r
    → get_or s.owner_peer_ids k 0 ≢ 0
    → get_or r.1.owner_peer_ids k 0 ≡ get_or s.owner_peer_ids k 0
Issued-kept k (known i inside mine) h = refl
Issued-kept {s} {client} k (claimed i inside empty new) h =
    get_or-set_ne s.owner_peer_ids i k client 0 (λ e. h (rw (← e) empty))
Issued-kept k (refused full new) h = refl

module _ {s : EchoTokens} (client : ℕ) (ne : client ≢ 0) (v : IsValid s) where
  -- For a valid table and a client that is not 0, if a token is issued, the table stays valid, and
  -- an echo whose route flags carry the token is attributed to the client.
  pub issue-originator :
      (route_flags : ℕ)
      → (issue s client).0 ≢ 0
      → IsEchoOf route_flags (issue s client).0
      → IsValid (issue s client).1 × (originator (issue s client).1 route_flags ≡ client)
  unfolding originator
  issue-originator route_flags given echo =
      let done = issue-Issued s client ne v in
      let (small, owner) = Issued-owner v done given in
      (Issued-IsValid ne v done, ground (arith, owner))

  -- For a valid table and a client that is not 0, after an issue every token that was in use still
  -- names its client.
  issue_keeps :
      (k : ℕ)
      → get_or s.owner_peer_ids k 0 ≢ 0
      → get_or (issue s client).1.owner_peer_ids k 0 ≡ get_or s.owner_peer_ids k 0
  issue_keeps k h = Issued-kept k (issue-Issued s client ne v) h

  -- For a valid table and a client that is not 0, if no token is issued then each of the 63 tokens
  -- names another client.
  pub issue_refuses :
      (k : ℕ)
      → (issue s client).0 ≡ 0
      → k < 63
      → (get_or s.owner_peer_ids k 0 ≢ 0) × (get_or s.owner_peer_ids k 0 ≢ client)
  issue_refuses k h inside = refused_full (issue-Issued s client ne v) h
    where
      refused_full :
          {r : ℕ × EchoTokens}
          → Issued s client r
          → r.0 ≡ 0
          → (get_or s.owner_peer_ids k 0 ≢ 0) × (get_or s.owner_peer_ids k 0 ≢ client)
      refused_full (known i l mine) e = absurd (omega arith)
      refused_full (claimed i l empty new) e = absurd (omega arith)
      refused_full (refused full new) e = (
        full k inside,
        λ same.
            ground (arith, new, v.sized, count-pos (λ owner. owner == client) s.owner_peer_ids k 0),
      )
