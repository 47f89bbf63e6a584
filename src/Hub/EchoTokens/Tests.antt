-- ===== src/Hub/EchoTokens/Tests.antt =====
-- A table where clients 11 and 12 hold tokens 1 and 2.
use native.Mathlib.Nat.{le_trans}
use can_hub.Base.{
  Bool, true, false, ℕ, ◌+◌, ◌≡◌, ◌≢◌, refl, ◌∷◌, zero, suc, ◌≤◌, leb, tabulate, arith, ◌==◌,
  if◌then◌else◌, get_or, replicate, count, count-replicate-false, find_index,
}
use can_hub.Hub.EchoTokens.{
  EchoTokens, issue, originator, release_client, find_owner_index, claim_from, claim_free_index,
}
use can_hub.Hub.EchoTokens.Attribution.{IsValid, issue-originator, issue_refuses}
use can_hub.Hub.EchoTokens.Release.{release_client_lem}

abbrev held : EchoTokens
held = record { owner_peer_ids = 11 ∷ 12 ∷ replicate 61 0; next_index = 2 }

held-IsValid : IsValid held
held-IsValid = record {
  sized = refl;
  next_in = omega arith;
  distinct = λ c ne. ground (arith, count-replicate-false (λ owner. owner == c) 61 0);
}

issue-originator_example : IsValid (issue held 13).1 × (originator (issue held 13).1 14 ≡ 13)
unfolding issue find_owner_index find_index claim_free_index claim_from
issue-originator_example =
    issue-originator 13 (omega arith) held-IsValid 14 (omega arith) (omega arith)

release_client_lem_example :
    IsValid (release_client held 12)
    × (originator (release_client held 12) 10
        ≡ (if originator held 10 == 12 then 0 else originator held 10))
release_client_lem_example = release_client_lem 12 (omega arith) held-IsValid 10

-- All tokens out, to clients 100 to 162.
abbrev full : EchoTokens
full = record { owner_peer_ids = tabulate (λ p. p + 100) 0 63; next_index = 0 }

rising :
    (c p n : ℕ)
    → count (λ owner. owner == c) (tabulate (λ q. q + 100) p n) ≤ (if leb (p + 100) c then 1 else 0)
rising c p zero = omega arith
rising c p (suc n) = ground (arith, rising c (p + 1) n)

bit-le : (b : Bool) → (if b then 1 else 0) ≤ 1
bit-le true = omega arith
bit-le false = omega arith

full-IsValid : IsValid full
full-IsValid = record {
  sized = refl;
  next_in = omega arith;
  distinct = λ c ne. le_trans (rising c 0 63) (bit-le (leb (0 + 100) c));
}

issue_refuses_example : (get_or full.owner_peer_ids 5 0 ≢ 0) × (get_or full.owner_peer_ids 5 0 ≢ 9)
unfolding issue find_owner_index find_index claim_free_index claim_from
issue_refuses_example = issue_refuses 9 (omega arith) full-IsValid 5 refl (omega arith)
