-- ===== src/Hub/EchoTokens/Release.antt =====
-- Releasing a client's tokens.
use can_hub.Base.{
  ℕ, ◌-◌, ◌/◌, ◌<◌, ◌≡◌, ◌≢◌, ◌∙◌, inl, inr, none, arith, ◌==◌, if◌then◌else◌, get_or, set,
  find_index, bit_and, count-set, count_unique, find_index_sound, find_index-none, length-set,
  get_or-set_self, get_or-set_ne, Option-cases,
}
use can_hub.Hub.EchoTokens.{EchoTokens, find_owner_index, originator, release_client}
use can_hub.Hub.EchoTokens.Attribution.{IsValid}

module _ {s : EchoTokens} (client : ℕ) (ne : client ≢ 0) (v : IsValid s) where
  released_owner :
      (i k : ℕ)
      → i < 63
      → k < 63
      → get_or s.owner_peer_ids i 0 ≡ client
      → get_or (set s.owner_peer_ids i 0) k 0
        ≡ (if get_or s.owner_peer_ids k 0 == client then 0 else get_or s.owner_peer_ids k 0)
  released_owner i k li lk mine = ground (
    arith,
    ne,
    v.sized,
    v.distinct client ne,
    get_or-set_self s.owner_peer_ids i 0 0,
    get_or-set_ne s.owner_peer_ids i k 0 0,
    count_unique (λ owner. owner == client) s.owner_peer_ids 0 i k,
  )

  released-IsValid :
      (i : ℕ) → i < 63 → IsValid (record s { owner_peer_ids = set s.owner_peer_ids i 0 })
  released-IsValid i li = record {
    sized = length-set s.owner_peer_ids i 0 ∙ v.sized;
    next_in = v.next_in;
    distinct = λ c cne.
        ground (
          arith,
          v.distinct c cne,
          v.sized,
          count-set (λ owner. owner == c) s.owner_peer_ids i 0 0,
        );
  }

  -- For a valid table and a client that is not 0, releasing the client keeps the table valid, and
  -- attributes no route flags to it any more; what is attributed to another client, or to none,
  -- stays so.
  pub release_client_lem :
      (route_flags : ℕ)
      → IsValid (release_client s client)
        × (originator (release_client s client) route_flags
            ≡ (if originator s route_flags == client then 0 else originator s route_flags))
  unfolding release_client originator find_owner_index
  release_client_lem route_flags =
      elim (Option-cases (find_index (λ owner. owner == client) s.owner_peer_ids)) [
        | inl absent ↦
            rw (absent, release_client)
              (v, ground (arith, ne, v.sized, missing ((bit_and route_flags 0xFC / 4) - 1) absent))
        | inr (i, hit) ↦
            let (inside, mine) =
              find_index_sound (λ owner. owner == client) s.owner_peer_ids 0 hit in
            let li : i < 63 = omega (arith, v.sized) in
            let owned : get_or s.owner_peer_ids i 0 ≡ client = ground (arith, mine) in
            rw (hit, release_client)
              (
                released-IsValid i li,
                ground (arith, ne, released_owner i ((bit_and route_flags 0xFC / 4) - 1) li, owned),
              )
      ]
    where
      missing :
          (k : ℕ)
          → find_index (λ owner. owner == client) s.owner_peer_ids ≡ none
          → k < 63
          → get_or s.owner_peer_ids k 0 ≢ client
      missing k absent l e =
          ground
            (arith, find_index-none (λ owner. owner == client) s.owner_peer_ids 0 k absent, v.sized)
