-- ===== src/Hub/PeerDirectory/Displaced.antt =====
-- Which peer the hub displaces for a new one.
use can_hub.Base.{
  ℕ, ◌<◌, ◌≤◌, ◌≡◌, ◌≢◌, ◌⊎◌, inl, inr, true, false, Option, none, some, arith, length, get_or,
  best_from, best_from_sound, best_from-none, best_from_best, Option-cases, str_eq, str_eq_refl, [],
}
use can_hub.Hub.HubPeer.{HubPeer, blank, displacement}
use can_hub.Hub.PeerDirectory.{PeerDirectory, displaces_before, is_displaceable, find_displaceable}

-- A peer with a fingerprint that is neither local nor vouched for.
pub IsStranger : HubPeer → Type 0
IsStranger p = (p.local ≡ false) × (p.vouched ≡ false) × (p.fingerprint_hex ≢ [])

displacement-IsStranger : (p : HubPeer) → is_displaceable p ≡ true → IsStranger p
unfolding displacement IsStranger
displacement-IsStranger p h =
    (ground arith, ground arith, λ empty. ground (arith, str_eq_nil p empty))
  where
    str_eq_nil : (p : HubPeer) → p.fingerprint_hex ≡ [] → str_eq p.fingerprint_hex [] ≡ true
    str_eq_nil p e = rw e (str_eq_refl [])

-- What a search for a peer to displace may answer: nobody if no peer can be displaced; else a
-- stranger that can, whose displacement is the least there is, and who connected last among those.
pub data Displaced (d : PeerDirectory) : Option ℕ → Type 0 where
  nobody :
      ((j : ℕ) → j < length d.peers → is_displaceable (get_or d.peers j blank) ≡ false)
      → Displaced d none
  chosen :
      (i : ℕ)
      → i < length d.peers
      → is_displaceable (get_or d.peers i blank) ≡ true
      → IsStranger (get_or d.peers i blank)
      → ((j : ℕ)
          → j < length d.peers
          → is_displaceable (get_or d.peers j blank) ≡ true
          → (displacement (get_or d.peers i blank) < displacement (get_or d.peers j blank))
            ⊎ ((displacement (get_or d.peers i blank) ≡ displacement (get_or d.peers j blank))
                × ((get_or d.peers j blank).connected_at_us
                    ≤ (get_or d.peers i blank).connected_at_us)))
      → Displaced d (some i)

displaces_before_asym : (a b : HubPeer) → displaces_before a b ≡ true → displaces_before b a ≡ false
unfolding displaces_before
displaces_before_asym a b h = ground arith

displaces_before_trans :
    (a b c : HubPeer)
    → displaces_before a b ≡ false
    → displaces_before b c ≡ false
    → displaces_before a c ≡ false
unfolding displaces_before
displaces_before_trans a b c h k = ground arith

not_before :
    (p q : HubPeer)
    → displaces_before q p ≡ false
    → (displacement p < displacement q)
      ⊎ ((displacement p ≡ displacement q) × (q.connected_at_us ≤ p.connected_at_us))
unfolding displaces_before
not_before p q h = ground arith

-- The peer that the hub displaces is one that may be, of the lowest displacement, and the latest
-- connected of these; it is neither local nor vouched for. There is none only if no peer may be.
pub find_displaceable_lem : (d : PeerDirectory) → Displaced d (find_displaceable d)
unfolding find_displaceable
find_displaceable_lem d =
    let loop = best_from is_displaceable displaces_before d.peers 0 none in
    elim (Option-cases loop) [
      | inl empty ↦
          rw empty
            (nobody (best_from-none is_displaceable displaces_before d.peers 0 none blank empty).1)
      | inr ((i, p), found) ↦
          elim (best_from_sound is_displaceable displaces_before d.peers 0 none blank found) [
            | inl before ↦ cc
            | inr (k, index, low, there, passes) ↦
                let same : i ≡ k = omega arith in
                let may : is_displaceable (get_or d.peers k blank) ≡ true = rw there passes in
                let best =
                  best_from_best is_displaceable displaces_before displaces_before_asym
                    displaces_before_trans d.peers 0 none blank found in
                rw (found, same)
                  (chosen k low may (displacement-IsStranger (get_or d.peers k blank) may)
                    (λ j h can.
                      not_before (get_or d.peers k blank) (get_or d.peers j blank)
                        (rw there (best.1 j h can))))
          ]
    ]
