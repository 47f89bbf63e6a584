-- ===== src/Hub/RejectedPeers/Flood.antt =====
-- Which entry a new identity takes.
use mathlib.Core.Option
use can_hub.Base.{
  ℕ, zero, suc, ◌+◌, ◌≤◌, ◌<◌, ◌≡◌, ◌≢◌, ◌⊎◌, inl, inr, refl, ap, ◌∙◌, Bool, true, false, not, List,
  [], ◌∷◌, none, some, arith, if◌then◌else◌, length, length-set, get_or, get_or-set_self,
  get_or-set_ne, find_index, find_index_sound, find_index-none, best_from, best_from_sound,
  best_from_best, Option-cases, Bool-cases,
}
use can_hub.Hub.HubPeer.{is_empty}
use can_hub.Hub.RejectedPeers.{
  RejectedPeer, RejectedPeers, Rejection, blank, in_use, is_less_worth_keeping, claim_from,
  claim_entry, find_entry, new_entry, mark_entry, record_rejection,
}

abbrev free : RejectedPeer → Bool
free e = not (in_use e)

-- Past an entry in use.
claim_from_next :
    (e : RejectedPeer) (es : List RejectedPeer) (i : ℕ) (victim : ℕ × RejectedPeer)
    → in_use e ≡ true
    → claim_from (e ∷ es) i victim
      ≡ claim_from es (i + 1) (if is_less_worth_keeping e victim.1 then (i, e) else victim)
unfolding claim_from
claim_from_next e es i victim busy =
    ap
      (λ b.
        if not b
        then i
        else claim_from es (i + 1) (if is_less_worth_keeping e victim.1 then (i, e) else victim))
      busy

claim_from-free :
    (es : List RejectedPeer) (i : ℕ) (victim : ℕ × RejectedPeer) (j : ℕ)
    → find_index free es ≡ some j
    → claim_from es i victim ≡ i + j
unfolding claim_from find_index
claim_from-free [] i victim j h = cc
claim_from-free (e ∷ es) i victim zero h = elim (Bool-cases (in_use e)) [
  | inl busy ↦ ground (arith, busy)
  | inr idle ↦ rw idle (omega arith)
]
claim_from-free (e ∷ es) i victim (suc j) h = elim (Bool-cases (in_use e)) [
  | inl busy ↦ elim (Option-cases (find_index free es)) [
    | inl miss ↦ absurd (ground (arith, busy, miss))
    | inr (k, hit) ↦
        let next = (if is_less_worth_keeping e victim.1 then (i, e) else victim) in
        claim_from_next e es i victim busy
        ∙ claim_from-free es (i + 1) next k hit
        ∙ ground (arith, busy, hit)
  ]
  | inr idle ↦ absurd (ground (arith, idle))
]

claim_from-best_from :
    (es : List RejectedPeer) (i : ℕ) (victim : ℕ × RejectedPeer)
    → find_index free es ≡ none
    → Option.map (λ c. c.0) (best_from (λ _. true) is_less_worth_keeping es i (some victim))
      ≡ some (claim_from es i victim)
unfolding claim_from find_index best_from
claim_from-best_from [] i victim h = refl
claim_from-best_from (e ∷ es) i victim h = elim (Bool-cases (in_use e)) [
  | inr idle ↦ absurd (ground (arith, idle))
  | inl busy ↦ elim (Option-cases (find_index free es)) [
    | inr (k, hit) ↦ absurd (ground (arith, busy, hit))
    | inl miss ↦ elim (Bool-cases (is_less_worth_keeping e victim.1)) [
      | inl less ↦
          rw (claim_from_next e es i victim busy, less)
            (claim_from-best_from es (i + 1) (i, e) miss)
      | inr more ↦
          rw (claim_from_next e es i victim busy, more)
            (claim_from-best_from es (i + 1) victim miss)
    ]
  ]
]

less_asym :
    (a b : RejectedPeer) → is_less_worth_keeping a b ≡ true → is_less_worth_keeping b a ≡ false
unfolding is_less_worth_keeping
less_asym a b h = ground arith

less_trans :
    (a b c : RejectedPeer)
    → is_less_worth_keeping a b ≡ false
    → is_less_worth_keeping b c ≡ false
    → is_less_worth_keeping a c ≡ false
unfolding is_less_worth_keeping
less_trans a b c h k = ground arith

-- The entry claimed is free, or all are in use and none is less worth keeping.
pub claim_entry_lem :
    (t : RejectedPeers)
    → 0 < length t.entries
    → (claim_entry t < length t.entries)
      × (((get_or t.entries (claim_entry t) blank).in_use ≡ false)
          ⊎ ((j : ℕ)
              → j < length t.entries
              → ((get_or t.entries j blank).in_use ≡ true)
                × (is_less_worth_keeping
                      (get_or t.entries j blank)
                      (get_or t.entries (claim_entry t) blank)
                    ≡ false)))
unfolding claim_entry
claim_entry_lem t some_entry =
    let first = get_or t.entries 0 blank in
    elim (Option-cases (find_index free t.entries)) [
      | inr (j, hit) ↦
          let (low, idle) = find_index_sound free t.entries blank hit in
          rw (claim_from-free t.entries 0 (0, first) j hit)
            (omega arith, inl (ground (arith, idle)))
      | inl full ↦
          let claimed = claim_from-best_from t.entries 0 (0, first) full in
          let busy : (j : ℕ) → j < length t.entries → (get_or t.entries j blank).in_use ≡ true =
            λ j h. ground (arith, find_index-none free t.entries blank j full h) in
          elim (Option-cases
            (best_from (λ _. true) is_less_worth_keeping t.entries 0 (some (0, first)))) [
              | inl empty ↦ absurd (ground (arith, empty))
              | inr ((i, e), found) ↦
                  let best =
                    best_from_best (λ _. true) is_less_worth_keeping less_asym less_trans t.entries
                      0 (some (0, first)) blank found in
                  let at : claim_from t.entries 0 (0, first) ≡ i = ground (arith, found) in
                  let here : (i < length t.entries) × (get_or t.entries i blank ≡ e) =
                    (elim (best_from_sound (λ _. true) is_less_worth_keeping t.entries 0
                      (some (0, first)) blank found) [
                        | inl same ↦ ground (arith, same)
                        | inr (k, index, low, there, passes) ↦
                            let same : i ≡ k = omega arith in rw same (low, there)
                      ]) in
                  rw (at, here.1) (here.0, inr (λ j h. (busy j h, best.1 j h refl)))
            ]
    ]

-- Another entry is free or has fewer attempts.
unfoldable pub HasWorse : RejectedPeers → ℕ → Type 0
HasWorse t i =
    (j : ℕ) × (j < 16)
    × (j ≢ i)
    × (((get_or t.entries j blank).in_use ≡ false)
        ⊎ ((get_or t.entries j blank).attempts < (get_or t.entries i blank).attempts))

claimed_other :
    (t : RejectedPeers) (i : ℕ)
    → length t.entries ≡ 16
    → (get_or t.entries i blank).in_use ≡ true
    → HasWorse t i
    → claim_entry t ≢ i
unfolding HasWorse is_less_worth_keeping
claimed_other t i sized live (j, low, other, worse) same =
    elim (claim_entry_lem t (omega arith)).1 [
      | inl idle ↦ absurd (ground (arith, idle, same))
      | inr full ↦
          let (busy, kept) = full j (omega arith) in
          absurd (ground (arith, busy, same, worse, (rw same at kept)))
    ]

-- One identity that is new leaves the entry, and its own is free or has fewer attempts.
one_shot_kept :
    (r : Rejection) (t : RejectedPeers) (i : ℕ)
    → length t.entries ≡ 16
    → i < 16
    → (get_or t.entries i blank).in_use ≡ true
    → 2 ≤ (get_or t.entries i blank).attempts
    → HasWorse t i
    → find_entry t r.peer ≡ none
    → (length (record_rejection t r).entries ≡ 16)
      × (get_or (record_rejection t r).entries i blank ≡ get_or t.entries i blank)
      × HasWorse (record_rejection t r) i
unfolding record_rejection HasWorse mark_entry new_entry
one_shot_kept r t i sized low live twice worse fresh =
    elim (Bool-cases (is_empty r.peer.fingerprint_hex)) [
      | inl nameless ↦ rw (nameless, record_rejection) (sized, refl, worse)
      | inr known ↦
          let k = claim_entry t in
          let e = mark_entry (new_entry r.peer) r in
          let other = claimed_other t i sized live worse in
          let inside = (claim_entry_lem t (omega arith)).0 in
          let kept = get_or-set_ne t.entries k i e blank other in
          rw (known, fresh, record_rejection)
            (
              length-set t.entries k e ∙ sized,
              kept,
              (
                k,
                omega arith,
                other,
                inr (rw (get_or-set_self t.entries k e blank inside, kept) (omega arith)),
              ),
            )
    ]

abbrev pub reject_all : RejectedPeers → List Rejection → RejectedPeers
reject_all t [] = t
reject_all t (r ∷ rest) = reject_all (record_rejection t r) rest

-- Each identity is new to the table when it is rejected.
unfoldable pub AreOneShot : RejectedPeers → List Rejection → Type 0
AreOneShot t [] = Unit
AreOneShot t (r ∷ rest) = (find_entry t r.peer ≡ none) × AreOneShot (record_rejection t r) rest

-- However many identities knock once, the entry of a device that has knocked twice or more stays as
-- it is, if at the start another entry is free or has fewer attempts.
pub flood_outlived :
    (flood : List Rejection) (t : RejectedPeers) (i : ℕ)
    → length t.entries ≡ 16
    → i < 16
    → (get_or t.entries i blank).in_use ≡ true
    → 2 ≤ (get_or t.entries i blank).attempts
    → HasWorse t i
    → AreOneShot t flood
    → get_or (reject_all t flood).entries i blank ≡ get_or t.entries i blank
unfolding AreOneShot
flood_outlived [] t i sized low live twice worse shots = refl
flood_outlived (r ∷ rest) t i sized low live twice worse (fresh, shots) =
    let (new_sized, kept, new_worse) = one_shot_kept r t i sized low live twice worse fresh in
    flood_outlived rest (record_rejection t r) i new_sized low (rw kept live) (rw kept twice)
      new_worse shots
    ∙ kept
