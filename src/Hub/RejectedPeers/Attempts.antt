-- ===== src/Hub/RejectedPeers/Attempts.antt =====
-- The table as a map from identities to their attempts.
use can_hub.Base.{
  ℕ, ◌+◌, ◌%◌, ◌^◌, ◌≤◌, ◌<◌, ◌≡◌, inl, inr, refl, ap, ◌∙◌, true, false, Option, none, some, arith,
  if◌then◌else◌, length, length-set, get_or, set, Text, str_eq_refl, str_eq_sound, find_index,
  find_index_sound, count, count-set, count-zero_of_none, count-replicate-false, Option-cases,
  find-find_index, find, find-set-only, find-set-hit, find-none_of_count,
}
use can_hub.Hub.HubPeer.{HubPeer, is_empty}
use can_hub.Hub.RejectedPeers.{
  RejectedPeer, RejectedPeers, Rejection, blank, has_identity, reset, claim_entry, find_entry,
  new_entry, mark_entry, record_rejection, forget,
}
use can_hub.Hub.RejectedPeers.Flood.{claim_entry_lem}

-- 16 entries, and one at most for a role and a fingerprint.
pub record IsValid (t : RejectedPeers) : Type 0 where
  pub sized : length t.entries ≡ 16
  pub identities :
      (role : ℕ) (fingerprint_hex : Text) → count (has_identity role fingerprint_hex) t.entries ≤ 1

pub reset-IsValid : IsValid reset
unfolding reset
reset-IsValid = record {
  sized = refl;
  identities = λ role fp. omega (arith, count-replicate-false (has_identity role fp) 16 blank refl);
}

-- An entry is written for an identity that only it may have had before.
write-IsValid :
    {t : RejectedPeers}
    → IsValid t
    → (k : ℕ) (e : RejectedPeer) → k < 16
    → ((role : ℕ) (fp : Text)
        → has_identity role fp e ≡ true
        → count (has_identity role fp) t.entries
          ≤ (if has_identity role fp (get_or t.entries k blank) then 1 else 0))
    → IsValid (record { entries = set t.entries k e })
write-IsValid {t} v k e low alone = record {
  sized = length-set t.entries k e ∙ v.sized;
  identities = λ role fp. ground (
    arith,
    v.sized,
    v.identities role fp,
    alone role fp,
    count-set (has_identity role fp) t.entries k e blank,
  );
}

-- How often the hub has turned an identity away since it came into the table.
unfoldable pub attempts_of : RejectedPeers → HubPeer → ℕ
attempts_of t p = elim (find (has_identity p.role p.fingerprint_hex) t.entries) [
  | none ↦ 0
  | some e ↦ e.attempts
]

attempts_of_found :
    (t : RejectedPeers) (p : HubPeer) (e : RejectedPeer)
    → find (has_identity p.role p.fingerprint_hex) t.entries ≡ some e
    → attempts_of t p ≡ e.attempts
unfolding attempts_of
attempts_of_found t p e h = ap (λ o. elim o [ none ↦ 0 | some x ↦ x.attempts ]) h

attempts_of-none :
    (t : RejectedPeers) (p : HubPeer)
    → find (has_identity p.role p.fingerprint_hex) t.entries ≡ none
    → attempts_of t p ≡ 0
unfolding attempts_of
attempts_of-none t p h =
    ap (λ (o : Option RejectedPeer). elim o [ none ↦ 0 | some x ↦ x.attempts ]) h

-- A rejection of a peer with a fingerprint keeps the table valid and adds one to its attempts.
pub record_rejection_counted :
    (t : RejectedPeers) (r : Rejection)
    → IsValid t
    → is_empty r.peer.fingerprint_hex ≡ false
    → IsValid (record_rejection t r)
      × (attempts_of (record_rejection t r) r.peer ≡ (attempts_of t r.peer + 1) % 2 ^ 32)
unfolding record_rejection attempts_of mark_entry new_entry find_entry
record_rejection_counted t r v known =
    let test = has_identity r.peer.role r.peer.fingerprint_hex in
    elim (Option-cases (find_index test t.entries)) [
      | inl fresh ↦
          let k = claim_entry t in
          let e = mark_entry (new_entry r.peer) r in
          let none_there = count-zero_of_none test t.entries fresh in
          let inside = (claim_entry_lem t (omega (arith, v.sized))).0 in
          let own : test e ≡ true = ground (arith, str_eq_refl r.peer.fingerprint_hex) in
          let after =
            attempts_of_found (record { entries = set t.entries k e }) r.peer e
              (find-set-hit test t.entries k e inside none_there own) in
          let before = attempts_of-none t r.peer (find-none_of_count test t.entries none_there) in
          rw (known, fresh, record_rejection)
            (
              write-IsValid v k e (omega (arith, v.sized)) (λ role fp mine.
                  let same_role : r.peer.role ≡ role = ground arith in
                  let same_text : r.peer.fingerprint_hex ≡ fp =
                    str_eq_sound r.peer.fingerprint_hex fp (ground arith) in
                  rw (← same_role, ← same_text) (omega (arith, none_there))),
              omega (arith, after, before),
            )
      | inr (k, hit) ↦
          let (low, there) = find_index_sound test t.entries blank hit in
          let old = get_or t.entries k blank in
          let e = mark_entry old r in
          let only = v.identities r.peer.role r.peer.fingerprint_hex in
          let after =
            attempts_of_found (record { entries = set t.entries k e }) r.peer e
              (find-set-only test t.entries k e blank low (ground (arith, only)) (ground arith)) in
          let before =
            attempts_of_found t r.peer old (find-find_index test t.entries blank ∙ rw hit refl) in
          rw (known, hit, record_rejection)
            (
              write-IsValid v k e (omega (arith, v.sized))
                  (λ role fp mine. ground (arith, v.identities role fp)),
              omega (arith, after, before),
            )
    ]

-- A forgotten identity has no attempts any more; the table stays valid.
forget_lem :
    (t : RejectedPeers) (p : HubPeer)
    → IsValid t
    → IsValid (forget t p) × (attempts_of (forget t p) p ≡ 0)
unfolding forget attempts_of find_entry
forget_lem t p v =
    let test = has_identity p.role p.fingerprint_hex in
    elim (Option-cases (find_index test t.entries)) [
      | inl miss ↦
          rw (miss, forget)
            (v, attempts_of-none t p (find-find_index test t.entries blank ∙ rw miss refl))
      | inr (k, hit) ↦
          let (low, there) = find_index_sound test t.entries blank hit in
          let gone : count test (set t.entries k blank) ≡ 0 = ground (
            arith,
            v.identities p.role p.fingerprint_hex,
            count-set test t.entries k blank blank,
          ) in
          let cleared : RejectedPeers = record { entries = set t.entries k blank } in
          rw (hit, forget)
            (
              write-IsValid v k blank (omega (arith, v.sized)) (λ role fp mine. cc),
              attempts_of-none cleared p (find-none_of_count test cleared.entries gone),
            )
    ]
