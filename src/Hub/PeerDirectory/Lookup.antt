-- ===== src/Hub/PeerDirectory/Lookup.antt =====
-- The directory as a map from peer ids to slots.
use can_hub.Base.{
  ℕ, zero, suc, ◌<◌, ◌≤◌, ◌≡◌, ◌↔◌, inl, inr, refl, sym, ap, ◌∙◌, Bool, true, false, not, List, [],
  ◌∷◌, none, some, arith, ◌==◌, if◌then◌else◌, length, get_or, set, length-set, get_or-set_self,
  get_or-set_ne, get_or-replicate, find_index, find_index_sound, count, count-set,
  count-zero_of_none, full_of_none, count-le-length, count-replicate-false, find_index-set-hit,
  find_index-set-false, set-set, set-get_or, find_index-none_of_count, Option-cases, Bool-cases,
}
use can_hub.Hub.HubPeer.{HubPeer, blank}
use can_hub.Hub.PeerDirectory.{
  PeerDirectory, reset, new_peer, in_use, has_id, allocate, release, find_peer, count_peers,
  is_full,
}

-- 512 slots of which the free ones are clear, and no two live peers with one id.
pub record IsValid (d : PeerDirectory) : Type 0 where
  pub sized : length d.peers ≡ 512
  pub cleared :
      (i : ℕ) → i < 512 → (get_or d.peers i blank).in_use ≡ false → get_or d.peers i blank ≡ blank
  pub ids : (id : ℕ) → count (has_id id) d.peers ≤ 1

pub reset-IsValid : IsValid reset
unfolding reset
reset-IsValid = record {
  sized = refl;
  cleared = λ i h free. get_or-replicate {A = HubPeer} 512 i blank;
  ids = λ id. omega (arith, count-replicate-false (has_id id) 512 blank refl);
}

-- A slot is written that has another peer than the others, or is cleared.
write-IsValid :
    {d : PeerDirectory}
    → IsValid d
    → (k : ℕ) (p : HubPeer) → k < 512
    → (p.in_use ≡ false → p ≡ blank)
    → ((id : ℕ) → has_id id p ≡ true → count (has_id id) d.peers ≡ 0)
    → IsValid (record { peers = set d.peers k p })
write-IsValid {d} v k p inside clean fresh = record {
  sized = length-set d.peers k p ∙ v.sized;
  cleared = λ i h. elim (Bool-cases (k == i)) [
    | inl same ↦
        let here : k ≡ i = ground arith in
        rw (← here, get_or-set_self d.peers k p blank (omega (arith, v.sized))) clean
    | inr other ↦ rw (get_or-set_ne d.peers k i p blank (λ same. ground arith)) (v.cleared i h)
  ];
  ids = λ id. ground (arith, v.ids id, v.sized, fresh id, count-set (has_id id) d.peers k p blank);
}

allocate-IsValid :
    {d : PeerDirectory}
    → IsValid d
    → (peer_id : ℕ) → find_peer d peer_id ≡ none
    → IsValid (allocate d peer_id).1
unfolding allocate find_peer new_peer
allocate-IsValid {d} v peer_id fresh =
    elim (Option-cases (find_index (λ p. not (in_use p)) d.peers)) [
      | inl full ↦ rw (full, allocate) v
      | inr (k, hit) ↦
          let (low, unused) = find_index_sound (λ p. not (in_use p)) d.peers blank hit in
          rw (hit, allocate)
            (write-IsValid v k (new_peer peer_id) (omega (arith, v.sized)) (λ empty. cc)
              (λ id same.
                let mine : peer_id ≡ id = ground arith in
                rw (← mine) (count-zero_of_none (has_id peer_id) d.peers fresh)))
    ]

pub release-IsValid : {d : PeerDirectory} → IsValid d → (peer_id : ℕ) → IsValid (release d peer_id)
unfolding release find_peer
release-IsValid {d} v peer_id = elim (Option-cases (find_index (has_id peer_id) d.peers)) [
  | inl miss ↦ rw (miss, release) v
  | inr (k, hit) ↦
      let (low, there) = find_index_sound (has_id peer_id) d.peers blank hit in
      rw (hit, release)
        (write-IsValid v k blank (omega (arith, v.sized)) (λ empty. refl) (λ id same. cc))
]

-- A peer is refused a slot exactly when the directory is full.
allocate_full :
    (d : PeerDirectory) (peer_id : ℕ)
    → length d.peers ≡ 512
    → ((allocate d peer_id).0 ≡ none) ↔ (is_full d ≡ true)
unfolding allocate is_full count_peers
allocate_full d peer_id sized = elim (Option-cases (find_index (λ p. not (in_use p)) d.peers)) [
  | inl full ↦
      rw (full, allocate) (λ h. ground (arith, sized, full_of_none in_use d.peers full), λ h. refl)
  | inr (k, hit) ↦
      let (low, unused) = find_index_sound (λ p. not (in_use p)) d.peers blank hit in
      rw (hit, allocate)
        (λ h. cc, λ h. absurd (ground (arith, sized, count-lt-length in_use d.peers k blank low)))
]
  where
    count-lt-length :
        (p : HubPeer → Bool) (xs : List HubPeer) (i : ℕ) (e : HubPeer)
        → i < length xs
        → p (get_or xs i e) ≡ false
        → count p xs < length xs
    count-lt-length p [] i e h f = absurd (omega arith)
    count-lt-length p (x ∷ xs) zero e h f = ground (arith, count-le-length p xs)
    count-lt-length p (x ∷ xs) (suc i) e h f = ground (arith, count-lt-length p xs i e)

-- In a directory of 512 slots whose free ones are clear and where no two live peers have one id, a
-- peer whose id is not there yet and that is given a slot is found in it, and every other peer where
-- it was; releasing it again gives the directory there was.
pub allocate_found :
    (d : PeerDirectory) (peer_id i : ℕ)
    → IsValid d
    → find_peer d peer_id ≡ none
    → (allocate d peer_id).0 ≡ some i
    → ((id : ℕ)
        → find_peer (allocate d peer_id).1 id ≡ (if id == peer_id then some i else find_peer d id))
      × (release (allocate d peer_id).1 peer_id ≡ d)
unfolding allocate find_peer release new_peer
allocate_found d peer_id i v fresh given =
    elim (Option-cases (find_index (λ p. not (in_use p)) d.peers)) [
      | inl full ↦ absurd (ground (arith, full))
      | inr (k, hit) ↦
          let (low, unused) = find_index_sound (λ p. not (in_use p)) d.peers blank hit in
          let free : (get_or d.peers k blank).in_use ≡ false = ground arith in
          let same : k ≡ i = ground (arith, hit) in
          let found : find_index (has_id peer_id) (set d.peers k (new_peer peer_id)) ≡ some k =
            find_index-set-hit (has_id peer_id) d.peers k (new_peer peer_id) low
              (count-zero_of_none (has_id peer_id) d.peers fresh) (ground arith) in
          rw (hit, allocate)
            (
              λ id. elim (Bool-cases (id == peer_id)) [
                | inl mine ↦
                    let at : id ≡ peer_id = ground arith in rw (mine, at, found) (ap some same)
                | inr other ↦
                    rw
                      (
                        other,
                        find_index-set-false (has_id id) d.peers k (new_peer peer_id) blank
                            (ground arith) (ground arith),
                      )
                      refl
              ],
              rw (found, release)
                  (ap (λ ps. record { peers = ps })
                    (set-set d.peers k (new_peer peer_id) blank
                      ∙ ap (λ p. set d.peers k p) (sym (v.cleared k (omega (arith, v.sized)) free))
                      ∙ set-get_or d.peers k blank)),
            )
    ]

-- A released peer is not found any more, the others are where they were.
release_lem :
    (d : PeerDirectory) (peer_id id : ℕ)
    → IsValid d
    → find_peer (release d peer_id) id ≡ (if id == peer_id then none else find_peer d id)
unfolding release find_peer
release_lem d peer_id id v = elim (Option-cases (find_index (has_id peer_id) d.peers)) [
  | inl miss ↦ elim (Bool-cases (id == peer_id)) [
    | inl mine ↦ let at : id ≡ peer_id = ground arith in rw (miss, release, mine, at) miss
    | inr other ↦ rw (miss, release, other) refl
  ]
  | inr (k, hit) ↦
      let (low, there) = find_index_sound (has_id peer_id) d.peers blank hit in
      elim (Bool-cases (id == peer_id)) [
        | inl mine ↦
            let at : id ≡ peer_id = ground arith in
            rw (hit, release, mine, at)
              (find_index-none_of_count (has_id peer_id) (has_id peer_id) (set d.peers k blank)
                (λ x h. h)
                (ground (arith, v.ids peer_id, count-set (has_id peer_id) d.peers k blank blank)))
        | inr other ↦
            rw (hit, release, other)
              (find_index-set-false (has_id id) d.peers k blank blank (ground arith) refl)
      ]
]
