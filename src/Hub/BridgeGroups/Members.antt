-- ===== src/Hub/BridgeGroups/Members.antt =====
-- The members of a group as a set of endpoints.
use can_hub.Base.{
  ℕ, suc, ◌+◌, ◌-◌, ◌%◌, ◌^◌, ◌≤◌, ◌<◌, ◌≡◌, refl, ap, ◌∙◌, subst, ◌==◌, inl, inr, true, false, not,
  ◌&&◌, ◌||◌, arith, ltb, if◌then◌else◌, length, length-set, get_or, get_or-set_self, set, take,
  find_index, count, count-take_next, count-take-set, count-take_beyond, is_some-find_index,
  find_index-take, Option-cases, Bool-cases, count-zero_of_none,
}
use can_hub.Hub.BridgeRoutes.{BridgeEndpoint, equals}
use can_hub.Hub.BridgeRoutes.Invariant.{equals_sound}
use can_hub.Hub.BridgeGroups.{
  BridgeGroup, BridgeGroupMember, join_ok, no_member, is_member, joined, member_index, has_member,
  join_group, leave_group,
}

-- At most 16 members, in an array of 16, and none twice.
pub record IsGroup (g : BridgeGroup) : Type 0 where
  pub sized : length g.members ≡ 16
  pub within : g.member_count ≤ 16
  pub distinct : (e : BridgeEndpoint) → count (is_member e) (joined g) ≤ 1

has_member-count :
    (g : BridgeGroup) (e : BridgeEndpoint) → has_member g e ≡ ltb 0 (count (is_member e) (joined g))
unfolding has_member member_index
has_member-count g e = is_some-find_index (is_member e) (joined g)

-- Whether joining and leaving are decided right: by the group being full, and by being a member.
module _ {g : BridgeGroup} (v : IsGroup g) where
  pub join_group-IsGroup : (m : BridgeGroupMember) → IsGroup (join_group g m).1
  unfolding join_group member_index has_member
  join_group-IsGroup m = elim (Option-cases (find_index (is_member m.endpoint) (joined g))) [
    | inr (i, hit) ↦
        let (inside, low, there) =
          find_index-take (is_member m.endpoint) g.member_count g.members no_member hit in
        let same = equals_sound (get_or g.members i no_member).endpoint m.endpoint there in
        rw (hit, join_group)
          (record {
            sized = length-set g.members i m ∙ v.sized;
            within = v.within;
            distinct = λ e. ground (
              arith,
              v.distinct e,
              same,
              count-take-set (is_member e) g.member_count g.members i m no_member inside low,
            );
          })
    | inl miss ↦ elim (Bool-cases (g.member_count == 16)) [
      | inl full ↦ rw (miss, full, join_group) v
      | inr spare ↦
          let room : g.member_count < 16 = ground (arith, v.within) in
          let next : (g.member_count + 1) % 2 ^ 8 ≡ suc g.member_count = omega arith in
          let fresh = count-zero_of_none (is_member m.endpoint) (joined g) miss in
          rw (miss, spare, next, join_group)
            (record {
              sized = length-set g.members g.member_count m ∙ v.sized;
              within = omega arith;
              distinct = λ e. added_once e room fresh;
            })
    ]
  ]
    where
      added_once :
          (e : BridgeEndpoint)
          → g.member_count < 16
          → count (is_member m.endpoint) (joined g) ≡ 0
          → count (is_member e) (take (suc g.member_count) (set g.members g.member_count m)) ≤ 1
      added_once e room fresh = elim (Bool-cases (equals m.endpoint e)) [
        | inl mine ↦
            let same = equals_sound m.endpoint e mine in
            ground (
              arith,
              subst (λ x. count (is_member x) (joined g) ≡ 0) same fresh,
              v.sized,
              length-set g.members g.member_count m,
              count-take_next (is_member e) g.member_count (set g.members g.member_count m)
                  no_member,
              count-take_beyond (is_member e) g.member_count g.members g.member_count m,
            )
        | inr other ↦ ground (
          arith,
          v.distinct e,
          v.sized,
          length-set g.members g.member_count m,
          get_or-set_self g.members g.member_count m no_member,
          count-take_next (is_member e) g.member_count (set g.members g.member_count m) no_member,
          count-take_beyond (is_member e) g.member_count g.members g.member_count m,
        )
      ]

  -- In a well-formed group, after a join that is not refused the members are those before and the
  -- one that joined, and the group is still well formed.
  join_group_lem :
      (m : BridgeGroupMember) (e : BridgeEndpoint)
      → (join_group g m).0 ≡ join_ok
      → IsGroup (join_group g m).1
        × (has_member (join_group g m).1 e ≡ (equals m.endpoint e || has_member g e))
  unfolding join_group member_index has_member
  join_group_lem m e ok = (join_group-IsGroup m, membership)
    where
      membership : has_member (join_group g m).1 e ≡ (equals m.endpoint e || has_member g e)
      membership = elim (Option-cases (find_index (is_member m.endpoint) (joined g))) [
        | inr (i, hit) ↦
            let (inside, low, there) =
              find_index-take (is_member m.endpoint) g.member_count g.members no_member hit in
            let same = equals_sound (get_or g.members i no_member).endpoint m.endpoint there in
            let present : has_member g m.endpoint ≡ true =
              rw (has_member, member_index, hit) refl in
            rw (hit, join_group)
              (ground (
                arith,
                same,
                present,
                equals_sound m.endpoint e,
                subst (λ x. has_member g x ≡ true) {x = m.endpoint} {y = e},
                has_member-count g e,
                has_member-count (record g { members = set g.members i m }) e,
                count-take-set (is_member e) g.member_count g.members i m no_member inside low,
              ))
        | inl miss ↦ elim (Bool-cases (g.member_count == 16)) [
          | inl full ↦ absurd (ground (arith, miss, full))
          | inr spare ↦
              let room : g.member_count < 16 = ground (arith, v.within) in
              let next : (g.member_count + 1) % 2 ^ 8 ≡ suc g.member_count = omega arith in
              rw (miss, spare, next, join_group)
                (ground (
                  arith,
                  v.sized,
                  has_member-count g e,
                  has_member-count
                      (record g {
                        members = set g.members g.member_count m;
                        member_count = suc g.member_count;
                      })
                      e,
                  length-set g.members g.member_count m,
                  get_or-set_self g.members g.member_count m no_member,
                  count-take_next (is_member e) g.member_count (set g.members g.member_count m)
                      no_member,
                  count-take_beyond (is_member e) g.member_count g.members g.member_count m,
                ))
        ]
      ]

  -- The array after the member at `i` of `suc k` has left: one entry less for its endpoint.
  left_count :
      (i k : ℕ) (e : BridgeEndpoint)
      → g.member_count ≡ suc k
      → i < suc k
      → count
            (is_member e)
            (take k (set (set g.members i (get_or g.members k no_member)) k no_member))
          + (if is_member e (get_or g.members i no_member) then 1 else 0)
        ≡ count (is_member e) (joined g)
  left_count i k e size inside =
      let ms = g.members in
      let last = get_or ms k no_member in
      let beyond = count-take_beyond (is_member e) k (set ms i last) k no_member in
      let next = count-take_next (is_member e) k ms no_member in
      rw (size, count-take_beyond (is_member e) k (set ms i last) k no_member (omega arith))
        (elim (Bool-cases (i == k)) [
          | inl same ↦
              ground (arith, v.sized, v.within, next, count-take_beyond (is_member e) k ms i last)
          | inr before ↦
              ground
                (arith, v.sized, v.within, next, count-take-set (is_member e) k ms i last no_member)
        ])

  -- In a well-formed group, leaving tells whether there was such a member; after it the members are
  -- those before without that one, and the group is still well formed.
  pub leave_group_lem :
      (x e : BridgeEndpoint)
      → ((leave_group g x).0 ≡ has_member g x)
        × IsGroup (leave_group g x).1
        × (has_member (leave_group g x).1 e ≡ (has_member g e && not (equals x e)))
  unfolding leave_group member_index has_member
  leave_group_lem x e = elim (Option-cases (find_index (is_member x) (joined g))) [
    | inl miss ↦
        let absent : has_member g x ≡ false = rw (has_member, member_index, miss) refl in
        rw (miss, leave_group)
          (
            refl,
            v,
            ground (
              arith,
              absent,
              equals_sound x e,
              subst (λ y. has_member g y ≡ false) {x = x} {y = e},
            ),
          )
    | inr (i, hit) ↦
        let (inside, low, there) =
          find_index-take (is_member x) g.member_count g.members no_member hit in
        let k = g.member_count - 1 in
        let size : g.member_count ≡ suc k = omega arith in
        let last : (g.member_count + 2 ^ 8 - 1) % 2 ^ 8 ≡ k = omega (arith, v.within) in
        rw (hit, leave_group, last)
          (refl, left i k there size (omega arith), kept i k there size (omega arith))
  ]
    where
      left :
          (i k : ℕ)
          → equals (get_or g.members i no_member).endpoint x ≡ true
          → g.member_count ≡ suc k
          → i < suc k
          → IsGroup (record g {
            member_count = k;
            members = set (set g.members i (get_or g.members k no_member)) k no_member;
          })
      left i k there size inner = record {
        sized =
            length-set (set g.members i (get_or g.members k no_member)) k no_member
            ∙ length-set g.members i (get_or g.members k no_member)
            ∙ v.sized;
        within = omega (arith, v.within);
        distinct = λ y. omega (arith, v.distinct y, left_count i k y size inner);
      }

      kept :
          (i k : ℕ)
          → equals (get_or g.members i no_member).endpoint x ≡ true
          → g.member_count ≡ suc k
          → i < suc k
          → has_member
              (record g {
                member_count = k;
                members = set (set g.members i (get_or g.members k no_member)) k no_member;
              })
              e
            ≡ (has_member g e && not (equals x e))
      kept i k there size inner =
          let same : equals (get_or g.members i no_member).endpoint e ≡ equals x e =
            ap (λ y. equals y e) (equals_sound (get_or g.members i no_member).endpoint x there) in
          rw
            (
              has_member-count g e,
              has_member-count
                  (record g {
                    member_count = k;
                    members = set (set g.members i (get_or g.members k no_member)) k no_member;
                  })
                  e,
            )
            (ground (arith, same, v.distinct e, left_count i k e size inner))
