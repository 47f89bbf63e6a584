-- ===== src/Hub/BridgeGroups/Invariant.antt =====
-- The invariant of the table of groups, under every operation.
use can_hub.Protocol.Subscribe.{CanFilter}
use can_hub.Base.{
  ℕ, ◌+◌, ◌-◌, ◌%◌, ◌^◌, ◌≤◌, ◌<◌, ◌≡◌, refl, ◌∙◌, subst, inl, inr, true, false, not, ◌||◌, List,
  [], ◌∷◌, some, arith, ltb, leb, ◌==◌, if◌then◌else◌, length, get_or, get_or-set_self,
  get_or-set_ne, get_or-replicate, set, take, Text, str_eq_sound, find_index, count, count-set,
  find_index_sound, Option-cases, Bool-cases, length-set, count-le-length, count-pos,
  count-replicate-false, count-zero_of_none,
}
use can_hub.Hub.BridgeRoutes.{BridgeEndpoint}
use can_hub.Hub.BridgeGroups.{
  BridgeGroup, BridgeGroupMember, BridgeGroupSlot, BridgeGroups, blank, in_use, is_group,
  is_name_valid, is_member_valid, find_group_index, free_index, choose_index, with_filters,
  store_group, set_group, remove, join_group, join, leave_group, leave, join_all, restore, reset,
  joined, write_group, member_index, slot,
}
use can_hub.Hub.BridgeGroups.Members.{IsGroup, join_group-IsGroup, leave_group_lem}

pub record IsValid (t : BridgeGroups) : Type 0 where
  pub sized : length t.slots ≡ 16
  pub counted : t.count ≡ count in_use t.slots
  pub distinct : (name : Text) → count (is_group name) t.slots ≤ 1
  pub groups : (i : ℕ) → i < 16 → IsGroup (get_or t.slots i blank).group

blank-IsGroup : IsGroup blank.group
blank-IsGroup = record { sized = refl; within = omega arith; distinct = λ e. omega arith }

pub reset-IsValid : IsValid reset
unfolding reset
reset-IsValid = record {
  sized = refl;
  counted = refl;
  distinct = λ name. omega (arith, count-replicate-false (is_group name) 16 blank refl);
  groups = λ i h. rw (get_or-replicate {A = BridgeGroupSlot} 16 i blank) blank-IsGroup;
}

module _ {t : BridgeGroups} (v : IsValid t) where
  -- One slot is written, with a well-formed group whose name no other slot holds.
  write-IsValid :
      (i n : ℕ) (s : BridgeGroupSlot)
      → i < 16
      → n + (if in_use (get_or t.slots i blank) then 1 else 0)
        ≡ t.count + (if s.in_use then 1 else 0)
      → ((name : Text)
          → is_group name s ≡ true
          → count (is_group name) t.slots
            ≤ (if is_group name (get_or t.slots i blank) then 1 else 0))
      → IsGroup s.group
      → IsValid (record { slots = set t.slots i s; count = n })
  write-IsValid i n s inside counting only group = record {
    sized = length-set t.slots i s ∙ v.sized;
    counted =
        omega
          (arith, v.counted, v.sized, count-set in_use t.slots i s blank (omega (arith, v.sized)));
    distinct = λ name.
        ground
          (arith, v.distinct name, only name, v.sized, count-set (is_group name) t.slots i s blank);
    groups = λ j h. elim (Bool-cases (i == j)) [
      | inl same ↦
          let at : i ≡ j = ground arith in
          rw (← at, get_or-set_self t.slots i s blank (omega (arith, v.sized))) group
      | inr other ↦ rw (get_or-set_ne t.slots i j s blank (λ e. ground arith)) (v.groups j h)
    ];
  }

  -- A group in its slot is changed, under the same name.
  write_group-IsValid :
      (i : ℕ) (g : BridgeGroup)
      → i < 16
      → g.name ≡ (get_or t.slots i blank).group.name
      → IsGroup g
      → IsValid (write_group t i g)
  write_group-IsValid i g inside same group =
      write-IsValid i t.count (record (get_or t.slots i blank) { group = g }) inside refl
        (λ name mine. ground (arith, same, v.distinct name)) group

  with_filters-IsGroup :
      {g : BridgeGroup} (n : ℕ) (filters : List CanFilter)
      → IsGroup g
      → IsGroup (with_filters g n filters)
  unfolding with_filters
  with_filters-IsGroup n filters group = record {
    sized = group.sized;
    within = group.within;
    distinct = group.distinct;
  }

  set_group-IsValid :
      (name : Text) (n : ℕ) (filters : List CanFilter) → IsValid (set_group t name n filters).1
  unfolding set_group choose_index store_group find_group_index free_index with_filters
  set_group-IsValid name n filters = elim (Bool-cases (not (is_name_valid name) || ltb 16 n)) [
    | inl bad ↦ rw (bad, set_group) v
    | inr ok ↦ elim (Option-cases (find_index (is_group name) t.slots)) [
      | inr (i, hit) ↦
          let (inside, there) = find_index_sound (is_group name) t.slots blank hit in
          let used : (get_or t.slots i blank).in_use ≡ true = ground arith in
          let low : i < 16 = omega (arith, v.sized) in
          rw (ok, hit, used, set_group)
            (write-IsValid i t.count
              (record (get_or t.slots i blank) {
                in_use = true;
                group = with_filters (get_or t.slots i blank).group n filters;
              })
              low (rw used refl) (λ other mine. ground (arith, used, v.distinct other))
              (with_filters-IsGroup n filters (v.groups i low)))
      | inl fresh ↦ elim (Option-cases (find_index (λ s. not (in_use s)) t.slots)) [
        | inl full ↦ rw (ok, fresh, full, set_group) v
        | inr (i, hit) ↦
            let (inside, unused) = find_index_sound (λ s. not (in_use s)) t.slots blank hit in
            let free : (get_or t.slots i blank).in_use ≡ false = ground arith in
            let small : (t.count + 1) % 2 ^ 8 ≡ t.count + 1 =
              omega (arith, v.counted, v.sized, count-le-length in_use t.slots) in
            let none_there = count-zero_of_none (is_group name) t.slots fresh in
            rw (ok, fresh, hit, free, small, set_group)
              (write-IsValid i (t.count + 1)
                (record blank {
                  in_use = true;
                  group = with_filters (record blank.group { name = name }) n filters;
                })
                (omega (arith, v.sized)) (rw free (omega arith))
                (λ other mine.
                  let same = str_eq_sound name other mine in
                  omega (arith, subst (λ x. count (is_group x) t.slots ≡ 0) same none_there))
                (with_filters-IsGroup {g = record blank.group { name = name }} n filters
                  (record { sized = refl; within = omega arith; distinct = λ e. omega arith })))
      ]
    ]
  ]

  pub remove-IsValid : (name : Text) → IsValid (remove t name).1
  unfolding remove find_group_index
  remove-IsValid name = elim (Option-cases (find_index (is_group name) t.slots)) [
    | inl miss ↦ rw (miss, remove) v
    | inr (i, hit) ↦
        let (inside, there) = find_index_sound (is_group name) t.slots blank hit in
        let used : (get_or t.slots i blank).in_use ≡ true = ground arith in
        let some_used = count-pos in_use t.slots i blank inside used in
        let small : (t.count + 2 ^ 8 - 1) % 2 ^ 8 ≡ t.count - 1 =
          omega (arith, v.counted, v.sized, count-le-length in_use t.slots) in
        rw (hit, remove, small)
          (write-IsValid i (t.count - 1) blank (omega (arith, v.sized))
            (rw used (omega (arith, v.counted))) (λ x mine. absurd (ground arith)) blank-IsGroup)
  ]

join_group-name : (g : BridgeGroup) (m : BridgeGroupMember) → (join_group g m).1.name ≡ g.name
unfolding join_group
join_group-name g m = elim (Option-cases (member_index g m.endpoint)) [
  | inr (i, hit) ↦ rw (hit, join_group) refl
  | inl miss ↦ elim (Bool-cases (g.member_count == 16)) [
    | inl full ↦ rw (miss, full, join_group) refl
    | inr spare ↦ rw (miss, spare, join_group) refl
  ]
]

leave_group-name : (g : BridgeGroup) (e : BridgeEndpoint) → (leave_group g e).1.name ≡ g.name
unfolding leave_group
leave_group-name g e = elim (Option-cases (member_index g e)) [
  | inr (i, hit) ↦ rw (hit, leave_group) refl
  | inl miss ↦ rw (miss, leave_group) refl
]

module _ {t : BridgeGroups} (v : IsValid t) where
  join-IsValid : (name : Text) (m : BridgeGroupMember) → IsValid (join t name m).1
  unfolding join find_group_index
  join-IsValid name m = elim (Option-cases (find_index (is_group name) t.slots)) [
    | inl miss ↦ rw (miss, join) v
    | inr (i, hit) ↦
        let (inside, there) = find_index_sound (is_group name) t.slots blank hit in
        let low : i < 16 = omega (arith, v.sized) in
        let g = (get_or t.slots i blank).group in
        elim (Bool-cases (is_member_valid m)) [
          | inr bad ↦ rw (hit, join, bad) v
          | inl ok ↦
              rw (hit, join, ok)
                (write_group-IsValid v i (join_group g m).1 low (join_group-name g m)
                  (join_group-IsGroup (v.groups i low) m))
        ]
  ]

  leave-IsValid : (name : Text) (e : BridgeEndpoint) → IsValid (leave t name e).1
  unfolding leave find_group_index
  leave-IsValid name e = elim (Option-cases (find_index (is_group name) t.slots)) [
    | inl miss ↦ rw (miss, leave) v
    | inr (i, hit) ↦
        let (inside, there) = find_index_sound (is_group name) t.slots blank hit in
        let low : i < 16 = omega (arith, v.sized) in
        let g = (get_or t.slots i blank).group in
        elim (Bool-cases (leave_group g e).0) [
          | inr absent ↦ rw (hit, leave, absent) v
          | inl gone ↦
              rw (hit, leave, gone)
                (write_group-IsValid v i (leave_group g e).1 low (leave_group-name g e)
                  (leave_group_lem (v.groups i low) e e).1)
        ]
  ]

join_all-IsValid :
    (name : Text) (ms : List BridgeGroupMember) (t : BridgeGroups)
    → IsValid t
    → IsValid (join_all t name ms)
unfolding join_all
join_all-IsValid name [] t v = v
join_all-IsValid name (m ∷ ms) t v =
    join_all-IsValid name ms (join t name m).1 (join-IsValid v name m)

restore-IsValid : {t : BridgeGroups} (g : BridgeGroup) → IsValid t → IsValid (restore t g).1
unfolding restore
restore-IsValid {t} g v = elim (Bool-cases (set_group t g.name g.filter_count g.filters).0) [
  | inr refused ↦ rw (restore, refused) v
  | inl done ↦
      rw (restore, done)
        (join_all-IsValid g.name (take 16 (joined g))
          (set_group t g.name g.filter_count g.filters).1
          (set_group-IsValid v g.name g.filter_count g.filters))
]

-- The operations, as steps.
pub data Step (t : BridgeGroups) : BridgeGroups → Type 0 where
  setting : (name : Text) (n : ℕ) (filters : List CanFilter) → Step t (set_group t name n filters).1
  removing : (name : Text) → Step t (remove t name).1
  joining : (name : Text) (m : BridgeGroupMember) → Step t (join t name m).1
  leaving : (name : Text) (e : BridgeEndpoint) → Step t (leave t name e).1
  restoring : (g : BridgeGroup) → Step t (restore t g).1

pub data Reach (t : BridgeGroups) : BridgeGroups → Type 0 where
  here : Reach t t
  next : {u w : BridgeGroups} → Reach t u → Step u w → Reach t w

Step-IsValid : {t u : BridgeGroups} → Step t u → IsValid t → IsValid u
Step-IsValid (setting name n filters) v = set_group-IsValid v name n filters
Step-IsValid (removing name) v = remove-IsValid v name
Step-IsValid (joining name m) v = join-IsValid v name m
Step-IsValid (leaving name e) v = leave-IsValid v name e
Step-IsValid (restoring g) v = restore-IsValid g v

-- Every table of groups that the calls can reach from an empty one has 16 slots, its counter is the
-- number of slots in use, no two slots in use have the same name, and every group has at most 16
-- members, none of them twice.
pub groups_reached-IsValid : {t : BridgeGroups} → Reach reset t → IsValid t
groups_reached-IsValid here = reset-IsValid
groups_reached-IsValid (next r step) = Step-IsValid step (groups_reached-IsValid r)

-- The slot at an index, where it is in use.
pub slot_sound :
    (t : BridgeGroups) (i : ℕ) (s : BridgeGroupSlot)
    → slot t i ≡ some s
    → (i < 16) × (s ≡ get_or t.slots i blank)
unfolding slot
slot_sound t i s h = elim (Bool-cases (leb 16 i || not (get_or t.slots i blank).in_use)) [
  | inl out ↦ absurd (ground (arith, out))
  | inr inside ↦ (ground arith, ground (arith, inside))
]
