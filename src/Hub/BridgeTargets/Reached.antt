-- ===== src/Hub/BridgeTargets/Reached.antt =====
-- Which buses a frame reaches.
use can_hub.Base.{
  ℕ, zero, suc, ◌+◌, ◌*◌, ◌≤◌, ◌≡◌, refl, subst, inl, inr, Bool, true, false, not, ◌&&◌, ◌||◌, List,
  [], ◌∷◌, ◌++◌, Option, none, some, arith, ltb, if◌then◌else◌, length, length-take, get_or, count,
  is_some-find_index, Bool-cases,
}
use can_hub.Hub.BridgeRoutes.{BridgeEndpoint, BridgeRoutes, BridgeRouteSlot, equals, route_passes}
use can_hub.Hub.BridgeRoutes
use can_hub.Hub.BridgeRoutes.Invariant.{equals_sound}
use can_hub.Hub.BridgeGroups.{
  blank, BridgeGroups, BridgeGroupSlot, BridgeGroupMember, joined, carries, receives,
}
use can_hub.Hub.BridgeGroups
use can_hub.Hub.BridgeGroups.Invariant.{IsValid, slot_sound}
use can_hub.Hub.BridgeTargets.{
  BridgeTarget, Charged, by_route, by_group, is_target, add_target, reach_route, collect_routes,
  collect_members, reach_group, collect_groups, collect,
}

-- The bus is among the targets.
abbrev is_reached : List BridgeTarget → BridgeEndpoint → Bool
is_reached targets e = ltb 0 (count (is_target e) targets)

-- No bus twice, never the source.
pub record AreTargets (source : BridgeEndpoint) (targets : List BridgeTarget) : Type 0 where
  pub once : (e : BridgeEndpoint) → count (is_target e) targets ≤ 1
  pub never_source : count (is_target source) targets ≡ 0

count-append_one :
    (e : BridgeEndpoint) (ts : List BridgeTarget) (x : BridgeTarget)
    → count (is_target e) (ts ++ (x ∷ []))
      ≡ count (is_target e) ts + (if is_target e x then 1 else 0)
count-append_one e [] x = omega arith
count-append_one e (t ∷ ts) x = omega (arith, count-append_one e ts x)

length-append_one :
    (ts : List BridgeTarget) (x : BridgeTarget) → length (ts ++ (x ∷ [])) ≡ length ts + 1
length-append_one [] x = refl
length-append_one (t ∷ ts) x = omega (arith, length-append_one ts x)

-- `f i || f (i + 1) || ...`, for `left` numbers.
abbrev exists_from : ℕ → ℕ → (ℕ → Bool) → Bool
exists_from zero i f = false
exists_from (suc left) i f = f i || exists_from left (i + 1) f

-- The bus is that of a member that receives.
abbrev any_receiver : BridgeEndpoint → List BridgeGroupMember → Bool
any_receiver e [] = false
any_receiver e (m ∷ ms) = (receives m && equals m.endpoint e) || any_receiver e ms

small_group :
    (t : BridgeGroups) (i : ℕ)
    → IsValid t
    → (s : BridgeGroupSlot) → BridgeGroups.slot t i ≡ some s
    → length (joined s.group) ≤ 16
small_group t i v s h =
    let (inside, there) = slot_sound t i s h in
    rw
      (
        there,
        length-take (get_or t.slots i blank).group.member_count
            (get_or t.slots i blank).group.members,
      )
      (omega (arith, (v.groups i inside).sized))

module _ (source : BridgeEndpoint) where
  -- What a part of the collection does: at most `n` buses more, those that `what` names.
  record Adds (n : ℕ) (what : BridgeEndpoint → Bool) (ts us : List BridgeTarget) : Type 0 where
    pub targets : AreTargets source ts → AreTargets source us
    longer : length us ≤ length ts + n
    reached :
        (e : BridgeEndpoint)
        → length ts + n ≤ 320
        → is_reached us e ≡ (is_reached ts e || (not (equals e source) && what e))

  nothing_added : (n : ℕ) (ts : List BridgeTarget) → Adds n (λ e. false) ts ts
  nothing_added n ts = record {
    targets = λ v. v;
    longer = omega arith;
    reached = λ e h. ground arith;
  }

  both_added :
      {n m : ℕ} {f g : BridgeEndpoint → Bool} {ts us ws : List BridgeTarget}
      → Adds n f ts us
      → Adds m g us ws
      → Adds (n + m) (λ e. f e || g e) ts ws
  both_added {n} {m} a b = record {
    targets = λ v. b.targets (a.targets v);
    longer = omega (arith, a.longer, b.longer);
    reached = λ e h.
        ground (arith, a.longer, a.reached e (omega arith), b.reached e (omega (arith, a.longer)));
  }

  fewer_added :
      {n m : ℕ} {f : BridgeEndpoint → Bool} {ts us : List BridgeTarget}
      → n ≤ m
      → Adds n f ts us
      → Adds m f ts us
  fewer_added h a = record {
    targets = a.targets;
    longer = omega (arith, a.longer);
    reached = λ e fits. a.reached e (omega arith);
  }

  add_target-Adds :
      (ts : List BridgeTarget) (d : BridgeEndpoint) (c : Charged)
      → Adds 1 (λ e. equals d e) ts (add_target ts source d c)
  unfolding add_target
  add_target-Adds ts d c =
      let x : BridgeTarget = record { destination = d; charged = c } in
      record {
        targets = λ v. record {
          once = λ e. ground (
            arith,
            v.once e,
            count-append_one e ts x,
            is_some-find_index (is_target d) ts,
            equals_sound d e,
            subst (λ y. count (is_target y) ts ≡ 0) {x = d} {y = e},
          );
          never_source = ground (arith, v.never_source, count-append_one source ts x);
        };
        longer = ground (arith, length-append_one ts x);
        reached = λ e h. ground (
          arith,
          count-append_one e ts x,
          is_some-find_index (is_target d) ts,
          equals_sound d e,
          subst (λ y. ltb 0 (count (is_target y) ts) ≡ true) {x = d} {y = e},
          subst (λ y. equals y source ≡ true) {x = d} {y = e},
          subst (λ y. equals y source ≡ false) {x = d} {y = e},
        );
      }

  -- Routes.
  -- Whether a route leads from the source to a bus and lets the frame through.
  pub routed : ℕ → BridgeEndpoint → Option BridgeRouteSlot → Bool
  routed can_id e none = false
  routed can_id e (some s) =
      (equals s.route.source source && route_passes s.route can_id) && equals s.route.destination e

  reach_route-Adds :
      (i can_id : ℕ) (o : Option BridgeRouteSlot) (ts : List BridgeTarget)
      → Adds 1 (λ e. routed can_id e o) ts (reach_route i source can_id o ts)
  unfolding routed reach_route
  reach_route-Adds i can_id none ts = nothing_added 1 ts
  reach_route-Adds i can_id (some s) ts = elim (Bool-cases (equals s.route.source source)) [
    | inr elsewhere ↦ rw (elsewhere, reach_route) (nothing_added 1 ts)
    | inl from ↦ elim (Bool-cases (route_passes s.route can_id)) [
      | inr stopped ↦ rw (from, stopped, reach_route) (nothing_added 1 ts)
      | inl through ↦
          rw (from, through, reach_route) (add_target-Adds ts s.route.destination (by_route i))
    ]
  ]

  collect_routes-Adds :
      (left i can_id : ℕ) (routes : BridgeRoutes) (ts : List BridgeTarget)
      → Adds left
          (λ e. exists_from left i (λ j. routed can_id e (BridgeRoutes.slot routes j)))
          ts
          (collect_routes left i routes source can_id ts)
  unfolding collect_routes
  collect_routes-Adds zero i can_id routes ts = nothing_added 0 ts
  collect_routes-Adds (suc left) i can_id routes ts = fewer_added (omega arith) (
      both_added (reach_route-Adds i can_id (BridgeRoutes.slot routes i) ts) (
        collect_routes-Adds left (i + 1) can_id routes
          (reach_route i source can_id (BridgeRoutes.slot routes i) ts)))

  collect_members-Adds :
      (i : ℕ) (ms : List BridgeGroupMember) (ts : List BridgeTarget)
      → Adds (length ms) (λ e. any_receiver e ms) ts (collect_members i source ms ts)
  unfolding collect_members
  collect_members-Adds i [] ts = nothing_added 0 ts
  collect_members-Adds i (m ∷ ms) ts = elim (Bool-cases (receives m)) [
    | inl listens ↦ rw listens (
        fewer_added (omega arith) (
          both_added (add_target-Adds ts m.endpoint (by_group i))
            (collect_members-Adds i ms (add_target ts source m.endpoint (by_group i)))))
    | inr silent ↦ rw silent (fewer_added (omega arith) (collect_members-Adds i ms ts))
  ]

  -- Whether a group takes the frame from the source and gives it to a bus.
  pub grouped : ℕ → BridgeEndpoint → Option BridgeGroupSlot → Bool
  grouped can_id e none = false
  grouped can_id e (some s) = carries s.group source can_id && any_receiver e (joined s.group)

  reach_group-Adds :
      (i can_id : ℕ) (o : Option BridgeGroupSlot) (ts : List BridgeTarget)
      → ((s : BridgeGroupSlot) → o ≡ some s → length (joined s.group) ≤ 16)
      → Adds 16 (λ e. grouped can_id e o) ts (reach_group i source can_id o ts)
  unfolding grouped reach_group
  reach_group-Adds i can_id none ts small = nothing_added 16 ts
  reach_group-Adds i can_id (some s) ts small = elim (Bool-cases (carries s.group source can_id)) [
    | inr stopped ↦ rw (stopped, reach_group) (nothing_added 16 ts)
    | inl through ↦
        rw (through, reach_group)
          (fewer_added (small s refl) (collect_members-Adds i (joined s.group) ts))
  ]

  collect_groups-Adds :
      (left i can_id : ℕ) (groups : BridgeGroups) (ts : List BridgeTarget)
      → IsValid groups
      → Adds
          (left * 16)
          (λ e. exists_from left i (λ j. grouped can_id e (BridgeGroups.slot groups j)))
          ts
          (collect_groups left i groups source can_id ts)
  unfolding collect_groups
  collect_groups-Adds zero i can_id groups ts v = nothing_added 0 ts
  collect_groups-Adds (suc left) i can_id groups ts v = fewer_added (omega arith) (
      both_added
        (reach_group-Adds i can_id (BridgeGroups.slot groups i) ts (small_group groups i v))
        (collect_groups-Adds left (i + 1) can_id groups
          (reach_group i source can_id (BridgeGroups.slot groups i) ts) v))

-- With a valid table of groups, the targets collected have no bus twice and never the source, and a
-- bus is among them exactly if it is not the source, and a route in use from the source that passes
-- the frame leads to it, or it is the bus of a receiving member of a group that carries the frame
-- from the source.
pub collect_lem :
    (routes : BridgeRoutes) (groups : BridgeGroups) (source : BridgeEndpoint) (can_id : ℕ)
    → IsValid groups
    → AreTargets source (collect routes groups source can_id)
      × ((e : BridgeEndpoint)
          → is_reached (collect routes groups source can_id) e ≡ (
              not (equals e source)
              && (exists_from 64 0 (λ i. routed source can_id e (BridgeRoutes.slot routes i))
                  || exists_from 16 0 (λ i. grouped source can_id e (BridgeGroups.slot groups i)))))
unfolding collect
collect_lem routes groups source can_id v =
    let by_routes = collect_routes-Adds source 64 0 can_id routes [] in
    let both = both_added source by_routes (
      collect_groups-Adds source 16 0 can_id groups (collect_routes 64 0 routes source can_id [])
        v) in
    (
      both.targets (record { once = λ e. omega arith; never_source = refl }),
      λ e. both.reached e (omega arith),
    )
