-- ===== src/Hub/BridgeRoutes/Invariant.antt =====
-- The invariant of the table of routes, and what setting a route does to the slots.
use can_hub.Base.{
  ℕ, ◌+◌, ◌-◌, ◌%◌, ◌^◌, ◌≤◌, ◌<◌, ◌≡◌, refl, ap₂, ◌∙◌, inl, inr, Bool, true, false, not, ◌&&◌,
  arith, if◌then◌else◌, length, get_or, set, str_eq_refl, str_eq_sound, Text, find_index, count,
  count-set, find_index_sound, Option-cases, Bool-cases, length-set, count-le-length, count-pos,
  count-replicate-false, count-zero_of_none, full_of_none,
}
use can_hub.Hub.BridgeRoutes.{
  BridgeEndpoint, BridgeRoute, BridgeRouteSlot, BridgeRoutes, blank, equals, names, in_use,
  is_route, is_route_valid, find_route_index, free_index, choose_index, store_route, set_route,
  remove, reset,
}

equals_refl : (a : BridgeEndpoint) → equals a a ≡ true
unfolding equals names
equals_refl a = ground (arith, str_eq_refl a.agent_name, str_eq_refl a.interface_name)

-- Two names at once: the C comparison of endpoints is equality.
pub equals_sound : (a b : BridgeEndpoint) → equals a b ≡ true → a ≡ b
unfolding equals names
equals_sound a b h =
    let agents : a.agent_name ≡ b.agent_name =
      ground (arith, str_eq_sound a.agent_name b.agent_name) in
    let interfaces : a.interface_name ≡ b.interface_name =
      ground (arith, str_eq_sound a.interface_name b.interface_name) in
    ap₂ endpoint agents interfaces
  where
    endpoint : Text → Text → BridgeEndpoint
    endpoint x y = record { agent_name = x; interface_name = y }

-- What the routes' table keeps: 64 slots, a counter of those in use, and no pair of endpoints twice.
pub record IsValid (t : BridgeRoutes) : Type 0 where
  pub sized : length t.slots ≡ 64
  pub counted : t.count ≡ count in_use t.slots
  pub distinct :
      (source destination : BridgeEndpoint) → count (is_route source destination) t.slots ≤ 1

pub reset-IsValid : IsValid reset
unfolding reset
reset-IsValid = record {
  sized = refl;
  counted = refl;
  distinct = λ a b. omega (arith, count-replicate-false (is_route a b) 64 blank refl);
}

-- The results of `BridgeRoutes_Set`: the route refused, its filters replaced in place, or a new slot.
pub data Set (t : BridgeRoutes) (r : BridgeRoute) : Bool × BridgeRoutes → Type 0 where
  refused :
      (is_route_valid r ≡ true
        → (count (is_route r.source r.destination) t.slots ≡ 0) × (count in_use t.slots ≡ 64))
      → Set t r (false, t)
  replaced :
      (i : ℕ)
      → is_route_valid r ≡ true
      → i < 64
      → is_route r.source r.destination (get_or t.slots i blank) ≡ true
      → Set t r (
        true,
        record t {
          slots = set t.slots i (record (get_or t.slots i blank) { in_use = true; route = r });
        },
      )
  added :
      (i : ℕ)
      → is_route_valid r ≡ true
      → i < 64
      → (get_or t.slots i blank).in_use ≡ false
      → count (is_route r.source r.destination) t.slots ≡ 0
      → Set t r (
        true,
        record {
          slots = set t.slots i (record blank { in_use = true; route = r });
          count = t.count + 1;
        },
      )

-- Setting a route is refused only for an invalid route, or a new one when all 64 slots are in use;
-- it replaces a route between the same endpoints, keeping the counters of its slot, and takes a free
-- cleared slot otherwise.
pub set_route-Set : (t : BridgeRoutes) (r : BridgeRoute) → IsValid t → Set t r (set_route t r)
unfolding set_route choose_index store_route find_route_index free_index
set_route-Set t r v = elim (Bool-cases (is_route_valid r)) [
  | inr bad ↦ rw (bad, set_route) (refused (λ ok. absurd (ground arith)))
  | inl ok ↦ elim (Option-cases (find_index (is_route r.source r.destination) t.slots)) [
    | inr (i, hit) ↦
        let (inside, there) =
          find_index_sound (is_route r.source r.destination) t.slots blank hit in
        let used : (get_or t.slots i blank).in_use ≡ true = ground arith in
        rw (ok, hit, used, set_route) (replaced i ok (omega (arith, v.sized)) there)
    | inl fresh ↦
        let none_there = count-zero_of_none (is_route r.source r.destination) t.slots fresh in
        elim (Option-cases (find_index (λ s. not (in_use s)) t.slots)) [
          | inl full ↦
              rw (ok, fresh, full, set_route)
                (refused (λ _. (none_there, full_of_none in_use t.slots full ∙ v.sized)))
          | inr (i, hit) ↦
              let (inside, unused) = find_index_sound (λ s. not (in_use s)) t.slots blank hit in
              let free : (get_or t.slots i blank).in_use ≡ false = ground arith in
              let small : (t.count + 1) % 2 ^ 8 ≡ t.count + 1 =
                omega (arith, v.counted, v.sized, count-le-length in_use t.slots) in
              rw (ok, fresh, hit, free, small, set_route)
                (added i ok (omega (arith, v.sized)) free none_there)
        ]
  ]
]

-- A slot that holds the endpoints of a route is found under the same endpoints as the route.
pub same_key :
    (x y : BridgeEndpoint) (s : BridgeRouteSlot)
    → is_route x y s ≡ true
    → (a b : BridgeEndpoint) → is_route a b s ≡ (equals x a && equals y b)
same_key x y s h a b =
    let used : s.in_use ≡ true = ground arith in
    let sources : s.route.source ≡ x = equals_sound s.route.source x (ground arith) in
    let destinations : s.route.destination ≡ y =
      equals_sound s.route.destination y (ground arith) in
    rw (used, sources, destinations) refl

pub fresh_key :
    (t : BridgeRoutes) (x y a b : BridgeEndpoint)
    → count (is_route x y) t.slots ≡ 0
    → (equals x a && equals y b) ≡ true
    → count (is_route a b) t.slots ≡ 0
fresh_key t x y a b none_there same =
    let sources : x ≡ a = equals_sound x a (ground arith) in
    let destinations : y ≡ b = equals_sound y b (ground arith) in
    rw (← sources, ← destinations) none_there

module _ {t : BridgeRoutes} (v : IsValid t) where
  -- One slot is written, with a route that no other slot holds.
  write-IsValid :
      (i n : ℕ) (s : BridgeRouteSlot)
      → i < 64
      → n + (if in_use (get_or t.slots i blank) then 1 else 0)
        ≡ t.count + (if s.in_use then 1 else 0)
      → ((a b : BridgeEndpoint)
          → is_route a b s ≡ true
          → count (is_route a b) t.slots ≤ (if is_route a b (get_or t.slots i blank) then 1 else 0))
      → IsValid (record { slots = set t.slots i s; count = n })
  write-IsValid i n s inside counting only = record {
    sized = length-set t.slots i s ∙ v.sized;
    counted =
        omega
          (arith, v.counted, v.sized, count-set in_use t.slots i s blank (omega (arith, v.sized)));
    distinct = λ a b.
        ground
          (arith, v.distinct a b, only a b, v.sized, count-set (is_route a b) t.slots i s blank);
  }

  Set-IsValid : {r : BridgeRoute} {o : Bool × BridgeRoutes} → Set t r o → IsValid o.1
  Set-IsValid (refused h) = v
  Set-IsValid {r} (replaced i ok inside there) =
      write-IsValid i t.count (record (get_or t.slots i blank) { in_use = true; route = r }) inside
        (ground arith)
        (λ a b mine. ground (
          arith,
          v.distinct a b,
          same_key r.source r.destination (get_or t.slots i blank) there a b,
        ))
  Set-IsValid {r} (added i ok inside free fresh) =
      write-IsValid i (t.count + 1) (record blank { in_use = true; route = r }) inside
        (ground arith) (λ a b mine. ground (arith, fresh, fresh_key t r.source r.destination a b))

  set_route-IsValid : (r : BridgeRoute) → IsValid (set_route t r).1
  set_route-IsValid r = Set-IsValid (set_route-Set t r v)

  remove-IsValid : (a b : BridgeEndpoint) → IsValid (remove t a b).1
  unfolding remove find_route_index
  remove-IsValid a b = elim (Option-cases (find_index (is_route a b) t.slots)) [
    | inl miss ↦ rw (miss, remove) v
    | inr (i, hit) ↦
        let (inside, there) = find_index_sound (is_route a b) t.slots blank hit in
        let used : (get_or t.slots i blank).in_use ≡ true = ground arith in
        let some_used = count-pos in_use t.slots i blank inside used in
        let small : (t.count + 2 ^ 8 - 1) % 2 ^ 8 ≡ t.count - 1 =
          omega (arith, v.counted, v.sized, count-le-length in_use t.slots) in
        rw (hit, remove, small)
          (write-IsValid i (t.count - 1) blank (omega (arith, v.sized))
            (rw used (omega (arith, v.counted))) (λ x y mine. absurd (ground arith)))
  ]

-- The operations, as steps.
pub data Step (t : BridgeRoutes) : BridgeRoutes → Type 0 where
  setting : (r : BridgeRoute) → Step t (set_route t r).1
  removing : (a b : BridgeEndpoint) → Step t (remove t a b).1

pub data Reach (t : BridgeRoutes) : BridgeRoutes → Type 0 where
  here : Reach t t
  next : {u w : BridgeRoutes} → Reach t u → Step u w → Reach t w

-- Every table of routes that the calls can reach from an empty one has 64 slots, its counter is the
-- number of slots in use, and no two slots in use hold the same source and destination.
pub routes_reached-IsValid : {t : BridgeRoutes} → Reach reset t → IsValid t
routes_reached-IsValid here = reset-IsValid
routes_reached-IsValid (next r (setting route)) = set_route-IsValid (routes_reached-IsValid r) route
routes_reached-IsValid (next r (removing a b)) = remove-IsValid (routes_reached-IsValid r) a b
