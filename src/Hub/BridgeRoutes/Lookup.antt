-- ===== src/Hub/BridgeRoutes/Lookup.antt =====
-- The table of routes as a map from pairs of endpoints to routes.
use mathlib.Core.Option
use can_hub.Base.{
  ℕ, ◌≡◌, refl, ◌∙◌, inl, inr, Bool, true, false, ◌&&◌, Option, none, some, arith, List, [], ◌∷◌,
  zero, suc, count-set, get_elem?, if◌then◌else◌, get_or, set, find_index, count, find-set-only,
  find-set-false, find_index_sound, find-none_of_count, Option-cases, Bool-cases,
  count-zero_of_none,
}
use can_hub.Hub.BridgeRoutes.{
  BridgeEndpoint, BridgeRoute, BridgeRouteSlot, BridgeRoutes, blank, equals, is_route,
  is_route_valid, nth, nth_from, choose_index, find_route_index, free_index, set_route, remove,
  find_route, has_room,
}
use can_hub.Hub.BridgeRoutes.Invariant.{
  IsValid, Set, refused, replaced, added, set_route-Set, same_key, fresh_key,
}

-- The route between two endpoints.
abbrev pub route_between : BridgeRoutes → BridgeEndpoint → BridgeEndpoint → Option BridgeRoute
route_between t a b = Option.map (λ s. s.route) (find_route t a b)

found :
    {t : BridgeRoutes} {r : BridgeRoute} {o : Bool × BridgeRoutes} (v : IsValid t)
    → Set t r o
    → o.0 ≡ true
    → (a b : BridgeEndpoint)
    → route_between o.1 a b
      ≡ (if equals r.source a && equals r.destination b then some r else route_between t a b)
unfolding find_route
found v (refused h) ok a b = cc
found {t} {r} v (replaced i ok inside there) done a b =
    let old = get_or t.slots i blank in
    let new : BridgeRouteSlot = record old { in_use = true; route = r } in
    let key = same_key r.source r.destination old there a b in
    elim (Bool-cases (equals r.source a && equals r.destination b)) [
      | inl mine ↦
          rw
            (
              mine,
              find-set-only (is_route a b) t.slots i new blank (omega (arith, v.sized))
                  (rw (key, mine) (v.distinct a b)) (ground arith),
            )
            refl
      | inr other ↦
          rw (other, find-set-false (is_route a b) t.slots i new blank (key ∙ other) (ground arith))
            refl
    ]
found {t} {r} v (added i ok inside free fresh) done a b =
    let new : BridgeRouteSlot = record blank { in_use = true; route = r } in
    let unused : is_route a b (get_or t.slots i blank) ≡ false = ground arith in
    elim (Bool-cases (equals r.source a && equals r.destination b)) [
      | inl mine ↦
          rw
            (
              mine,
              find-set-only (is_route a b) t.slots i new blank (omega (arith, v.sized))
                  (omega (arith, fresh_key t r.source r.destination a b fresh mine)) (ground arith),
            )
            refl
      | inr other ↦
          rw (other, find-set-false (is_route a b) t.slots i new blank unused (ground arith)) refl
    ]

-- In a valid table, after a route is set with success it is found between its endpoints, and
-- between all others what was found before.
pub set_route_lem :
    (t : BridgeRoutes) (r : BridgeRoute)
    → IsValid t
    → (set_route t r).0 ≡ true
    → (a b : BridgeEndpoint)
    → route_between (set_route t r).1 a b
      ≡ (if equals r.source a && equals r.destination b then some r else route_between t a b)
set_route_lem t r v ok a b = found v (set_route-Set t r v) ok a b

-- In a valid table, removing the route between two endpoints leaves none between them, and between
-- all others what was found before.
remove_lem :
    (t : BridgeRoutes) (x y a b : BridgeEndpoint)
    → IsValid t
    → route_between (remove t x y).1 a b
      ≡ (if equals x a && equals y b then none else route_between t a b)
unfolding remove find_route find_route_index
remove_lem t x y a b v = elim (Option-cases (find_index (is_route x y) t.slots)) [
  | inl miss ↦ elim (Bool-cases (equals x a && equals y b)) [
    | inl mine ↦
        let gone = fresh_key t x y a b (count-zero_of_none (is_route x y) t.slots miss) mine in
        rw (miss, mine, remove, find-none_of_count (is_route a b) t.slots gone) refl
    | inr other ↦ rw (miss, other, remove) refl
  ]
  | inr (i, hit) ↦
      let (inside, there) = find_index_sound (is_route x y) t.slots blank hit in
      let key = same_key x y (get_or t.slots i blank) there a b in
      elim (Bool-cases (equals x a && equals y b)) [
        | inl mine ↦
            let gone : count (is_route a b) (set t.slots i blank) ≡ 0 =
              ground (
                arith,
                key,
                mine,
                v.distinct a b,
                count-set (is_route a b) t.slots i blank blank,
              ) in
            rw (hit, mine, remove, find-none_of_count (is_route a b) (set t.slots i blank) gone)
              refl
        | inr other ↦
            rw
              (
                hit,
                other,
                remove,
                find-set-false (is_route a b) t.slots i blank blank (key ∙ other) refl,
              )
              refl
      ]
]

-- Setting a route succeeds exactly for a valid route that the table has room for.
set_route_result :
    (t : BridgeRoutes) (r : BridgeRoute) → (set_route t r).0 ≡ (is_route_valid r && has_room t r)
unfolding set_route has_room choose_index
set_route_result t r = elim (Bool-cases (is_route_valid r)) [
  | inr bad ↦ rw (bad, set_route) refl
  | inl ok ↦ elim (Option-cases (find_route_index t r.source r.destination)) [
    | inr (i, hit) ↦ rw (ok, hit, set_route) refl
    | inl miss ↦ elim (Option-cases (free_index t)) [
      | inl full ↦ rw (ok, miss, full, set_route) refl
      | inr (i, free) ↦ rw (ok, miss, free, set_route) refl
    ]
  ]
]

-- The slots in use, in the order of the table.
in_use_slots : List BridgeRouteSlot → List BridgeRouteSlot
in_use_slots [] = []
in_use_slots (s ∷ rest) = if s.in_use then s ∷ in_use_slots rest else in_use_slots rest

-- Paging by position lists the slots in use in the order of the table, and ends after the last.
nth_lem :
    (t : BridgeRoutes) (position : ℕ) → nth t position ≡ get_elem? (in_use_slots t.slots) position
unfolding nth nth_from in_use_slots
nth_lem t position = paged t.slots position
  where
    paged : (xs : List BridgeRouteSlot) (k : ℕ) → nth_from xs k ≡ get_elem? (in_use_slots xs) k
    paged [] k = refl
    paged (s ∷ rest) zero = ground (arith, paged rest zero)
    paged (s ∷ rest) (suc k) = ground (arith, paged rest k, paged rest (suc k))
