-- ===== src/Hub/BridgeRoutes/Tests.antt =====
-- A table with one route, from bus 1 of an agent to its bus 2.
use mathlib.Core.Option
use can_hub.Base.{
  ◌≡◌, refl, true, false, [], ◌∷◌, none, some, ◌&&◌, if◌then◌else◌, find, find_index, str_eq,
}
use can_hub.Hub.ClientSession.{matches_filter}
use can_hub.Hub.BridgeRoutes.{
  BridgeEndpoint, BridgeRoute, BridgeRoutes, is_route_valid, is_named, equals, names, filters_pass,
  route_passes, reset, set_route, store_route, choose_index, find_route_index, free_index, remove,
  find_route, is_empty, slot,
}
use can_hub.Hub.BridgeRoutes.Invariant.{
  IsValid, Set, set_route-Set, reset-IsValid, here, next, setting, removing, routes_reached-IsValid,
}
use can_hub.Hub.BridgeRoutes.Lookup.{route_between, set_route_lem}

abbrev pub bus1 : BridgeEndpoint
bus1 = record { agent_name = b'a' ∷ []; interface_name = b'1' ∷ [] }

abbrev bus2 : BridgeEndpoint
bus2 = record { agent_name = b'a' ∷ []; interface_name = b'2' ∷ [] }

-- Standard identifiers 0x100 to 0x1FF only.
abbrev low_ids : BridgeRoute
low_ids = record {
  source = bus1;
  destination = bus2;
  filter_count = 1;
  filters = record { can_id = 0x100; can_mask = 0x700 } ∷ [];
}

pub one_route : BridgeRoutes
one_route = (set_route reset low_ids).1

one_route_runs :
    ((set_route reset low_ids).0 ≡ true)
    × (is_empty one_route ≡ false)
    × (is_empty (remove one_route bus1 bus2).1 ≡ true)
    × (route_between one_route bus1 bus2 ≡ some low_ids)
    × (route_passes low_ids 0x123 ≡ true)
    × (route_passes low_ids 0x223 ≡ false)
    × (Option.map (λ s. s.route) (slot one_route 0) ≡ some low_ids)
    × (slot one_route 1 ≡ none)
unfolding one_route set_route is_route_valid is_named equals names str_eq choose_index
    find_route_index free_index find_index store_route reset is_empty remove find_route find
    route_passes filters_pass matches_filter slot
one_route_runs = (refl, refl, refl, refl, refl, refl, refl, refl)

one_route-IsValid : IsValid one_route
unfolding one_route
one_route-IsValid = routes_reached-IsValid (next here (setting low_ids))

routes_reached-IsValid_example : IsValid (remove one_route bus1 bus2).1
unfolding one_route
routes_reached-IsValid_example =
    routes_reached-IsValid (next (next here (setting low_ids)) (removing bus1 bus2))

set_route-Set_example : Set one_route low_ids (set_route one_route low_ids)
set_route-Set_example = set_route-Set one_route low_ids one_route-IsValid

set_route_lem_example :
    route_between (set_route reset low_ids).1 bus1 bus2
    ≡ (if equals bus1 bus1 && equals bus2 bus2 then some low_ids else route_between reset bus1 bus2)
unfolding set_route is_route_valid is_named equals names str_eq choose_index find_route_index
    free_index find_index reset
set_route_lem_example = set_route_lem reset low_ids reset-IsValid refl bus1 bus2
