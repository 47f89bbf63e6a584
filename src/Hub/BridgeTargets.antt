-- ===== src/Hub/BridgeTargets.antt =====
-- Where a frame captured on a bus is injected (src/hub/domain/bridge_targets.c). The two counter
-- pointers of a target are the slot that they point into.
use can_hub.Base.{
  ℕ, zero, suc, ◌+◌, Bool, true, false, not, ◌||◌, List, [], ◌∷◌, ◌++◌, Option, none, some, ◌==◌,
  if◌then◌else◌, is_some, length, find_index,
}
use can_hub.Hub.BridgeRoutes.{
  BridgeEndpoint, BridgeRoutes, BridgeRouteSlot, routes_max, equals, route_passes,
}
use can_hub.Hub.BridgeRoutes
use can_hub.Hub.BridgeGroups.{
  BridgeGroups, BridgeGroupSlot, BridgeGroupMember, groups_max, joined, carries, receives,
}
use can_hub.Hub.BridgeGroups
pub mod Reached
pub mod Tests

-- BRIDGE_TARGETS_MAX
abbrev targets_max : ℕ
targets_max = 320

-- The slot whose counters are charged.
pub data Charged : Type 0 where
  by_route : ℕ → Charged
  by_group : ℕ → Charged

pub record BridgeTarget : Type 0 where
  pub destination : BridgeEndpoint
  pub charged : Charged

abbrev pub is_target : BridgeEndpoint → BridgeTarget → Bool
is_target e t = equals t.destination e

pub add_target : List BridgeTarget → BridgeEndpoint → BridgeEndpoint → Charged → List BridgeTarget
add_target targets source destination charged =
    if equals destination source || length targets == targets_max
    then targets
    else if is_some (find_index (is_target destination) targets)
    then targets
    else targets ++ (record { destination = destination; charged = charged } ∷ [])

-- One turn of the loop over the routes.
pub reach_route :
    ℕ → BridgeEndpoint → ℕ → Option BridgeRouteSlot → List BridgeTarget → List BridgeTarget
reach_route i source can_id none targets = targets
reach_route i source can_id (some s) targets =
    if not (equals s.route.source source)
    then targets
    else if route_passes s.route can_id
    then add_target targets source s.route.destination (by_route i)
    else targets

-- The loop from slot `i` on, by the turns left.
pub collect_routes :
    ℕ → ℕ → BridgeRoutes → BridgeEndpoint → ℕ → List BridgeTarget → List BridgeTarget
collect_routes zero i routes source can_id targets = targets
collect_routes (suc left) i routes source can_id targets =
    collect_routes left (i + 1) routes source can_id
      (reach_route i source can_id (BridgeRoutes.slot routes i) targets)

-- The loop over the members of a group.
pub collect_members :
    ℕ → BridgeEndpoint → List BridgeGroupMember → List BridgeTarget → List BridgeTarget
collect_members i source [] targets = targets
collect_members i source (m ∷ rest) targets =
    collect_members i source rest
      (if receives m then add_target targets source m.endpoint (by_group i) else targets)

pub reach_group :
    ℕ → BridgeEndpoint → ℕ → Option BridgeGroupSlot → List BridgeTarget → List BridgeTarget
reach_group i source can_id none targets = targets
reach_group i source can_id (some s) targets =
    if not (carries s.group source can_id)
    then targets
    else collect_members i source (joined s.group) targets

pub collect_groups :
    ℕ → ℕ → BridgeGroups → BridgeEndpoint → ℕ → List BridgeTarget → List BridgeTarget
collect_groups zero i groups source can_id targets = targets
collect_groups (suc left) i groups source can_id targets =
    collect_groups left (i + 1) groups source can_id
      (reach_group i source can_id (BridgeGroups.slot groups i) targets)

pub collect : BridgeRoutes → BridgeGroups → BridgeEndpoint → ℕ → List BridgeTarget
collect routes groups source can_id =
    collect_groups groups_max 0 groups source can_id
      (collect_routes routes_max 0 routes source can_id [])
