-- ===== src/Hub/BridgeTargets/Tests.antt =====
-- Three buses: a route from bus 1 to bus 2, and a group of buses 1 and 3.
use can_hub.Hub.BridgeRoutes.Tests.{bus1, one_route}
use can_hub.Hub.BridgeGroups.Tests.{one_group, one_group-IsValid}
use can_hub.Hub.BridgeTargets.{collect}
use can_hub.Hub.BridgeTargets.Reached.{AreTargets, collect_lem}

collect_lem_example : AreTargets bus1 (collect one_route one_group bus1 0x123)
collect_lem_example = (collect_lem one_route one_group bus1 0x123 one_group-IsValid).0
