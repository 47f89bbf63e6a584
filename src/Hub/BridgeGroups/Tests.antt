-- ===== src/Hub/BridgeGroups/Tests.antt =====
-- A group of two buses.
use can_hub.Base.{◌≡◌, refl, true, false, [], ◌∷◌, none, find_index, str_eq, Text}
use can_hub.Hub.BridgeRoutes.{BridgeEndpoint, filters_pass, equals, names, is_named}
use can_hub.Hub.BridgeRoutes.Tests.{bus1}
use can_hub.Hub.BridgeGroups.{
  BridgeGroup, BridgeGroupMember, BridgeGroups, blank, no_member, is_name_valid, is_name_valid_from,
  set_group, store_group, with_filters, choose_index, find_group_index, free_index, reset, join,
  join_group, leave, leave_group, member_index, is_member_valid, is_empty, has_room, restore,
  join_all, nth, nth_from, remove, find_group, carries, receives,
}
use can_hub.Hub.BridgeGroups.Invariant.{
  IsValid, here, next, setting, joining, leaving, groups_reached-IsValid,
}

abbrev bus3 : BridgeEndpoint
bus3 = record { agent_name = b'b' ∷ []; interface_name = b'3' ∷ [] }

abbrev twins : Text
twins = b't' ∷ b'w' ∷ []

abbrev member : BridgeEndpoint → BridgeGroupMember
member e = record no_member { endpoint = e }

pub one_group : BridgeGroups
one_group = (join (join (set_group reset twins 0 []).1 twins (member bus1)).1 twins (member bus3)).1

pub one_group-IsValid : IsValid one_group
unfolding one_group
one_group-IsValid = groups_reached-IsValid (
    next (next (next here (setting twins 0 [])) (joining twins (member bus1)))
      (joining twins (member bus3)))

groups_reached-IsValid_example : IsValid (leave one_group twins bus1).1
unfolding one_group
groups_reached-IsValid_example = groups_reached-IsValid (
    next
      (next (next (next here (setting twins 0 [])) (joining twins (member bus1)))
        (joining twins (member bus3)))
      (leaving twins bus1))

one_group_runs :
    (is_empty one_group ≡ false)
    × ((leave one_group twins bus1).0 ≡ true)
    × ((leave (leave one_group twins bus1).1 twins bus1).0 ≡ false)
    × ((remove one_group twins).0 ≡ true)
    × (has_room one_group twins ≡ true)
    × (nth one_group 1 ≡ none)
    × (find_group one_group [] ≡ none)
    × ((restore reset
          (record blank.group { name = twins; member_count = 1; members = member bus3 ∷ [] })).0
        ≡ true)
unfolding one_group join set_group is_name_valid is_name_valid_from choose_index find_group_index
    free_index find_index store_group with_filters reset join_group member_index is_member_valid
    is_named equals names str_eq is_empty leave leave_group remove has_room nth nth_from find_group
    restore join_all
one_group_runs = (refl, refl, refl, refl, refl, refl, refl, refl)

-- A member that only receives: its own frames stay home.
abbrev listener : BridgeGroup
listener = record blank.group {
  member_count = 1;
  members = record (member bus3) { direction = 2 } ∷ [];
}

listener_runs :
    (carries listener bus3 0x123 ≡ false)
    × (carries (record listener { members = member bus3 ∷ [] }) bus3 0x123 ≡ true)
    × (receives (record (member bus3) { direction = 2 }) ≡ true)
    × (receives (record (member bus3) { direction = 1 }) ≡ false)
unfolding carries receives member_index find_index equals names str_eq filters_pass
listener_runs = (refl, refl, refl, refl)
