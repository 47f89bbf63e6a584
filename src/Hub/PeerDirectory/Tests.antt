-- ===== src/Hub/PeerDirectory/Tests.antt =====
-- Runs of the directory and of a peer, and the theorems at concrete directories.
use can_hub.Base.{
  ℕ, ◌≡◌, refl, [], ◌∷◌, none, some, true, false, length, find_index, str_eq, page, best_from,
  if◌then◌else◌, ◌==◌,
}
use can_hub.Hub.HubPeer.{
  HubPeer, blank, adopt_role, set_agent_name, is_same_agent, is_same_plaintext_agent, displacement,
  is_unidentified, fill_admin_entry, zeroed_egress,
}
use can_hub.Hub.PeerDirectory.{
  PeerDirectory, reset, allocate, release, find_peer, at, find_agent_by_name, find_displaceable,
  find_displaceable_agent, displaces_before, count_peers, is_full, count_role,
  count_awaiting_hello_from, list_from,
}
use can_hub.Hub.PeerDirectory.Lookup.{reset-IsValid, allocate_found}
use can_hub.Hub.PeerDirectory.Displaced.{Displaced, find_displaceable_lem}
use can_hub.Hub.ClientSession.{holds_channels}
use can_hub.Hub.ClientSession

abbrev stranger : HubPeer
stranger = record blank { in_use = true; role = 2; fingerprint_hex = 97 ∷ []; connected_at_us = 5 }

abbrev agent : HubPeer
agent = record stranger { role = 1; agent_name = 65 ∷ []; connected_at_us = 9 }

abbrev small : PeerDirectory
small = record { peers = stranger ∷ agent ∷ record stranger { connected_at_us = 7 } ∷ blank ∷ [] }

-- The later of the two idle clients goes first, the agent only where an agent is looked for.
displaced :
    (find_displaceable small ≡ some 2)
    × (find_displaceable_agent small ≡ some 1)
    × (find_agent_by_name small (65 ∷ []) ≡ some 1)
    × (at small 3 ≡ none)
    × (count_peers small ≡ 3)
    × (is_full small ≡ false)
    × (count_role small 2 ≡ 2)
    × (count_awaiting_hello_from small [] ≡ 0)
    × (length (list_from small 1 8000000).0 ≡ 2)
unfolding find_displaceable find_displaceable_agent find_agent_by_name at count_peers is_full
    count_role count_awaiting_hello_from list_from displaces_before displacement is_unidentified
    holds_channels best_from page find_index str_eq ClientSession.reset fill_admin_entry
displaced = (refl, refl, refl, refl, refl, refl, refl, refl, refl)

peers :
    ((adopt_role stranger 3).0 ≡ false)
    × ((adopt_role stranger 1).1.role ≡ 1)
    × ((set_agent_name stranger (66 ∷ [])).agent_name ≡ 66 ∷ [])
    × (is_same_agent stranger agent ≡ true)
    × (is_same_agent blank blank ≡ false)
    × ((fill_admin_entry 9000005 stranger).uptime_seconds ≡ 9)
    × (zeroed_egress.free_head ≡ 0)
unfolding adopt_role set_agent_name is_same_agent is_same_plaintext_agent fill_admin_entry str_eq
    zeroed_egress
peers = (refl, refl, refl, refl, refl, refl, refl)

nobody : find_peer reset 7 ≡ none
unfolding find_peer reset find_index
nobody = refl

first_slot : (allocate reset 7).0 ≡ some 0
unfolding allocate reset find_index
first_slot = refl

allocate_found_example :
    ((id : ℕ)
      → find_peer (allocate reset 7).1 id ≡ (if id == 7 then some 0 else find_peer reset id))
    × (release (allocate reset 7).1 7 ≡ reset)
allocate_found_example = allocate_found reset 7 0 reset-IsValid nobody first_slot

find_displaceable_lem_example : Displaced small (find_displaceable small)
find_displaceable_lem_example = find_displaceable_lem small
