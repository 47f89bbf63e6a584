-- ===== src/Hub/TransactionTable/Tests.antt =====
-- One exclusive transaction of client 7 on interface 3, opened, activated and closed.
use mathlib.Core.Option
use can_hub.Base.{◌≤◌, ◌≡◌, refl, true, ◌&&◌, some, arith, ◌==◌, get_or, find_index}
use can_hub.Hub.TransactionTable.{
  TransactionTable, RelayedTransaction, blank, holds_lease, reset, open_entry, activate, for_agent,
  lease_holder, for_client_channel,
}
use can_hub.Hub.TransactionTable.Invariant.{
  IsValid, Reach, here, next, opening, activating, Reach-IsValid,
}
use can_hub.Hub.TransactionTable.Leases.{on_channel, lease_holder_lem, for_client_channel_lem}

abbrev request : RelayedTransaction
request = record blank {
  exclusive = true;
  interface_id = 3;
  agent_peer_id = 5;
  client_peer_id = 7;
  client_channel = 1;
}

opened : TransactionTable
opened = (open_entry reset request).1

leased : TransactionTable
unfolding opened
leased = activate opened 0 42

leased-Reach : Reach reset leased
unfolding leased reset open_entry for_agent find_index
leased-Reach = next (next here (opening request)) (activating 0 42 (omega arith) refl)

Reach-IsValid_example : IsValid leased × (leased.active_leases ≤ 512)
Reach-IsValid_example = Reach-IsValid leased-Reach

leased-IsValid : IsValid leased
leased-IsValid = (Reach-IsValid leased-Reach).0

lease_holder_runs : lease_holder leased 3 ≡ some 7
unfolding leased reset open_entry for_agent find_index activate lease_holder
lease_holder_runs = refl

lease_holder_lem_example :
    lease_holder leased 3
    ≡ Option.map
        (λ i. (get_or leased.entries i blank).client_peer_id)
        (find_index (λ t. holds_lease t && t.interface_id == 3) leased.entries)
lease_holder_lem_example = lease_holder_lem leased 3 leased-IsValid

for_client_channel_lem_example :
    for_client_channel leased 7 1 ≡ find_index (on_channel 7 1) leased.entries
for_client_channel_lem_example = for_client_channel_lem leased 7 1
