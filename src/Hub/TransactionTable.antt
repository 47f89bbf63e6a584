-- ===== src/Hub/TransactionTable.antt =====
-- src/hub/domain/transaction_table.{h,c}: the transactions that the hub relays. A pointer to an
-- entry is the entry's index.
pub mod Invariant
pub mod Leases
mod Tests
use can_hub.Base.{
  ℕ, zero, suc, ◌+◌, ◌-◌, ◌%◌, ◌^◌, Bool, true, false, not, ◌&&◌, List, [], ◌∷◌, Option, none, some,
  ltb, leb, ◌==◌, if◌then◌else◌, get_or, set, drop, replicate, find_index, is_some, length,
}

-- TRANSACTION_TABLE_MAX: PEER_DIRECTORY_MAX, which is HUB_PEERS_MAX of hub_transport_port.h.
abbrev table_max : ℕ
table_max = 512

-- `TTRANSACTION_RELAY_STATE`
abbrev state_free : ℕ
state_free = 0

abbrev pub state_pending : ℕ
state_pending = 1

abbrev state_active : ℕ
state_active = 2

pub record RelayedTransaction : Type 0 where
  pub state : ℕ
  pub exclusive : Bool
  pub txn_id : ℕ
  pub interface_id : ℕ
  pub agent_peer_id : ℕ
  pub agent_channel : ℕ
  pub client_peer_id : ℕ
  pub client_channel : ℕ
  pub started_at_us : ℕ
  pub last_progress_us : ℕ
  pub completed_steps : ℕ
  pub relayed_bytes : ℕ
  pub consumed_bytes : ℕ

-- All bytes zero.
abbrev pub blank : RelayedTransaction
blank = record {
  state = 0;
  exclusive = false;
  txn_id = 0;
  interface_id = 0;
  agent_peer_id = 0;
  agent_channel = 0;
  client_peer_id = 0;
  client_channel = 0;
  started_at_us = 0;
  last_progress_us = 0;
  completed_steps = 0;
  relayed_bytes = 0;
  consumed_bytes = 0;
}

pub record TransactionTable : Type 0 where
  pub entries : List RelayedTransaction
  pub active_leases : ℕ

pub reset : TransactionTable
reset = record { entries = replicate table_max blank; active_leases = 0 }

abbrev pub is_in_use : RelayedTransaction → Bool
is_in_use t = not (t.state == state_free)

abbrev pub holds_lease : RelayedTransaction → Bool
holds_lease t = t.state == state_active && t.exclusive

pub for_agent : TransactionTable → ℕ → Option ℕ
for_agent s agent_peer_id =
    find_index (λ t. is_in_use t && t.agent_peer_id == agent_peer_id) s.entries

-- The entry opened, and the table with it.
pub open_entry : TransactionTable → RelayedTransaction → Option ℕ × TransactionTable
open_entry s request =
    if is_some (for_agent s request.agent_peer_id)
    then (none, s)
    else (elim (find_index (λ t. not (is_in_use t)) s.entries) [
      | none ↦ (none, s)
      | some i ↦ (
        some i,
        record s { entries = set s.entries i (record request { state = state_pending }) },
      )
    ])

pub activate : TransactionTable → ℕ → ℕ → TransactionTable
activate s transaction txn_id =
    let t = get_or s.entries transaction blank in
    record s {
      entries = set s.entries transaction (record t { state = state_active; txn_id = txn_id });
      active_leases = if t.exclusive then (s.active_leases + 1) % 2 ^ 16 else s.active_leases;
    }

pub close : TransactionTable → ℕ → TransactionTable
close s transaction = record s {
  active_leases =
      if holds_lease (get_or s.entries transaction blank)
      then (s.active_leases + 2 ^ 16 - 1) % 2 ^ 16
      else s.active_leases;
  entries = set s.entries transaction blank;
}

-- The loop of `TransactionTable_NextForClient` from the iterator on: the entry found, if any, and
-- the iterator afterwards.
next_from : ℕ → List RelayedTransaction → ℕ → Option ℕ × ℕ
next_from client_peer_id [] i = (none, i)
next_from client_peer_id (t ∷ rest) i =
    if is_in_use t && t.client_peer_id == client_peer_id
    then (some i, i + 1)
    else next_from client_peer_id rest (i + 1)

pub next_for_client : TransactionTable → ℕ → ℕ → Option ℕ × ℕ
next_for_client s client_peer_id iterator =
    next_from client_peer_id (drop iterator s.entries) iterator

-- One round of `TransactionTable_ForClientChannel`: what the iterator gave, and the next round.
try_found : TransactionTable → ℕ → (ℕ → Option ℕ) → Option ℕ × ℕ → Option ℕ
try_found s client_channel next_round (none, next) = none
try_found s client_channel next_round (some i, next) =
    elim ((get_or s.entries i blank).client_channel == client_channel) [
      | true ↦ some i
      | false ↦ next_round next
    ]

-- The loop, on fuel: each round moves the iterator.
for_client_channel_from : ℕ → TransactionTable → ℕ → ℕ → ℕ → Option ℕ
unfolding try_found
for_client_channel_from zero s client_peer_id client_channel iterator = none
for_client_channel_from (suc fuel) s client_peer_id client_channel iterator =
    try_found s client_channel
      (λ next. for_client_channel_from fuel s client_peer_id client_channel next)
      (next_for_client s client_peer_id iterator)

pub for_client_channel : TransactionTable → ℕ → ℕ → Option ℕ
for_client_channel s client_peer_id client_channel =
    for_client_channel_from (length s.entries + 1) s client_peer_id client_channel 0

any_lease : TransactionTable → Bool
any_lease s = ltb 0 s.active_leases

-- The client that `*client_peer_id` receives, if the call returns true.
pub lease_holder : TransactionTable → ℕ → Option ℕ
unfolding any_lease
lease_holder s interface_id =
    if not (any_lease s)
    then none
    else (elim (find_index (λ t. holds_lease t && t.interface_id == interface_id) s.entries) [
      | none ↦ none
      | some i ↦ some (get_or s.entries i blank).client_peer_id
    ])
