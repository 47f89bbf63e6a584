-- ===== src/Hub/TransactionTable/Invariant.antt =====
-- The invariant of the transaction table and its preservation.
use can_hub.Base.{
  ℕ, ◌+◌, ◌≤◌, ◌<◌, ◌≡◌, refl, ◌∙◌, ◌⊎◌, inl, inr, Bool, true, not, ◌&&◌, arith, ◌==◌,
  if◌then◌else◌, length, get_or, set, find_index, count, count-set, count-le-length, count-pos,
  count-replicate-false, count-zero_of_none, find_index_sound, length-set, length-replicate,
  Option-cases, Bool-cases,
}
use can_hub.Hub.TransactionTable.{
  TransactionTable, RelayedTransaction, blank, state_pending, is_in_use, holds_lease, reset,
  for_agent, open_entry, activate, close,
}

abbrev serves : ℕ → RelayedTransaction → Bool
serves agent_peer_id t = is_in_use t && t.agent_peer_id == agent_peer_id

pub record IsValid (s : TransactionTable) : Type 0 where
  pub sized : length s.entries ≡ 512
  pub leases : s.active_leases ≡ count holds_lease s.entries
  pub one_per_agent : (agent_peer_id : ℕ) → count (serves agent_peer_id) s.entries ≤ 1

pub reset-IsValid : IsValid reset
unfolding reset
reset-IsValid = record {
  sized = length-replicate 512 blank;
  leases = omega (arith, count-replicate-false holds_lease 512 blank refl);
  one_per_agent = λ a. omega (arith, count-replicate-false (serves a) 512 blank refl);
}

-- A table with one entry replaced, which leaves the lease counter right.
module _ {s : TransactionTable} (v : IsValid s) (i n : ℕ) (t : RelayedTransaction)
    (inside : i < 512) where
  replace-IsValid :
      n + (if holds_lease (get_or s.entries i blank) then 1 else 0)
        ≡ s.active_leases + (if holds_lease t then 1 else 0)
      → ((a : ℕ)
          → serves a t ≡ true
          → (serves a (get_or s.entries i blank) ≡ true) ⊎ (count (serves a) s.entries ≡ 0))
      → IsValid (record s { entries = set s.entries i t; active_leases = n })
  replace-IsValid e one = record {
    sized = length-set s.entries i t ∙ v.sized;
    leases =
        omega (arith, count-set holds_lease s.entries i t blank (omega (arith, v.sized)), v.leases);
    one_per_agent = λ a. elim (Bool-cases (serves a t)) [
      | inl yes_serves ↦ elim (one a yes_serves) [
        | inl old ↦ ground (
          arith,
          v.one_per_agent a,
          count-set (serves a) s.entries i t blank (omega (arith, v.sized)),
        )
        | inr free ↦
            ground (arith, count-set (serves a) s.entries i t blank (omega (arith, v.sized)))
      ]
      | inr no_serves ↦ ground (
        arith,
        v.one_per_agent a,
        count-set (serves a) s.entries i t blank (omega (arith, v.sized)),
      )
    ];
  }

-- What `TransactionTable_Open` does, on each of its three ways out: refuse a second transaction of
-- an agent, refuse for want of a free entry, or store the request as pending in a free entry.
open_entry-IsValid :
    (s : TransactionTable) (request : RelayedTransaction)
    → IsValid s
    → IsValid (open_entry s request).1
unfolding open_entry for_agent
open_entry-IsValid s request v =
    elim (Option-cases (find_index (serves request.agent_peer_id) s.entries)) [
      | inr (j, busy) ↦ rw busy v
      | inl idle ↦ elim (Option-cases (find_index (λ t. not (is_in_use t)) s.entries)) [
        | inl full ↦ rw (idle, full) v
        | inr (i, free) ↦
            let (inside, unused) = find_index_sound (λ t. not (is_in_use t)) s.entries blank free in
            rw (idle, free)
              (replace-IsValid v i s.active_leases (record request { state = state_pending })
                (omega (arith, v.sized)) (ground (arith, unused))
                (λ a h. inr (
                  ground
                    (arith, h, count-zero_of_none (serves request.agent_peer_id) s.entries idle))))
      ]
    ]

-- A pending entry made active keeps the table valid; an exclusive one adds a lease.
activate-IsValid :
    (s : TransactionTable) (i txn_id : ℕ)
    → IsValid s
    → i < 512
    → (get_or s.entries i blank).state ≡ state_pending
    → IsValid (activate s i txn_id)
unfolding activate
activate-IsValid s i txn_id v inside pending =
    replace-IsValid v i _ _ inside
      (ground (arith, pending, v.leases, v.sized, count-le-length holds_lease s.entries))
      (λ a h. inl (ground (arith, h, pending)))

-- Closing an entry, in use or not, keeps it valid; a lease held goes.
close-IsValid : (s : TransactionTable) (i : ℕ) → IsValid s → i < 512 → IsValid (close s i)
unfolding close
close-IsValid s i v inside =
    replace-IsValid v i _ blank inside
      (ground (
        arith,
        v.leases,
        v.sized,
        count-le-length holds_lease s.entries,
        count-pos holds_lease s.entries i blank,
      ))
      (λ a h. absurd (ground arith))

-- The calls that the broker makes, in any order: an entry is activated when it is pending, which
-- broker.c sees to and the table does not.
pub data Step (s : TransactionTable) : TransactionTable → Type 0 where
  opening : (request : RelayedTransaction) → Step s (open_entry s request).1
  activating :
      (i txn_id : ℕ)
      → i < 512
      → (get_or s.entries i blank).state ≡ state_pending
      → Step s (activate s i txn_id)
  closing : (i : ℕ) → i < 512 → Step s (close s i)

pub data Reach (s : TransactionTable) : TransactionTable → Type 0 where
  here : Reach s s
  next : {t u : TransactionTable} → Reach s t → Step t u → Reach s u

Step-IsValid : {s t : TransactionTable} → Step s t → IsValid s → IsValid t
Step-IsValid {s} (opening request) v = open_entry-IsValid s request v
Step-IsValid {s} (activating i txn_id inside pending) v =
    activate-IsValid s i txn_id v inside pending
Step-IsValid {s} (closing i inside) v = close-IsValid s i v inside

IsValid-Reach : {s t : TransactionTable} → IsValid s → Reach s t → IsValid t
IsValid-Reach v here = v
IsValid-Reach v (next r step) = Step-IsValid step (IsValid-Reach v r)

-- In every table reached from an empty one by opening any request, activating an entry that is
-- pending then and closing any of the 512 entries, in any order, the lease counter is the number of
-- active exclusive entries, which is at most 512, and no agent has two entries.
pub Reach-IsValid : {s : TransactionTable} → Reach reset s → IsValid s × (s.active_leases ≤ 512)
Reach-IsValid {s} r =
    let v = IsValid-Reach reset-IsValid r in
    (v, omega (arith, v.leases, v.sized, count-le-length holds_lease s.entries))
