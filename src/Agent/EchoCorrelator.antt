-- ===== src/Agent/EchoCorrelator.antt =====
-- src/agent/domain/echo_correlator.{h,c}: the injected frames that wait for their bus echo, a ring
-- for each interface.
pub mod Refine
pub mod Operations
pub mod Others
mod Tests
use can_hub.Base.{
  ℕ, zero, suc, ◌+◌, ◌-◌, ◌%◌, Bool, List, [], Option, none, some, ltb, leb, ◌==◌, if◌then◌else◌,
  get_or, set, replicate,
}

abbrev pending_max : ℕ
pending_max = 32

-- REGISTER_INTERFACES_MAX
abbrev pub interfaces_max : ℕ
interfaces_max = 16

pub record EchoCorrelator : Type 0 where
  pub tokens : List (List ℕ)
  pub can_ids : List (List ℕ)
  pub head : List ℕ
  pub count : List ℕ

pub reset : EchoCorrelator
reset = record {
  tokens = replicate interfaces_max (replicate pending_max 0);
  can_ids = replicate interfaces_max (replicate pending_max 0);
  head = replicate interfaces_max 0;
  count = replicate interfaces_max 0;
}

abbrev row : List (List ℕ) → ℕ → List ℕ
row xs i = get_or xs i []

pub slot_at : EchoCorrelator → ℕ → ℕ → ℕ
slot_at c interface_index position = (get_or c.head interface_index 0 + position) % pending_max

pub drop_oldest : EchoCorrelator → ℕ → EchoCorrelator
drop_oldest c i = record c {
  head = set c.head i ((get_or c.head i 0 + 1) % pending_max);
  count = set c.count i ((get_or c.count i 0 + 256 - 1) % 256);
}

-- `EchoCorrelator_Push` once there is room.
pub store : EchoCorrelator → ℕ → ℕ → ℕ → EchoCorrelator
unfolding slot_at
store c i token can_id =
    let slot = slot_at c i (get_or c.count i 0) in
    record c {
      tokens = set c.tokens i (set (row c.tokens i) slot token);
      can_ids = set c.can_ids i (set (row c.can_ids i) slot can_id);
      count = set c.count i ((get_or c.count i 0 + 1) % 256);
    }

pub push : EchoCorrelator → ℕ → ℕ → ℕ → EchoCorrelator
push c interface_index token can_id =
    if leb interfaces_max interface_index
    then c
    else store
        (if get_or c.count interface_index 0 == pending_max
          then drop_oldest c interface_index
          else c)
        interface_index token can_id

pub drop_newest : EchoCorrelator → ℕ → EchoCorrelator
drop_newest c i =
    if leb interfaces_max i
    then c
    else if get_or c.count i 0 == 0
    then c
    else record c { count = set c.count i ((get_or c.count i 0 + 256 - 1) % 256) }

-- The loop of `EchoCorrelator_PopMatch` over the positions left.
pub find_position : EchoCorrelator → ℕ → ℕ → ℕ → ℕ → Option ℕ
unfolding slot_at
find_position c i can_id zero position = none
find_position c i can_id (suc left) position =
    if get_or (row c.can_ids i) (slot_at c i position) 0 == can_id
    then some position
    else find_position c i can_id left (position + 1)

-- Dropping the entries up to a position, that one included.
pub drop_through : EchoCorrelator → ℕ → ℕ → EchoCorrelator
unfolding slot_at
drop_through c i position = record c {
  head = set c.head i ((slot_at c i position + 1) % pending_max);
  count = set c.count i ((get_or c.count i 0 + 256 - (position + 1)) % 256);
}

-- The token that `*token` receives, if the call returns true.
pub pop_match : EchoCorrelator → ℕ → ℕ → Option ℕ × EchoCorrelator
pop_match c i can_id =
    if leb interfaces_max i
    then (none, c)
    else (elim (find_position c i can_id (get_or c.count i 0) 0) [
      | none ↦ (none, c)
      | some position ↦
          (some (get_or (row c.tokens i) (slot_at c i position) 0), drop_through c i position)
    ])
