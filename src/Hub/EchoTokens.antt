-- ===== src/Hub/EchoTokens.antt =====
-- src/hub/domain/echo_tokens.{h,c}: which client a token of an agent's echoes names.
pub mod Attribution
pub mod Release
mod Tests
use can_hub.Base.{
  ℕ, zero, suc, ◌+◌, ◌-◌, ◌*◌, ◌/◌, ◌%◌, Bool, not, ◌&&◌, List, Option, none, some, ltb, leb, ◌==◌,
  if◌then◌else◌, get_or, set, replicate, find_index, bit_and,
}

-- FRAME_ROUTE_TOKEN_VALUES_MAX, (0xFC >> 2)
abbrev token_values_max : ℕ
token_values_max = 63

abbrev no_owner : ℕ
no_owner = 0

-- FRAME_ROUTE_NO_TOKEN
abbrev no_token : ℕ
no_token = 0

abbrev route_flag_echo : ℕ
route_flag_echo = 2

abbrev route_token_mask : ℕ
route_token_mask = 0xFC

pub record EchoTokens : Type 0 where
  pub owner_peer_ids : List ℕ
  pub next_index : ℕ

pub reset : EchoTokens
reset = record { owner_peer_ids = replicate token_values_max 0; next_index = 0 }

pub find_owner_index : EchoTokens → ℕ → Option ℕ
find_owner_index s client_peer_id = find_index (λ owner. owner == client_peer_id) s.owner_peer_ids

-- The loop of `claimFreeIndex`, by the rounds left.
pub claim_from : EchoTokens → ℕ → ℕ → Option ℕ
claim_from s zero i = none
claim_from s (suc left) i =
    let candidate = (s.next_index + i) % token_values_max in
    if get_or s.owner_peer_ids candidate 0 == no_owner
    then some candidate
    else claim_from s left (i + 1)

claim_free_index : EchoTokens → Option ℕ × EchoTokens
claim_free_index s = elim (claim_from s token_values_max 0) [
  | none ↦ (none, s)
  | some candidate ↦ (some candidate, record s { next_index = (candidate + 1) % token_values_max })
]

-- The last statements of `EchoTokens_Issue`, on what was claimed.
enter : ℕ → Option ℕ × EchoTokens → ℕ × EchoTokens
enter client_peer_id (none, s) = (no_token, s)
enter client_peer_id (some index, s) =
    ((index + 1) % 256, record s { owner_peer_ids = set s.owner_peer_ids index client_peer_id })

-- The token, and the table with the client entered.
pub issue : EchoTokens → ℕ → ℕ × EchoTokens
unfolding enter
issue s client_peer_id =
    if client_peer_id == no_owner
    then (no_token, s)
    else (elim (find_owner_index s client_peer_id) [
      | some index ↦ ((index + 1) % 256, s)
      | none ↦ enter client_peer_id (claim_free_index s)
    ])

abbrev is_token_valid : ℕ → Bool
is_token_valid token = not (token == no_token) && leb token token_values_max

-- The shift by FRAME_ROUTE_TOKEN_SHIFT is the division by four.
pub originator : EchoTokens → ℕ → ℕ
originator s route_flags =
    let token = bit_and route_flags route_token_mask / 4 in
    if bit_and route_flags route_flag_echo == 0
    then no_owner
    else if not (is_token_valid token)
    then no_owner
    else get_or s.owner_peer_ids (token - 1) 0

pub release_client : EchoTokens → ℕ → EchoTokens
release_client s client_peer_id = elim (find_owner_index s client_peer_id) [
  | none ↦ s
  | some index ↦ record s { owner_peer_ids = set s.owner_peer_ids index no_owner }
]
