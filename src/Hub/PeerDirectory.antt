-- ===== src/Hub/PeerDirectory.antt =====
-- The collection of the hub's live peers (src/hub/domain/peer_directory.{h,c}). A pointer to a peer
-- is its index.
use mathlib.Core.Option
use can_hub.Base.{
  ℕ, ◌≡◌, Bool, true, false, not, ◌&&◌, List, [], Option, none, some, ◌==◌, ltb, leb, ◌||◌,
  if◌then◌else◌, get_or, set, replicate, Text, str_eq, find_index, count, page, best_from,
}
use can_hub.Hub.ClientSession
use can_hub.Hub.EgressQueue
use can_hub.Hub.HubPeer.{
  HubPeer, AdminPeersReplyEntry, blank, displacement, fill_admin_entry, never, role_agent,
  role_unknown, unvouched_agent,
}
pub mod Lookup
pub mod Displaced
mod Tests

-- PEER_DIRECTORY_MAX, which is HUB_PEERS_MAX
abbrev directory_max : ℕ
directory_max = 512

pub record PeerDirectory : Type 0 where
  pub peers : List HubPeer

abbrev pub in_use : HubPeer → Bool
in_use p = p.in_use

abbrev pub has_id : ℕ → HubPeer → Bool
has_id peer_id p = p.in_use && p.peer_id == peer_id

abbrev has_role : ℕ → HubPeer → Bool
has_role role p = p.in_use && p.role == role

pub reset : PeerDirectory
reset = record { peers = replicate directory_max blank }

-- The slot of a new peer: cleared, then marked, with a reset session and a reset queue.
pub new_peer : ℕ → HubPeer
new_peer peer_id = record blank {
  in_use = true;
  peer_id = peer_id;
  session = ClientSession.reset;
  egress = EgressQueue.reset;
}

pub allocate : PeerDirectory → ℕ → Option ℕ × PeerDirectory
allocate d peer_id = elim (find_index (λ p. not (in_use p)) d.peers) [
  | none ↦ (none, d)
  | some i ↦ (some i, record { peers = set d.peers i (new_peer peer_id) })
]

pub find_peer : PeerDirectory → ℕ → Option ℕ
find_peer d peer_id = find_index (has_id peer_id) d.peers

pub release : PeerDirectory → ℕ → PeerDirectory
release d peer_id = elim (find_peer d peer_id) [
  | none ↦ d
  | some i ↦ record { peers = set d.peers i blank }
]

pub at : PeerDirectory → ℕ → Option ℕ
at d index =
    if leb directory_max index || not (get_or d.peers index blank).in_use then none else some index

pub find_agent_by_name : PeerDirectory → Text → Option ℕ
find_agent_by_name d agent_name =
    find_index (λ p. has_role role_agent p && str_eq p.agent_name agent_name) d.peers

pub displaces_before : HubPeer → HubPeer → Bool
displaces_before p other =
    if not (displacement p == displacement other)
    then ltb (displacement p) (displacement other)
    else ltb other.connected_at_us p.connected_at_us

abbrev pub is_displaceable : HubPeer → Bool
is_displaceable p = p.in_use && not (displacement p == never)

pub find_displaceable : PeerDirectory → Option ℕ
find_displaceable d =
    Option.map (λ c. c.0) (best_from is_displaceable displaces_before d.peers 0 none)

abbrev is_displaceable_agent : HubPeer → Bool
is_displaceable_agent p = p.in_use && displacement p == unvouched_agent

abbrev connected_later : HubPeer → HubPeer → Bool
connected_later p other = ltb other.connected_at_us p.connected_at_us

pub find_displaceable_agent : PeerDirectory → Option ℕ
find_displaceable_agent d =
    Option.map (λ c. c.0) (best_from is_displaceable_agent connected_later d.peers 0 none)

pub count_peers : PeerDirectory → ℕ
count_peers d = count in_use d.peers

pub is_full : PeerDirectory → Bool
is_full d = count_peers d == directory_max

pub count_role : PeerDirectory → ℕ → ℕ
count_role d role = count (has_role role) d.peers

pub count_awaiting_hello_from : PeerDirectory → Text → ℕ
count_awaiting_hello_from d origin_host =
    count (λ p. has_role role_unknown p && str_eq p.origin_host origin_host) d.peers

-- ADMIN_PEERS_REPLY_ENTRIES_MAX
abbrev peers_reply_max : ℕ
peers_reply_max = 15

-- The entries of the reply, and its flag for more.
pub list_from : PeerDirectory → ℕ → ℕ → List AdminPeersReplyEntry × Bool
list_from d offset now_us = page in_use (fill_admin_entry now_us) d.peers offset peers_reply_max
