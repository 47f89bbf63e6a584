-- ===== src/Hub/RejectedPeers.antt =====
-- The identities that the hub turned away (src/hub/domain/rejected_peers.{h,c}). A pointer to an
-- entry is its index.
use can_hub.Base.{
  ℕ, ◌+◌, ◌-◌, ◌/◌, ◌%◌, ◌^◌, Bool, true, false, not, ◌&&◌, List, [], ◌∷◌, Option, none, some, ◌==◌,
  ltb, if◌then◌else◌, get_or, set, take, replicate, Text, str_eq, find_index, page,
}
use can_hub.Hub.HubPeer.{HubPeer, is_empty}
pub mod Attempts
pub mod Flood
mod Tests

-- REJECTED_PEERS_MAX
abbrev rejected_max : ℕ
rejected_max = 16

pub record RejectedPeer : Type 0 where
  pub in_use : Bool
  pub role : ℕ
  pub reason : ℕ
  pub attempts : ℕ
  pub last_seen_us : ℕ
  pub name : Text
  pub fingerprint_hex : Text
  pub origin : Text

pub record RejectedPeers : Type 0 where
  pub entries : List RejectedPeer

pub record Rejection : Type 0 where
  pub peer : HubPeer
  pub name : Text
  pub reason : ℕ
  pub now_us : ℕ

-- An entry of zero bytes.
abbrev pub blank : RejectedPeer
blank = record {
  in_use = false;
  role = 0;
  reason = 0;
  attempts = 0;
  last_seen_us = 0;
  name = [];
  fingerprint_hex = [];
  origin = [];
}

pub reset : RejectedPeers
reset = record { entries = replicate rejected_max blank }

abbrev pub in_use : RejectedPeer → Bool
in_use e = e.in_use

-- The test of the search for an identity.
abbrev pub has_identity : ℕ → Text → RejectedPeer → Bool
has_identity role fingerprint_hex e =
    (e.in_use && e.role == role) && str_eq e.fingerprint_hex fingerprint_hex

pub find_entry : RejectedPeers → HubPeer → Option ℕ
find_entry t p = find_index (has_identity p.role p.fingerprint_hex) t.entries

pub is_less_worth_keeping : RejectedPeer → RejectedPeer → Bool
is_less_worth_keeping candidate current =
    if not (candidate.attempts == current.attempts)
    then ltb candidate.attempts current.attempts
    else ltb candidate.last_seen_us current.last_seen_us

-- The loop of `claimEntry` over the entries left, from index `i` on, with the victim so far.
pub claim_from : List RejectedPeer → ℕ → ℕ × RejectedPeer → ℕ
claim_from [] i victim = victim.0
claim_from (e ∷ rest) i victim =
    let later =
      claim_from rest (i + 1) (if is_less_worth_keeping e victim.1 then (i, e) else victim) in
    if not e.in_use then i else later

pub claim_entry : RejectedPeers → ℕ
claim_entry t = claim_from t.entries 0 (0, get_or t.entries 0 blank)

-- A claimed entry, cleared and given the identity.
pub new_entry : HubPeer → RejectedPeer
new_entry p = record blank { in_use = true; role = p.role; fingerprint_hex = p.fingerprint_hex }

-- What every rejection writes into its entry.
pub mark_entry : RejectedPeer → Rejection → RejectedPeer
mark_entry e rejection = record e {
  reason = rejection.reason;
  attempts = (e.attempts + 1) % 2 ^ 32;
  last_seen_us = rejection.now_us;
  name = take 127 rejection.name;
  origin = rejection.peer.origin;
}

-- `RejectedPeers_Record`
pub record_rejection : RejectedPeers → Rejection → RejectedPeers
record_rejection t rejection =
    if is_empty rejection.peer.fingerprint_hex then t else (elim (find_entry t rejection.peer) [
      | some i ↦ record {
        entries = set t.entries i (mark_entry (get_or t.entries i blank) rejection);
      }
      | none ↦ record {
        entries = set t.entries (claim_entry t) (mark_entry (new_entry rejection.peer) rejection);
      }
    ])

pub forget : RejectedPeers → HubPeer → RejectedPeers
forget t p = elim (find_entry t p) [
  | none ↦ t
  | some i ↦ record { entries = set t.entries i blank }
]

-- ADMIN_REJECTED_REPLY_ENTRIES_MAX
abbrev rejected_reply_max : ℕ
rejected_reply_max = 15

-- `AdminRejectedReplyEntry` of src/protocol/admin_message.h.
pub record AdminRejectedReplyEntry : Type 0 where
  pub role : ℕ
  pub reason : ℕ
  pub attempts : ℕ
  pub last_seen_seconds : ℕ
  pub name : Text
  pub fingerprint_hex : Text
  pub origin : Text

pub fill_admin_entry : ℕ → RejectedPeer → AdminRejectedReplyEntry
fill_admin_entry now_us e = record {
  role = e.role;
  reason = e.reason;
  attempts = e.attempts;
  last_seen_seconds =
      if ltb e.last_seen_us now_us then (now_us - e.last_seen_us) / 1000000 % 2 ^ 32 else 0;
  name = e.name;
  fingerprint_hex = e.fingerprint_hex;
  origin = e.origin;
}

-- The entries of the reply, and its flag for more.
pub list_from : RejectedPeers → ℕ → ℕ → List AdminRejectedReplyEntry × Bool
list_from t offset now_us =
    page in_use (fill_admin_entry now_us) t.entries offset rejected_reply_max
