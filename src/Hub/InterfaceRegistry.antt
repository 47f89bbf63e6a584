-- ===== src/Hub/InterfaceRegistry.antt =====
-- The catalogue of the interfaces that the live agents export
-- (src/hub/domain/interface_registry.{h,c}). A pointer to an entry is its index, the const pointer of
-- a lookup is the entry's content; names are texts without their final NUL.
use can_hub.Protocol.Register.{RegisterAck, RegisterMessage}
use can_hub.Protocol.ListReply.{ListReplyEntry}
use can_hub.Base.{
  ℕ, zero, suc, ◌+◌, ◌*◌, ◌/◌, ◌%◌, ◌^◌, ◌≡◌, Bool, true, false, not, ◌&&◌, List, [], ◌∷◌, Option,
  none, some, ◌==◌, ltb, if◌then◌else◌, is_some, get_or, set, take, replicate, Text, str_eq,
  bit_and, find, find_index, count, update_where, page,
}
use can_hub.Shared.EgressShaper.{EgressShaper, refill, try_consume, delay_us, set_rate}
use can_hub.Shared.EgressShaper
pub mod Invariant
pub mod Registration
pub mod Reach
pub mod Served
pub mod Pacing
pub mod Listing
pub mod OverWire
mod Tests

-- INTERFACE_REGISTRY_MAX
abbrev registry_max : ℕ
registry_max = 256

-- INTERFACE_REGISTRY_HUB_PEER
abbrev hub_peer : ℕ
hub_peer = 0

-- REGISTER_STATUS_OK, REGISTER_STATUS_REJECTED
abbrev pub status_ok : ℕ
status_ok = 0

abbrev status_rejected : ℕ
status_rejected = 1

pub record InterfaceEntry : Type 0 where
  pub in_use : Bool
  pub interface_id : ℕ
  pub agent_peer_id : ℕ
  pub agent_channel : ℕ
  pub frames_received : ℕ
  pub tx_dropped : ℕ
  pub advertised_rate : ℕ
  pub fd_reported : Bool
  pub fd_capable : Bool
  pub shaper : EgressShaper
  pub agent_name : Text
  pub interface_name : Text

pub record InterfaceRegistry : Type 0 where
  pub entries : List InterfaceEntry
  pub next_interface_id : ℕ

-- An entry of zero bytes.
abbrev pub blank : InterfaceEntry
blank = record {
  in_use = false;
  interface_id = 0;
  agent_peer_id = 0;
  agent_channel = 0;
  frames_received = 0;
  tx_dropped = 0;
  advertised_rate = 0;
  fd_reported = false;
  fd_capable = false;
  shaper = record {
    rate_bits_per_s = 0;
    tokens_bits = 0;
    burst_bits = 0;
    remainder = 0;
    last_us = 0;
  };
  agent_name = [];
  interface_name = [];
}

-- The tests of the loops over the entries.
abbrev pub in_use : InterfaceEntry → Bool
in_use e = e.in_use

abbrev pub of_peer : ℕ → InterfaceEntry → Bool
of_peer agent_peer_id e = e.in_use && e.agent_peer_id == agent_peer_id

abbrev pub has_id : ℕ → InterfaceEntry → Bool
has_id interface_id e = e.in_use && e.interface_id == interface_id

abbrev pub on_channel : ℕ → ℕ → InterfaceEntry → Bool
on_channel agent_peer_id agent_channel e =
    (e.in_use && e.agent_peer_id == agent_peer_id) && e.agent_channel == agent_channel

unfoldable pub names_match : InterfaceEntry → Text → Text → Bool
names_match e agent_name interface_name =
    str_eq e.agent_name agent_name && str_eq e.interface_name interface_name

abbrev pub has_name : Text → Text → InterfaceEntry → Bool
has_name agent_name interface_name e = e.in_use && names_match e agent_name interface_name

unfoldable pub reset : InterfaceRegistry
reset = record { entries = replicate registry_max blank; next_interface_id = 1 }

unfoldable pub is_peer_registered : InterfaceRegistry → ℕ → Bool
is_peer_registered r agent_peer_id = is_some (find_index (of_peer agent_peer_id) r.entries)

-- The inner loop of `isRegistrationColliding`: whether the entry has one of the names.
unfoldable pub any_name : RegisterMessage → InterfaceEntry → Bool
any_name m e =
    is_some (find_index (names_match e m.agent_name) (take m.interface_count m.interface_names))

abbrev pub collides : RegisterMessage → InterfaceEntry → Bool
collides m e = e.in_use && any_name m e

unfoldable pub is_registration_colliding : InterfaceRegistry → RegisterMessage → Bool
is_registration_colliding r m = is_some (find_index (collides m) r.entries)

pub colliding_peer : InterfaceRegistry → RegisterMessage → Option ℕ
colliding_peer r m = elim (find (collides m) r.entries) [
  | none ↦ none
  | some e ↦ some e.agent_peer_id
]

unfoldable pub find_free_entry : InterfaceRegistry → Option ℕ
find_free_entry r = find_index (λ e. not (in_use e)) r.entries

pub remove_peer : InterfaceRegistry → ℕ → InterfaceRegistry
remove_peer r agent_peer_id = record r {
  entries = update_where (of_peer agent_peer_id) (λ _. blank) r.entries;
}

-- The entry that the registering loop fills in at turn `i`.
unfoldable pub fill_entry : InterfaceEntry → ℕ → ℕ → RegisterMessage → ℕ → InterfaceEntry
fill_entry e interface_id agent_peer_id m i = record e {
  in_use = true;
  interface_id = interface_id;
  agent_peer_id = agent_peer_id;
  agent_channel = i;
  fd_reported = m.fd_reported;
  fd_capable = not (bit_and m.fd_interfaces (2 ^ i) == 0);
  agent_name = m.agent_name;
  interface_name = get_or m.interface_names i [];
}

unfoldable pub add_entry : InterfaceRegistry → ℕ → ℕ → RegisterMessage → ℕ → InterfaceRegistry
add_entry r k agent_peer_id m i = record {
  entries =
      set r.entries k (fill_entry (get_or r.entries k blank) r.next_interface_id agent_peer_id m i);
  next_interface_id = (r.next_interface_id + 1) % 2 ^ 32;
}

-- The loop from turn `i` on, by the turns left.
unfoldable pub register_from :
    ℕ
    → ℕ
    → InterfaceRegistry
    → ℕ
    → RegisterMessage
    → RegisterAck
    → Bool × RegisterAck × InterfaceRegistry
register_from zero i r agent_peer_id m ack = (true, record ack { status = status_ok }, r)
register_from (suc left) i r agent_peer_id m ack = elim (find_free_entry r) [
  | none ↦ (false, record ack { status = status_rejected }, remove_peer r agent_peer_id)
  | some k ↦
      register_from left (i + 1) (add_entry r k agent_peer_id m i) agent_peer_id m
        (record ack { channels = set ack.channels i i })
]

unfoldable pub register_agent :
    InterfaceRegistry → ℕ → RegisterMessage → Bool × RegisterAck × InterfaceRegistry
register_agent r agent_peer_id m =
    let rejected : RegisterAck = record {
      status = status_rejected;
      interface_count = m.interface_count;
      channels = replicate 16 0;
    } in
    if is_peer_registered r agent_peer_id
    then (false, rejected, r)
    else if is_registration_colliding r m
    then (false, rejected, r)
    else register_from m.interface_count 0 r agent_peer_id m
        (record rejected { status = status_ok })

unfoldable pub find_by_id : InterfaceRegistry → ℕ → Option InterfaceEntry
find_by_id r interface_id = find (has_id interface_id) r.entries

pub find_by_name : InterfaceRegistry → Text → Text → Option InterfaceEntry
find_by_name r agent_name interface_name = find (has_name agent_name interface_name) r.entries

unfoldable pub find_by_agent_channel : InterfaceRegistry → ℕ → ℕ → Option InterfaceEntry
find_by_agent_channel r agent_peer_id agent_channel =
    find (on_channel agent_peer_id agent_channel) r.entries

pub find_mutable_by_agent_channel : InterfaceRegistry → ℕ → ℕ → Option ℕ
find_mutable_by_agent_channel r agent_peer_id agent_channel =
    find_index (on_channel agent_peer_id agent_channel) r.entries

-- The index of the new entry; a pointer to it is the result.
pub add_virtual : InterfaceRegistry → Text → Text → Option ℕ × InterfaceRegistry
add_virtual r agent_name interface_name =
    if is_some (find_by_name r agent_name interface_name)
    then (none, r)
    else (elim (find_free_entry r) [
      | none ↦ (none, r)
      | some k ↦ (
        some k,
        record {
          entries = set r.entries k (record (get_or r.entries k blank) {
            in_use = true;
            interface_id = r.next_interface_id;
            agent_peer_id = hub_peer;
            agent_name = take 127 agent_name;
            interface_name = take 15 interface_name;
          });
          next_interface_id = (r.next_interface_id + 1) % 2 ^ 32;
        },
      )
    ])

pub is_virtual : InterfaceEntry → Bool
is_virtual e = e.agent_peer_id == hub_peer

pub remove_virtual : InterfaceRegistry → ℕ → InterfaceRegistry
remove_virtual r interface_id = record r {
  entries = update_where (λ e. has_id interface_id e && is_virtual e) (λ _. blank) r.entries;
}

-- FRAME_FLAG_FD is bit 0.
pub refuses_frame : InterfaceEntry → ℕ → Bool
refuses_frame e frame_flags =
    (not (bit_and frame_flags 1 == 0) && e.fd_reported) && not e.fd_capable

pub set_fd_capable : InterfaceRegistry → ℕ → Bool → InterfaceRegistry
set_fd_capable r interface_id fd_capable = record r {
  entries =
      update_where (has_id interface_id)
        (λ e. record e { fd_reported = true; fd_capable = fd_capable }) r.entries;
}

-- `if (entry != NULL) *entry = f(*entry);`
abbrev pub update_at :
    InterfaceRegistry → Option ℕ → (InterfaceEntry → InterfaceEntry) → InterfaceRegistry
update_at r none f = r
update_at r (some i) f = record r { entries = set r.entries i (f (get_or r.entries i blank)) }

pub count_frame : InterfaceRegistry → ℕ → InterfaceRegistry
count_frame r interface_id =
    update_at r (find_index (has_id interface_id) r.entries)
      (λ e. record e { frames_received = (e.frames_received + 1) % 2 ^ 64 })

pub set_tx_dropped : InterfaceRegistry → ℕ → ℕ → ℕ → InterfaceRegistry
set_tx_dropped r agent_peer_id agent_channel tx_dropped =
    update_at r (find_mutable_by_agent_channel r agent_peer_id agent_channel)
      (λ e. record e { tx_dropped = tx_dropped })

-- PACE_EFFECTIVE_PERCENT and PACE_BURST_BITS
abbrev pace_effective_percent : ℕ
pace_effective_percent = 80

abbrev pace_burst_bits : ℕ
pace_burst_bits = 8192

pub paced_rate : ℕ → ℕ → ℕ
paced_rate advertised_rate credit =
    let effective_rate = if not (credit == 0) then credit else advertised_rate in
    effective_rate * pace_effective_percent % 2 ^ 64 / 100 % 2 ^ 32

pub apply_advertised_rate : InterfaceRegistry → ℕ → ℕ → ℕ → ℕ → ℕ → InterfaceRegistry
apply_advertised_rate r agent_peer_id agent_channel advertised_rate credit now_us =
    let rate = paced_rate advertised_rate credit in
    update_at r (find_mutable_by_agent_channel r agent_peer_id agent_channel) (λ e. record e {
      advertised_rate = advertised_rate;
      shaper =
          if e.shaper.burst_bits == 0
          then EgressShaper.init now_us rate pace_burst_bits
          else set_rate e.shaper rate;
    })

-- On the entry found: refill its shaper, then try to consume.
pub egress_entry : InterfaceEntry → ℕ → ℕ → Bool × InterfaceEntry
egress_entry e bits now_us =
    let done = try_consume (refill e.shaper now_us) bits in (done.0, record e { shaper = done.1 })

pub try_egress : InterfaceRegistry → ℕ → ℕ → ℕ → ℕ → Bool × InterfaceRegistry
try_egress r agent_peer_id agent_channel bits now_us =
    elim (find_mutable_by_agent_channel r agent_peer_id agent_channel) [
      | none ↦ (true, r)
      | some i ↦
          let done = egress_entry (get_or r.entries i blank) bits now_us in
          (done.0, record r { entries = set r.entries i done.1 })
    ]

pub egress_delay_us : InterfaceRegistry → ℕ → ℕ → ℕ → ℕ → ℕ × InterfaceRegistry
egress_delay_us r agent_peer_id agent_channel bits now_us =
    elim (find_mutable_by_agent_channel r agent_peer_id agent_channel) [
      | none ↦ (0, r)
      | some i ↦
          let refilled = refill (get_or r.entries i blank).shaper now_us in
          (
            delay_us refilled bits,
            record r {
              entries = set r.entries i (record (get_or r.entries i blank) { shaper = refilled });
            },
          )
    ]

pub count_entries : InterfaceRegistry → ℕ
count_entries r = count in_use r.entries

-- LIST_REPLY_ENTRIES_MAX
abbrev pub list_reply_max : ℕ
list_reply_max = 16

pub list_entry : InterfaceEntry → ListReplyEntry
list_entry e = record {
  interface_id = e.interface_id;
  agent_name = e.agent_name;
  interface_name = e.interface_name;
}

-- The entries of the reply, and its flag for more.
pub list_from : InterfaceRegistry → ℕ → List ListReplyEntry × Bool
list_from r offset = page in_use list_entry r.entries offset list_reply_max
