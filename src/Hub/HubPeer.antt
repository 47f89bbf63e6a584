-- ===== src/Hub/HubPeer.antt =====
-- A live peer of the hub (src/hub/domain/hub_peer.{h,c}). Texts are the contents of the char arrays
-- before their NUL.
use can_hub.Base.{
  ℕ, ◌-◌, ◌/◌, ◌%◌, ◌^◌, Bool, true, false, not, ◌&&◌, ◌||◌, [], ◌==◌, ltb, if◌then◌else◌, take,
  replicate, Text, str_eq,
}
use can_hub.Hub.ClientSession
use can_hub.Hub.ClientSession.{ClientSession, holds_channels}
use can_hub.Hub.EchoTokens
use can_hub.Hub.EchoTokens.{EchoTokens}
use can_hub.Hub.EgressQueue
use can_hub.Hub.EgressQueue.{EgressQueue, slots_max, channels_max}

-- THUB_PEER_ROLE, whose values are also those of HELLO's roles
abbrev pub role_unknown : ℕ
role_unknown = 0

abbrev pub role_agent : ℕ
role_agent = 1

abbrev pub role_client : ℕ
role_client = 2

abbrev role_admin : ℕ
role_admin = 3

-- THUB_PEER_DISPLACEMENT
abbrev unidentified : ℕ
unidentified = 0

abbrev idle_client : ℕ
idle_client = 1

abbrev active_client : ℕ
active_client = 2

abbrev pub unvouched_agent : ℕ
unvouched_agent = 3

abbrev pub never : ℕ
never = 4

pub record HubPeer : Type 0 where
  pub in_use : Bool
  pub local : Bool
  pub send_failed : Bool
  pub vouched : Bool
  pub peer_id : ℕ
  pub capabilities : ℕ
  pub role : ℕ
  pub transport_kind : ℕ
  pub hello_deadline_us : ℕ
  pub connected_at_us : ℕ
  pub frames_forwarded : ℕ
  pub frames_dropped : ℕ
  pub fingerprint_hex : Text
  pub agent_name : Text
  pub origin : Text
  pub origin_host : Text
  pub session : ClientSession
  pub echo_tokens : EchoTokens
  pub egress : EgressQueue

-- An egress queue of zero bytes, which is not a reset one: 0 is the number of a slot.
unfoldable pub zeroed_egress : EgressQueue
zeroed_egress = record {
  slots = replicate slots_max (record EgressQueue.blank { next_slot = 0 });
  channels = replicate channels_max (record { head = 0; tail = 0; count = 0 });
  free_head = 0;
  used = 0;
  cursor = 0;
}

-- A peer of zero bytes.
abbrev pub blank : HubPeer
blank = record {
  in_use = false;
  local = false;
  send_failed = false;
  vouched = false;
  peer_id = 0;
  capabilities = 0;
  role = 0;
  transport_kind = 0;
  hello_deadline_us = 0;
  connected_at_us = 0;
  frames_forwarded = 0;
  frames_dropped = 0;
  fingerprint_hex = [];
  agent_name = [];
  origin = [];
  origin_host = [];
  session = ClientSession.reset;
  echo_tokens = EchoTokens.reset;
  egress = zeroed_egress;
}

-- `text[0] == '\0'`
abbrev pub is_empty : Text → Bool
is_empty text = str_eq text []

unfoldable pub adopt_role : HubPeer → ℕ → Bool × HubPeer
adopt_role p wire_role =
    if wire_role == role_admin
    then (if not p.local then (false, p) else (true, record p { role = role_admin }))
    else (true, record p { role = if wire_role == role_agent then role_agent else role_client })

-- The copy by `BoundedString_Copy` into a buffer of 128 bytes.
unfoldable pub set_agent_name : HubPeer → Text → HubPeer
set_agent_name p agent_name = record p { agent_name = take 127 agent_name }

unfoldable pub is_same_plaintext_agent : HubPeer → HubPeer → Bool
is_same_plaintext_agent p other =
    if not (p.transport_kind == other.transport_kind)
    then false
    else if p.local && other.local
    then true
    else not (is_empty p.origin_host) && str_eq p.origin_host other.origin_host

unfoldable pub is_same_agent : HubPeer → HubPeer → Bool
unfolding is_same_plaintext_agent
is_same_agent p other =
    if not (is_empty p.fingerprint_hex) || not (is_empty other.fingerprint_hex)
    then str_eq p.fingerprint_hex other.fingerprint_hex
    else is_same_plaintext_agent p other

unfoldable pub is_unidentified : HubPeer → Bool
is_unidentified p =
    if p.role == role_unknown then true else p.role == role_agent && is_empty p.agent_name

unfoldable pub displacement : HubPeer → ℕ
displacement p =
    if (p.local || is_empty p.fingerprint_hex) || p.vouched
    then never
    else if is_unidentified p
    then unidentified
    else if p.role == role_agent
    then unvouched_agent
    else if not (p.role == role_client)
    then never
    else if holds_channels p.session
    then active_client
    else idle_client

-- `AdminPeersReplyEntry` of src/protocol/admin_message.h.
pub record AdminPeersReplyEntry : Type 0 where
  pub peer_id : ℕ
  pub frames_forwarded : ℕ
  pub frames_dropped : ℕ
  pub uptime_seconds : ℕ
  pub role : ℕ
  pub transport_kind : ℕ
  pub agent_name : Text
  pub fingerprint_hex : Text
  pub origin : Text

unfoldable pub fill_admin_entry : ℕ → HubPeer → AdminPeersReplyEntry
fill_admin_entry now_us p = record {
  peer_id = p.peer_id;
  frames_forwarded = p.frames_forwarded;
  frames_dropped = p.frames_dropped;
  uptime_seconds =
      if ltb p.connected_at_us now_us then (now_us - p.connected_at_us) / 1000000 % 2 ^ 32 else 0;
  role = p.role;
  transport_kind = p.transport_kind;
  agent_name = p.agent_name;
  fingerprint_hex = p.fingerprint_hex;
  origin = p.origin;
}
