-- ===== src/Hub/ClientSession.antt =====
-- src/hub/domain/client_session.{h,c}: the interfaces that a client holds open, each on a channel.
-- A pointer to a binding is its index. Names are the C strings of their buffers.
pub mod Invariant
pub mod Channels
pub mod Dormancy
mod Tests
use mathlib.Core.Option
use can_hub.Protocol.Subscribe.{CanFilter}
use can_hub.Base.{
  ℕ, zero, suc, ◌+◌, ◌-◌, ◌%◌, Bool, true, false, not, ◌&&◌, ◌||◌, List, [], ◌∷◌, Option, none,
  some, ltb, leb, ◌==◌, if◌then◌else◌, get_or, set, take, drop, replicate, overlay, find,
  find_index, find_from, update_where, is_some, bit_and, Text, str_eq, length,
}

-- CLIENT_SESSION_BINDINGS_MAX
abbrev pub bindings_max : ℕ
bindings_max = 32

-- SUBSCRIBE_FILTERS_MAX
abbrev pub filters_max : ℕ
filters_max = 16

abbrev agent_name_size : ℕ
agent_name_size = 128

abbrev interface_name_size : ℕ
interface_name_size = 16

-- FRAME_CAN_ID_FLAG_ERR
abbrev pub can_id_flag_err : ℕ
can_id_flag_err = 0x2000_0000

pub record ChannelBinding : Type 0 where
  pub in_use : Bool
  pub dormant : Bool
  pub suppress_echo : Bool
  pub can_write : Bool
  pub reliable : Bool
  pub error_frames : Bool
  pub interface_id : ℕ
  pub channel : ℕ
  pub filter_count : ℕ
  pub frames_forwarded : ℕ
  pub frames_dropped : ℕ
  pub agent_name : Text
  pub interface_name : Text
  pub filters : List CanFilter

abbrev pub blank : ChannelBinding
blank = record {
  in_use = false;
  dormant = false;
  suppress_echo = false;
  can_write = false;
  reliable = false;
  error_frames = false;
  interface_id = 0;
  channel = 0;
  filter_count = 0;
  frames_forwarded = 0;
  frames_dropped = 0;
  agent_name = [];
  interface_name = [];
  filters = replicate filters_max (record { can_id = 0; can_mask = 0 });
}

pub record ClientSession : Type 0 where
  pub bindings : List ChannelBinding
  pub next_channel : ℕ

pub record ChannelOpenRequest : Type 0 where
  pub interface_id : ℕ
  pub suppress_echo : Bool
  pub can_write : Bool
  pub reliable : Bool
  pub error_frames : Bool
  pub agent_name : Text
  pub interface_name : Text

unfoldable pub reset : ClientSession
reset = record { bindings = replicate bindings_max blank; next_channel = 0 }

-- The tests of the loops over the bindings.
abbrev pub on_channel : ℕ → ChannelBinding → Bool
on_channel channel b = b.in_use && b.channel == channel

abbrev pub live_on : ℕ → ChannelBinding → Bool
live_on interface_id b = (b.in_use && not b.dormant) && b.interface_id == interface_id

abbrev pub routes_from : ℕ → ChannelBinding → Bool
routes_from channel b = (b.in_use && not b.dormant) && b.channel == channel

pub find_by_channel : ClientSession → ℕ → Option ℕ
find_by_channel s channel = find_index (on_channel channel) s.bindings

pub find_free : ClientSession → Option ℕ
find_free s = find_index (λ b. not b.in_use) s.bindings

-- The loop of `allocateChannel`, by the attempts left: the channel, if one is free, and the next
-- channel afterwards.
pub allocate_from : ClientSession → ℕ → ℕ → Option ℕ × ℕ
allocate_from s zero next_channel = (none, next_channel)
allocate_from s (suc attempts) next_channel =
    if is_some (find_by_channel s next_channel)
    then allocate_from s attempts ((next_channel + 1) % 256)
    else (some next_channel, (next_channel + 1) % 256)

pub allocate_channel : ClientSession → Option ℕ × ℕ
allocate_channel s = allocate_from s (bindings_max + 1) s.next_channel

-- The binding that `ClientSession_OpenInterface` fills in: the counters and filters of the slot stay.
-- The two names are copied by `BoundedString_Copy`, which cuts them to the buffer.
pub fill_binding : ChannelBinding → ChannelOpenRequest → ℕ → ChannelBinding
fill_binding b request channel = record b {
  in_use = true;
  dormant = false;
  suppress_echo = request.suppress_echo;
  can_write = request.can_write;
  reliable = request.reliable;
  error_frames = request.error_frames;
  interface_id = request.interface_id;
  channel = channel;
  agent_name = take (agent_name_size - 1) request.agent_name;
  interface_name = take (interface_name_size - 1) request.interface_name;
}

-- On an allocated channel, or without one: only the next channel has moved then.
bind_channel : ClientSession → ℕ → ChannelOpenRequest → Option ℕ × ℕ → Option ℕ × ClientSession
bind_channel s slot request (none, next_channel) = (none, record s { next_channel = next_channel })
bind_channel s slot request (some channel, next_channel) = (
  some channel,
  record {
    bindings = set s.bindings slot (fill_binding (get_or s.bindings slot blank) request channel);
    next_channel = next_channel;
  },
)

pub open_interface : ClientSession → ChannelOpenRequest → Option ℕ × ClientSession
unfolding bind_channel fill_binding
open_interface s request = elim (find_free s) [
  | none ↦ (none, s)
  | some slot ↦ bind_channel s slot request (allocate_channel s)
]

pub can_write : ClientSession → ℕ → Bool
can_write s channel = elim (find (on_channel channel) s.bindings) [
  | none ↦ false
  | some b ↦ b.can_write
]

unfoldable pub channel_reliable : ClientSession → ℕ → Bool
channel_reliable s channel = elim (find (on_channel channel) s.bindings) [
  | none ↦ false
  | some b ↦ b.reliable
]

-- `filters` has `count` entries.
pub set_filters : ClientSession → ℕ → List CanFilter → ℕ → Bool × ClientSession
set_filters s channel filters count = elim (find_by_channel s channel) [
  | none ↦ (false, s)
  | some i ↦
      let b = get_or s.bindings i blank in
      if ltb filters_max count then (false, s) else (
        true,
        record s {
          bindings =
              set s.bindings i (record b {
                filter_count = count;
                filters = overlay b.filters (take count filters);
              });
        },
      )
]

unfoldable pub matches_filter : ℕ → CanFilter → Bool
matches_filter can_id f = bit_and can_id f.can_mask == bit_and f.can_id f.can_mask

binding_accepts : ℕ → ChannelBinding → Bool
binding_accepts can_id b =
    if not (bit_and can_id can_id_flag_err == 0)
    then b.error_frames
    else if b.filter_count == 0
    then true
    else is_some (find_index (matches_filter can_id) (take b.filter_count b.filters))

pub channel_accepts : ClientSession → ℕ → ℕ → Bool
unfolding binding_accepts matches_filter
channel_accepts s channel can_id = elim (find (on_channel channel) s.bindings) [
  | none ↦ true
  | some b ↦ binding_accepts can_id b
]

pub close_channel : ClientSession → ℕ → ClientSession
close_channel s channel = elim (find_by_channel s channel) [
  | none ↦ s
  | some i ↦ record s { bindings = set s.bindings i blank }
]

unfoldable pub interface_for_channel : ClientSession → ℕ → Option ℕ
interface_for_channel s channel =
    Option.map (λ b. b.interface_id) (find (routes_from channel) s.bindings)

pub channel_for_interface : ClientSession → ℕ → Option ℕ
channel_for_interface s interface_id =
    Option.map (λ b. b.channel) (find (live_on interface_id) s.bindings)

-- The binding found from the iterator on, and the iterator afterwards.
unfoldable pub next_binding_for_interface : ClientSession → ℕ → ℕ → Option ℕ × ℕ
next_binding_for_interface s interface_id iterator =
    elim (find_from (live_on interface_id) (drop iterator s.bindings) iterator) [
      | none ↦ (none, bindings_max)
      | some i ↦ (some i, i + 1)
    ]

pub binding_for_channel : ClientSession → ℕ → Option ℕ
binding_for_channel s channel = find_by_channel s channel

pub holds_reliable : ClientSession → ℕ → Bool
holds_reliable s interface_id =
    is_some
      (find_index (λ b. (b.in_use && b.reliable) && b.interface_id == interface_id) s.bindings)

unfoldable pub holds_channels : ClientSession → Bool
holds_channels s = is_some (find_index (λ b. b.in_use) s.bindings)

pub take_reliable_binding : ClientSession → Option ℕ × ClientSession
take_reliable_binding s = elim (find_index (λ b. b.in_use && b.reliable) s.bindings) [
  | none ↦ (none, s)
  | some i ↦ (
    some (get_or s.bindings i blank).interface_id,
    record s { bindings = set s.bindings i blank },
  )
]

pub detach_interface : ClientSession → ℕ → ClientSession
detach_interface s interface_id = record s {
  bindings = update_where (live_on interface_id) (λ b. record b { dormant = true }) s.bindings;
}

-- `strncmp(a, b, n) == 0`
abbrev str_eq_n : ℕ → Text → Text → Bool
str_eq_n n a b = str_eq (take n a) (take n b)

abbrev pub reattaches : Text → Text → ChannelBinding → Bool
reattaches agent_name interface_name b =
    (b.in_use && b.dormant)
    && (str_eq_n agent_name_size b.agent_name agent_name
        && str_eq_n interface_name_size b.interface_name interface_name)

-- Whether a binding was reattached, and the session.
pub reattach_interface : ClientSession → Text → Text → ℕ → Bool → Bool × ClientSession
reattach_interface s agent_name interface_name interface_id can_write = (
  is_some (find_index (reattaches agent_name interface_name) s.bindings),
  record s {
    bindings =
        update_where (reattaches agent_name interface_name)
          (λ b. record b { interface_id = interface_id; can_write = can_write; dormant = false })
          s.bindings;
  },
)
