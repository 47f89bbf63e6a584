-- ===== src/Agent/ChannelMap.antt =====
-- src/agent/domain/channel_map.{h,c}: the channels that the hub acknowledged, by interface.
use can_hub.Protocol.Register.{RegisterAck}
use can_hub.Base.{
  ℕ, zero, suc, ◌+◌, ◌≤◌, ◌<◌, ◌≡◌, ◌≢◌, Bool, true, false, not, ◌||◌, List, Option, none, some,
  arith, ltb, leb, ◌==◌, if◌then◌else◌, get_or, take, replicate, overlay,
}

abbrev pub interfaces_max : ℕ
interfaces_max = 16

-- REGISTER_STATUS_OK
abbrev status_ok : ℕ
status_ok = 0

pub record ChannelMap : Type 0 where
  pub interface_count : ℕ
  pub channels : List ℕ

unfoldable pub reset : ChannelMap
reset = record { interface_count = 0; channels = replicate interfaces_max 0 }

unfoldable pub assign_from_ack : ChannelMap → RegisterAck → ℕ → Bool × ChannelMap
assign_from_ack m ack registered_count =
    if not (ack.status == status_ok) || not (ack.interface_count == registered_count)
    then (false, m)
    else if ltb interfaces_max ack.interface_count
    then (false, m)
    else (
      true,
      record m {
        interface_count = ack.interface_count;
        channels = overlay m.channels (take ack.interface_count ack.channels);
      },
    )

unfoldable pub channel_for_interface : ChannelMap → ℕ → Option ℕ
channel_for_interface m interface_index =
    if leb m.interface_count interface_index
    then none
    else some (get_or m.channels interface_index 0)

-- The loop over `i < interface_count`, by the indices left.
unfoldable pub search_channel : List ℕ → ℕ → ℕ → ℕ → Option ℕ
search_channel channels channel zero i = none
search_channel channels channel (suc left) i =
    if get_or channels i 0 == channel then some i else search_channel channels channel left (i + 1)

unfoldable pub interface_for_channel : ChannelMap → ℕ → Option ℕ
unfolding search_channel
interface_for_channel m channel = search_channel m.channels channel m.interface_count 0

search_channel_sound :
    (cs : List ℕ) (channel left i : ℕ) {j : ℕ}
    → search_channel cs channel left i ≡ some j
    → (j < i + left) × (get_or cs j 0 ≡ channel)
unfolding search_channel
search_channel_sound cs channel zero i h = cc
search_channel_sound cs channel (suc left) i {j} h =
    ground (arith, search_channel_sound cs channel left (i + 1) {j = j})

search_channel_complete :
    (cs : List ℕ) (channel left i k : ℕ)
    → i ≤ k
    → k < i + left
    → get_or cs k 0 ≡ channel
    → search_channel cs channel left i ≢ none
unfolding search_channel
search_channel_complete cs channel zero i k h l e = absurd (omega arith)
search_channel_complete cs channel (suc left) i k h l e =
    ground (arith, search_channel_complete cs channel left (i + 1) k)

-- An interface found for a channel is one of the map's and has that channel.
pub interface_for_channel_sound :
    (m : ChannelMap) (channel i : ℕ)
    → interface_for_channel m channel ≡ some i
    → channel_for_interface m i ≡ some channel
unfolding interface_for_channel channel_for_interface
interface_for_channel_sound m channel i h =
    ground (arith, search_channel_sound m.channels channel m.interface_count 0 {j = i} h)

-- For the channel of one of the map's interfaces an interface is found.
pub interface_for_channel_complete :
    (m : ChannelMap) (channel i : ℕ)
    → channel_for_interface m i ≡ some channel
    → interface_for_channel m channel ≢ none
unfolding interface_for_channel channel_for_interface
interface_for_channel_complete m channel i h =
    ground (arith, search_channel_complete m.channels channel m.interface_count 0 i)
