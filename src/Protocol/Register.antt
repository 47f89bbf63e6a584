-- ===== src/Protocol/Register.antt =====
-- The REGISTER and REGISTER_ACK messages (src/protocol/register_message.{h,c}). Names are texts in
-- arrays of 128 and 16 bytes; an array whose last byte is not NUL is a text that is as long.
-- `interface_names` is the first `interface_count` of its array of 16, `channels` all 16.
use can_hub.Base.{
  ℕ, ◌+◌, ◌-◌, ◌*◌, ◌%◌, ◌^◌, ◌≤◌, ◌<◌, ◌≡◌, ◌≢◌, refl, sym, ap, ◌∙◌, List, [], ◌∷◌, ◌++◌,
  append-nil, Option, none, some, arith, Bool, true, false, not, ◌||◌, ◌&&◌, ◌==◌, ltb, is_some,
  if◌then◌else◌, length, drop, take, take_all, replicate, Text, bit_and, find_index, overlay,
}
use can_hub.Protocol.Wire.{byte, write_u16, read_u16, padded, text_of}
use can_hub.Protocol.Message.{encode_message, write_entries, read_entries}
pub mod RoundTrip

-- kMESSAGE_TYPE_REGISTER, kMESSAGE_TYPE_REGISTER_ACK
abbrev pub type_register : ℕ
type_register = 0x02

abbrev pub type_register_ack : ℕ
type_register_ack = 0x03

-- REGISTER_BODY_SIZE, REGISTER_ACK_BODY_SIZE
abbrev pub body_size : ℕ
body_size = 388

abbrev pub ack_body_size : ℕ
ack_body_size = 20

-- REGISTER_INTERFACES_MAX
abbrev pub interfaces_max : ℕ
interfaces_max = 16

pub record RegisterMessage : Type 0 where
  pub agent_name : Text
  pub interface_count : ℕ
  pub interface_names : List Text
  pub fd_reported : Bool
  pub fd_interfaces : ℕ

pub record RegisterAck : Type 0 where
  pub status : ℕ
  pub interface_count : ℕ
  pub channels : List ℕ

-- The test of `areInterfaceNamesValid` that a name fails: it has no NUL, or nothing before it.
pub is_name_bad : Text → Bool
is_name_bad name = ltb 15 (length name) || length name == 0

pub are_interface_names_valid : ℕ → List Text → Bool
are_interface_names_valid interface_count interface_names =
    not (is_some (find_index is_name_bad (take interface_count interface_names)))

abbrev pub write_name : Text → List ℕ
write_name name = padded 16 name

abbrev pub read_name : List ℕ → Text
read_name bytes = text_of 15 bytes

abbrev pub register_body : RegisterMessage → List ℕ
register_body m =
    padded 128 m.agent_name
    ++ ((m.interface_count
          ∷ (if m.fd_reported then 1 ∷ write_u16 m.fd_interfaces else 0 ∷ 0 ∷ 0 ∷ []))
        ++ (write_entries write_name (take m.interface_count m.interface_names)
            ++ replicate ((16 - m.interface_count) * 16) 0))

pub encode : RegisterMessage → ℕ → List ℕ
encode m buffer_size =
    if ltb 127 (length m.agent_name)
    then []
    else if ltb interfaces_max m.interface_count
        || not (are_interface_names_valid m.interface_count m.interface_names)
    then []
    else encode_message type_register body_size (register_body m) buffer_size

-- REGISTER_FLAG_FD_REPORTED is bit 0.
pub decode : List ℕ → ℕ → Option RegisterMessage
decode payload payload_length =
    let interface_count = byte payload 128 in
    let fd_reported = not (bit_and (byte payload 129) 1 == 0) in
    let interface_names = read_entries read_name 16 interface_count (drop 132 payload) in
    if ltb payload_length body_size
    then none
    else if ltb interfaces_max interface_count
    then none
    else if are_interface_names_valid interface_count interface_names
    then some (record {
      agent_name = text_of 127 payload;
      interface_count = interface_count;
      interface_names = interface_names;
      fd_reported = fd_reported;
      fd_interfaces = if fd_reported then read_u16 (drop 130 payload) else 0;
    })
    else none

abbrev pub ack_body : RegisterAck → List ℕ
ack_body m =
    (m.status ∷ m.interface_count ∷ 0 ∷ 0 ∷ [])
    ++ overlay (replicate 16 0) (take m.interface_count m.channels)

pub encode_ack : RegisterAck → ℕ → List ℕ
encode_ack m buffer_size =
    if ltb interfaces_max m.interface_count
    then []
    else encode_message type_register_ack ack_body_size (ack_body m) buffer_size

-- Into the channels of the message that is decoded into.
pub decode_ack : RegisterAck → List ℕ → ℕ → Option RegisterAck
decode_ack self payload payload_length =
    if ltb payload_length ack_body_size
    then none
    else if ltb interfaces_max (byte payload 1)
    then none
    else some (record {
      status = byte payload 0;
      interface_count = byte payload 1;
      channels = overlay self.channels (take (byte payload 1) (drop 4 payload));
    })
