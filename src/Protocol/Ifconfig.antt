-- ===== src/Protocol/Ifconfig.antt =====
-- The configuration messages (src/protocol/ifconfig_message.{h,c}): CONFIGURE from a client to the
-- hub, IFCONFIG from the hub to the agent, and their replies. Names are texts in arrays of 128 and 16
-- bytes, the detail in one of 64; an array whose last byte is not NUL is a text that is as long.
use mathlib.Core.Option
use can_hub.Base.{
  ℕ, ◌+◌, List, [], ◌∷◌, ◌++◌, Option, none, some, Bool, true, false, ltb, ◌==◌, if◌then◌else◌,
  length, drop, take, Text,
}
use can_hub.Protocol.Wire.{byte, write_u32, read_u32, padded, text_of}
use can_hub.Protocol.Message.{encode_message}
use can_hub.Protocol.Settings.{InterfaceSettings, settings_bytes, read_settings}
pub mod Forwarding
mod Tests

-- kMESSAGE_TYPE_IFCONFIG, kMESSAGE_TYPE_IFCONFIG_REPLY, kMESSAGE_TYPE_CONFIGURE,
-- kMESSAGE_TYPE_CONFIGURE_REPLY
abbrev pub type_ifconfig : ℕ
type_ifconfig = 0x0B

abbrev pub type_ifconfig_reply : ℕ
type_ifconfig_reply = 0x0C

abbrev pub type_configure : ℕ
type_configure = 0x0E

abbrev pub type_configure_reply : ℕ
type_configure_reply = 0x0F

pub record IfconfigMessage : Type 0 where
  pub request_id : ℕ
  pub interface_name : Text
  pub op : ℕ
  pub settings : InterfaceSettings

pub record IfconfigReplyMessage : Type 0 where
  pub request_id : ℕ
  pub status : ℕ
  pub settings : InterfaceSettings
  pub detail : Text

pub record ConfigureMessage : Type 0 where
  pub agent_name : Text
  pub interface_name : Text
  pub op : ℕ
  pub settings : InterfaceSettings

pub record ConfigureReplyMessage : Type 0 where
  pub status : ℕ
  pub settings : InterfaceSettings
  pub detail : Text

-- The array with at most 63 bytes of the text, as `writeText` leaves it.
abbrev pub detail_bytes : Text → List ℕ
detail_bytes detail = padded 64 (take 63 detail)

abbrev pub ifconfig_body : IfconfigMessage → List ℕ
ifconfig_body m =
    write_u32 m.request_id
    ++ (padded 16 m.interface_name ++ ((m.op ∷ 0 ∷ 0 ∷ 0 ∷ []) ++ settings_bytes m.settings))

pub encode_ifconfig : IfconfigMessage → ℕ → List ℕ
encode_ifconfig m buffer_size =
    if ltb 15 (length m.interface_name)
    then []
    else encode_message type_ifconfig 112 (ifconfig_body m) buffer_size

pub decode_ifconfig : List ℕ → ℕ → Option IfconfigMessage
decode_ifconfig payload payload_length =
    if ltb payload_length 112
    then none
    else Option.map
        (λ settings. record {
          request_id = read_u32 payload;
          interface_name = text_of 15 (drop 4 payload);
          op = byte payload 20;
          settings = settings;
        })
        (read_settings (drop 24 payload))

abbrev pub ifconfig_reply_body : IfconfigReplyMessage → List ℕ
ifconfig_reply_body m =
    write_u32 m.request_id
    ++ ((m.status ∷ 0 ∷ 0 ∷ 0 ∷ []) ++ (settings_bytes m.settings ++ detail_bytes m.detail))

pub encode_ifconfig_reply : IfconfigReplyMessage → ℕ → List ℕ
encode_ifconfig_reply m buffer_size =
    encode_message type_ifconfig_reply 160 (ifconfig_reply_body m) buffer_size

pub decode_ifconfig_reply : List ℕ → ℕ → Option IfconfigReplyMessage
decode_ifconfig_reply payload payload_length =
    if ltb payload_length 160
    then none
    else Option.map
        (λ settings. record {
          request_id = read_u32 payload;
          status = byte payload 4;
          settings = settings;
          detail = text_of 63 (drop 96 payload);
        })
        (read_settings (drop 8 payload))

abbrev pub configure_body : ConfigureMessage → List ℕ
configure_body m =
    padded 128 m.agent_name
    ++ (padded 16 m.interface_name ++ ((m.op ∷ 0 ∷ 0 ∷ 0 ∷ []) ++ settings_bytes m.settings))

pub encode_configure : ConfigureMessage → ℕ → List ℕ
encode_configure m buffer_size =
    if ltb 127 (length m.agent_name)
    then []
    else if ltb 15 (length m.interface_name)
    then []
    else encode_message type_configure 236 (configure_body m) buffer_size

pub decode_configure : List ℕ → ℕ → Option ConfigureMessage
decode_configure payload payload_length =
    if ltb payload_length 236
    then none
    else Option.map
        (λ settings. record {
          agent_name = text_of 127 payload;
          interface_name = text_of 15 (drop 128 payload);
          op = byte payload 144;
          settings = settings;
        })
        (read_settings (drop 148 payload))

abbrev pub configure_reply_body : ConfigureReplyMessage → List ℕ
configure_reply_body m =
    (m.status ∷ 0 ∷ 0 ∷ 0 ∷ []) ++ (settings_bytes m.settings ++ detail_bytes m.detail)

pub encode_configure_reply : ConfigureReplyMessage → ℕ → List ℕ
encode_configure_reply m buffer_size =
    encode_message type_configure_reply 156 (configure_reply_body m) buffer_size

pub decode_configure_reply : List ℕ → ℕ → Option ConfigureReplyMessage
decode_configure_reply payload payload_length =
    if ltb payload_length 156
    then none
    else Option.map
        (λ settings. record {
          status = byte payload 0;
          settings = settings;
          detail = text_of 63 (drop 92 payload);
        })
        (read_settings (drop 4 payload))
