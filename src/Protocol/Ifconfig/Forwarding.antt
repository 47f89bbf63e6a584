-- ===== src/Protocol/Ifconfig/Forwarding.antt =====
-- The configuration messages read back.
use can_hub.Base.{
  ℕ, ◌^◌, ◌≤◌, ◌<◌, ◌≡◌, refl, sym, ap, ◌∙◌, List, [], ◌∷◌, ◌++◌, append-nil, append_assoc, some,
  arith, true, false, ltb, leb, ◌&&◌, length, drop, take, take_all, Text,
}
use can_hub.Protocol.Wire.{
  byte, byte_past, drop_past, write_u32, write_u16, read_u32-write_u32, padded, text_of,
  text_of-padded, length-padded, IsText, drop-append,
}
use can_hub.Protocol.Message.{carried_body}
use can_hub.Protocol.Settings.{
  InterfaceSettings, IsSettings, write_settings, read_settings, read_settings-write_settings,
  settings_bytes, length-settings_bytes,
}
use can_hub.Protocol.Ifconfig.{
  IfconfigMessage, IfconfigReplyMessage, ConfigureMessage, ConfigureReplyMessage, ifconfig_body,
  ifconfig_reply_body, configure_body, configure_reply_body, encode_ifconfig, decode_ifconfig,
  encode_ifconfig_reply, decode_ifconfig_reply, encode_configure, decode_configure,
  encode_configure_reply, decode_configure_reply, type_ifconfig, type_ifconfig_reply,
  type_configure, type_configure_reply, detail_bytes,
}

-- Settings in range, with sample points of at most 1000.
abbrev AreSettings : InterfaceSettings → Type 0
AreSettings s = IsSettings s × (s.sample_point ≤ 1000) × (s.data_sample_point ≤ 1000)

settings_read :
    (s : InterfaceSettings) (rest : List ℕ)
    → AreSettings s
    → read_settings (write_settings s ++ rest) ≡ some s
settings_read s rest (v, p, q) =
    let allowed : (leb s.sample_point 1000 && leb s.data_sample_point 1000) ≡ true = ground arith in
    read_settings-write_settings s rest v ∙ rw allowed refl

-- A text that fits an array of so many bytes and its NUL.
abbrev Fits : ℕ → Text → Type 0
Fits n t = IsText t × (length t ≤ n)

-- What follows the agent's name in a CONFIGURE, and the id of the request in an IFCONFIG.
abbrev request_tail : Text → ℕ → InterfaceSettings → List ℕ
request_tail name op s = padded 16 name ++ ((op ∷ 0 ∷ 0 ∷ 0 ∷ []) ++ settings_bytes s)

tail_read :
    (name : Text) (op : ℕ) (s : InterfaceSettings)
    → Fits 15 name
    → AreSettings s
    → (text_of 15 (request_tail name op s) ≡ name)
      × (byte (request_tail name op s) 16 ≡ op)
      × (read_settings (drop 20 (request_tail name op s)) ≡ some s)
tail_read name op s (text, short) v =
    let rest = (op ∷ 0 ∷ 0 ∷ 0 ∷ []) ++ settings_bytes s in
    (
      text_of-padded 15 16 name rest text short (omega arith),
      byte_past (padded 16 name) rest 16 0 (length-padded 16 name),
      ap read_settings (drop_past (padded 16 name) rest 16 4 (length-padded 16 name))
          ∙ settings_read s (0 ∷ 0 ∷ 0 ∷ 0 ∷ []) v,
    )

decode-configure_body :
    (m : ConfigureMessage)
    → Fits 127 m.agent_name
    → Fits 15 m.interface_name
    → AreSettings m.settings
    → decode_configure (configure_body m) 236 ≡ some m
unfolding decode_configure
decode-configure_body m (agent, agent_short) name v =
    let first = padded 128 m.agent_name in
    let tail = request_tail m.interface_name m.op m.settings in
    let len = length-padded 128 m.agent_name in
    let (named, op, settings) = tail_read m.interface_name m.op m.settings name v in
    rw
      (
        text_of-padded 127 128 m.agent_name tail agent agent_short (omega arith),
        drop-append first tail 128 len,
        byte_past first tail 128 16 len,
        drop_past first tail 128 20 len,
        named,
        op,
        settings,
      )
      refl

decode-ifconfig_body :
    (m : IfconfigMessage)
    → m.request_id < 2 ^ 32
    → Fits 15 m.interface_name
    → AreSettings m.settings
    → decode_ifconfig (ifconfig_body m) 112 ≡ some m
unfolding decode_ifconfig write_u32 write_u16
decode-ifconfig_body m low name v =
    let tail = request_tail m.interface_name m.op m.settings in
    let (named, op, settings) = tail_read m.interface_name m.op m.settings name v in
    rw (read_u32-write_u32 m.request_id tail low, named, op, settings) refl

-- A CONFIGURE whose texts fit and whose settings are in range is read back by the hub as the client
-- wrote it, and so is the IFCONFIG with its interface, operation and settings that the hub sends on
-- under a 32-bit id, by the agent.
pub configure_forwarded :
    (m : ConfigureMessage) (request_id : ℕ)
    → Fits 127 m.agent_name
    → Fits 15 m.interface_name
    → AreSettings m.settings
    → request_id < 2 ^ 32
    → (decode_configure (drop 4 (encode_configure m 240)) 236 ≡ some m)
      × (let sent : IfconfigMessage = record {
        request_id = request_id;
        interface_name = m.interface_name;
        op = m.op;
        settings = m.settings;
      } in
          decode_ifconfig (drop 4 (encode_ifconfig sent 116)) 112 ≡ some sent)
unfolding encode_configure encode_ifconfig
configure_forwarded m request_id agent name v low =
    let sent : IfconfigMessage = record {
      request_id = request_id;
      interface_name = m.interface_name;
      op = m.op;
      settings = m.settings;
    } in
    let agent_fits : ltb 127 (length m.agent_name) ≡ false = ground arith in
    let name_fits : ltb 15 (length m.interface_name) ≡ false = ground arith in
    (
      rw
          (
            agent_fits,
            name_fits,
            carried_body type_configure 236 (configure_body m) 240 (omega arith) (omega arith),
          )
          (decode-configure_body m agent name v),
      rw
          (
            name_fits,
            carried_body type_ifconfig 112 (ifconfig_body sent) 116 (omega arith) (omega arith),
          )
          (decode-ifconfig_body sent low name v),
    )

-- The settings and the detail of a reply, behind the part of it that comes first.
reply_read :
    (s : InterfaceSettings) (detail : Text)
    → AreSettings s
    → Fits 63 detail
    → (read_settings (settings_bytes s ++ detail_bytes detail) ≡ some s)
      × (text_of 63 (drop 88 (settings_bytes s ++ detail_bytes detail)) ≡ detail)
reply_read s detail v (text, short) =
    let whole : take 63 detail ≡ detail = take_all 63 detail short in
    (
      ap read_settings (append_assoc (write_settings s) (0 ∷ 0 ∷ 0 ∷ 0 ∷ []) (detail_bytes detail))
          ∙ settings_read s ((0 ∷ 0 ∷ 0 ∷ 0 ∷ []) ++ detail_bytes detail) v,
      ap (text_of 63) (
            drop-append (settings_bytes s) (detail_bytes detail) 88 (length-settings_bytes s)
            ∙ ap (padded 64) whole
            ∙ sym (append-nil (padded 64 detail)))
          ∙ text_of-padded 63 64 detail [] text short (omega arith),
    )

-- The two replies are read back as they were written, for settings in range, details that fit and a
-- 32-bit request id.
reply_read_back :
    (m : IfconfigReplyMessage) (reply : ConfigureReplyMessage)
    → m.request_id < 2 ^ 32
    → AreSettings m.settings
    → Fits 63 m.detail
    → AreSettings reply.settings
    → Fits 63 reply.detail
    → (decode_ifconfig_reply (drop 4 (encode_ifconfig_reply m 164)) 160 ≡ some m)
      × (decode_configure_reply (drop 4 (encode_configure_reply reply 160)) 156 ≡ some reply)
unfolding encode_ifconfig_reply decode_ifconfig_reply encode_configure_reply decode_configure_reply
    write_u32 write_u16
reply_read_back m reply low v fits w fit =
    let (settings, detail) = reply_read m.settings m.detail v fits in
    let (settings', detail') = reply_read reply.settings reply.detail w fit in
    let rest =
      (m.status ∷ 0 ∷ 0 ∷ 0 ∷ []) ++ (settings_bytes m.settings ++ detail_bytes m.detail) in
    (
      rw
          (
            carried_body type_ifconfig_reply 160 (ifconfig_reply_body m) 164 (omega arith)
                (omega arith),
            read_u32-write_u32 m.request_id rest low,
            settings,
            detail,
          )
          refl,
      rw
          (
            carried_body type_configure_reply 156 (configure_reply_body reply) 160 (omega arith)
                (omega arith),
            settings',
            detail',
          )
          refl,
    )
