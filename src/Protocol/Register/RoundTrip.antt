-- ===== src/Protocol/Register/RoundTrip.antt =====
-- What is read back of REGISTER and REGISTER_ACK.
use can_hub.Base.{
  ℕ, ◌-◌, ◌*◌, ◌^◌, ◌≤◌, ◌<◌, ◌≡◌, ◌≢◌, inl, inr, refl, sym, List, [], ◌∷◌, ◌++◌, none, some, arith,
  true, false, not, ◌||◌, ◌==◌, ltb, if◌then◌else◌, length, drop, take, take_all, take-overlay-take,
  length-replicate, replicate, Text, bit_and, find_index, overlay, Bool-cases,
}
use can_hub.Protocol.Wire.{
  byte_past, byte, write_u16, read_u16, read_u16-write_u16, padded, text_of, text_of-padded, IsText,
  length-padded, drop_past,
}
use can_hub.Protocol.Message.{
  carried_body, write_entries, read_entries, read_entries-write_entries, All,
}
use can_hub.Protocol.Register.{
  RegisterMessage, RegisterAck, are_interface_names_valid, is_name_bad, write_name, read_name,
  register_body, encode, decode, encode_ack, decode_ack, type_register, type_register_ack,
  body_size, ack_body_size, ack_body,
}

-- A text that fits the array of an interface's name, and is not empty.
abbrev IsName : Text → Type 0
IsName name = IsText name × (length name ≤ 15) × (length name ≢ 0)

-- Texts that fit their arrays; as many names as there are interfaces, at most 16; and a mask of 16
-- bits, which is 0 where none is reported.
pub record IsValid (m : RegisterMessage) : Type 0 where
  pub agent : IsText m.agent_name
  pub agent_short : length m.agent_name ≤ 127
  pub few : m.interface_count ≤ 16
  pub sized : length m.interface_names ≡ m.interface_count
  pub names : All IsName m.interface_names
  pub mask : m.fd_interfaces < 2 ^ 16
  pub unreported : m.fd_reported ≡ false → m.fd_interfaces ≡ 0

names_good : (names : List Text) → All IsName names → find_index is_name_bad names ≡ none
unfolding find_index is_name_bad All
names_good [] ok = refl
names_good (n ∷ ns) ((text, short, some_byte), ok) =
    let good : (ltb 15 (length n) || length n == 0) ≡ false = ground arith in
    rw (good, names_good ns ok) refl

-- What follows the agent's name.
abbrev after_name : RegisterMessage → List ℕ
after_name m =
    (m.interface_count ∷ (if m.fd_reported then 1 ∷ write_u16 m.fd_interfaces else 0 ∷ 0 ∷ 0 ∷ []))
    ++ (write_entries write_name (take m.interface_count m.interface_names)
        ++ replicate ((16 - m.interface_count) * 16) 0)

-- The flag and the mask behind the count of interfaces.
fd_read :
    (m : RegisterMessage)
    → IsValid m
    → (not (bit_and (byte (after_name m) 1) 1 == 0) ≡ m.fd_reported)
      × ((if m.fd_reported then read_u16 (drop 2 (after_name m)) else 0) ≡ m.fd_interfaces)
unfolding write_u16
fd_read m v = elim (Bool-cases m.fd_reported) [
  | inl reported ↦ rw reported (
    refl,
    read_u16-write_u16 m.fd_interfaces
        (write_entries write_name (take m.interface_count m.interface_names)
          ++ replicate ((16 - m.interface_count) * 16) 0)
        v.mask,
  )
  | inr silent ↦ rw silent (refl, sym (v.unreported silent))
]

names_read :
    (m : RegisterMessage)
    → IsValid m
    → read_entries read_name 16 m.interface_count (drop 4 (after_name m)) ≡ m.interface_names
unfolding write_u16
names_read m v =
    let zeros : List ℕ = replicate ((16 - m.interface_count) * 16) 0 in
    let all : take m.interface_count m.interface_names ≡ m.interface_names =
      take_all m.interface_count m.interface_names (omega (arith, v.sized)) in
    let back =
      read_entries-write_entries write_name read_name 16 IsName (length-padded 16)
        (λ n rest ok. text_of-padded 15 16 n rest ok.0 ok.1 (omega arith)) m.interface_names
        m.interface_count zeros v.sized v.names in
    elim (Bool-cases m.fd_reported) [
      | inl reported ↦ rw (reported, all) back
      | inr silent ↦ rw (silent, all) back
    ]

valid_names :
    (m : RegisterMessage)
    → IsValid m
    → are_interface_names_valid m.interface_count m.interface_names ≡ true
unfolding are_interface_names_valid
valid_names m v =
    rw
      (
        take_all m.interface_count m.interface_names (omega (arith, v.sized)),
        names_good m.interface_names v.names,
      )
      refl

decode-body : (m : RegisterMessage) → IsValid m → decode (register_body m) body_size ≡ some m
unfolding decode
decode-body m v =
    let name = padded 128 m.agent_name in
    let len = length-padded 128 m.agent_name in
    let few : ltb 16 m.interface_count ≡ false = ground (arith, v.few) in
    let count : byte (register_body m) 128 ≡ m.interface_count =
      byte_past name (after_name m) 128 0 len in
    let flag : byte (register_body m) 129 ≡ byte (after_name m) 1 =
      byte_past name (after_name m) 128 1 len in
    let names_at : drop 132 (register_body m) ≡ drop 4 (after_name m) =
      drop_past name (after_name m) 128 4 len in
    let mask_at : drop 130 (register_body m) ≡ drop 2 (after_name m) =
      drop_past name (after_name m) 128 2 len in
    let agent : text_of 127 (register_body m) ≡ m.agent_name =
      text_of-padded 127 128 m.agent_name (after_name m) v.agent v.agent_short (omega arith) in
    let (reported, mask) = fd_read m v in
    rw (count, flag, names_at, mask_at, agent, few, names_read m v, valid_names m v, reported, mask)
      refl

-- A valid REGISTER written into a buffer of at least 392 bytes is read back as it was.
pub register_read_back :
    (m : RegisterMessage) (buffer_size : ℕ)
    → IsValid m
    → 392 ≤ buffer_size
    → decode (drop 4 (encode m buffer_size)) body_size ≡ some m
unfolding encode
register_read_back m buffer_size v room =
    let short : ltb 127 (length m.agent_name) ≡ false = ground (arith, v.agent_short) in
    let few : ltb 16 m.interface_count ≡ false = ground (arith, v.few) in
    rw
      (
        short,
        few,
        valid_names m v,
        carried_body type_register body_size (register_body m) buffer_size (omega arith)
            (omega arith),
      )
      (decode-body m v)

-- A REGISTER_ACK for at most 16 interfaces, written into a buffer of at least 24 bytes, is read back
-- with its status, its count and as many of its 16 channels, over those of the message read into.
pub register_ack_read_back :
    (m self : RegisterAck) (buffer_size : ℕ)
    → m.interface_count ≤ 16
    → length m.channels ≡ 16
    → 24 ≤ buffer_size
    → decode_ack self (drop 4 (encode_ack m buffer_size)) ack_body_size
      ≡ some (record m { channels = overlay self.channels (take m.interface_count m.channels) })
unfolding encode_ack decode_ack
register_ack_read_back m self buffer_size count sized room =
    let few : ltb 16 m.interface_count ≡ false = ground arith in
    let kept : take m.interface_count (overlay (replicate 16 0) (take m.interface_count m.channels))
        ≡ take m.interface_count m.channels =
      take-overlay-take m.interface_count (replicate 16 0) m.channels
        (omega (arith, length-replicate {A = ℕ} 16 0)) (omega arith) in
    rw
      (
        few,
        carried_body type_register_ack ack_body_size (ack_body m) buffer_size (omega arith)
            (omega arith),
        few,
        kept,
      )
      refl
