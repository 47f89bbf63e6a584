-- ===== src/Protocol/Status.antt =====
-- The INTERFACE_STATUS message (src/protocol/interface_status_message.{h,c}). `entries` is the first
-- `interface_count` of its array of 16.
use can_hub.Base.{
  ℕ, ◌-◌, ◌*◌, ◌^◌, ◌≤◌, ◌<◌, ◌≡◌, refl, List, [], ◌∷◌, ◌++◌, Option, none, some, arith, true,
  false, ltb, if◌then◌else◌, length, drop, take, take_all, replicate,
}
use can_hub.Protocol.Wire.{
  byte, write_u16, write_u32, write_u64, read_u32, read_u64, read_u32-write_u32, read_u64-write_u64,
}
use can_hub.Protocol.Message.{
  encode_message, carried_body, write_entries, read_entries, read_entries-write_entries, All,
}

-- kMESSAGE_TYPE_INTERFACE_STATUS
abbrev type_interface_status : ℕ
type_interface_status = 0x0D

-- INTERFACE_STATUS_BODY_SIZE
abbrev pub body_size : ℕ
body_size = 324

pub record InterfaceStatusEntry : Type 0 where
  pub channel : ℕ
  pub flags : ℕ
  pub advertised_rate : ℕ
  pub credit : ℕ
  pub tx_dropped : ℕ

pub record InterfaceStatusMessage : Type 0 where
  pub interface_count : ℕ
  pub entries : List InterfaceStatusEntry

-- INTERFACE_STATUS_ENTRY_SIZE is 20.
pub write_entry : InterfaceStatusEntry → List ℕ
write_entry e =
    (e.channel ∷ e.flags ∷ 0 ∷ 0 ∷ [])
    ++ write_u32 e.advertised_rate
    ++ write_u32 e.credit
    ++ write_u64 e.tx_dropped

pub read_entry : List ℕ → InterfaceStatusEntry
read_entry bytes = record {
  channel = byte bytes 0;
  flags = byte bytes 1;
  advertised_rate = read_u32 (drop 4 bytes);
  credit = read_u32 (drop 8 bytes);
  tx_dropped = read_u64 (drop 12 bytes);
}

abbrev status_body : InterfaceStatusMessage → List ℕ
status_body m =
    (m.interface_count ∷ 0 ∷ 0 ∷ 0 ∷ [])
    ++ (write_entries write_entry (take m.interface_count m.entries)
        ++ replicate ((16 - m.interface_count) * 20) 0)

pub encode : InterfaceStatusMessage → ℕ → List ℕ
encode m buffer_size =
    if ltb 16 m.interface_count
    then []
    else encode_message type_interface_status body_size (status_body m) buffer_size

pub decode : List ℕ → ℕ → Option InterfaceStatusMessage
decode payload payload_length =
    if ltb payload_length body_size
    then none
    else if ltb 16 (byte payload 0)
    then none
    else some (record {
      interface_count = byte payload 0;
      entries = read_entries read_entry 20 (byte payload 0) (drop 4 payload);
    })

-- The numbers are in the range of their types.
abbrev pub IsEntry : InterfaceStatusEntry → Type 0
IsEntry e = (e.advertised_rate < 2 ^ 32) × (e.credit < 2 ^ 32) × (e.tx_dropped < 2 ^ 64)

length-write_entry : (e : InterfaceStatusEntry) → length (write_entry e) ≡ 20
unfolding write_entry write_u64 write_u32 write_u16
length-write_entry e = refl

read_entry-write_entry :
    (e : InterfaceStatusEntry) (rest : List ℕ) → IsEntry e → read_entry (write_entry e ++ rest) ≡ e
unfolding read_entry write_entry write_u32 write_u16
read_entry-write_entry e rest (rate, credit, dropped) =
    let last = write_u64 e.tx_dropped ++ rest in
    let tx : read_u64 last ≡ e.tx_dropped = read_u64-write_u64 e.tx_dropped rest dropped in
    let second : read_u32 (write_u32 e.credit ++ last) ≡ e.credit =
      read_u32-write_u32 e.credit last credit in
    let first : read_u32 (write_u32 e.advertised_rate ++ (write_u32 e.credit ++ last))
        ≡ e.advertised_rate =
      read_u32-write_u32 e.advertised_rate (write_u32 e.credit ++ last) rate in
    rw (first, second, tx) refl

-- An INTERFACE_STATUS of at most 16 entries whose numbers are in range is read back as it was
-- written into a buffer of at least 328 bytes; one of more is not written.
status_read_back :
    (m : InterfaceStatusMessage) (buffer_size : ℕ)
    → length m.entries ≡ m.interface_count
    → All IsEntry m.entries
    → 328 ≤ buffer_size
    → (m.interface_count ≤ 16 → decode (drop 4 (encode m buffer_size)) body_size ≡ some m)
      × (16 < m.interface_count → encode m buffer_size ≡ [])
unfolding encode decode
status_read_back m buffer_size sized ok room = (
  λ few.
      let fits : ltb 16 m.interface_count ≡ false = ground arith in
      let all : take m.interface_count m.entries ≡ m.entries =
        take_all m.interface_count m.entries (omega arith) in
      let zeros : List ℕ = replicate ((16 - m.interface_count) * 20) 0 in
      let back =
        read_entries-write_entries write_entry read_entry 20 IsEntry length-write_entry
          read_entry-write_entry m.entries m.interface_count zeros sized ok in
      rw
        (
          fits,
          carried_body type_interface_status body_size (status_body m) buffer_size (omega arith)
              (omega arith),
          fits,
          all,
          back,
        )
        refl,
  λ many. let much : ltb 16 m.interface_count ≡ true = ground arith in rw much refl,
)
