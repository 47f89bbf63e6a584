-- ===== src/Protocol/Frame.antt =====
-- The FRAME message and the walk over the frames of a datagram (src/protocol/frame_message.{h,c}).
use can_hub.Base.{
  ℕ, zero, suc, ◌+◌, ◌-◌, ◌%◌, ◌^◌, ◌≡◌, List, [], ◌∷◌, ◌++◌, Option, none, some, Bool, true, false,
  not, ltb, leb, ◌==◌, if◌then◌else◌, length, drop, take, bit_and,
}
use can_hub.Protocol.Wire.{
  byte, write_u32, write_u64, read_u32, read_u64, MessageHeader, encode_header, decode_header,
  header_size,
}
pub mod Datagram
pub mod ReadBack

-- kMESSAGE_TYPE_FRAME
abbrev pub type_frame : ℕ
type_frame = 0x40

-- FRAME_FIXED_FIELDS_SIZE
abbrev fixed_fields_size : ℕ
fixed_fields_size = 16

-- `payload` is the first `payload_length` bytes of the array.
pub record FrameMessage : Type 0 where
  pub can_id : ℕ
  pub timestamp_us : ℕ
  pub channel : ℕ
  pub payload_length : ℕ
  pub frame_flags : ℕ
  pub route_flags : ℕ
  pub payload : List ℕ

-- FRAME_FLAG_FD is bit 0; the two lengths are FRAME_PAYLOAD_MAX_FD and FRAME_PAYLOAD_MAX_CLASSIC.
unfoldable pub is_payload_length_valid : ℕ → ℕ → Bool
is_payload_length_valid payload_length frame_flags =
    if not (bit_and frame_flags 1 == 0) then leb payload_length 64 else leb payload_length 8

unfoldable pub encode : FrameMessage → ℕ → List ℕ
encode m buffer_size =
    if not (is_payload_length_valid m.payload_length m.frame_flags)
    then []
    else if ltb buffer_size (header_size + fixed_fields_size + m.payload_length)
    then []
    else encode_header
        (record {
          message_type = type_frame;
          flags = 0;
          message_length = (fixed_fields_size + m.payload_length) % 2 ^ 16;
        })
        buffer_size
      ++ write_u32 m.can_id
      ++ write_u64 m.timestamp_us
      ++ (m.channel ∷ m.payload_length ∷ m.frame_flags ∷ m.route_flags ∷ [])
      ++ take m.payload_length m.payload

unfoldable pub decode : List ℕ → ℕ → Option FrameMessage
decode payload payload_length =
    if ltb payload_length fixed_fields_size
    then none
    else if not (is_payload_length_valid (byte payload 13) (byte payload 14))
    then none
    else if ltb payload_length (fixed_fields_size + byte payload 13)
    then none
    else some (record {
      can_id = read_u32 payload;
      timestamp_us = read_u64 (drop 4 payload);
      channel = byte payload 12;
      payload_length = byte payload 13;
      frame_flags = byte payload 14;
      route_flags = byte payload 15;
      payload = take (byte payload 13) (drop 16 payload);
    })

pub record FrameStream : Type 0 where
  pub data_bytes : List ℕ
  pub size : ℕ
  pub offset : ℕ

unfoldable pub init : List ℕ → ℕ → FrameStream
init data_bytes size = record { data_bytes = data_bytes; size = size; offset = 0 }

-- The frame, if one was read, which is what the result says, and the stream.
unfoldable pub next : FrameStream → Option FrameMessage × FrameStream
next s =
    let remaining = s.size - s.offset in
    let here = drop s.offset s.data_bytes in
    if leb s.size s.offset then (none, s) else (elim (decode_header here remaining) [
      | none ↦ (none, s)
      | some h ↦
          if not (h.message_type == type_frame)
          then (none, s)
          else if ltb remaining (header_size + h.message_length)
          then (none, s)
          else (elim (decode (drop header_size here) h.message_length) [
            | none ↦ (none, s)
            | some m ↦ (some m, record s { offset = s.offset + (header_size + h.message_length) })
          ])
    ])
