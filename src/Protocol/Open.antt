-- ===== src/Protocol/Open.antt =====
-- The OPEN, OPEN_ACK and CLOSE messages (src/protocol/open_message.{h,c}).
use can_hub.Base.{
  ℕ, ◌^◌, ◌≤◌, ◌<◌, ◌≡◌, refl, sym, ap, ◌∙◌, List, [], ◌∷◌, ◌++◌, append-nil, Option, none, some,
  arith, ltb, if◌then◌else◌, drop,
}
use can_hub.Protocol.Wire.{byte, write_u32, write_u16, read_u32, read_u32-write_u32}
use can_hub.Protocol.Message.{encode_message, carried_body}

-- kMESSAGE_TYPE_OPEN, kMESSAGE_TYPE_CLOSE, kMESSAGE_TYPE_OPEN_ACK
abbrev type_open : ℕ
type_open = 0x06

abbrev type_close : ℕ
type_close = 0x07

abbrev type_open_ack : ℕ
type_open_ack = 0x0A

pub record OpenMessage : Type 0 where
  pub interface_id : ℕ
  pub flags : ℕ

pub record OpenAckMessage : Type 0 where
  pub status : ℕ
  pub channel : ℕ
  pub interface_id : ℕ

pub record CloseMessage : Type 0 where
  pub channel : ℕ

encode_open : OpenMessage → ℕ → List ℕ
encode_open m buffer_size =
    encode_message type_open 8 (write_u32 m.interface_id ++ (m.flags ∷ 0 ∷ 0 ∷ 0 ∷ [])) buffer_size

decode_open : List ℕ → ℕ → Option OpenMessage
decode_open payload payload_length =
    if ltb payload_length 8
    then none
    else some (record { interface_id = read_u32 payload; flags = byte payload 4 })

encode_open_ack : OpenAckMessage → ℕ → List ℕ
encode_open_ack m buffer_size =
    encode_message type_open_ack 8 ((m.status ∷ m.channel ∷ 0 ∷ 0 ∷ []) ++ write_u32 m.interface_id)
      buffer_size

decode_open_ack : List ℕ → ℕ → Option OpenAckMessage
decode_open_ack payload payload_length =
    if ltb payload_length 8
    then none
    else some (record {
      status = byte payload 0;
      channel = byte payload 1;
      interface_id = read_u32 (drop 4 payload);
    })

encode_close : CloseMessage → ℕ → List ℕ
encode_close m buffer_size = encode_message type_close 4 (m.channel ∷ 0 ∷ 0 ∷ 0 ∷ []) buffer_size

decode_close : List ℕ → ℕ → Option CloseMessage
decode_close payload payload_length =
    if ltb payload_length 4 then none else some (record { channel = byte payload 0 })

open_back :
    (m : OpenMessage)
    → m.interface_id < 2 ^ 32
    → decode_open (write_u32 m.interface_id ++ (m.flags ∷ 0 ∷ 0 ∷ 0 ∷ [])) 8 ≡ some m
unfolding decode_open write_u32 write_u16
open_back m low = rw (read_u32-write_u32 m.interface_id (m.flags ∷ 0 ∷ 0 ∷ 0 ∷ []) low) refl

open_ack_back :
    (m : OpenAckMessage)
    → m.interface_id < 2 ^ 32
    → decode_open_ack ((m.status ∷ m.channel ∷ 0 ∷ 0 ∷ []) ++ write_u32 m.interface_id) 8 ≡ some m
unfolding decode_open_ack
open_ack_back m low =
    let id : read_u32 (write_u32 m.interface_id) ≡ m.interface_id =
      ap read_u32 (sym (append-nil (write_u32 m.interface_id)))
      ∙ read_u32-write_u32 m.interface_id [] low in
    rw id refl

-- OPEN, OPEN_ACK and CLOSE are read back as they were written, for buffers that hold them and
-- 32-bit interface ids.
open_read_back :
    (request : OpenMessage) (ack : OpenAckMessage) (close : CloseMessage) (buffer_size : ℕ)
    → request.interface_id < 2 ^ 32
    → ack.interface_id < 2 ^ 32
    → 12 ≤ buffer_size
    → (decode_open (drop 4 (encode_open request buffer_size)) 8 ≡ some request)
      × (decode_open_ack (drop 4 (encode_open_ack ack buffer_size)) 8 ≡ some ack)
      × (decode_close (drop 4 (encode_close close buffer_size)) 4 ≡ some close)
unfolding encode_open encode_open_ack encode_close decode_close
open_read_back request ack close buffer_size low low_ack room = (
  ap (λ x. decode_open x 8)
        (carried_body type_open 8
          (write_u32 request.interface_id ++ (request.flags ∷ 0 ∷ 0 ∷ 0 ∷ [])) buffer_size
          (omega arith) (omega arith))
      ∙ open_back request low,
  ap (λ x. decode_open_ack x 8)
        (carried_body type_open_ack 8
          ((ack.status ∷ ack.channel ∷ 0 ∷ 0 ∷ []) ++ write_u32 ack.interface_id) buffer_size
          (omega arith) (omega arith))
      ∙ open_ack_back ack low_ack,
  ap (λ x. decode_close x 4)
      (carried_body type_close 4 (close.channel ∷ 0 ∷ 0 ∷ 0 ∷ []) buffer_size (omega arith)
        (omega arith)),
)
