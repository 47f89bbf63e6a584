-- ===== src/Protocol/Subscribe.antt =====
-- The SUBSCRIBE message (src/protocol/subscribe_message.{h,c}). `filters` is the first `filter_count`
-- of its array of 16.
use can_hub.Base.{
  ℕ, ◌+◌, ◌*◌, ◌^◌, ◌≤◌, ◌<◌, ◌≡◌, refl, sym, ap, ◌∙◌, List, [], ◌∷◌, ◌++◌, append-nil, Option,
  none, some, arith, true, false, ltb, if◌then◌else◌, length, drop, take, take_all,
}
use can_hub.Protocol.Wire.{byte, write_u16, write_u32, read_u32, read_u32-write_u32}
use can_hub.Protocol.Message.{
  encode_message, carried_body, write_entries, read_entries, read_entries-write_entries, All,
}

-- kMESSAGE_TYPE_SUBSCRIBE
abbrev type_subscribe : ℕ
type_subscribe = 0x08

-- SUBSCRIBE_FILTERS_MAX
abbrev pub filters_max : ℕ
filters_max = 16

pub record CanFilter : Type 0 where
  pub can_id : ℕ
  pub can_mask : ℕ

pub record SubscribeMessage : Type 0 where
  pub channel : ℕ
  pub filter_count : ℕ
  pub filters : List CanFilter

-- CAN_FILTER_SIZE is 8.
unfoldable pub write_filter : CanFilter → List ℕ
write_filter f = write_u32 f.can_id ++ write_u32 f.can_mask

pub read_filter : List ℕ → CanFilter
read_filter bytes = record { can_id = read_u32 bytes; can_mask = read_u32 (drop 4 bytes) }

abbrev subscribe_body : SubscribeMessage → List ℕ
subscribe_body m =
    (m.channel ∷ m.filter_count ∷ 0 ∷ 0 ∷ [])
    ++ write_entries write_filter (take m.filter_count m.filters)

unfoldable pub encode : SubscribeMessage → ℕ → List ℕ
encode m buffer_size =
    if ltb filters_max m.filter_count
    then []
    else encode_message type_subscribe (4 + m.filter_count * 8) (subscribe_body m) buffer_size

pub decode : List ℕ → ℕ → Option SubscribeMessage
decode payload payload_length =
    if ltb payload_length 4
    then none
    else if ltb filters_max (byte payload 1)
    then none
    else if ltb payload_length (4 + byte payload 1 * 8)
    then none
    else some (record {
      channel = byte payload 0;
      filter_count = byte payload 1;
      filters = read_entries read_filter 8 (byte payload 1) (drop 4 payload);
    })

-- Two 32-bit numbers.
abbrev IsFilter : CanFilter → Type 0
IsFilter f = (f.can_id < 2 ^ 32) × (f.can_mask < 2 ^ 32)

length-write_filter : (f : CanFilter) → length (write_filter f) ≡ 8
unfolding write_filter write_u32 write_u16
length-write_filter f = refl

read_filter-write_filter :
    (f : CanFilter) (rest : List ℕ) → IsFilter f → read_filter (write_filter f ++ rest) ≡ f
unfolding read_filter write_filter write_u32 write_u16
read_filter-write_filter f rest (id, mask) =
    let first : read_u32 (write_u32 f.can_id ++ (write_u32 f.can_mask ++ rest)) ≡ f.can_id =
      read_u32-write_u32 f.can_id (write_u32 f.can_mask ++ rest) id in
    rw (first, read_u32-write_u32 f.can_mask rest mask) refl

-- A SUBSCRIBE of at most 16 filters of 32-bit numbers is read back as it was written into a buffer
-- that holds it; one of more is not written.
pub subscribe_read_back :
    (m : SubscribeMessage) (buffer_size : ℕ)
    → length m.filters ≡ m.filter_count
    → All IsFilter m.filters
    → 8 + m.filter_count * 8 ≤ buffer_size
    → (m.filter_count ≤ 16
        → decode (drop 4 (encode m buffer_size)) (4 + m.filter_count * 8) ≡ some m)
      × (16 < m.filter_count → encode m buffer_size ≡ [])
unfolding encode decode
subscribe_read_back m buffer_size sized ok room = (
  λ few.
      let fits : ltb 16 m.filter_count ≡ false = ground arith in
      let size = 4 + m.filter_count * 8 in
      let long : ltb size 4 ≡ false = ground arith in
      let whole : ltb size size ≡ false = ground arith in
      let all : take m.filter_count m.filters ≡ m.filters =
        take_all m.filter_count m.filters (omega arith) in
      let entries = write_entries write_filter m.filters in
      let back : read_entries read_filter 8 m.filter_count entries ≡ m.filters =
        ap (read_entries read_filter 8 m.filter_count) (sym (append-nil entries))
        ∙ read_entries-write_entries write_filter read_filter 8 IsFilter length-write_filter
            read_filter-write_filter m.filters m.filter_count [] sized ok in
      rw
        (
          fits,
          carried_body type_subscribe size (subscribe_body m) buffer_size (omega arith)
              (omega arith),
          long,
          fits,
          whole,
          all,
          back,
        )
        refl,
  λ many. let much : ltb 16 m.filter_count ≡ true = ground arith in rw much refl,
)
