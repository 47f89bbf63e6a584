-- ===== src/Protocol/ListReply.antt =====
-- The LIST and LIST_REPLY messages (src/protocol/list_message.{h,c}). Names are texts in arrays of
-- 128 and 16 bytes; an array whose last byte is not NUL is a text that is as long. `entries` is the
-- first `entry_count` of its array of 16.
use can_hub.Base.{
  ℕ, ◌+◌, ◌*◌, ◌^◌, ◌≤◌, ◌<◌, ◌≡◌, refl, sym, ap, ◌∙◌, List, [], ◌∷◌, ◌++◌, append-nil,
  append_assoc, Option, none, some, arith, Bool, false, not, ◌||◌, ltb, is_some, if◌then◌else◌,
  length, length-append, drop, take, take_all, Text, find_index,
}
use can_hub.Protocol.Wire.{
  byte, write_u16, write_u32, read_u16, read_u32, read_u16-write_u16, read_u32-write_u32, padded,
  text_of, text_of-padded, length-padded, IsText, drop-append,
}
use can_hub.Protocol.Message.{
  encode_message, carried_body, write_entries, read_entries, read_entries-write_entries, All,
}

-- kMESSAGE_TYPE_LIST, kMESSAGE_TYPE_LIST_REPLY
abbrev type_list : ℕ
type_list = 0x04

abbrev type_list_reply : ℕ
type_list_reply = 0x05

-- LIST_REPLY_ENTRIES_MAX
abbrev pub list_reply_max : ℕ
list_reply_max = 16

pub record ListMessage : Type 0 where
  pub offset : ℕ

pub record ListReplyEntry : Type 0 where
  pub interface_id : ℕ
  pub agent_name : Text
  pub interface_name : Text

pub record ListReplyMessage : Type 0 where
  pub entry_count : ℕ
  pub flags : ℕ
  pub entries : List ListReplyEntry

pub encode_list : ListMessage → ℕ → List ℕ
encode_list m buffer_size =
    encode_message type_list 4 (write_u16 m.offset ++ (0 ∷ 0 ∷ [])) buffer_size

pub decode_list : List ℕ → ℕ → Option ListMessage
decode_list payload payload_length =
    if ltb payload_length 4 then none else some (record { offset = read_u16 payload })

-- LIST_REPLY_ENTRY_SIZE is 148.
pub write_entry : ListReplyEntry → List ℕ
write_entry e = write_u32 e.interface_id ++ (padded 128 e.agent_name ++ padded 16 e.interface_name)

pub read_entry : List ℕ → ListReplyEntry
read_entry source = record {
  interface_id = read_u32 source;
  agent_name = text_of 127 (drop 4 source);
  interface_name = text_of 15 (drop 132 source);
}

-- The test of `areEntriesValid` that an entry fails: a name has no NUL.
pub is_entry_bad : ListReplyEntry → Bool
is_entry_bad e = ltb 127 (length e.agent_name) || ltb 15 (length e.interface_name)

pub are_entries_valid : ListReplyMessage → Bool
are_entries_valid m = not (is_some (find_index is_entry_bad (take m.entry_count m.entries)))

abbrev reply_body : ListReplyMessage → List ℕ
reply_body m =
    (m.entry_count ∷ m.flags ∷ 0 ∷ 0 ∷ [])
    ++ write_entries write_entry (take m.entry_count m.entries)

pub encode_reply : ListReplyMessage → ℕ → List ℕ
encode_reply m buffer_size =
    if ltb list_reply_max m.entry_count || not (are_entries_valid m)
    then []
    else encode_message type_list_reply (4 + m.entry_count * 148) (reply_body m) buffer_size

pub decode_reply : List ℕ → ℕ → Option ListReplyMessage
decode_reply payload payload_length =
    if ltb payload_length 4
    then none
    else if ltb list_reply_max (byte payload 0)
    then none
    else if ltb payload_length (4 + byte payload 0 * 148)
    then none
    else some (record {
      entry_count = byte payload 0;
      flags = byte payload 1;
      entries = read_entries read_entry 148 (byte payload 0) (drop 4 payload);
    })

-- A 32-bit id and texts that fit their arrays.
abbrev pub IsEntry : ListReplyEntry → Type 0
IsEntry e =
    (e.interface_id < 2 ^ 32)
    × IsText e.agent_name
    × (length e.agent_name ≤ 127)
    × IsText e.interface_name
    × (length e.interface_name ≤ 15)

length-write_entry : (e : ListReplyEntry) → length (write_entry e) ≡ 148
unfolding write_entry write_u32 write_u16
length-write_entry e = omega (
  arith,
  length-append (padded 128 e.agent_name) (padded 16 e.interface_name),
  length-padded 128 e.agent_name,
  length-padded 16 e.interface_name,
)

read_entry-write_entry :
    (e : ListReplyEntry) (rest : List ℕ) → IsEntry e → read_entry (write_entry e ++ rest) ≡ e
unfolding read_entry write_entry write_u32 write_u16
read_entry-write_entry e rest (id, agent, agent_short, name, name_short) =
    let names = padded 128 e.agent_name ++ (padded 16 e.interface_name ++ rest) in
    let shape : (padded 128 e.agent_name ++ padded 16 e.interface_name) ++ rest ≡ names =
      append_assoc (padded 128 e.agent_name) (padded 16 e.interface_name) rest in
    let first : read_u32 (write_u32 e.interface_id ++ names) ≡ e.interface_id =
      read_u32-write_u32 e.interface_id names id in
    let second : text_of 127 names ≡ e.agent_name =
      text_of-padded 127 128 e.agent_name (padded 16 e.interface_name ++ rest) agent agent_short
        (omega arith) in
    let behind : drop 128 names ≡ padded 16 e.interface_name ++ rest =
      drop-append (padded 128 e.agent_name) (padded 16 e.interface_name ++ rest) 128
        (length-padded 128 e.agent_name) in
    rw
      (
        shape,
        first,
        second,
        behind,
        text_of-padded 15 16 e.interface_name rest name name_short (omega arith),
      )
      refl

entries_good : (es : List ListReplyEntry) → All IsEntry es → find_index is_entry_bad es ≡ none
unfolding find_index is_entry_bad All
entries_good [] ok = refl
entries_good (e ∷ es) ((id, agent, agent_short, name, name_short), ok) =
    let good : (ltb 127 (length e.agent_name) || ltb 15 (length e.interface_name)) ≡ false =
      ground arith in
    rw (good, entries_good es ok) refl

-- A LIST_REPLY of at most 16 entries whose ids are 32-bit and whose names fit is read back as it was
-- written into a buffer that holds it, and so is a LIST with a 16-bit offset.
pub list_read_back :
    (request : ListMessage) (m : ListReplyMessage) (buffer_size : ℕ)
    → request.offset < 2 ^ 16
    → m.entry_count ≤ 16
    → length m.entries ≡ m.entry_count
    → All IsEntry m.entries
    → 8 + m.entry_count * 148 ≤ buffer_size
    → (decode_list (drop 4 (encode_list request buffer_size)) 4 ≡ some request)
      × (decode_reply (drop 4 (encode_reply m buffer_size)) (4 + m.entry_count * 148) ≡ some m)
unfolding encode_list decode_list encode_reply decode_reply are_entries_valid
list_read_back request m buffer_size low few sized ok room =
    let offset = read_u16-write_u16 request.offset (0 ∷ 0 ∷ []) low in
    let size = 4 + m.entry_count * 148 in
    let fits : ltb 16 m.entry_count ≡ false = ground arith in
    let long : ltb size 4 ≡ false = ground arith in
    let whole : ltb size size ≡ false = ground arith in
    let all : take m.entry_count m.entries ≡ m.entries =
      take_all m.entry_count m.entries (omega arith) in
    let entries = write_entries write_entry m.entries in
    let back : read_entries read_entry 148 m.entry_count entries ≡ m.entries =
      ap (read_entries read_entry 148 m.entry_count) (sym (append-nil entries))
      ∙ read_entries-write_entries write_entry read_entry 148 IsEntry length-write_entry
          read_entry-write_entry m.entries m.entry_count [] sized ok in
    (
      rw
          (
            carried_body type_list 4 (write_u16 request.offset ++ (0 ∷ 0 ∷ [])) buffer_size
                (omega arith) (omega arith),
            offset,
          )
          refl,
      rw
          (
            fits,
            all,
            entries_good m.entries ok,
            carried_body type_list_reply size ((m.entry_count ∷ m.flags ∷ 0 ∷ 0 ∷ []) ++ entries)
                buffer_size (omega arith) (omega arith),
            long,
            fits,
            whole,
            back,
          )
          refl,
    )
