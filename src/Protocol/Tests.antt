-- ===== src/Protocol/Tests.antt =====
-- Runs of the messages, and the theorems about them at concrete ones.
use can_hub.Base.{
  ◌+◌, ◌≤◌, ◌≡◌, ◌⊎◌, ◌↔◌, refl, [], ◌∷◌, ◌++◌, none, some, true, false, arith, Text, length, drop,
  take, find, find_index, str_eq,
}
use can_hub.Protocol.Wire.{
  write_u16, write_u32, write_u64, read_u16, read_u32, read_u64, encode_header, decode_header,
  IsText, IsText-nil, IsText-cons,
}
use can_hub.Protocol.Message.{encode_message, write_entries, All}
use can_hub.Protocol.Frame
use can_hub.Protocol.Frame.{FrameMessage, FrameStream, is_payload_length_valid, init, next}
use can_hub.Protocol.Frame.Datagram
use can_hub.Protocol.Frame.Datagram.{frame_bytes, datagram}
use can_hub.Protocol.Frame.ReadBack.{AreValid, read_all, datagram_read, next_bounds}
use can_hub.Protocol.Hello
use can_hub.Protocol.Hello.{HelloMessage, is_role_valid, hello_read_back}
use can_hub.Protocol.Subscribe
use can_hub.Protocol.Subscribe.{
  CanFilter, SubscribeMessage, write_filter, read_filter, subscribe_read_back,
}
use can_hub.Protocol.ListReply
use can_hub.Protocol.ListReply.{
  ListMessage, ListReplyEntry, ListReplyMessage, encode_list, decode_list, encode_reply,
  decode_reply, are_entries_valid, is_entry_bad, list_read_back,
}
use can_hub.Protocol.InterfaceName.{
  is_namespaced, split, names_entry, find_name, namespaced_name, names_entry_lem,
}

-- A classic frame of two bytes, and one of three.
abbrev frame : FrameMessage
frame = record {
  can_id = 0x123;
  timestamp_us = 5000000000;
  channel = 1;
  payload_length = 2;
  frame_flags = 0;
  route_flags = 4;
  payload = 10 ∷ 11 ∷ [];
}

abbrev frame3 : FrameMessage
frame3 = record frame { payload_length = 3; payload = 10 ∷ 11 ∷ 12 ∷ [] }

frame-IsValid : Datagram.IsValid frame
unfolding is_payload_length_valid
frame-IsValid = record { id = omega arith; time = omega arith; allowed = refl; sized = refl }

frame3-IsValid : Datagram.IsValid frame3
unfolding is_payload_length_valid
frame3-IsValid = record { id = omega arith; time = omega arith; allowed = refl; sized = refl }

-- The bytes of a frame, and a frame that is too long for a classic one.
frames :
    (take 8 (frame_bytes frame) ≡ 0x40 ∷ 0 ∷ 18 ∷ 0 ∷ 0x23 ∷ 1 ∷ 0 ∷ 0 ∷ [])
    × (Frame.encode (record frame { payload_length = 9 }) 100 ≡ [])
    × (read_all 3 (init (frame_bytes frame ++ take 22 (frame_bytes frame3)) 44) ≡ frame ∷ [])
unfolding Frame.encode Frame.decode is_payload_length_valid encode_header decode_header write_u16
    write_u32 write_u64 read_u16 read_u32 read_u64 read_all next init
frames = (refl, refl, refl)

valid_frames : AreValid (frame ∷ frame3 ∷ [])
unfolding AreValid
valid_frames = (frame-IsValid, (frame3-IsValid, tt))

datagram_read_example :
    let bytes = datagram (frame ∷ frame3 ∷ []) ++ take 21 (frame_bytes frame) in
    read_all 3 (init bytes (length bytes)) ≡ frame ∷ frame3 ∷ []
datagram_read_example =
    datagram_read (frame ∷ frame3 ∷ []) frame 21 3 valid_frames frame-IsValid (omega arith)
      (omega arith)

abbrev stream : FrameStream
stream = init (frame_bytes frame) 22

next_bounds_example :
    ((next stream).0 ≡ none) × ((next stream).1 ≡ stream)
    ⊎ ((m : FrameMessage) × ((next stream).0 ≡ some m)
        × (stream.offset + 20 ≤ (next stream).1.offset)
        × ((next stream).1.offset ≤ stream.size)
        × (is_payload_length_valid m.payload_length m.frame_flags ≡ true))
next_bounds_example = next_bounds stream

abbrev name : Text
name = 65 ∷ []

name-IsText : IsText name
name-IsText = IsText-cons 65 [] (omega arith) IsText-nil

abbrev hello : HelloMessage
hello = record { version = 0; role = 1; capabilities = 5; name = name }

hello-IsValid : Hello.IsValid hello
unfolding is_role_valid
hello-IsValid = record {
  known = refl;
  flags = omega arith;
  named = name-IsText;
  short = omega arith;
}

hello_read_back_example :
    (decode_header (Hello.encode hello 100) 100
      ≡ some (record { message_type = 1; flags = 0; message_length = 72 }))
    × (Hello.decode (drop 4 (Hello.encode hello 100)) 72 ≡ some hello)
hello_read_back_example = hello_read_back hello 100 hello-IsValid (omega arith)

hellos :
    (Hello.build 1 (some name) 5 100 ≡ Hello.encode hello 100)
    × (Hello.encode (record hello { role = 4 }) 100 ≡ [])
unfolding Hello.build Hello.encode is_role_valid
hellos = (refl, refl)

abbrev filter : CanFilter
filter = record { can_id = 0x123; can_mask = 0x7FF }

abbrev subscription : SubscribeMessage
subscription = record { channel = 2; filter_count = 1; filters = filter ∷ [] }

-- A filter of one identifier is eight bytes after the four of the channel and the count.
subscriptions :
    (drop 8 (Subscribe.encode subscription 16) ≡ 0x23 ∷ 1 ∷ 0 ∷ 0 ∷ 0xFF ∷ 7 ∷ 0 ∷ 0 ∷ [])
    × (Subscribe.encode (record subscription { filter_count = 17 }) 200 ≡ [])
unfolding Subscribe.encode write_entries write_filter encode_message encode_header write_u32
    write_u16
subscriptions = (refl, refl)

abbrev entry : ListReplyEntry
entry = record { interface_id = 7; agent_name = name; interface_name = 99 ∷ [] }

abbrev reply : ListReplyMessage
reply = record { entry_count = 1; flags = 1; entries = entry ∷ [] }

reply-All : All ListReply.IsEntry reply.entries
unfolding All
reply-All = (
  (omega arith, name-IsText, omega arith, IsText-cons 99 [] (omega arith) IsText-nil, omega arith),
  tt,
)

list_read_back_example :
    (decode_list (drop 4 (encode_list (record { offset = 16 }) 200)) 4
      ≡ some (record { offset = 16 }))
    × (decode_reply (drop 4 (encode_reply reply 200)) 152 ≡ some reply)
list_read_back_example =
    list_read_back (record { offset = 16 }) reply 200 (omega arith) (omega arith) refl reply-All
      (omega arith)

names_entry_lem_example :
    (names_entry (65 ∷ 47 ∷ 99 ∷ []) entry ≡ true)
    ↔ (65 ∷ 47 ∷ 99 ∷ [] ≡ namespaced_name name (99 ∷ []))
names_entry_lem_example = names_entry_lem (65 ∷ 47 ∷ 99 ∷ []) entry

names :
    (split (65 ∷ 47 ∷ 99 ∷ []) ≡ some (name, 99 ∷ []))
    × (split (65 ∷ 99 ∷ []) ≡ none)
    × (is_namespaced (65 ∷ 99 ∷ []) ≡ false)
    × (find_name reply (65 ∷ 47 ∷ 99 ∷ []) ≡ some 7)
unfolding split is_namespaced find_name names_entry find find_index str_eq
names = (refl, refl, refl, refl)
