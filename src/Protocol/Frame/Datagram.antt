-- ===== src/Protocol/Frame/Datagram.antt =====
-- Datagrams of several frames.
use can_hub.Base.{
  ℕ, ◌+◌, ◌-◌, ◌%◌, ◌^◌, ◌≤◌, ◌<◌, ◌≡◌, refl, ap, ◌∙◌, List, [], ◌∷◌, ◌++◌, append_assoc, some,
  arith, true, false, ltb, leb, length, length-append, drop, take_all,
}
use can_hub.Protocol.Wire.{
  write_u16, write_u32, write_u64, read_u32, read_u64, read_u32-write_u32, read_u64-write_u64,
  MessageHeader, decode_header, take-append, drop-append, header_bytes, decode_header_lem,
}
use can_hub.Protocol.Frame.{
  FrameMessage, FrameStream, is_payload_length_valid, encode, decode, next, type_frame,
}

-- The fields are in the range of their C types, and the payload has the length it says, which is one
-- that a frame may have.
pub record IsValid (m : FrameMessage) : Type 0 where
  pub id : m.can_id < 2 ^ 32
  pub time : m.timestamp_us < 2 ^ 64
  pub allowed : is_payload_length_valid m.payload_length m.frame_flags ≡ true
  pub sized : length m.payload ≡ m.payload_length

-- The bytes behind the header.
abbrev pub body : FrameMessage → List ℕ
body m =
    write_u32 m.can_id
    ++ write_u64 m.timestamp_us
    ++ (m.channel ∷ m.payload_length ∷ m.frame_flags ∷ m.route_flags ∷ [])
    ++ m.payload

pub payload_le : (m : FrameMessage) → IsValid m → m.payload_length ≤ 64
unfolding is_payload_length_valid
payload_le m v = ground (arith, v.allowed)

length-body : (m : FrameMessage) → IsValid m → length (body m) ≡ 16 + m.payload_length
unfolding write_u32 write_u64 write_u16
length-body m v = omega (arith, v.sized)

decode-body :
    (m : FrameMessage) (rest : List ℕ)
    → IsValid m
    → decode (body m ++ rest) (16 + m.payload_length) ≡ some m
unfolding decode write_u32 write_u64 write_u16
decode-body m rest v =
    let tail =
      (m.channel ∷ m.payload_length ∷ m.frame_flags ∷ m.route_flags ∷ []) ++ m.payload ++ rest in
    let id : read_u32 (body m ++ rest) ≡ m.can_id =
      read_u32-write_u32 m.can_id (write_u64 m.timestamp_us ++ tail) v.id in
    let time : read_u64 (drop 4 (body m ++ rest)) ≡ m.timestamp_us =
      read_u64-write_u64 m.timestamp_us tail v.time in
    let room : ltb (16 + m.payload_length) 16 ≡ false = ground arith in
    let fits : ltb (16 + m.payload_length) (16 + m.payload_length) ≡ false = ground arith in
    rw (room, v.allowed, fits, id, time, take-append m.payload rest m.payload_length v.sized) refl

-- A frame as `FrameMessage_Encode` writes it into a buffer that is just large enough.
abbrev pub frame_bytes : FrameMessage → List ℕ
frame_bytes m = encode m (20 + m.payload_length)

-- Frames back to back.
abbrev pub datagram : List FrameMessage → List ℕ
datagram [] = []
datagram (m ∷ rest) = frame_bytes m ++ datagram rest

abbrev pub header_of : FrameMessage → MessageHeader
header_of m = record {
  message_type = type_frame;
  flags = 0;
  message_length = 16 + m.payload_length;
}

abbrev pub header : FrameMessage → List ℕ
header m = type_frame ∷ 0 ∷ write_u16 (16 + m.payload_length)

pub encode_lem :
    (m : FrameMessage) (buffer_size : ℕ)
    → IsValid m
    → 20 + m.payload_length ≤ buffer_size
    → encode m buffer_size ≡ header m ++ body m
unfolding encode write_u16 write_u32
encode_lem m buffer_size v room =
    let le = payload_le m v in
    let fits : ltb buffer_size (20 + m.payload_length) ≡ false = ground arith in
    let same : (16 + m.payload_length) % 2 ^ 16 ≡ 16 + m.payload_length = omega arith in
    rw
      (
        v.allowed,
        fits,
        same,
        header_bytes (header_of m) buffer_size (omega arith),
        take_all m.payload_length m.payload (omega (arith, v.sized)),
      )
      refl

pub length-frame_bytes :
    (m : FrameMessage) → IsValid m → length (frame_bytes m) ≡ 20 + m.payload_length
unfolding write_u16
length-frame_bytes m v =
    rw (encode_lem m (20 + m.payload_length) v (omega arith)) (omega (arith, length-body m v))

-- What is left of the stream's bytes.
abbrev pub Left : FrameStream → List ℕ → Type 0
Left s xs = (drop s.offset s.data_bytes ≡ xs) × (s.offset + length xs ≡ s.size)

pub length-header : (m : FrameMessage) → length (header m) ≡ 4
unfolding write_u16
length-header m = refl

pub next_whole :
    (s : FrameStream) (m : FrameMessage) (rest : List ℕ)
    → IsValid m
    → Left s (frame_bytes m ++ rest)
    → next s ≡ (some m, record s { offset = s.offset + (4 + (16 + m.payload_length)) })
unfolding next
next_whole s m rest v (here, size) =
    let len = length-frame_bytes m v in
    let total = length-append (frame_bytes m) rest in
    let shape = encode_lem m (20 + m.payload_length) v (omega arith) in
    let inside : leb s.size s.offset ≡ false = ground arith in
    let enough : ltb (s.size - s.offset) (4 + (16 + m.payload_length)) ≡ false = ground arith in
    let there : drop s.offset s.data_bytes ≡ header m ++ (body m ++ rest) =
      here ∙ ap (λ x. x ++ rest) shape ∙ append_assoc (header m) (body m) rest in
    let known : decode_header (drop s.offset s.data_bytes) (s.size - s.offset)
        ≡ some (header_of m) =
      ap (λ x. decode_header x (s.size - s.offset)) there
      ∙ decode_header_lem (header_of m) (body m ++ rest) (s.size - s.offset) (omega arith)
          (omega (arith, payload_le m v)) in
    let skipped : drop 4 (drop s.offset s.data_bytes) ≡ body m ++ rest =
      ap (drop 4) there ∙ drop-append (header m) (body m ++ rest) 4 (length-header m) in
    let decoded : decode (drop 4 (drop s.offset s.data_bytes)) (16 + m.payload_length) ≡ some m =
      ap (λ x. decode x (16 + m.payload_length)) skipped ∙ decode-body m rest v in
    rw (inside, known, enough, decoded) refl
