-- ===== src/Protocol/Wire.antt =====
-- Numbers, texts and headers as bytes (src/protocol/wire.{h,c}, src/protocol/message_header.{h,c}).
-- What is written into a buffer is the list of its bytes, from the first; a pointer into one is what
-- is left of it there. Encoding into a buffer that is too small, or of a message that is refused,
-- writes nothing and returns 0: the empty list.
use can_hub.Base.{
  ℕ, zero, suc, ◌+◌, ◌*◌, ◌/◌, ◌%◌, ◌^◌, ◌≤◌, ◌<◌, ◌≡◌, ◌≢◌, refl, ap, ◌∙◌, List, [], ◌∷◌, ◌++◌,
  Option, none, some, arith, true, false, ltb, ◌==◌, if◌then◌else◌, length, get_or, drop, drop-drop,
  sym, take, replicate, length-overlay, length-replicate, overlay, Text,
}

-- A byte array's contents at an index.
abbrev pub byte : List ℕ → ℕ → ℕ
byte bytes i = get_or bytes i 0

unfoldable pub write_u16 : ℕ → List ℕ
write_u16 value = value % 2 ^ 8 ∷ value / 2 ^ 8 % 2 ^ 8 ∷ []

unfoldable pub write_u32 : ℕ → List ℕ
write_u32 value = write_u16 (value % 2 ^ 16) ++ write_u16 (value / 2 ^ 16 % 2 ^ 16)

unfoldable pub write_u64 : ℕ → List ℕ
write_u64 value = write_u32 (value % 2 ^ 32) ++ write_u32 (value / 2 ^ 32 % 2 ^ 32)

-- The `|` of parts that share no bit is their sum.
unfoldable pub read_u16 : List ℕ → ℕ
read_u16 bytes = byte bytes 0 + byte bytes 1 * 2 ^ 8

unfoldable pub read_u32 : List ℕ → ℕ
read_u32 bytes = read_u16 bytes + read_u16 (drop 2 bytes) * 2 ^ 16

unfoldable pub read_u64 : List ℕ → ℕ
read_u64 bytes = read_u32 bytes + read_u32 (drop 4 bytes) * 2 ^ 32

pub read_u16-write_u16 : (v : ℕ) (rest : List ℕ) → v < 2 ^ 16 → read_u16 (write_u16 v ++ rest) ≡ v
unfolding read_u16 write_u16
read_u16-write_u16 v rest h = omega arith

pub read_u32-write_u32 : (v : ℕ) (rest : List ℕ) → v < 2 ^ 32 → read_u32 (write_u32 v ++ rest) ≡ v
unfolding read_u32 read_u16 write_u32 write_u16
read_u32-write_u32 v rest h = omega arith

pub read_u64-write_u64 : (v : ℕ) (rest : List ℕ) → v < 2 ^ 64 → read_u64 (write_u64 v ++ rest) ≡ v
unfolding read_u64 write_u64 write_u32 write_u16
read_u64-write_u64 v rest h =
    let low =
      read_u32-write_u32 (v % 2 ^ 32) (write_u32 (v / 2 ^ 32 % 2 ^ 32) ++ rest) (omega arith) in
    let high = read_u32-write_u32 (v / 2 ^ 32 % 2 ^ 32) rest (omega arith) in
    omega (arith, low, high)

-- A text in an array of zeros: `memset(array, 0, size)`, then `memcpy(array, text, strlen(text))`.
pub padded : ℕ → Text → List ℕ
padded size text = overlay (replicate size 0) text

-- What is read of a char array whose last byte is then made a NUL: the text before the first NUL.
pub text_of : ℕ → List ℕ → Text
text_of zero bytes = []
text_of (suc n) [] = []
text_of (suc n) (b ∷ bytes) = let rest = text_of n bytes in if b == 0 then [] else b ∷ rest

-- No byte of a text is NUL.
pub IsText : Text → Type 0
IsText t = (i : ℕ) → i < length t → byte t i ≢ 0

pub text_of-padded :
    (n size : ℕ) (t : Text) (rest : List ℕ)
    → IsText t
    → length t ≤ n
    → n < size
    → text_of n (padded size t ++ rest) ≡ t
unfolding text_of padded IsText
text_of-padded n zero t rest text fits room = absurd (omega arith)
text_of-padded zero (suc size) [] rest text fits room = refl
text_of-padded zero (suc size) (c ∷ t) rest text fits room = absurd (omega arith)
text_of-padded (suc n) (suc size) [] rest text fits room = refl
text_of-padded (suc n) (suc size) (c ∷ t) rest text fits room =
    let some_byte : (c == 0) ≡ false = ground (arith, text 0 (omega arith)) in
    rw some_byte (
      ap (◌∷◌ c) (
        text_of-padded n size t rest (λ i h. text (suc i) (omega arith)) (omega arith)
          (omega arith)))

pub length-padded : (size : ℕ) (t : Text) → length (padded size t) ≡ size
unfolding padded
length-padded size t = length-overlay (replicate size 0) t ∙ length-replicate size 0

pub drop-append : (xs ys : List ℕ) (n : ℕ) → length xs ≡ n → drop n (xs ++ ys) ≡ ys
drop-append [] ys zero h = refl
drop-append [] ys (suc n) h = absurd (omega arith)
drop-append (x ∷ xs) ys zero h = absurd (omega arith)
drop-append (x ∷ xs) ys (suc n) h = drop-append xs ys n (omega arith)

pub drop_past : (xs ys : List ℕ) (n k : ℕ) → length xs ≡ n → drop (n + k) (xs ++ ys) ≡ drop k ys
drop_past xs ys n k h = sym (drop-drop k n (xs ++ ys)) ∙ ap (drop k) (drop-append xs ys n h)

-- Behind a part of known length.
pub byte_past : (xs ys : List ℕ) (n i : ℕ) → length xs ≡ n → byte (xs ++ ys) (n + i) ≡ byte ys i
byte_past [] ys n i h = ap (byte ys) (omega arith)
byte_past (x ∷ xs) ys zero i h = absurd (omega arith)
byte_past (x ∷ xs) ys (suc n) i h =
    let next : suc n + i ≡ suc (n + i) = omega arith in rw next (byte_past xs ys n i (omega arith))

pub take-append : (xs ys : List ℕ) (n : ℕ) → length xs ≡ n → take n (xs ++ ys) ≡ xs
take-append [] ys zero h = refl
take-append [] ys (suc n) h = absurd (omega arith)
take-append (x ∷ xs) ys zero h = absurd (omega arith)
take-append (x ∷ xs) ys (suc n) h = ap (◌∷◌ x) (take-append xs ys n (omega arith))

pub record MessageHeader : Type 0 where
  pub message_type : ℕ
  pub flags : ℕ
  pub message_length : ℕ

-- MESSAGE_HEADER_SIZE
abbrev pub header_size : ℕ
header_size = 4

unfoldable pub encode_header : MessageHeader → ℕ → List ℕ
encode_header h buffer_size =
    if ltb buffer_size header_size
    then []
    else h.message_type ∷ h.flags ∷ write_u16 h.message_length

unfoldable pub decode_header : List ℕ → ℕ → Option MessageHeader
decode_header buffer buffer_size =
    if ltb buffer_size header_size
    then none
    else some (record {
      message_type = byte buffer 0;
      flags = byte buffer 1;
      message_length = read_u16 (drop 2 buffer);
    })

pub header_bytes :
    (h : MessageHeader) (size : ℕ)
    → 4 ≤ size
    → encode_header h size ≡ h.message_type ∷ h.flags ∷ write_u16 h.message_length
unfolding encode_header
header_bytes h size room = let enough : ltb size 4 ≡ false = ground arith in rw enough refl

pub decode_header_lem :
    (h : MessageHeader) (rest : List ℕ) (size : ℕ)
    → 4 ≤ size
    → h.message_length < 2 ^ 16
    → decode_header ((h.message_type ∷ h.flags ∷ write_u16 h.message_length) ++ rest) size ≡ some h
unfolding decode_header write_u16
decode_header_lem h rest size room low =
    let enough : ltb size 4 ≡ false = ground arith in
    rw (enough, read_u16-write_u16 h.message_length rest low) refl

-- Fewer than four bytes are no header.
pub decode_header_short : (bytes : List ℕ) (size : ℕ) → size < 4 → decode_header bytes size ≡ none
unfolding decode_header
decode_header_short bytes size h = let short : ltb size 4 ≡ true = ground arith in rw short refl

pub IsText-nil : IsText []
unfolding IsText
IsText-nil i h = absurd (omega arith)

pub IsText-cons : (c : ℕ) (t : Text) → c ≢ 0 → IsText t → IsText (c ∷ t)
unfolding IsText
IsText-cons c t some_byte rest zero h = some_byte
IsText-cons c t some_byte rest (suc i) h = rest i (omega arith)
