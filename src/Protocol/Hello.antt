-- ===== src/Protocol/Hello.antt =====
-- The HELLO message (src/protocol/hello_message.{h,c}). `name` is the text in its array of 64 bytes.
use can_hub.Base.{
  ℕ, ◌^◌, ◌≤◌, ◌<◌, ◌≡◌, refl, sym, ap, ◌∙◌, List, [], ◌∷◌, ◌++◌, append-nil, Option, none, some,
  arith, Bool, true, not, ◌&&◌, ltb, leb, if◌then◌else◌, length, drop, take, take_all, Text,
}
use can_hub.Protocol.Wire.{
  byte, write_u32, write_u16, read_u32, read_u32-write_u32, padded, text_of, text_of-padded, IsText,
  decode_header,
}
use can_hub.Protocol.Message.{encode_message, encode_message_lem, Carries}

-- kMESSAGE_TYPE_HELLO
abbrev type_hello : ℕ
type_hello = 0x01

-- HELLO_BODY_SIZE
abbrev pub body_size : ℕ
body_size = 72

pub record HelloMessage : Type 0 where
  pub version : ℕ
  pub role : ℕ
  pub capabilities : ℕ
  pub name : Text

-- From kPEER_ROLE_AGENT up to kPEER_ROLE_ADMIN.
unfoldable pub is_role_valid : ℕ → Bool
is_role_valid role = leb 1 role && ltb role 4

abbrev hello_body : HelloMessage → List ℕ
hello_body m =
    (m.version ∷ m.role ∷ 0 ∷ 0 ∷ []) ++ write_u32 m.capabilities ++ padded 64 (take 63 m.name)

unfoldable pub encode : HelloMessage → ℕ → List ℕ
encode m buffer_size =
    if not (is_role_valid m.role)
    then []
    else encode_message type_hello body_size (hello_body m) buffer_size

-- `name` is none for a NULL pointer; PROTOCOL_VERSION is 0.
unfoldable pub build : ℕ → Option Text → ℕ → ℕ → List ℕ
build role name capabilities buffer_size =
    encode
      (record {
        version = 0;
        role = role;
        capabilities = capabilities;
        name = (elim name [ none ↦ [] | some text ↦ take 63 text ]);
      })
      buffer_size

pub decode : List ℕ → ℕ → Option HelloMessage
decode payload payload_length =
    if ltb payload_length body_size
    then none
    else if is_role_valid (byte payload 1)
    then some (record {
      version = byte payload 0;
      role = byte payload 1;
      capabilities = read_u32 (drop 4 payload);
      name = text_of 63 (drop 8 payload);
    })
    else none

-- A role that there is, the capabilities a 32-bit number, and a name of at most 63 bytes.
pub record IsValid (m : HelloMessage) : Type 0 where
  pub known : is_role_valid m.role ≡ true
  pub flags : m.capabilities < 2 ^ 32
  pub named : IsText m.name
  pub short : length m.name ≤ 63

decode-body :
    (m : HelloMessage) (rest : List ℕ) → IsValid m → decode (hello_body m ++ rest) 72 ≡ some m
unfolding decode write_u32 write_u16
decode-body m rest v =
    let tail = padded 64 m.name ++ rest in
    let whole : take 63 m.name ≡ m.name = take_all 63 m.name v.short in
    let flags : read_u32 (write_u32 m.capabilities ++ tail) ≡ m.capabilities =
      read_u32-write_u32 m.capabilities tail v.flags in
    let name : text_of 63 tail ≡ m.name =
      text_of-padded 63 64 m.name rest v.named v.short (omega arith) in
    rw (whole, v.known, flags, name) refl

-- A valid HELLO written into a buffer that holds it is read back as it was, header and body.
pub hello_read_back :
    (m : HelloMessage) (buffer_size : ℕ)
    → IsValid m
    → 76 ≤ buffer_size
    → (decode_header (encode m buffer_size) buffer_size
        ≡ some (record { message_type = type_hello; flags = 0; message_length = body_size }))
      × (decode (drop 4 (encode m buffer_size)) body_size ≡ some m)
unfolding encode Carries
hello_read_back m buffer_size v room =
    let (head, body) =
      encode_message_lem type_hello body_size (hello_body m) buffer_size (omega arith)
        (omega arith) in
    let back : decode (hello_body m) body_size ≡ some m =
      ap (λ x. decode x body_size) (sym (append-nil (hello_body m))) ∙ decode-body m [] v in
    rw (v.known) (head, ap (λ x. decode x body_size) body ∙ back)
