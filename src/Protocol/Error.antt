-- ===== src/Protocol/Error.antt =====
-- The ERROR message (src/protocol/error_message.{h,c}). `detail` is the text in its array of 64
-- bytes; an array whose last byte is not NUL is a text that is as long.
use can_hub.Base.{
  ℕ, ◌^◌, ◌≤◌, ◌<◌, ◌≡◌, refl, sym, ap, ◌∙◌, List, [], ◌∷◌, ◌++◌, append-nil, Option, none, some,
  arith, true, false, ltb, if◌then◌else◌, length, drop, Text,
}
use can_hub.Protocol.Wire.{
  write_u16, read_u16, read_u16-write_u16, padded, text_of, text_of-padded, IsText,
}
use can_hub.Protocol.Message.{encode_message, carried_body}

-- kMESSAGE_TYPE_ERROR
abbrev type_error : ℕ
type_error = 0x09

-- ERROR_BODY_SIZE
abbrev pub body_size : ℕ
body_size = 68

pub record ErrorMessage : Type 0 where
  pub code : ℕ
  pub detail : Text

abbrev error_body : ErrorMessage → List ℕ
error_body m = write_u16 m.code ++ (0 ∷ 0 ∷ []) ++ padded 64 m.detail

pub encode : ErrorMessage → ℕ → List ℕ
encode m buffer_size =
    if ltb 63 (length m.detail)
    then []
    else encode_message type_error body_size (error_body m) buffer_size

pub decode : List ℕ → ℕ → Option ErrorMessage
decode payload payload_length =
    if ltb payload_length body_size
    then none
    else some (record { code = read_u16 payload; detail = text_of 63 (drop 4 payload) })

decode-body :
    (m : ErrorMessage)
    → m.code < 2 ^ 16
    → IsText m.detail
    → length m.detail ≤ 63
    → decode (error_body m) 68 ≡ some m
unfolding decode write_u16
decode-body m low text short =
    let code : read_u16 (error_body m) ≡ m.code =
      read_u16-write_u16 m.code ((0 ∷ 0 ∷ []) ++ padded 64 m.detail) low in
    let detail : text_of 63 (padded 64 m.detail) ≡ m.detail =
      ap (text_of 63) (sym (append-nil (padded 64 m.detail)))
      ∙ text_of-padded 63 64 m.detail [] text short (omega arith) in
    rw (code, detail) refl

-- An ERROR with a 16-bit code is read back as it was written into a buffer of at least 72 bytes if
-- its detail has at most 63 bytes, and is not written if it has more.
error_read_back :
    (m : ErrorMessage) (buffer_size : ℕ)
    → m.code < 2 ^ 16
    → IsText m.detail
    → 72 ≤ buffer_size
    → (length m.detail ≤ 63 → decode (drop 4 (encode m buffer_size)) body_size ≡ some m)
      × (63 < length m.detail → encode m buffer_size ≡ [])
unfolding encode
error_read_back m buffer_size low text room = (
  λ short.
      let fits : ltb 63 (length m.detail) ≡ false = ground arith in
      rw fits (
        ap (λ x. decode x body_size)
          (carried_body type_error body_size (error_body m) buffer_size (omega arith) (omega arith))
        ∙ decode-body m low text short),
  λ long. let much : ltb 63 (length m.detail) ≡ true = ground arith in rw much refl,
)
