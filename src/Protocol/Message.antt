-- ===== src/Protocol/Message.antt =====
-- What the messages have in common: the header in front of a body of fixed size, and entries of one
-- size after each other.
use can_hub.Base.{
  ℕ, zero, suc, ◌+◌, ◌*◌, ◌%◌, ◌^◌, ◌≤◌, ◌<◌, ◌≡◌, refl, ap, ◌∙◌, List, [], ◌∷◌, ◌++◌, append_assoc,
  some, arith, false, ltb, if◌then◌else◌, length, length-append, drop,
}
use can_hub.Protocol.Wire.{
  write_u16, MessageHeader, encode_header, decode_header, header_size, header_bytes,
  decode_header_lem, drop-append,
}

-- The header with the body's size, then the body.
unfoldable pub encode_message : ℕ → ℕ → List ℕ → ℕ → List ℕ
encode_message message_type body_size body buffer_size =
    if ltb buffer_size (header_size + body_size)
    then []
    else encode_header
        (record { message_type = message_type; flags = 0; message_length = body_size % 2 ^ 16 })
        buffer_size
      ++ body

-- A reader gets the header and is left with the body.
unfoldable pub Carries : List ℕ → ℕ → ℕ → ℕ → List ℕ → Type 0
Carries bytes buffer_size message_type body_size body =
    (decode_header bytes buffer_size
      ≡ some (record { message_type = message_type; flags = 0; message_length = body_size }))
    × (drop header_size bytes ≡ body)

four : (t n : ℕ) → length (t ∷ 0 ∷ write_u16 n) ≡ 4
unfolding write_u16
four t n = refl

pub encode_message_lem :
    (message_type body_size : ℕ) (body : List ℕ) (buffer_size : ℕ)
    → 4 + body_size ≤ buffer_size
    → body_size < 2 ^ 16
    → Carries
        (encode_message message_type body_size body buffer_size)
        buffer_size
        message_type
        body_size
        body
unfolding encode_message Carries
encode_message_lem message_type body_size body buffer_size room low =
    let h : MessageHeader = record {
      message_type = message_type;
      flags = 0;
      message_length = body_size;
    } in
    let fits : ltb buffer_size (4 + body_size) ≡ false = ground arith in
    let same : body_size % 2 ^ 16 ≡ body_size = omega arith in
    let shape : encode_message message_type body_size body buffer_size
        ≡ (message_type ∷ 0 ∷ write_u16 body_size) ++ body =
      rw (fits, same, header_bytes h buffer_size (omega arith)) refl in
    (
      ap (λ x. decode_header x buffer_size) shape
          ∙ decode_header_lem h body buffer_size (omega arith) low,
      ap (drop 4) shape
          ∙ drop-append (message_type ∷ 0 ∷ write_u16 body_size) body 4
              (four message_type body_size),
    )

-- What is left behind the header.
pub carried_body :
    (message_type body_size : ℕ) (body : List ℕ) (buffer_size : ℕ)
    → 4 + body_size ≤ buffer_size
    → body_size < 2 ^ 16
    → drop 4 (encode_message message_type body_size body buffer_size) ≡ body
unfolding Carries
carried_body message_type body_size body buffer_size room low =
    (encode_message_lem message_type body_size body buffer_size room low).1

module _ {ℓ} {A : Type ℓ} where
  unfoldable pub write_entries : (A → List ℕ) → List A → List ℕ
  write_entries write [] = []
  write_entries write (e ∷ es) = write e ++ write_entries write es

  -- The loop over `count` entries of `size` bytes, each read from its first byte on.
  pub read_entries : (List ℕ → A) → ℕ → ℕ → List ℕ → List A
  read_entries read size zero bytes = []
  read_entries read size (suc count) bytes =
      read bytes ∷ read_entries read size count (drop size bytes)

  -- All entries are as they must be.
  unfoldable pub All : (A → Type 0) → List A → Type 0
  All P [] = Unit
  All P (e ∷ es) = P e × All P es

  length-write_entries :
      (write : A → List ℕ) (size : ℕ) (es : List A)
      → ((e : A) → length (write e) ≡ size)
      → length (write_entries write es) ≡ size * length es
  unfolding write_entries
  length-write_entries write size [] h = omega arith
  length-write_entries write size (e ∷ es) h = omega (
    arith,
    h e,
    length-append (write e) (write_entries write es),
    length-write_entries write size es h,
  )

  pub read_entries-write_entries :
      (write : A → List ℕ) (read : List ℕ → A) (size : ℕ) (P : A → Type 0)
      → ((e : A) → length (write e) ≡ size)
      → ((e : A) (rest : List ℕ) → P e → read (write e ++ rest) ≡ e)
      → (es : List A) (count : ℕ) (rest : List ℕ) → length es ≡ count
      → All P es
      → read_entries read size count (write_entries write es ++ rest) ≡ es
  unfolding read_entries write_entries All
  read_entries-write_entries write read size P len back [] zero rest n ok = refl
  read_entries-write_entries write read size P len back [] (suc count) rest n ok =
      absurd (omega arith)
  read_entries-write_entries write read size P len back (e ∷ es) zero rest n ok =
      absurd (omega arith)
  read_entries-write_entries write read size P len back (e ∷ es) (suc count) rest n (one, others) =
      let tail = write_entries write es ++ rest in
      let shape = append_assoc (write e) (write_entries write es) rest in
      rw (shape, back e tail one, drop-append (write e) tail size (len e))
        (ap (◌∷◌ e) (
          read_entries-write_entries write read size P len back es count rest (omega arith) others))
