-- ===== src/Protocol/Frame/ReadBack.antt =====
-- Reading a datagram to its end.
use can_hub.Base.{
  ℕ, zero, suc, ◌+◌, ◌-◌, ◌≤◌, ◌<◌, ◌≡◌, ◌⊎◌, refl, sym, ap, ◌∙◌, inl, inr, List, [], ◌∷◌, ◌++◌,
  append_assoc, none, some, arith, true, ltb, leb, ◌==◌, length, length-append, length-take, drop,
  take, drop-drop, Bool-cases, Option-cases, Nat-lt,
}
use can_hub.Protocol.Wire.{
  byte, header_size, decode_header, drop-append, decode_header_lem, decode_header_short,
}
use can_hub.Protocol.Frame.{
  FrameMessage, FrameStream, is_payload_length_valid, decode, init, next, type_frame,
}
use can_hub.Protocol.Frame.Datagram.{
  IsValid, Left, frame_bytes, datagram, header, header_of, body, encode_lem, length-frame_bytes,
  length-header, payload_le, next_whole,
}

-- What a reader gets that calls `FrameStream_Next` until it fails.
unfoldable pub read_all : ℕ → FrameStream → List FrameMessage
read_all zero s = []
read_all (suc fuel) s =
    let got = next s in
    let rest = read_all fuel got.1 in elim got.0 [ none ↦ [] | some m ↦ m ∷ rest ]

unfoldable pub AreValid : List FrameMessage → Type 0
AreValid [] = Unit
AreValid (m ∷ ms) = IsValid m × AreValid ms

take_past :
    (xs ys : List ℕ) (n k : ℕ) → length xs ≡ n → n ≤ k → take k (xs ++ ys) ≡ xs ++ take (k - n) ys
take_past [] ys n k h l = ap (λ j. take j ys) (omega arith)
take_past (x ∷ xs) ys zero k h l = absurd (omega arith)
take_past (x ∷ xs) ys (suc n) zero h l = absurd (omega arith)
take_past (x ∷ xs) ys (suc n) (suc k) h l =
    let same : suc k - suc n ≡ k - n = omega arith in
    rw same (ap (◌∷◌ x) (take_past xs ys n k (omega arith) (omega arith)))

-- A frame that is cut off is not read, nor is the end of the datagram.
next_cut :
    (s : FrameStream) (m : FrameMessage) (k : ℕ)
    → IsValid m
    → k < 20 + m.payload_length
    → Left s (take k (frame_bytes m))
    → (next s).0 ≡ none
unfolding next
next_cut s m k v cut (here, size) =
    let cut_length : length (take k (frame_bytes m)) ≡ k =
      omega (arith, length-take k (frame_bytes m), length-frame_bytes m v) in
    elim (Bool-cases (leb s.size s.offset)) [
      | inl end ↦ rw end refl
      | inr more ↦ elim (Nat-lt k 4) [
        | inl short ↦
            let headless : decode_header (drop s.offset s.data_bytes) (s.size - s.offset) ≡ none =
              decode_header_short (drop s.offset s.data_bytes) (s.size - s.offset) (omega arith) in
            rw (more, headless) refl
        | inr long ↦
            let there : drop s.offset s.data_bytes ≡ header m ++ take (k - 4) (body m) =
              here
              ∙ ap (take k) (encode_lem m (20 + m.payload_length) v (omega arith))
              ∙ take_past (header m) (body m) 4 k (length-header m) long in
            let known : decode_header (drop s.offset s.data_bytes) (s.size - s.offset)
                ≡ some (header_of m) =
              ap (λ x. decode_header x (s.size - s.offset)) there
              ∙ decode_header_lem (header_of m) (take (k - 4) (body m)) (s.size - s.offset)
                  (omega arith) (omega (arith, payload_le m v)) in
            let short : ltb (s.size - s.offset) (4 + (16 + m.payload_length)) ≡ true =
              ground arith in
            rw (more, known, short) refl
      ]
    ]

read_all_lem :
    (ms : List FrameMessage) (cut : FrameMessage) (k fuel : ℕ) (s : FrameStream)
    → AreValid ms
    → IsValid cut
    → k < 20 + cut.payload_length
    → length ms < fuel
    → Left s (datagram ms ++ take k (frame_bytes cut))
    → read_all fuel s ≡ ms
unfolding read_all AreValid
read_all_lem ms cut k zero s vs v low enough at = absurd (omega arith)
read_all_lem [] cut k (suc fuel) s vs v low enough at =
    rw (read_all, next_cut s cut k v low at) refl
read_all_lem (m ∷ ms) cut k (suc fuel) s (vm, vs) v low enough at =
    let tail = datagram ms ++ take k (frame_bytes cut) in
    let here : Left s (frame_bytes m ++ tail) = (
      at.0 ∙ append_assoc (frame_bytes m) (datagram ms) (take k (frame_bytes cut)),
      omega (
        arith,
        at.1,
        ap length (append_assoc (frame_bytes m) (datagram ms) (take k (frame_bytes cut))),
      ),
    ) in
    let behind : FrameStream = record s { offset = s.offset + (4 + (16 + m.payload_length)) } in
    let len = length-frame_bytes m vm in
    let left : Left behind tail = (
      sym (drop-drop (4 + (16 + m.payload_length)) s.offset s.data_bytes)
          ∙ ap (drop (4 + (16 + m.payload_length))) here.0
          ∙ drop-append (frame_bytes m) tail (4 + (16 + m.payload_length)) (omega arith),
      omega (arith, here.1, length-append (frame_bytes m) tail),
    ) in
    let whole = next_whole s m tail vm here in
    rw (read_all, whole)
      (ap (◌∷◌ m) (
        ap (λ x. read_all fuel x.1) whole
        ∙ read_all_lem ms cut k fuel behind vs v low (omega arith) left))

-- A datagram of valid frames back to back, of which the last may be cut off anywhere, is read as
-- just the frames that are whole, in their order, with fuel for one call more than there are frames.
pub datagram_read :
    (ms : List FrameMessage) (cut : FrameMessage) (k fuel : ℕ)
    → AreValid ms
    → IsValid cut
    → k < 20 + cut.payload_length
    → length ms < fuel
    → let bytes = datagram ms ++ take k (frame_bytes cut) in
      read_all fuel (init bytes (length bytes)) ≡ ms
unfolding init
datagram_read ms cut k fuel vs v low enough =
    let bytes = datagram ms ++ take k (frame_bytes cut) in
    read_all_lem ms cut k fuel (init bytes (length bytes)) vs v low enough (refl, omega arith)

-- Only 16 bytes or more are a frame, and of a length that it may have.
decode_sound :
    (bytes : List ℕ) (n : ℕ) (m : FrameMessage)
    → decode bytes n ≡ some m
    → (16 ≤ n) × (is_payload_length_valid m.payload_length m.frame_flags ≡ true)
unfolding decode
decode_sound bytes n m h = elim (Bool-cases (ltb n 16)) [
  | inl short ↦ absurd (ground (arith, short))
  | inr long ↦ elim (Bool-cases (is_payload_length_valid (byte bytes 13) (byte bytes 14))) [
    | inr refused ↦ absurd (ground (arith, long, refused))
    | inl allowed ↦ (ground arith, ground (arith, long, allowed))
  ]
]

-- A call that reads a frame moves on by at least 20 bytes and not past the end, and the frame has a
-- length that it may have; one that does not leaves the stream where it is.
pub next_bounds :
    (s : FrameStream)
    → ((next s).0 ≡ none) × ((next s).1 ≡ s)
      ⊎ ((m : FrameMessage) × ((next s).0 ≡ some m)
          × (s.offset + 20 ≤ (next s).1.offset)
          × ((next s).1.offset ≤ s.size)
          × (is_payload_length_valid m.payload_length m.frame_flags ≡ true))
unfolding next
next_bounds s =
    let remaining = s.size - s.offset in
    let here = drop s.offset s.data_bytes in
    elim (Bool-cases (leb s.size s.offset)) [
      | inl end ↦ inl (rw end (refl, refl))
      | inr more ↦ elim (Option-cases (decode_header here remaining)) [
        | inl headless ↦ inl (rw (more, headless) (refl, refl))
        | inr (h, known) ↦ elim (Bool-cases (h.message_type == type_frame)) [
          | inr other ↦ inl (rw (more, known, other) (refl, refl))
          | inl frame ↦ elim (Bool-cases (ltb remaining (header_size + h.message_length))) [
            | inl short ↦ inl (rw (more, known, frame, short) (refl, refl))
            | inr whole ↦ elim (Option-cases (decode (drop header_size here) h.message_length)) [
              | inl refused ↦ inl (rw (more, known, frame, whole, refused) (refl, refl))
              | inr (m, read) ↦
                  let (long, allowed) =
                    decode_sound (drop header_size here) h.message_length m read in
                  let moved : FrameStream = record s {
                    offset = s.offset + (header_size + h.message_length);
                  } in
                  let result : next s ≡ (some m, moved) =
                    rw (more, known, frame, whole, read) refl in
                  let at : (next s).1.offset ≡ moved.offset = ap (λ x. x.1.offset) result in
                  inr (m, ap (λ x. x.0) result, omega arith, ground arith, allowed)
            ]
          ]
        ]
      ]
    ]
