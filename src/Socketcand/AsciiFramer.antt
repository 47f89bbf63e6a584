-- ===== src/Socketcand/AsciiFramer.antt =====
-- Commands between angle brackets in a byte stream (src/socketcand/domain/ascii_framer.{h,c}). The
-- state is the first `used` bytes of the buffer.
use can_hub.Base.{
  ℕ, ◌+◌, ◌-◌, List, [], ◌∷◌, ◌++◌, Option, none, some, Bool, true, false, min, leb, ◌==◌,
  if◌then◌else◌, length, take, drop, find_index,
}
pub mod Stream
mod Tests

-- ASCII_FRAMER_BUFFER_SIZE
abbrev pub buffer_size : ℕ
buffer_size = 512

-- The two brackets
abbrev left_bracket : ℕ
left_bracket = 60

abbrev right_bracket : ℕ
right_bracket = 62

pub record AsciiFramer : Type 0 where
  pub buffered : List ℕ

unfoldable pub reset : AsciiFramer
reset = record { buffered = [] }

-- The number of bytes taken.
unfoldable pub push : AsciiFramer → List ℕ → ℕ × AsciiFramer
push s bytes =
    let taken = min (length bytes) (buffer_size - length s.buffered) in
    (taken, record { buffered = s.buffered ++ take taken bytes })

-- The loop to the first left bracket, and the move to the front.
pub skip_to_command : List ℕ → List ℕ
skip_to_command [] = []
skip_to_command (c ∷ bytes) =
    let later = skip_to_command bytes in if c == left_bracket then c ∷ bytes else later

-- The command, cut to its buffer of `command_size` bytes with the NUL.
unfoldable pub next : AsciiFramer → ℕ → Option (List ℕ) × AsciiFramer
next s command_size = elim (skip_to_command s.buffered) [
  | [] ↦ (none, record { buffered = [] })
  | c ∷ inner ↦ elim (find_index (λ b. b == right_bracket) inner) [
    | none ↦ (none, record { buffered = c ∷ inner })
    | some n ↦ (
      some (take (if leb command_size n then command_size - 1 else n) inner),
      record { buffered = drop (n + 1) inner },
    )
  ]
]
