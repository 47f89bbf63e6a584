-- ===== src/Agent/StepRing/Refine.antt =====
-- A step ring as the queue of the bytes that it holds.
use can_hub.Base.{
  ℕ, ◌+◌, ◌-◌, ◌^◌, ◌≤◌, ◌<◌, ◌≡◌, ◌≢◌, inl, inr, List, [], ◌++◌, append-nil, append_assoc, some,
  arith, if◌then◌else◌, length, drop, slice, length-append, length-slice, slice-zero,
  slice-blit_end, slice-blit_before, slice-blit_after, drop-slice, drop-append_le,
}
use can_hub.Agent.StepRing.{StepRing, push, peek, release}
use can_hub.Agent.StepRing.Invariant.{IsValid}

-- The bytes held, oldest first.
abbrev pub contents : StepRing → List ℕ
contents r =
    if r.wrapped
    then slice r.storage r.read_offset (r.wrap_offset - r.read_offset)
      ++ slice r.storage 0 r.write_offset
    else slice r.storage r.read_offset (r.write_offset - r.read_offset)

-- The counter agrees with the queue.
length-contents : {r : StepRing} → IsValid r → length (contents r) ≡ r.used_bytes
length-contents {r} v = ground (
  arith,
  length-slice r.storage r.read_offset (r.write_offset - r.read_offset),
  length-slice r.storage r.read_offset (r.wrap_offset - r.read_offset),
  length-slice r.storage 0 r.write_offset,
  length-append (slice r.storage r.read_offset (r.wrap_offset - r.read_offset))
      (slice r.storage 0 r.write_offset),
)

module _ {r : StepRing} (bytes : List ℕ) (h : length bytes < 2 ^ 31) (v : IsValid r) where
  open r use {storage, read_offset, write_offset, wrap_offset}

  -- On a valid ring and for a record under 2 ^ 31 bytes, a push that succeeds appends the record to
  -- the bytes held, and one that fails leaves them as they are.
  pub push_refines :
      contents (push r bytes).1 ≡ (if (push r bytes).0 then contents r ++ bytes else contents r)
  unfolding push
  push_refines = ground (
    arith,
    slice-blit_end storage read_offset write_offset (write_offset - read_offset)
        (write_offset + length bytes - read_offset) bytes,
    slice-blit_end storage 0 0 0 (length bytes) bytes,
    slice-blit_end storage 0 write_offset write_offset (write_offset + length bytes) bytes,
    slice-blit_before storage read_offset (write_offset - read_offset) 0 bytes,
    slice-blit_after storage read_offset (write_offset - read_offset) 0 bytes,
    slice-blit_after storage read_offset (wrap_offset - read_offset) write_offset bytes,
    slice-zero storage 0,
    append_assoc (slice storage read_offset (wrap_offset - read_offset))
        (slice storage 0 write_offset) bytes,
  )

-- The size of the first segment: what may be released at once.
abbrev pub first_segment : StepRing → ℕ
first_segment r =
    if r.wrapped then r.wrap_offset - r.read_offset else r.write_offset - r.read_offset

-- On a valid ring that holds something, a peek shows a front part of the bytes held, not empty, and
-- gives its size, which is that of the first segment.
peek_refines :
    {r : StepRing}
    → IsValid r
    → r.used_bytes ≢ 0
    → (bytes : List ℕ) × (rest : List ℕ) × (peek r ≡ (length bytes, some bytes))
      × (length bytes ≡ first_segment r)
      × (0 < length bytes)
      × (contents r ≡ bytes ++ rest)
unfolding peek
peek_refines {r} v h = elim v.segments [
  | inl c ↦ (
    slice r.storage r.read_offset (r.write_offset - r.read_offset),
    [],
    ground (arith, front r.write_offset),
    ground (arith, front r.write_offset),
    ground (arith, front r.write_offset),
    ground (arith, append-nil (slice r.storage r.read_offset (r.write_offset - r.read_offset))),
  )
  | inr s ↦ (
    slice r.storage r.read_offset (r.wrap_offset - r.read_offset),
    slice r.storage 0 r.write_offset,
    ground (arith, front r.wrap_offset),
    ground (arith, front r.wrap_offset),
    ground (arith, front r.wrap_offset),
    ground arith,
  )
]
  where
    front :
        (e : ℕ)
        → r.read_offset ≤ e
        → e ≤ r.capacity
        → length (slice r.storage r.read_offset (e - r.read_offset)) ≡ e - r.read_offset
    front e p q = length-slice r.storage r.read_offset (e - r.read_offset) (omega (arith, v.sized))

-- Releasing no more than the first segment drops that many bytes from the front of the queue.
pub release_refines :
    {r : StepRing} (size : ℕ)
    → IsValid r
    → size ≤ first_segment r
    → contents (release r size) ≡ drop size (contents r)
unfolding release
release_refines {r} size v h = ground (
  arith,
  slice-zero r.storage 0,
  slice-zero r.storage (r.read_offset + size),
  length-slice r.storage r.read_offset (r.wrap_offset - r.read_offset),
  drop-slice size r.storage r.read_offset (r.write_offset - r.read_offset)
      (r.write_offset - (r.read_offset + size)) (r.read_offset + size),
  drop-slice size r.storage r.read_offset (r.wrap_offset - r.read_offset)
      (r.wrap_offset - (r.read_offset + size)) (r.read_offset + size),
  drop-append_le size (slice r.storage r.read_offset (r.wrap_offset - r.read_offset))
      (slice r.storage 0 r.write_offset),
)
