-- ===== src/Agent/StepRing.antt =====
-- src/agent/domain/step_ring.{h,c}: the byte ring of step records. An operation that updates
-- `*self` returns the new ring. `size` of a pushed record is the record's length.
pub mod Invariant
pub mod Refine
pub mod Credit
mod Tests
use can_hub.Base.{
  ℕ, ◌+◌, ◌-◌, ◌%◌, ◌^◌, Bool, true, false, not, ◌||◌, List, Option, none, some, ltb, leb, ◌==◌,
  if◌then◌else◌, length, slice, blit,
}

-- `StepRing`; `storage` is the caller's buffer of `capacity` bytes.
pub record StepRing : Type 0 where
  pub storage : List ℕ
  pub capacity : ℕ
  pub read_offset : ℕ
  pub write_offset : ℕ
  pub wrap_offset : ℕ
  pub used_bytes : ℕ
  pub wrapped : Bool

-- `uint32_t` sum and difference.
abbrev add32 : ℕ → ℕ → ℕ
add32 a b = (a + b) % 2 ^ 32

abbrev sub32 : ℕ → ℕ → ℕ
sub32 a b = (a + 2 ^ 32 - b) % 2 ^ 32

clear : StepRing → StepRing
clear r = record r {
  read_offset = 0;
  write_offset = 0;
  wrap_offset = 0;
  used_bytes = 0;
  wrapped = false;
}

pub init : List ℕ → ℕ → StepRing
unfolding clear
init storage capacity = clear (record {
  storage = storage;
  capacity = capacity;
  read_offset = 0;
  write_offset = 0;
  wrap_offset = 0;
  used_bytes = 0;
  wrapped = false;
})

append : StepRing → List ℕ → StepRing
append r bytes = record r {
  storage = blit r.storage r.write_offset bytes;
  write_offset = add32 r.write_offset (length bytes);
  used_bytes = add32 r.used_bytes (length bytes);
}

push_contiguous : StepRing → List ℕ → Bool × StepRing
unfolding append
push_contiguous r bytes =
    if leb (add32 r.write_offset (length bytes)) r.capacity
    then (true, append r bytes)
    else if ltb r.read_offset (length bytes)
    then (false, r)
    else (
      true,
      append (record r { wrap_offset = r.write_offset; write_offset = 0; wrapped = true }) bytes,
    )

push_wrapped : StepRing → List ℕ → Bool × StepRing
unfolding append
push_wrapped r bytes =
    if ltb r.read_offset (add32 r.write_offset (length bytes))
    then (false, r)
    else (true, append r bytes)

pub push : StepRing → List ℕ → Bool × StepRing
unfolding push_contiguous push_wrapped
push r bytes = if r.wrapped then push_wrapped r bytes else push_contiguous r bytes

-- The size that `StepRing_Peek` returns, with the bytes that `*record` then points at (`none` where
-- it leaves `*record` alone).
pub peek : StepRing → ℕ × Option (List ℕ)
peek r =
    let segment_end = if r.wrapped then r.wrap_offset else r.write_offset in
    if r.used_bytes == 0 then (0, none) else (
      sub32 segment_end r.read_offset,
      some (slice r.storage r.read_offset (sub32 segment_end r.read_offset)),
    )

wrap_read_at_end_of_first_segment : StepRing → StepRing
wrap_read_at_end_of_first_segment r =
    if not r.wrapped || not (r.read_offset == r.wrap_offset)
    then r
    else record r { read_offset = 0; wrapped = false }

pub release : StepRing → ℕ → StepRing
unfolding clear wrap_read_at_end_of_first_segment
release r size =
    let r' = record r {
      read_offset = add32 r.read_offset size;
      used_bytes = sub32 r.used_bytes size;
    } in
    if r'.used_bytes == 0 then clear r' else wrap_read_at_end_of_first_segment r'

pub is_empty : StepRing → Bool
is_empty r = r.used_bytes == 0
