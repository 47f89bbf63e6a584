-- ===== src/Agent/StepRing/Invariant.antt =====
-- The layout of a step ring: the invariant of its offsets.
use can_hub.Base.{
  ℕ, ◌+◌, ◌^◌, ◌≤◌, ◌<◌, ◌≡◌, refl, ◌⊎◌, inl, true, false, List, arith, length, length-blit,
}
use can_hub.Agent.StepRing.{StepRing, init, push, release}

-- One segment, from the read to the write offset.
abbrev IsContiguous : StepRing → Type 0
IsContiguous r =
    (r.wrapped ≡ false)
    × (r.read_offset + r.used_bytes ≡ r.write_offset)
    × (r.write_offset ≤ r.capacity)
    × ((r.read_offset ≡ 0) ⊎ (r.read_offset < r.write_offset))

-- Two: from the read offset to the wrap offset, then from the start to the write offset.
abbrev IsSplit : StepRing → Type 0
IsSplit r =
    (r.wrapped ≡ true)
    × (r.read_offset + r.used_bytes ≡ r.wrap_offset + r.write_offset)
    × (r.write_offset ≤ r.read_offset)
    × (r.read_offset < r.wrap_offset)
    × (r.wrap_offset ≤ r.capacity)

pub record IsValid (r : StepRing) : Type 0 where
  pub sized : length r.storage ≡ r.capacity
  pub small : r.capacity < 2 ^ 31
  pub segments : IsContiguous r ⊎ IsSplit r

pub init-IsValid :
    (storage : List ℕ) (capacity : ℕ)
    → length storage ≡ capacity
    → capacity < 2 ^ 31
    → IsValid (init storage capacity)
unfolding init
init-IsValid storage capacity e h = record {
  sized = e;
  small = h;
  segments = inl (refl, omega arith, omega arith, inl refl);
}

-- A push keeps the layout, whether it stores the record or not.
pub push-IsValid :
    {r : StepRing} (bytes : List ℕ) → length bytes < 2 ^ 31 → IsValid r → IsValid (push r bytes).1
unfolding push
push-IsValid {r} bytes h v =
    ground (arith, length-blit r.storage r.write_offset bytes, length-blit r.storage 0 bytes)

-- Releasing no more than the first segment holds keeps it too.
pub release-IsValid :
    {r : StepRing} (size : ℕ)
    → IsValid r
    → size ≤ r.used_bytes
    → ((r.wrapped ≡ true) → r.read_offset + size ≤ r.wrap_offset)
    → IsValid (release r size)
unfolding release
release-IsValid {r} size v h k = ground arith
