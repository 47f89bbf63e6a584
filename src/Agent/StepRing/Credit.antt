-- ===== src/Agent/StepRing/Credit.antt =====
-- The credit rule of step_ring.h: a client that never has more than `capacity - m` bytes
-- outstanding, in records of at most `m` bytes, has room for every record.
use can_hub.Base.{
  ℕ, ◌+◌, ◌-◌, ◌^◌, ◌≤◌, ◌<◌, ◌≡◌, refl, ap, ◌∙◌, Bool, true, List, [], ◌∷◌, ◌++◌, arith,
  if◌then◌else◌, length, drop,
}
use can_hub.Agent.StepRing.{StepRing, init, push, release}
use can_hub.Agent.StepRing.Invariant.{IsValid, init-IsValid, push-IsValid, release-IsValid}
use can_hub.Agent.StepRing.Refine.{contents, first_segment, push_refines, release_refines}

-- The bytes at the end of the buffer that the last wrap has left unused.
abbrev skipped : StepRing → ℕ
skipped r = if r.wrapped then r.capacity - r.wrap_offset else 0

module _ {r : StepRing} (m : ℕ) (bytes : List ℕ) (v : IsValid r) (s : skipped r ≤ m)
    (h : length bytes ≤ m) (k : r.used_bytes + length bytes + m ≤ r.capacity) where
  push-accepts : (push r bytes).0 ≡ true
  unfolding push
  push-accepts = ground arith

  skipped-push : skipped (push r bytes).1 ≤ m
  unfolding push
  skipped-push = ground arith

  capacity-push : (push r bytes).1.capacity ≡ r.capacity
  unfolding push
  capacity-push = ground arith

skipped-release : (r : StepRing) (m size : ℕ) → skipped r ≤ m → skipped (release r size) ≤ m
unfolding release
skipped-release r m size s = ground arith

capacity-release : (r : StepRing) (size : ℕ) → (release r size).capacity ≡ r.capacity
unfolding release
capacity-release r size = ground arith

-- What the transaction runner does with its ring: store a record that arrived, or release the
-- front record, which a peek has shown whole.
pub data Use : Type 0 where
  store : List ℕ → Use
  consume : ℕ → Use

-- The queue of bytes after a use.
unfoldable pub after : List ℕ → Use → List ℕ
after q (store bytes) = q ++ bytes
after q (consume size) = drop size q

-- The ring after a use, and whether it was accepted.
unfoldable pub apply : StepRing → Use → Bool × StepRing
apply r (store bytes) = push r bytes
apply r (consume size) = (true, release r size)

-- A use keeps to the credit: a stored record has at most `m` bytes and leaves `m` bytes of the
-- ring free, and what is consumed lies in the first segment.
abbrev IsWithinCredit : ℕ → StepRing → Use → Type 0
IsWithinCredit m r (store bytes) =
    (length bytes ≤ m) × (r.used_bytes + length bytes + m ≤ r.capacity)
IsWithinCredit m r (consume size) = size ≤ first_segment r

pub record IsReady (m : ℕ) (r : StepRing) : Type 0 where
  pub valid : IsValid r
  pub short : skipped r ≤ m

-- A use within the credit is accepted, acts on the ring as on the queue of its bytes, and leaves
-- it ready for the next.
apply_refines :
    (m : ℕ) (r : StepRing) (u : Use)
    → IsReady m r
    → IsWithinCredit m r u
    → ((apply r u).0 ≡ true)
      × (contents (apply r u).1 ≡ after (contents r) u)
      × IsReady m (apply r u).1
unfolding apply after
apply_refines m r (store bytes) g w =
    let small : length bytes < 2 ^ 31 = omega (arith, g.valid.small) in
    let ok = push-accepts m bytes g.valid g.short w.0 w.1 in
    (
      ok,
      ground (arith, ok, push_refines bytes small g.valid),
      record {
        valid = push-IsValid bytes small g.valid;
        short = skipped-push m bytes g.valid g.short w.0 w.1;
      },
    )
apply_refines m r (consume size) g w = (
  refl,
  release_refines size g.valid w,
  record {
    valid = release-IsValid size g.valid (ground (arith, g.valid)) (ground (arith, g.valid));
    short = skipped-release r m size g.short;
  },
)

pub run : StepRing → List Use → StepRing
run r [] = r
run r (u ∷ us) = run (apply r u).1 us

pub after_all : List ℕ → List Use → List ℕ
after_all q [] = q
after_all q (u ∷ us) = after_all (after q u) us

-- Every use of a run keeps to the credit, at the ring that it finds.
abbrev KeepsCredit : ℕ → StepRing → List Use → Type 0
KeepsCredit m r [] = Unit
KeepsCredit m r (u ∷ us) = IsWithinCredit m r u × KeepsCredit m (apply r u).1 us

-- The number of uses that a run refuses.
pub refused : StepRing → List Use → ℕ
refused r [] = 0
refused r (u ∷ us) = (if (apply r u).0 then 0 else 1) + refused (apply r u).1 us

-- From a ready ring, a run of uses in which every stored record has at most `m` bytes and leaves
-- `m` bytes of the ring free, and what is consumed lies in the first segment, sees no record
-- refused, and leaves in the ring the bytes stored and not consumed, in order.
pub run_refines :
    (m : ℕ) (us : List Use) (r : StepRing)
    → IsReady m r
    → KeepsCredit m r us
    → (refused r us ≡ 0) × (contents (run r us) ≡ after_all (contents r) us)
unfolding run after_all refused
run_refines m [] r g w = (refl, refl)
run_refines m (u ∷ us) r g w =
    let (ok, same, ready) = apply_refines m r u g w.0 in
    let (none_refused, queue) = run_refines m us (apply r u).1 ready w.1 in
    (ground (arith, ok, none_refused), queue ∙ ap (λ q. after_all q us) same)

pub init-IsReady :
    (m : ℕ) (storage : List ℕ) (capacity : ℕ)
    → length storage ≡ capacity
    → capacity < 2 ^ 31
    → IsReady m (init storage capacity)
unfolding init
init-IsReady m storage capacity e h = record {
  valid = init-IsValid storage capacity e h;
  short = omega arith;
}
