-- ===== src/Shared/ReconnectBackoff.antt =====
-- src/shared/reconnect_backoff.c: the doubling delay between two attempts to connect.
use native.Mathlib.Nat.{pow-suc}
use can_hub.Base.{
  ℕ, zero, suc, ◌*◌, ◌%◌, ◌^◌, ◌≤◌, ◌<◌, min, ◌≡◌, refl, ◌∙◌, inl, inr, Nat-lt, arith, ltb,
  if◌then◌else◌,
}

pub record ReconnectBackoff : Type 0 where
  pub initial_delay_ms : ℕ
  pub max_delay_ms : ℕ
  pub current_delay_ms : ℕ

abbrev backoff_factor : ℕ
backoff_factor = 2

pub init : ℕ → ℕ → ReconnectBackoff
init initial_delay_ms max_delay_ms = record {
  initial_delay_ms = initial_delay_ms;
  max_delay_ms = max_delay_ms;
  current_delay_ms = initial_delay_ms;
}

pub reset : ReconnectBackoff → ReconnectBackoff
reset b = record b { current_delay_ms = b.initial_delay_ms }

pub next_delay_ms : ReconnectBackoff → ℕ × ReconnectBackoff
next_delay_ms b =
    let doubled = b.current_delay_ms * backoff_factor % 2 ^ 32 in
    (
      b.current_delay_ms,
      record b {
        current_delay_ms = if ltb b.max_delay_ms doubled then b.max_delay_ms else doubled;
      },
    )

-- The state after `n` attempts.
pub after : ℕ → ReconnectBackoff → ReconnectBackoff
after zero b = b
after (suc n) b = after n (next_delay_ms b).1

record Doubles (b : ReconnectBackoff) (n : ℕ) : Type 0 where
  current : (after n b).current_delay_ms ≡ min (b.current_delay_ms * 2 ^ n) b.max_delay_ms
  same_max : (after n b).max_delay_ms ≡ b.max_delay_ms
  same_initial : (after n b).initial_delay_ms ≡ b.initial_delay_ms

one-le-pow : (n : ℕ) → 1 ≤ 2 ^ n
one-le-pow zero = omega arith
one-le-pow (suc n) = omega (arith, one-le-pow n, pow-suc 2 n)

mul_grow : (m p : ℕ) → 1 ≤ p → m ≤ m * p
mul_grow m p h = grind arith

mul_mono : (a b p : ℕ) → a ≤ b → a * p ≤ b * p
mul_mono a b p h = grind arith

doubled_min : (c m p : ℕ) → 1 ≤ p → min (min (c * 2) m * p) m ≡ min (c * (p * 2)) m
doubled_min c m p h = elim (Nat-lt m (c * 2)) [
  | inl big ↦
      let e : min (c * 2) m ≡ m = omega arith in
      rw e (omega (arith, mul_grow m p h, mul_mono m (c * 2) p (omega arith)))
  | inr small ↦ let e : min (c * 2) m ≡ c * 2 = omega arith in rw e (omega arith)
]

next_max : (b : ReconnectBackoff) → (next_delay_ms b).1.max_delay_ms ≡ b.max_delay_ms
unfolding next_delay_ms
next_max b = refl

next_initial : (b : ReconnectBackoff) → (next_delay_ms b).1.initial_delay_ms ≡ b.initial_delay_ms
unfolding next_delay_ms
next_initial b = refl

module _ (b : ReconnectBackoff) (h : b.max_delay_ms < 2 ^ 31)
    (k : b.current_delay_ms ≤ b.max_delay_ms) where
  next_current : (next_delay_ms b).1.current_delay_ms ≡ min (b.current_delay_ms * 2) b.max_delay_ms
  unfolding next_delay_ms
  next_current = ground arith

  next_bounds :
      ((next_delay_ms b).1.max_delay_ms < 2 ^ 31)
      × ((next_delay_ms b).1.current_delay_ms ≤ (next_delay_ms b).1.max_delay_ms)
  unfolding next_delay_ms
  next_bounds = ground arith

after-Doubles :
    (n : ℕ) (b : ReconnectBackoff)
    → b.max_delay_ms < 2 ^ 31
    → b.current_delay_ms ≤ b.max_delay_ms
    → Doubles b n
unfolding after
after-Doubles zero b h k = record { current = omega arith; same_max = refl; same_initial = refl }
after-Doubles (suc n) b h k =
    let b' = (next_delay_ms b).1 in
    let ih = after-Doubles n b' (next_bounds b h k).0 (next_bounds b h k).1 in
    record {
      current =
          ih.current
          ∙ rw (next_max b, next_current b h k, pow-suc)
              (doubled_min b.current_delay_ms b.max_delay_ms (2 ^ n) (one-le-pow n));
      same_max = ih.same_max ∙ next_max b;
      same_initial = ih.same_initial ∙ next_initial b;
    }

-- For an initial delay of at most the maximum, and a maximum under 2 ^ 31, the delay handed out
-- after `n` others is the initial delay times two to the `n`, or the maximum if that is smaller;
-- after a reset it is the initial delay.
pub next_delay_ms-after :
    (n initial max : ℕ)
    → max < 2 ^ 31
    → initial ≤ max
    → ((next_delay_ms (after n (init initial max))).0 ≡ min (initial * 2 ^ n) max)
      × ((next_delay_ms (reset (after n (init initial max)))).0 ≡ initial)
unfolding next_delay_ms init reset
next_delay_ms-after n initial max h k =
    let d = after-Doubles n (init initial max) h k in (d.current, d.same_initial)
