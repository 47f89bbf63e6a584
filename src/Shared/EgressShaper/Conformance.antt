-- ===== src/Shared/EgressShaper/Conformance.antt =====
-- What a paced sender can rely on: the long-run bound on the bits let through, and the delay.
use native.Mathlib.Nat.{div-add-mod, mod-lt}
use can_hub.Base.{
  ℕ, ◌+◌, ◌-◌, ◌*◌, ◌/◌, ◌≤◌, ◌<◌, ◌≡◌, ◌≢◌, inl, inr, Nat-zero, Nat-lt, Bool, true, false, List,
  [], ◌∷◌, arith, if◌then◌else◌, ◌∙◌,
}
use can_hub.Shared.EgressShaper.{EgressShaper, refill, try_consume, delay_us, add_elapsed}
use can_hub.Shared.EgressShaper.Bounds.{
  IsValid, credit, refill-IsValid, try_consume-IsValid, credit-refill, refill_exact,
}

-- One attempt to send: refill at the time of the attempt, then try to consume.
unfoldable pub attempt : EgressShaper → ℕ × ℕ → Bool × EgressShaper
attempt s (now, bits) = try_consume (refill s now) bits

-- The bits let through over a list of attempts.
unfoldable pub sent : EgressShaper → List (ℕ × ℕ) → ℕ
sent s [] = 0
sent s (a ∷ rest) = (if (attempt s a).0 then a.1 else 0) + sent (attempt s a).1 rest

unfoldable pub finish : EgressShaper → List (ℕ × ℕ) → EgressShaper
finish s [] = s
finish s (a ∷ rest) = finish (attempt s a).1 rest

-- Attempts at times that do not go back, each of at most the burst.
abbrev pub InOrder : ℕ → ℕ → List (ℕ × ℕ) → Type 0
InOrder burst from [] = Unit
InOrder burst from ((now, bits) ∷ rest) = (from ≤ now) × (bits ≤ burst) × InOrder burst now rest

last_us-refill : (s : EgressShaper) (now : ℕ) → (refill s now).last_us ≡ now
unfolding refill add_elapsed
last_us-refill s now = ground arith

-- What the two steps leave alone.
abbrev SameShape : EgressShaper → EgressShaper → Type 0
SameShape s t = (t.rate_bits_per_s ≡ s.rate_bits_per_s) × (t.burst_bits ≡ s.burst_bits)

refill-SameShape : (s : EgressShaper) (now : ℕ) → SameShape s (refill s now)
unfolding refill add_elapsed
refill-SameShape s now = ground arith

try_consume-SameShape :
    (s : EgressShaper) (bits : ℕ)
    → SameShape s (try_consume s bits).1 × ((try_consume s bits).1.last_us ≡ s.last_us)
unfolding try_consume
try_consume-SameShape s bits = ground arith

-- What passes is paid for.
credit-try_consume :
    (s : EgressShaper) (bits : ℕ)
    → s.rate_bits_per_s ≢ 0
    → bits ≤ s.burst_bits
    → credit (try_consume s bits).1 + (if (try_consume s bits).0 then bits else 0) * 1000000
      ≡ credit s
unfolding try_consume
credit-try_consume s bits h k = ground arith

scaled_gap : (rate from to : ℕ) → from ≤ to → rate * (to - from) + rate * from ≡ rate * to
scaled_gap rate from to h = grind arith

record Paid (s t : EgressShaper) (now passed : ℕ) : Type 0 where
  valid : IsValid t
  rate : t.rate_bits_per_s ≡ s.rate_bits_per_s
  burst : t.burst_bits ≡ s.burst_bits
  clock : t.last_us ≡ now
  paid :
      credit t + passed * 1000000 + s.rate_bits_per_s * s.last_us
      ≤ credit s + s.rate_bits_per_s * now

attempt-Paid :
    (s : EgressShaper) (now bits : ℕ)
    → IsValid s
    → s.last_us ≤ now
    → s.rate_bits_per_s ≢ 0
    → bits ≤ s.burst_bits
    → Paid s (attempt s (now, bits)).1 now (if (attempt s (now, bits)).0 then bits else 0)
unfolding attempt
attempt-Paid s now bits v later paced fits =
    let r = refill s now in
    let same = refill-SameShape s now in
    let kept = try_consume-SameShape r bits in
    record {
      valid = try_consume-IsValid bits (refill-IsValid now v);
      rate = kept.0.0 ∙ same.0;
      burst = kept.0.1 ∙ same.1;
      clock = kept.1 ∙ last_us-refill s now;
      paid = omega (
        arith,
        credit-try_consume r bits (λ e. paced (omega (arith, same.0))) (omega (arith, same.1)),
        credit-refill now v later,
        scaled_gap s.rate_bits_per_s s.last_us now later,
      );
    }

-- For a valid shaper with a rate, and attempts of at most the burst at times that do not go back,
-- the bits let through, in millionths, and the credit left over at the end, are at most the credit
-- at the start and the rate times the time from the last refill to the last attempt.
pub sent_bound :
    (s : EgressShaper) (attempts : List (ℕ × ℕ))
    → IsValid s
    → s.rate_bits_per_s ≢ 0
    → InOrder s.burst_bits s.last_us attempts
    → sent s attempts * 1000000 + credit (finish s attempts) + s.rate_bits_per_s * s.last_us
      ≤ credit s + s.rate_bits_per_s * (finish s attempts).last_us
unfolding sent finish
sent_bound s [] v paced order = omega arith
sent_bound s ((now, bits) ∷ rest) v paced order =
    let step = attempt-Paid s now bits v order.0 paced order.1 in
    let t = (attempt s (now, bits)).1 in
    let ih =
      sent_bound t rest step.valid (λ e. paced (omega (arith, step.rate)))
        (rw (step.burst, step.clock) order.2) in
    omega (arith, step.paid, rw (step.rate, step.clock) at ih)

mul_add : (r a b : ℕ) → r * (a + b) ≡ r * a + r * b
mul_add r a b = omega arith

-- A quotient rounded up covers what it divides, and nothing smaller does.
ceil_covers : (rate x : ℕ) → 0 < rate → x ≤ rate * ((x + rate - 1) / rate)
ceil_covers rate x h = grind (arith, div-add-mod (x + rate - 1) rate, mod-lt)

ceil_least : (rate x t : ℕ) → 0 < rate → t < (x + rate - 1) / rate → rate * t < x
ceil_least rate x t h k = grind (arith, div-add-mod (x + rate - 1) rate)

covered : (r : EgressShaper) (bits : ℕ) → bits ≤ r.tokens_bits → (try_consume r bits).0 ≡ true
unfolding try_consume
covered r bits h = ground arith

uncovered :
    (r : EgressShaper) (bits : ℕ)
    → r.rate_bits_per_s ≢ 0
    → r.tokens_bits < bits
    → bits ≤ r.burst_bits
    → (try_consume r bits).0 ≡ false
unfolding try_consume
uncovered r bits p h k = ground arith

unpaced : (r : EgressShaper) (bits : ℕ) → r.rate_bits_per_s ≡ 0 → (try_consume r bits).0 ≡ true
unfolding try_consume
unpaced r bits h = ground arith

module _ {s : EgressShaper} (bits : ℕ) (v : IsValid s) (fits : bits ≤ s.burst_bits) where
  wait_covers :
      s.rate_bits_per_s ≢ 0
      → bits * 1000000 ≤ s.tokens_bits * 1000000 + s.rate_bits_per_s * delay_us s bits
  unfolding delay_us
  wait_covers paced =
      ground
        (arith, ceil_covers s.rate_bits_per_s ((bits - s.tokens_bits) * 1000000), v.small, v.rate)

  wait_needed :
      (t : ℕ)
      → t < delay_us s bits
      → (s.rate_bits_per_s ≢ 0) × (s.tokens_bits * 1000000 + s.rate_bits_per_s * t < bits * 1000000)
  unfolding delay_us
  wait_needed t h =
      ground
        (arith, ceil_least s.rate_bits_per_s ((bits - s.tokens_bits) * 1000000) t, v.small, v.rate)

  -- For a valid shaper and bits of at most the burst, an attempt at the end of the delay goes
  -- through.
  pub delay_us_suffices : (attempt s (s.last_us + delay_us s bits, bits)).0 ≡ true
  unfolding attempt
  delay_us_suffices =
      let now = s.last_us + delay_us s bits in
      let r = refill s now in
      let same = refill-SameShape s now in
      elim (Nat-zero s.rate_bits_per_s) [
        | inl e ↦ unpaced r bits (same.0 ∙ e)
        | inr paced ↦ covered r bits (elim (Nat-lt r.tokens_bits s.burst_bits) [
          | inl short ↦ omega (
            arith,
            refill_exact now v (omega arith) short,
            wait_covers paced,
            (refill-IsValid now v).part,
            scaled_gap s.rate_bits_per_s s.last_us now (omega arith),
            mul_add s.rate_bits_per_s s.last_us (delay_us s bits),
          )
          | inr full ↦ omega arith
        ])
      ]

  -- For a valid shaper, bits of at most the burst, and no part of a bit in hand, an attempt at a
  -- time from the last refill on and before the delay is over is refused.
  delay_us_least :
      (now : ℕ)
      → s.remainder ≡ 0
      → s.last_us ≤ now
      → now < s.last_us + delay_us s bits
      → (attempt s (now, bits)).0 ≡ false
  unfolding attempt
  delay_us_least now whole later early =
      let r = refill s now in
      let same = refill-SameShape s now in
      let (paced, missing) = wait_needed (now - s.last_us) (omega arith) in
      uncovered r bits (λ e. paced (omega (arith, same.0)))
        (omega (arith, credit-refill now v later, missing)) (omega (arith, same.1))
