-- ===== src/Shared/EgressShaper/Bounds.antt =====
-- What a bucket can hold, and that no 64-bit sum of it wraps.
use native.Mathlib.Nat.{div-add-mod, mod-lt}
use can_hub.Base.{ℕ, ◌+◌, ◌-◌, ◌*◌, ◌/◌, ◌^◌, ◌≤◌, ◌<◌, ◌≡◌, ◌≢◌, arith}
use can_hub.Shared.EgressShaper.{
  EgressShaper, u64, init, set_rate, refill, try_consume, add_elapsed,
}

pub record IsValid (s : EgressShaper) : Type 0 where
  pub capped : s.tokens_bits ≤ s.burst_bits
  pub part : s.remainder < 1000000
  pub rate : s.rate_bits_per_s < 2 ^ 32
  pub small : s.burst_bits < 2 ^ 43

-- What is held, in millionths of a bit.
abbrev pub credit : EgressShaper → ℕ
credit s = s.tokens_bits * 1000000 + s.remainder

pub init-IsValid :
    (now rate burst : ℕ) → rate < 2 ^ 32 → burst < 2 ^ 43 → IsValid (init now rate burst)
unfolding init
init-IsValid now rate burst h k = omega arith

set_rate-IsValid :
    {s : EgressShaper} (rate : ℕ) → rate < 2 ^ 32 → IsValid s → IsValid (set_rate s rate)
unfolding set_rate
set_rate-IsValid rate h v = ground arith

pub try_consume-IsValid : {s : EgressShaper} (bits : ℕ) → IsValid s → IsValid (try_consume s bits).1
unfolding try_consume
try_consume-IsValid bits v = ground arith

-- A time shorter than the fill time brings no more than the burst.
short_fill : (rate full elapsed : ℕ) → 0 < rate → elapsed < full / rate + 1 → rate * elapsed ≤ full
short_fill rate full elapsed h k = grind (arith, div-add-mod full rate)

-- Below the fill time the bucket gains what the rate brings, or is full.
module _ {s : EgressShaper} (elapsed : ℕ) (v : IsValid s)
    (h : s.rate_bits_per_s * elapsed ≤ s.burst_bits * 1000000) where
  add_elapsed-IsValid : IsValid (add_elapsed s elapsed)
  unfolding add_elapsed
  add_elapsed-IsValid = ground arith

  credit-add_elapsed : credit (add_elapsed s elapsed) ≤ credit s + s.rate_bits_per_s * elapsed
  unfolding add_elapsed
  credit-add_elapsed = ground arith

  add_elapsed_exact :
      (add_elapsed s elapsed).tokens_bits < s.burst_bits
      → credit (add_elapsed s elapsed) ≡ credit s + s.rate_bits_per_s * elapsed
  unfolding add_elapsed
  add_elapsed_exact g = ground arith

module _ {s : EgressShaper} (now : ℕ) (v : IsValid s) where
  gained :
      s.rate_bits_per_s ≢ 0
      → now - s.last_us < u64 (s.burst_bits * 1000000) / s.rate_bits_per_s + 1
      → s.rate_bits_per_s * (now - s.last_us) ≤ s.burst_bits * 1000000
  gained p q = omega (
    arith,
    short_fill s.rate_bits_per_s (u64 (s.burst_bits * 1000000)) (now - s.last_us) (omega arith) q,
    v.small,
  )

  -- Refilling keeps the bucket valid.
  pub refill-IsValid : IsValid (refill s now)
  unfolding refill
  refill-IsValid = ground (arith, gained, added)
    where
      added :
          s.rate_bits_per_s * (now - s.last_us) ≤ s.burst_bits * 1000000
          → IsValid (add_elapsed (record s { last_us = now }) (now - s.last_us))
      added h =
          add_elapsed-IsValid {s = record s { last_us = now }} (now - s.last_us)
            (record { capped = v.capped; part = v.part; rate = v.rate; small = v.small }) h

-- A time as long as the fill time brings the burst.
long_fill : (rate full elapsed : ℕ) → 0 < rate → full / rate + 1 ≤ elapsed → full ≤ rate * elapsed
long_fill rate full elapsed h k = grind (arith, div-add-mod full rate, mod-lt)

module _ {s : EgressShaper} (now : ℕ) (v : IsValid s) (later : s.last_us ≤ now) where
  moved-IsValid : IsValid (record s { last_us = now })
  moved-IsValid = record { capped = v.capped; part = v.part; rate = v.rate; small = v.small }

  -- A refill brings at most what the rate yields over the time since the last one.
  pub credit-refill : credit (refill s now) ≤ credit s + s.rate_bits_per_s * (now - s.last_us)
  unfolding refill
  credit-refill = ground (
    arith,
    gained now v,
    long_fill s.rate_bits_per_s (s.burst_bits * 1000000) (now - s.last_us),
    credit-add_elapsed {s = record s { last_us = now }} (now - s.last_us) moved-IsValid,
  )

  -- For a valid shaper and a time from the last refill on, a refill that does not fill the bucket
  -- adds exactly the rate times the time passed to the credit, in millionths of a bit.
  pub refill_exact :
      (refill s now).tokens_bits < s.burst_bits
      → credit (refill s now) ≡ credit s + s.rate_bits_per_s * (now - s.last_us)
  unfolding refill
  refill_exact short = ground (
    arith,
    gained now v,
    add_elapsed_exact {s = record s { last_us = now }} (now - s.last_us) moved-IsValid,
  )
