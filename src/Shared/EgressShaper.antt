-- ===== src/Shared/EgressShaper.antt =====
-- src/shared/egress_shaper.{h,c}: the token bucket, metered in bits. Every operation on `*self`
-- returns the new bucket; `uint64_t` arithmetic wraps as written.
pub mod Bounds
pub mod Conformance
mod Tests
use can_hub.Base.{
  ℕ, ◌+◌, ◌-◌, ◌*◌, ◌/◌, ◌%◌, ◌^◌, Bool, true, false, ◌||◌, ltb, leb, ◌==◌, if◌then◌else◌,
}

pub record EgressShaper : Type 0 where
  pub rate_bits_per_s : ℕ
  pub tokens_bits : ℕ
  pub burst_bits : ℕ
  pub remainder : ℕ
  pub last_us : ℕ

abbrev microseconds_per_second : ℕ
microseconds_per_second = 1000000

abbrev pub u64 : ℕ → ℕ
u64 n = n % 2 ^ 64

unfoldable pub init : ℕ → ℕ → ℕ → EgressShaper
init now_us rate_bits_per_s burst_bits = record {
  rate_bits_per_s = rate_bits_per_s;
  tokens_bits = burst_bits;
  burst_bits = burst_bits;
  remainder = 0;
  last_us = now_us;
}

pub set_rate : EgressShaper → ℕ → EgressShaper
set_rate s rate_bits_per_s = record s {
  rate_bits_per_s = rate_bits_per_s;
  tokens_bits = if ltb s.burst_bits s.tokens_bits then s.burst_bits else s.tokens_bits;
}

-- The part of `EgressShaper_Refill` after the early return for a filled bucket.
pub add_elapsed : EgressShaper → ℕ → EgressShaper
add_elapsed s elapsed =
    let numerator = u64 (u64 (s.rate_bits_per_s * elapsed) + s.remainder) in
    let tokens = u64 (s.tokens_bits + numerator / microseconds_per_second) in
    if ltb s.burst_bits tokens
    then record s { tokens_bits = s.burst_bits; remainder = 0 }
    else record s { tokens_bits = tokens; remainder = numerator % microseconds_per_second }

pub refill : EgressShaper → ℕ → EgressShaper
refill s now_us =
    if s.rate_bits_per_s == 0 || leb now_us s.last_us
    then record s { last_us = now_us }
    else let elapsed = now_us - s.last_us in
      let s' = record s { last_us = now_us } in
      let fill_us = u64 (s.burst_bits * microseconds_per_second) / s.rate_bits_per_s + 1 in
      if leb fill_us elapsed
      then record s' { tokens_bits = s.burst_bits; remainder = 0 }
      else add_elapsed s' elapsed

pub try_consume : EgressShaper → ℕ → Bool × EgressShaper
try_consume s bits =
    let charged = if ltb s.burst_bits bits then s.burst_bits else bits in
    if s.rate_bits_per_s == 0
    then (true, s)
    else if ltb s.tokens_bits charged
    then (false, s)
    else (true, record s { tokens_bits = s.tokens_bits - charged })

pub delay_us : EgressShaper → ℕ → ℕ
delay_us s bits =
    if s.rate_bits_per_s == 0 || leb bits s.tokens_bits
    then 0
    else u64 (u64 ((bits - s.tokens_bits) * microseconds_per_second) + s.rate_bits_per_s - 1)
      / s.rate_bits_per_s
