-- ===== src/Shared/EgressShaper/Tests.antt =====
-- A bucket at a million bits a second with a burst of 8192 bits.
use can_hub.Base.{ℕ, ◌+◌, ◌*◌, ◌≤◌, ◌≡◌, refl, true, List, [], ◌∷◌, arith}
use can_hub.Shared.EgressShaper.{EgressShaper, refill, try_consume, delay_us, add_elapsed}
use can_hub.Shared.EgressShaper.Bounds.{IsValid, credit}
use can_hub.Shared.EgressShaper.Conformance.{attempt, sent, finish, sent_bound, delay_us_suffices}

abbrev low : EgressShaper
low = record {
  rate_bits_per_s = 1000000;
  tokens_bits = 100;
  burst_bits = 8192;
  remainder = 0;
  last_us = 50;
}

low-IsValid : IsValid low
low-IsValid = omega arith

abbrev attempts : List (ℕ × ℕ)
attempts = (60, 128) ∷ (70, 64) ∷ (200, 128) ∷ []

sent-low : sent low attempts ≡ 192
unfolding sent attempt refill try_consume add_elapsed
sent-low = refl

sent_bound_example :
    sent low attempts * 1000000 + credit (finish low attempts) + 1000000 * 50
    ≤ credit low + 1000000 * (finish low attempts).last_us
sent_bound_example = sent_bound low attempts low-IsValid (omega arith) (omega arith)

delay_us_suffices_example : (attempt low (50 + delay_us low 128, 128)).0 ≡ true
delay_us_suffices_example = delay_us_suffices 128 low-IsValid (omega arith)
