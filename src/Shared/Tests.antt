-- ===== src/Shared/Tests.antt =====
-- The bounded copy into five bytes, and the default backoff.
use can_hub.Base.{ℕ, ◌≡◌, List, [], ◌∷◌, some, arith, length, take, drop}
use can_hub.Shared.BoundedString.{copy, c_str, copy_lem}
use can_hub.Shared.ReconnectBackoff.{init, reset, after, next_delay_ms, next_delay_ms-after}

abbrev buffer : List ℕ
buffer = 1 ∷ 2 ∷ 3 ∷ 4 ∷ 5 ∷ []

abbrev source : List ℕ
source = b'c' ∷ b'a' ∷ b'n' ∷ b'0' ∷ 0 ∷ []

copy_lem_example :
    (c_str (copy buffer 4 (some source)) ≡ take 3 (c_str source))
    × (length (copy buffer 4 (some source)) ≡ 5)
    × (drop 4 (copy buffer 4 (some source)) ≡ 5 ∷ [])
copy_lem_example = copy_lem buffer source 4 (omega arith) (omega arith)

next_delay_ms-after_example :
    ((next_delay_ms (after 7 (init 1000 60000))).0 ≡ 60000)
    × ((next_delay_ms (reset (after 7 (init 1000 60000)))).0 ≡ 1000)
next_delay_ms-after_example = next_delay_ms-after 7 1000 60000 (omega arith) (omega arith)
