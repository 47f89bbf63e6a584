-- ===== src/Socketcand/AsciiFramer/Tests.antt =====
-- Runs of the framer, and its theorem at a piece whose command is longer than the buffer of 256
-- bytes that socketcand_bridge.c gives.
use can_hub.Base.{
  ℕ, ◌≡◌, refl, List, [], ◌∷◌, ◌++◌, map, none, some, arith, find_index, take, replicate,
}
use can_hub.Socketcand.AsciiFramer.{AsciiFramer, reset, push, skip_to_command, next}
use can_hub.Socketcand.AsciiFramer.Stream.{inside, run, drain, IsOpen, kept, push_drained}

-- The rest of a command, and the start of the next.
abbrev piece : List ℕ
piece = replicate 300 97 ++ (62 ∷ 120 ∷ 60 ∷ 121 ∷ [])

abbrev filled : AsciiFramer
filled = (push reset (120 ∷ 60 ∷ 121 ∷ 122 ∷ 62 ∷ 60 ∷ [])).1

runs :
    (next reset 8 ≡ (none, reset))
    × (next filled 8 ≡ (some (121 ∷ 122 ∷ []), record { buffered = 60 ∷ [] }))
    × (next (next filled 8).1 8 ≡ (none, record { buffered = 60 ∷ [] }))
    × ((next filled 2).0 ≡ some (121 ∷ []))
unfolding reset push skip_to_command next find_index
runs = (refl, refl, refl, refl)

commands_of : run (inside (98 ∷ [])) piece ≡ ((98 ∷ replicate 300 97) ∷ [], inside (121 ∷ []))
unfolding run
commands_of = refl

mid_command-IsOpen : IsOpen (inside (98 ∷ []))
unfolding IsOpen
mid_command-IsOpen = refl

push_drained_example :
    let pushed = push (record { buffered = kept (inside (98 ∷ [])) }) piece in
    (pushed.0 ≡ 304)
    × (drain 513 pushed.1 256 ≡ (
      map (take 255) (run (inside (98 ∷ [])) piece).0,
      record { buffered = kept (run (inside (98 ∷ [])) piece).1 },
    ))
    × IsOpen (run (inside (98 ∷ [])) piece).1
push_drained_example =
    push_drained (inside (98 ∷ [])) piece 513 256 mid_command-IsOpen (omega arith) (omega arith)
      (omega arith)

-- The command that the bridge gets there is cut to 255 bytes, the next one is kept.
cut_at_the_end :
    drain 513 (push (record { buffered = kept (inside (98 ∷ [])) }) piece).1 256
    ≡ ((98 ∷ replicate 254 97) ∷ [], record { buffered = 60 ∷ 121 ∷ [] })
unfolding drain push skip_to_command next find_index
cut_at_the_end = refl
