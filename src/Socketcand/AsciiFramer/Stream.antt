-- ===== src/Socketcand/AsciiFramer/Stream.antt =====
-- The stream of commands, byte by byte, and the framer's reading of it in pieces.
use can_hub.Base.{
  ℕ, zero, suc, ◌+◌, ◌-◌, ◌≤◌, ◌<◌, ◌≡◌, ◌⊎◌, refl, sym, ap, ◌∙◌, inl, inr, List, [], ◌∷◌, ◌++◌,
  map, take-take, append-nil, append_assoc, Option, none, some, arith, false, min, leb, ◌==◌,
  if◌then◌else◌, length, length-append, length-drop, take, take_all, drop, find_index, count,
  Bool-cases,
}
use can_hub.Base.Prefixes.{count-append}
use can_hub.Socketcand.AsciiFramer.{AsciiFramer, next, push, skip_to_command}

-- A reader of single bytes: outside a command, or inside one with what it has of it.
pub data Mode : Type 0 where
  outside : Mode
  inside : List ℕ → Mode

-- The commands that the bytes complete, and the mode behind them.
unfoldable pub run : Mode → List ℕ → List (List ℕ) × Mode
run m [] = ([], m)
run outside (c ∷ bytes) = run (if c == 60 then inside [] else outside) bytes
run (inside got) (c ∷ bytes) =
    let done = run outside bytes in
    let more = run (inside (got ++ (c ∷ []))) bytes in
    if c == 62 then (got ∷ done.0, done.1) else more

-- All commands that `AsciiFramer_Next` gives until it fails.
unfoldable pub drain : ℕ → AsciiFramer → ℕ → List (List ℕ) × AsciiFramer
drain zero s command_size = ([], s)
drain (suc fuel) s command_size =
    let got = next s command_size in
    let rest = drain fuel got.1 command_size in
    elim got.0 [ none ↦ ([], got.1) | some command ↦ (command ∷ rest.0, rest.1) ]

-- What the framer keeps in a mode.
abbrev pub kept : Mode → List ℕ
kept outside = []
kept (inside got) = 60 ∷ got

-- What a run gives in terms of the framer, for a command buffer of a size with the NUL.
abbrev as_drained : ℕ → List (List ℕ) × Mode → List (List ℕ) × AsciiFramer
as_drained command_size r = (map (take (command_size - 1)) r.0, record { buffered = kept r.1 })

skipped :
    (bytes : List ℕ)
    → ((skip_to_command bytes ≡ []) × (run outside bytes ≡ ([], outside)))
      ⊎ ((inner : List ℕ) × (skip_to_command bytes ≡ 60 ∷ inner)
          × (length inner < length bytes)
          × (run outside bytes ≡ run (inside []) inner))
unfolding skip_to_command run
skipped [] = inl (refl, refl)
skipped (c ∷ bytes) = elim (Bool-cases (c == 60)) [
  | inl bracket ↦
      let same : c ≡ 60 = ground arith in
      inr (bytes, rw bracket (ap (λ x. x ∷ bytes) same), omega arith, rw bracket refl)
  | inr other ↦ elim (skipped bytes) [
    | inl (none_left, quiet) ↦ inl (rw other none_left, rw other quiet)
    | inr (inner, found, shorter, same) ↦ inr (inner, rw other found, omega arith, rw other same)
  ]
]

run-inside :
    (inner got : List ℕ)
    → ((find_index (λ b. b == 62) inner ≡ none)
        × (run (inside got) inner ≡ ([], inside (got ++ inner))))
      ⊎ ((n : ℕ) × (find_index (λ b. b == 62) inner ≡ some n)
          × (n < length inner)
          × (run (inside got) inner ≡ (
            (got ++ take n inner) ∷ (run outside (drop (n + 1) inner)).0,
            (run outside (drop (n + 1) inner)).1,
          )))
unfolding run find_index
run-inside [] got = inl (refl, rw append-nil refl)
run-inside (c ∷ inner) got = elim (Bool-cases (c == 62)) [
  | inl bracket ↦ inr (0, rw bracket refl, omega arith, rw (bracket, append-nil) refl)
  | inr other ↦ elim (run-inside inner (got ++ (c ∷ []))) [
    | inl (miss, all) ↦ inl (rw (other, miss) refl, rw (other, all, append_assoc) refl)
    | inr (n, hit, low, cut) ↦
        let next_index : suc n + 1 ≡ suc (n + 1) = omega arith in
        inr
          (suc n, rw (other, hit) refl, omega arith, rw (other, cut, append_assoc, next_index) refl)
  ]
]

drain_step :
    (fuel : ℕ) (s : AsciiFramer) (command_size : ℕ) (got : Option (List ℕ) × AsciiFramer)
    → next s command_size ≡ got
    → drain (suc fuel) s command_size ≡ (elim got.0 [
      | none ↦ ([], got.1)
      | some command ↦
          (command ∷ (drain fuel got.1 command_size).0, (drain fuel got.1 command_size).1)
    ])
unfolding drain
drain_step fuel s command_size got e =
    ap
      (λ g. elim g.0 [
        | none ↦ ([], g.1)
        | some command ↦
            (command ∷ (drain fuel g.1 command_size).0, (drain fuel g.1 command_size).1)
      ])
      e

cut_to_size :
    (command_size n : ℕ) (inner : List ℕ)
    → 0 < command_size
    → take (if leb command_size n then command_size - 1 else n) inner
      ≡ take (command_size - 1) (take n inner)
cut_to_size command_size n inner room =
    let shortest : (if leb command_size n then command_size - 1 else n) ≡ min (command_size - 1) n =
      ground arith in
    ap (λ k. take k inner) shortest ∙ sym (take-take (command_size - 1) n inner)

-- One call: it gives the first command of the run, cut to its buffer, or keeps what the run is
-- inside of.
next_lem :
    (s : AsciiFramer) (command_size : ℕ)
    → 0 < command_size
    → ((next s command_size ≡ (none, record { buffered = kept (run outside s.buffered).1 }))
        × ((run outside s.buffered).0 ≡ []))
      ⊎ ((command : List ℕ) × (rest : List ℕ) × (next s command_size
            ≡ (some (take (command_size - 1) command), record { buffered = rest }))
          × (length rest < length s.buffered)
          × (run outside s.buffered ≡ (command ∷ (run outside rest).0, (run outside rest).1)))
unfolding next
next_lem s command_size room = elim (skipped s.buffered) [
  | inl (empty, quiet) ↦ inl (rw (empty, next, quiet) refl, rw quiet refl)
  | inr (inner, found, shorter, same) ↦ elim (run-inside inner []) [
    | inl (miss, all) ↦ inl (rw (found, next, miss, same, all) refl, rw (same, all) refl)
    | inr (n, hit, low, cut) ↦ inr (
      take n inner,
      drop (n + 1) inner,
      rw (found, next, hit, cut_to_size command_size n inner room) refl,
      omega (arith, length-drop (n + 1) inner),
      same ∙ cut,
    )
  ]
]

drain_lem :
    (fuel : ℕ) (s : AsciiFramer) (command_size : ℕ)
    → length s.buffered < fuel
    → 0 < command_size
    → drain fuel s command_size ≡ as_drained command_size (run outside s.buffered)
drain_lem zero s command_size enough room = absurd (omega arith)
drain_lem (suc fuel) s command_size enough room = elim (next_lem s command_size room) [
  | inl (kept_all, nothing) ↦
      let end : AsciiFramer = record { buffered = kept (run outside s.buffered).1 } in
      drain_step fuel s command_size (none, end) kept_all
      ∙ ap (λ cs. (map (take (command_size - 1)) cs, end)) (sym nothing)
  | inr (command, rest, one, shorter, whole) ↦
      let behind : AsciiFramer = record { buffered = rest } in
      let given = take (command_size - 1) command in
      let ih = drain_lem fuel behind command_size (omega arith) room in
      drain_step fuel s command_size (some given, behind) one
      ∙ ap (λ d. (given ∷ d.0, d.1)) ih
      ∙ ap (as_drained command_size) (sym whole)
]

-- A command that is not over has no right bracket.
unfoldable pub IsOpen : Mode → Type 0
IsOpen outside = Unit
IsOpen (inside got) = count (λ b. b == 62) got ≡ 0

run-append :
    (got bytes more : List ℕ)
    → count (λ b. b == 62) bytes ≡ 0
    → run (inside got) (bytes ++ more) ≡ run (inside (got ++ bytes)) more
unfolding run
run-append got [] more plain = rw append-nil refl
run-append got (c ∷ bytes) more plain =
    let other : (c == 62) ≡ false = ground arith in
    rw (other, run-append (got ++ (c ∷ [])) bytes more (ground arith), append_assoc) refl

run-kept : (m : Mode) (bytes : List ℕ) → IsOpen m → run outside (kept m ++ bytes) ≡ run m bytes
unfolding run IsOpen
run-kept outside bytes v = refl
run-kept (inside got) bytes v = run-append [] got bytes v

run-IsOpen : (m : Mode) (bytes : List ℕ) → IsOpen m → IsOpen (run m bytes).1
unfolding run IsOpen
run-IsOpen m [] v = v
run-IsOpen outside (c ∷ bytes) v = elim (Bool-cases (c == 60)) [
  | inl bracket ↦ rw (bracket, IsOpen, run) (run-IsOpen (inside []) bytes refl)
  | inr other ↦ rw (other, IsOpen, run) (run-IsOpen outside bytes tt)
]
run-IsOpen (inside got) (c ∷ bytes) v = elim (Bool-cases (c == 62)) [
  | inl bracket ↦ rw (bracket, IsOpen, run) (run-IsOpen outside bytes tt)
  | inr other ↦
      rw (other, IsOpen, run)
        (run-IsOpen (inside (got ++ (c ∷ []))) bytes
          (ground (arith, v, count-append (λ b. b == 62) got (c ∷ []))))
]

-- A framer that keeps what a mode does takes a piece of the stream that fits behind it in the 512
-- bytes of its buffer in full; draining it into a command buffer of any size but 0 then gives the
-- commands that the piece completes, each cut to at most one byte less than that size, and the
-- framer keeps what the mode behind the piece does, so that the next piece may follow. A drain ends
-- within 513 calls.
pub push_drained :
    (m : Mode) (piece : List ℕ) (fuel command_size : ℕ)
    → IsOpen m
    → length (kept m) + length piece ≤ 512
    → 512 < fuel
    → 0 < command_size
    → let pushed = push (record { buffered = kept m }) piece in
      (pushed.0 ≡ length piece)
      × (drain fuel pushed.1 command_size ≡ (
        map (take (command_size - 1)) (run m piece).0,
        record { buffered = kept (run m piece).1 },
      ))
      × IsOpen (run m piece).1
unfolding push
push_drained m piece fuel command_size v fits enough room =
    let taken : min (length piece) (512 - length (kept m)) ≡ length piece = omega arith in
    let full : AsciiFramer = record { buffered = kept m ++ piece } in
    let len = length-append (kept m) piece in
    (
      taken,
      rw (taken, take_all (length piece) piece (omega arith))
          (drain_lem fuel full command_size (omega arith) room
            ∙ ap (as_drained command_size) (run-kept m piece v)),
      run-IsOpen m piece v,
    )
