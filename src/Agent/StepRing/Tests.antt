-- ===== src/Agent/StepRing/Tests.antt =====
-- A ring of eight bytes with records of at most three.
use can_hub.Base.{◌≡◌, refl, inr, true, false, List, [], ◌∷◌, arith, replicate}
use can_hub.Agent.StepRing.{StepRing, init, push, release, is_empty}
use can_hub.Agent.StepRing.Invariant.{IsValid}
use can_hub.Agent.StepRing.Refine.{contents}
use can_hub.Agent.StepRing.Credit.{
  Use, store, consume, apply, run, refused, after_all, run_refines, init-IsReady,
}

abbrev empty_ring : StepRing
empty_ring = record {
  storage = replicate 8 0;
  capacity = 8;
  read_offset = 0;
  write_offset = 0;
  wrap_offset = 0;
  used_bytes = 0;
  wrapped = false;
}

-- The last record did not fit at the end.
abbrev split_ring : StepRing
split_ring = record {
  storage = 7 ∷ 8 ∷ 3 ∷ 4 ∷ 5 ∷ 6 ∷ 0 ∷ 0 ∷ [];
  capacity = 8;
  read_offset = 3;
  write_offset = 2;
  wrap_offset = 6;
  used_bytes = 5;
  wrapped = true;
}

abbrev script : List Use
script =
    store (1 ∷ 2 ∷ 3 ∷ [])
    ∷ store (4 ∷ 5 ∷ [])
    ∷ consume 3
    ∷ store (6 ∷ 7 ∷ 8 ∷ [])
    ∷ consume 5
    ∷ []

split_ring-IsValid : IsValid split_ring
split_ring-IsValid = record {
  sized = refl;
  small = omega arith;
  segments = inr (refl, omega arith, omega arith, omega arith, omega arith);
}

contents-split_ring : contents split_ring ≡ 4 ∷ 5 ∷ 6 ∷ 7 ∷ 8 ∷ []
contents-split_ring = refl

run_refines_example :
    (refused (init (replicate 8 0) 8) script ≡ 0)
    × (contents (run (init (replicate 8 0) 8) script)
        ≡ after_all (contents (init (replicate 8 0) 8)) script)
unfolding init push release apply
run_refines_example =
    run_refines 3 script (init (replicate 8 0) 8)
      (init-IsReady 3 (replicate 8 0) 8 refl (omega arith)) (omega arith)

empty_ring_runs : (is_empty empty_ring ≡ true) × (is_empty split_ring ≡ false)
unfolding is_empty
empty_ring_runs = (refl, refl)
