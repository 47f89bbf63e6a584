-- ===== src/Agent/EchoCorrelator/Tests.antt =====
-- Interface 2 with three pending injections, of which two have one identifier.
use can_hub.Base.{◌≡◌, refl, [], ◌∷◌, ◌++◌, some, arith, replicate, set}
use can_hub.Agent.EchoCorrelator.{EchoCorrelator, push, pop_match}
use can_hub.Agent.EchoCorrelator.Refine.{IsValid, pending}
use can_hub.Agent.EchoCorrelator.Operations.{
  push_queue, pop_first, push_enqueues, pop_match_refines,
}

abbrev busy : EchoCorrelator
busy = record {
  tokens = set (replicate 16 (replicate 32 0)) 2 (2 ∷ 3 ∷ (replicate 29 0 ++ (1 ∷ [])));
  can_ids =
      set (replicate 16 (replicate 32 0)) 2 (0x200 ∷ 0x100 ∷ (replicate 29 0 ++ (0x100 ∷ [])));
  head = set (replicate 16 0) 2 31;
  count = set (replicate 16 0) 2 3;
}

busy-IsValid : IsValid busy 2
busy-IsValid = omega arith

pending-busy : pending busy 2 ≡ (1, 0x100) ∷ (2, 0x200) ∷ (3, 0x100) ∷ []
pending-busy = refl

push_enqueues_example :
    (pending (push busy 2 9 0x7ff) 2 ≡ push_queue (pending busy 2) (9, 0x7ff))
    × IsValid (push busy 2 9 0x7ff) 2
push_enqueues_example = push_enqueues 9 0x7ff busy-IsValid

pop_match_refines_example :
    ((pop_match busy 2 0x200).0 ≡ some 2)
    × (pending (pop_match busy 2 0x200).1 2 ≡ (3, 0x100) ∷ [])
    × IsValid (pop_match busy 2 0x200).1 2
unfolding pop_first
pop_match_refines_example = pop_match_refines 0x200 busy-IsValid
