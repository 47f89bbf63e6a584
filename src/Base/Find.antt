-- ===== src/Base/Find.antt =====
-- Loops that read the first slot that passes a test.
use Prim.Native.Nat.{ℕ, zero, suc, ◌<◌, ◌≤◌}
use mathlib.Core.Path.{◌≡◌, refl}
use mathlib.Core.Bool.{Bool, true, false}
use mathlib.Core.List.{List, [], ◌∷◌}
use mathlib.Core.Option
use mathlib.Core.Logic.{inl, inr}
use mathlib.Core.Option.{Option, none, some}
use native.Mathlib.Omega.{arith}
use can_hub.Base.Logic.{if◌then◌else◌, Bool-cases}
use can_hub.Base.Lists.{length, get_or, set}
use can_hub.Base.Slots.{find_index, count, count-pos}

module _ {ℓ} {A : Type ℓ} where
  -- The first slot that passes a test, for loops that read it and return.
  unfoldable pub find : (A → Bool) → List A → Option A
  find p [] = none
  find p (x ∷ xs) = if p x then some x else find p xs

  -- A write that the test does not see before or after.
  pub find-set-false :
      (p : A → Bool) (xs : List A) (i : ℕ) (v d : A)
      → p (get_or xs i d) ≡ false
      → p v ≡ false
      → find p (set xs i v) ≡ find p xs
  unfolding find
  find-set-false p [] i v d h k = refl
  find-set-false p (x ∷ xs) zero v d h k = ground arith
  find-set-false p (x ∷ xs) (suc i) v d h k = ground (arith, find-set-false p xs i v d h k)

  -- A write of the only slot that passes.
  pub find-set-hit :
      (p : A → Bool) (xs : List A) (i : ℕ) (v : A)
      → i < length xs
      → count p xs ≡ 0
      → p v ≡ true
      → find p (set xs i v) ≡ some v
  unfolding find
  find-set-hit p [] i v l h k = absurd (omega arith)
  find-set-hit p (x ∷ xs) zero v l h k = ground arith
  find-set-hit p (x ∷ xs) (suc i) v l h k = ground (arith, find-set-hit p xs i v)

  -- A write into the only slot that may pass.
  pub find-set-only :
      (p : A → Bool) (xs : List A) (i : ℕ) (v d : A)
      → i < length xs
      → count p xs ≤ (if p (get_or xs i d) then 1 else 0)
      → p v ≡ true
      → find p (set xs i v) ≡ some v
  unfolding find
  find-set-only p [] i v d l h k = absurd (omega arith)
  find-set-only p (x ∷ xs) zero v d l h k = ground arith
  find-set-only p (x ∷ xs) (suc i) v d l h k =
      ground (arith, find-set-only p xs i v d, count-pos p xs i d)

  pub find-none_of_count : (p : A → Bool) (xs : List A) → count p xs ≡ 0 → find p xs ≡ none
  unfolding find
  find-none_of_count p [] h = refl
  find-none_of_count p (x ∷ xs) h = ground (arith, find-none_of_count p xs)

  pub count-zero_of_find : (p : A → Bool) (xs : List A) → find p xs ≡ none → count p xs ≡ 0
  unfolding find
  count-zero_of_find p [] h = refl
  count-zero_of_find p (x ∷ xs) h = ground (arith, count-zero_of_find p xs)

  -- The slot found is the one at the index found.
  pub find-find_index :
      (p : A → Bool) (xs : List A) (d : A)
      → find p xs ≡ Option.map (λ i. get_or xs i d) (find_index p xs)
  unfolding find find_index
  find-find_index p [] d = refl
  find-find_index p (x ∷ xs) d = elim (Bool-cases (p x)) [
    | inl hit ↦ rw hit refl
    | inr miss ↦ rw (miss, find-find_index p xs d) (shift (find_index p xs))
  ]
    where
      shift :
          (o : Option ℕ)
          → Option.map (λ i. get_or xs i d) o
            ≡ Option.map (λ i. get_or (x ∷ xs) i d) (Option.map suc o)
      shift none = refl
      shift (some i) = refl
