-- ===== src/Base/Prefixes.antt =====
-- Searches and counts over the first entries of an array.
use Prim.Native.Nat.{ℕ, zero, suc, ◌+◌, ◌<◌, ◌≤◌}
use mathlib.Core.Path.{◌≡◌, refl}
use mathlib.Core.Logic.{inl, inr}
use mathlib.Core.Bool.{Bool, true}
use mathlib.Core.List.{List, [], ◌∷◌, ◌++◌}
use mathlib.Core.Option.{some}
use native.Mathlib.Omega.{arith}
use can_hub.Base.Logic.{if◌then◌else◌, ltb, is_some, Bool-cases, Option-cases}
use can_hub.Base.Lists.{take, length, get_or, set}
use can_hub.Base.Blocks.{overlay}
use can_hub.Base.Slots.{find_index, count}

module _ {ℓ} {A : Type ℓ} (p : A → Bool) where
  pub is_some-find_index : (xs : List A) → is_some (find_index p xs) ≡ ltb 0 (count p xs)
  unfolding find_index
  is_some-find_index [] = refl
  is_some-find_index (x ∷ xs) = elim (Option-cases (find_index p xs)) [
    | inl miss ↦ ground (arith, is_some-find_index xs, miss)
    | inr (i, hit) ↦ ground (arith, is_some-find_index xs, hit)
  ]

  pub count-append : (xs ys : List A) → count p (xs ++ ys) ≡ count p xs + count p ys
  count-append [] ys = omega arith
  count-append (x ∷ xs) ys = omega (arith, count-append xs ys)

  pub count-take_next :
      (n : ℕ) (xs : List A) (d : A)
      → n < length xs
      → count p (take (suc n) xs) ≡ count p (take n xs) + (if p (get_or xs n d) then 1 else 0)
  count-take_next n [] d h = absurd (omega arith)
  count-take_next zero (x ∷ xs) d h = omega arith
  count-take_next (suc n) (x ∷ xs) d h = omega (arith, count-take_next n xs d (omega arith))

  pub count-take-set :
      (n : ℕ) (xs : List A) (i : ℕ) (v d : A)
      → i < n
      → i < length xs
      → count p (take n (set xs i v)) + (if p (get_or xs i d) then 1 else 0)
        ≡ count p (take n xs) + (if p v then 1 else 0)
  count-take-set zero xs i v d h l = absurd (omega arith)
  count-take-set (suc n) [] i v d h l = absurd (omega arith)
  count-take-set (suc n) (x ∷ xs) zero v d h l = omega arith
  count-take-set (suc n) (x ∷ xs) (suc i) v d h l =
      omega (arith, count-take-set n xs i v d (omega arith) (omega arith))

  pub count-take_beyond :
      (n : ℕ) (xs : List A) (i : ℕ) (v : A)
      → n ≤ i
      → count p (take n (set xs i v)) ≡ count p (take n xs)
  count-take_beyond zero xs i v h = refl
  count-take_beyond (suc n) [] i v h = refl
  count-take_beyond (suc n) (x ∷ xs) zero v h = absurd (omega arith)
  count-take_beyond (suc n) (x ∷ xs) (suc i) v h =
      omega (arith, count-take_beyond n xs i v (omega arith))

  -- What is found among the first entries stands there in the array.
  pub find_index-take :
      (n : ℕ) (xs : List A) (d : A) {i : ℕ}
      → find_index p (take n xs) ≡ some i
      → (i < n) × (i < length xs) × (p (get_or xs i d) ≡ true)
  unfolding find_index
  find_index-take zero xs d h = cc
  find_index-take (suc n) [] d h = cc
  find_index-take (suc n) (x ∷ xs) d {i = zero} h = elim (Bool-cases (p x)) [
    | inl e ↦ (omega arith, omega arith, e)
    | inr e ↦ ground (arith, e)
  ]
  find_index-take (suc n) (x ∷ xs) d {i = suc i} h = ground (arith, find_index-take n xs d {i = i})

pub get_or-take {ℓ} :
    {A : Type ℓ} (n : ℕ) (xs : List A) (i : ℕ) (d : A)
    → i < n
    → get_or (take n xs) i d ≡ get_or xs i d
get_or-take zero xs i d h = absurd (omega arith)
get_or-take (suc n) [] i d h = refl
get_or-take (suc n) (x ∷ xs) zero d h = refl
get_or-take (suc n) (x ∷ xs) (suc i) d h = get_or-take n xs i d (omega arith)

pub get_or-overlay-take {ℓ} :
    {A : Type ℓ} (n : ℕ) (xs ys : List A) (i : ℕ) (d : A)
    → i < n
    → i < length xs
    → i < length ys
    → get_or (overlay xs (take n ys)) i d ≡ get_or ys i d
get_or-overlay-take zero xs ys i d h k l = absurd (omega arith)
get_or-overlay-take (suc n) [] ys i d h k l = absurd (omega arith)
get_or-overlay-take (suc n) (x ∷ xs) [] i d h k l = absurd (omega arith)
get_or-overlay-take (suc n) (x ∷ xs) (y ∷ ys) zero d h k l = refl
get_or-overlay-take (suc n) (x ∷ xs) (y ∷ ys) (suc i) d h k l =
    get_or-overlay-take n xs ys i d (omega arith) (omega arith) (omega arith)
