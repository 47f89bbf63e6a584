-- ===== src/Base/Best.antt =====
-- Loops that keep the best slot so far.
use Prim.Native.Nat.{ℕ, zero, suc, ◌+◌, ◌<◌}
use mathlib.Core.Path.{◌≡◌, refl}
use mathlib.Core.Logic.{◌⊎◌, inl, inr}
use mathlib.Core.Bool.{Bool, true, false, ◌&&◌}
use mathlib.Core.List.{List, [], ◌∷◌}
use mathlib.Core.Option.{Option, none, some}
use native.Mathlib.Omega.{arith}
use can_hub.Base.Logic.{if◌then◌else◌, Bool-cases}
use can_hub.Base.Lists.{length, get_or}

module _ {ℓ} {A : Type ℓ} (p : A → Bool) (before : A → A → Bool) where
  -- A slot that passes replaces the candidate if there is none, or if it comes before it.
  abbrev pub replaces : A → Option (ℕ × A) → Bool
  replaces x none = true
  replaces x (some (i, c)) = before x c

  -- The candidate and its index after the loop over the slots from index `i` on.
  unfoldable pub best_from : List A → ℕ → Option (ℕ × A) → Option (ℕ × A)
  best_from [] i c = c
  best_from (x ∷ xs) i c = best_from xs (i + 1) (if p x && replaces x c then some (i, x) else c)

  -- Where the candidate comes from: it was one before, or it is a slot that passes.
  pub best_from_sound :
      (xs : List A) (i : ℕ) (c : Option (ℕ × A)) (d : A) {j : ℕ} {y : A}
      → best_from xs i c ≡ some (j, y)
      → (c ≡ some (j, y))
        ⊎ ((k : ℕ) × (j ≡ i + k) × (k < length xs) × (get_or xs k d ≡ y) × (p y ≡ true))
  unfolding best_from
  best_from_sound [] i c d h = inl h
  best_from_sound (x ∷ xs) i c d {j} {y} h = elim (Bool-cases (p x && replaces x c)) [
    | inr keep ↦ elim (best_from_sound xs (i + 1) c d (rw keep at h)) [
      | inl same ↦ inl same
      | inr (k, at, low, there, passes) ↦ inr (suc k, omega arith, omega arith, there, passes)
    ]
    | inl take ↦ elim (best_from_sound xs (i + 1) (some (i, x)) d (rw take at h)) [
      | inl same ↦ inr (0, ground arith, omega arith, ground arith, ground arith)
      | inr (k, at, low, there, passes) ↦ inr (suc k, omega arith, omega arith, there, passes)
    ]
  ]

  -- Without a candidate none passed.
  pub best_from-none :
      (xs : List A) (i : ℕ) (c : Option (ℕ × A)) (d : A)
      → best_from xs i c ≡ none
      → (c ≡ none) × ((k : ℕ) → k < length xs → p (get_or xs k d) ≡ false)
  unfolding best_from
  best_from-none [] i c d h = (h, λ k l. absurd (omega arith))
  best_from-none (x ∷ xs) i none d h = elim (Bool-cases (p x)) [
    | inl pass ↦
        absurd (ground (arith, (best_from-none xs (i + 1) (some (i, x)) d (rw pass at h)).0))
    | inr fail ↦
        let ih = best_from-none xs (i + 1) none d (rw fail at h) in
        (refl, λ k l. first k l fail ih.1)
  ]
    where
      first :
          (k : ℕ)
          → k < length (x ∷ xs)
          → p x ≡ false
          → ((m : ℕ) → m < length xs → p (get_or xs m d) ≡ false)
          → p (get_or (x ∷ xs) k d) ≡ false
      first zero l fail others = fail
      first (suc k) l fail others = others k (omega arith)
  best_from-none (x ∷ xs) i (some (n, y)) d h = elim (Bool-cases (p x && before x y)) [
    | inl take ↦
        absurd (ground (arith, (best_from-none xs (i + 1) (some (i, x)) d (rw take at h)).0))
    | inr keep ↦
        absurd (ground (arith, (best_from-none xs (i + 1) (some (n, y)) d (rw keep at h)).0))
  ]

  module _ (asym : (a b : A) → before a b ≡ true → before b a ≡ false)
      (nontrans : (a b c : A) → before a b ≡ false → before b c ≡ false → before a c ≡ false) where
    -- No slot that passes comes before the candidate, nor does the candidate there was.
    pub best_from_best :
        (xs : List A) (i : ℕ) (c : Option (ℕ × A)) (d : A) {j : ℕ} {y : A}
        → best_from xs i c ≡ some (j, y)
        → ((n : ℕ) (z : A) → c ≡ some (n, z) → before z y ≡ false)
          × ((k : ℕ) → k < length xs → p (get_or xs k d) ≡ true → before (get_or xs k d) y ≡ false)
    unfolding best_from
    best_from_best [] i c d {j} {y} h =
        (λ n z e. ground (arith, asym y y), λ k l. absurd (omega arith))
    best_from_best (x ∷ xs) i none d {j} {y} h = elim (Bool-cases (p x)) [
      | inl pass ↦
          let ih = best_from_best xs (i + 1) (some (i, x)) d (rw pass at h) in
          (λ n z e. cc, λ k l. first k l (λ _. ih.0 i x refl) ih.1)
      | inr fail ↦
          let ih = best_from_best xs (i + 1) none d (rw fail at h) in
          (λ n z e. cc, λ k l. first k l (λ pass. cc) ih.1)
    ]
      where
        first :
            (k : ℕ)
            → k < length (x ∷ xs)
            → (p x ≡ true → before x y ≡ false)
            → ((m : ℕ)
                → m < length xs
                → p (get_or xs m d) ≡ true
                → before (get_or xs m d) y ≡ false)
            → p (get_or (x ∷ xs) k d) ≡ true
            → before (get_or (x ∷ xs) k d) y ≡ false
        first zero l mine others pass = mine pass
        first (suc k) l mine others pass = others k (omega arith) pass
    best_from_best (x ∷ xs) i (some (n, w)) d {j} {y} h = elim (Bool-cases (p x && before x w)) [
      | inl take ↦
          let ih = best_from_best xs (i + 1) (some (i, x)) d (rw take at h) in
          let mine = ih.0 i x refl in
          (λ m z e. ground (arith, asym x w, nontrans w x y), λ k l. first k l (λ _. mine) ih.1)
      | inr keep ↦
          let ih = best_from_best xs (i + 1) (some (n, w)) d (rw keep at h) in
          let kept = ih.0 n w refl in
          (
            λ m z e. ground arith,
            λ k l. first k l (λ pass. nontrans x w y (ground arith) kept) ih.1,
          )
    ]
      where
        first :
            (k : ℕ)
            → k < length (x ∷ xs)
            → (p x ≡ true → before x y ≡ false)
            → ((m : ℕ)
                → m < length xs
                → p (get_or xs m d) ≡ true
                → before (get_or xs m d) y ≡ false)
            → p (get_or (x ∷ xs) k d) ≡ true
            → before (get_or (x ∷ xs) k d) y ≡ false
        first zero l mine others pass = mine pass
        first (suc k) l mine others pass = others k (omega arith) pass
