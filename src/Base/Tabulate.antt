-- ===== src/Base/Tabulate.antt =====
-- The list of the values of a function at consecutive positions, for queues kept in a ring.
use Prim.Native.Nat.{ℕ, zero, suc, ◌+◌, ◌≤◌, ◌<◌}
use mathlib.Core.Path.{◌≡◌, refl, ap, ap₂}
use mathlib.Core.List.{List, [], ◌∷◌, ◌++◌}
use native.Mathlib.Omega.{arith}
use can_hub.Base.Lists.{length, take, drop}

module _ {ℓ} {A : Type ℓ} where
  abbrev pub tabulate : (ℕ → A) → ℕ → ℕ → List A
  tabulate f p zero = []
  tabulate f p (suc n) = f p ∷ tabulate f (p + 1) n

module _ {ℓ} {A : Type ℓ} where
  pub length-tabulate : (f : ℕ → A) (p n : ℕ) → length (tabulate f p n) ≡ n
  length-tabulate f p zero = refl
  length-tabulate f p (suc n) = ap suc (length-tabulate f (p + 1) n)

  -- Only the positions read matter; the second function may be read at a shift.
  pub tabulate_ext :
      (f g : ℕ → A) (p q n : ℕ)
      → ((k : ℕ) → k < n → f (p + k) ≡ g (q + k))
      → tabulate f p n ≡ tabulate g q n
  tabulate_ext f g p q zero h = refl
  tabulate_ext f g p q (suc n) h =
      ap₂ ◌∷◌ (at (p + 0) p (q + 0) q (omega arith) (omega arith) (h 0 (omega arith))) (
        tabulate_ext f g (p + 1) (q + 1) n (λ k l.
          at (p + suc k) (p + 1 + k) (q + suc k) (q + 1 + k) (omega arith) (omega arith)
            (h (suc k) (omega arith))))
    where
      at : (a b c d : ℕ) → a ≡ b → c ≡ d → f a ≡ g c → f b ≡ g d
      at a b c d e e' x = cc

  pub tabulate-snoc :
      (f : ℕ → A) (p n q : ℕ) → q ≡ p + n → tabulate f p (suc n) ≡ tabulate f p n ++ (f q ∷ [])
  tabulate-snoc f p zero q e = let e' : p ≡ q = omega arith in ap (λ k. f k ∷ []) e'
  tabulate-snoc f p (suc n) q e = ap (◌∷◌ (f p)) (tabulate-snoc f (p + 1) n q (omega arith))

  pub drop-tabulate :
      (f : ℕ → A) (k p n q m : ℕ) → n ≡ k + m → q ≡ p + k → drop k (tabulate f p n) ≡ tabulate f q m
  drop-tabulate f zero p n q m e e' =
      let same : n ≡ m = omega arith in let start : q ≡ p = omega arith in rw (same, start)
  drop-tabulate f (suc k) p zero q m e e' = absurd (omega arith)
  drop-tabulate f (suc k) p (suc n) q m e e' =
      drop-tabulate f k (p + 1) n q m (omega arith) (omega arith)

  pub take-tabulate : (f : ℕ → A) (k p n : ℕ) → k ≤ n → take k (tabulate f p n) ≡ tabulate f p k
  take-tabulate f zero p n h = refl
  take-tabulate f (suc k) p zero h = absurd (omega arith)
  take-tabulate f (suc k) p (suc n) h = ap (◌∷◌ (f p)) (take-tabulate f k (p + 1) n (omega arith))
