-- ===== src/Base/Blocks.antt =====
-- `memcpy` into a fixed buffer, and reading a block of one.
use Prim.Native.Nat.{ℕ, zero, suc, ◌+◌, ◌-◌, ◌≤◌}
use mathlib.Core.Path.{◌≡◌, refl, ap}
use mathlib.Core.List.{List, [], ◌∷◌, ◌++◌}
use native.Mathlib.Omega.{arith}
use can_hub.Base.Lists.{length, take, drop}

module _ {ℓ} {A : Type ℓ} where
  -- Write `bs` over the front of `xs`; what would fall past the end is lost.
  abbrev pub overlay : List A → List A → List A
  overlay [] bs = []
  overlay (x ∷ xs) [] = x ∷ xs
  overlay (x ∷ xs) (b ∷ bs) = b ∷ overlay xs bs

  -- `memcpy(xs + off, bs, length(bs))`
  abbrev pub blit : List A → ℕ → List A → List A
  blit xs zero bs = overlay xs bs
  blit [] (suc o) bs = []
  blit (x ∷ xs) (suc o) bs = x ∷ blit xs o bs

  -- The `n` elements from `off` on.
  abbrev pub slice : List A → ℕ → ℕ → List A
  slice xs zero n = take n xs
  slice [] (suc o) n = []
  slice (x ∷ xs) (suc o) n = slice xs o n

module _ {ℓ} {A : Type ℓ} where
  pub length-overlay : (xs bs : List A) → length (overlay xs bs) ≡ length xs
  length-overlay [] bs = refl
  length-overlay (x ∷ xs) [] = refl
  length-overlay (x ∷ xs) (b ∷ bs) = ap suc (length-overlay xs bs)

  pub length-blit : (xs : List A) (o : ℕ) (bs : List A) → length (blit xs o bs) ≡ length xs
  length-blit xs zero bs = length-overlay xs bs
  length-blit [] (suc o) bs = refl
  length-blit (x ∷ xs) (suc o) bs = ap suc (length-blit xs o bs)

  pub slice-zero : (xs : List A) (o : ℕ) → slice xs o 0 ≡ []
  slice-zero xs zero = refl
  slice-zero [] (suc o) = refl
  slice-zero (x ∷ xs) (suc o) = slice-zero xs o

  pub length-slice : (xs : List A) (o n : ℕ) → o + n ≤ length xs → length (slice xs o n) ≡ n
  length-slice xs zero zero h = refl
  length-slice [] zero (suc n) h = absurd (omega arith)
  length-slice (x ∷ xs) zero (suc n) h = ap suc (length-slice xs zero n (omega arith))
  length-slice [] (suc o) n h = absurd (omega arith)
  length-slice (x ∷ xs) (suc o) n h = length-slice xs o n (omega arith)

  take-overlay :
      (xs bs : List A) (n : ℕ) → length bs ≤ length xs → n ≡ length bs → take n (overlay xs bs) ≡ bs
  take-overlay [] [] zero h e = refl
  take-overlay [] [] (suc n) h e = absurd (omega arith)
  take-overlay [] (b ∷ bs) n h e = absurd (omega arith)
  take-overlay (x ∷ xs) [] zero h e = refl
  take-overlay (x ∷ xs) [] (suc n) h e = absurd (omega arith)
  take-overlay (x ∷ xs) (b ∷ bs) zero h e = absurd (omega arith)
  take-overlay (x ∷ xs) (b ∷ bs) (suc n) h e =
      ap (◌∷◌ b) (take-overlay xs bs n (omega arith) (omega arith))

  -- A block that ends where the copy begins grows by the copy.
  pub slice-blit_end :
      (xs : List A) (r w m n : ℕ) (bs : List A)
      → w ≡ r + m
      → w + length bs ≤ length xs
      → n ≡ m + length bs
      → slice (blit xs w bs) r n ≡ slice xs r m ++ bs
  slice-blit_end xs zero zero zero n bs h l e = take-overlay xs bs n (omega arith) (omega arith)
  slice-blit_end xs zero zero (suc m) n bs h l e = absurd (omega arith)
  slice-blit_end xs zero (suc w) zero n bs h l e = absurd (omega arith)
  slice-blit_end [] zero (suc w) (suc m) n bs h l e = absurd (omega arith)
  slice-blit_end (x ∷ xs) zero (suc w) (suc m) zero bs h l e = absurd (omega arith)
  slice-blit_end (x ∷ xs) zero (suc w) (suc m) (suc n) bs h l e =
      ap (◌∷◌ x) (slice-blit_end xs zero w m n bs (omega arith) (omega arith) (omega arith))
  slice-blit_end xs (suc r) zero m n bs h l e = absurd (omega arith)
  slice-blit_end [] (suc r) (suc w) m n bs h l e = absurd (omega arith)
  slice-blit_end (x ∷ xs) (suc r) (suc w) m n bs h l e =
      slice-blit_end xs r w m n bs (omega arith) (omega arith) (omega arith)

  -- A block before the copy is unchanged.
  pub slice-blit_before :
      (xs : List A) (r n w : ℕ) (bs : List A) → r + n ≤ w → slice (blit xs w bs) r n ≡ slice xs r n
  slice-blit_before xs zero zero w bs h = refl
  slice-blit_before xs zero (suc n) zero bs h = absurd (omega arith)
  slice-blit_before [] zero (suc n) (suc w) bs h = refl
  slice-blit_before (x ∷ xs) zero (suc n) (suc w) bs h =
      ap (◌∷◌ x) (slice-blit_before xs zero n w bs (omega arith))
  slice-blit_before xs (suc r) n zero bs h = absurd (omega arith)
  slice-blit_before [] (suc r) n (suc w) bs h = refl
  slice-blit_before (x ∷ xs) (suc r) n (suc w) bs h = slice-blit_before xs r n w bs (omega arith)

  -- So is one after it.
  pub slice-blit_after :
      (xs : List A) (r n w : ℕ) (bs : List A)
      → w + length bs ≤ r
      → slice (blit xs w bs) r n ≡ slice xs r n
  slice-blit_after [] zero n zero bs h = refl
  slice-blit_after (x ∷ xs) zero n zero [] h = refl
  slice-blit_after (x ∷ xs) zero n zero (b ∷ bs) h = absurd (omega arith)
  slice-blit_after xs zero n (suc w) bs h = absurd (omega arith)
  slice-blit_after [] (suc r) n zero bs h = refl
  slice-blit_after (x ∷ xs) (suc r) n zero [] h = refl
  slice-blit_after (x ∷ xs) (suc r) n zero (b ∷ bs) h =
      slice-blit_after xs r n zero bs (omega arith)
  slice-blit_after [] (suc r) n (suc w) bs h = refl
  slice-blit_after (x ∷ xs) (suc r) n (suc w) bs h = slice-blit_after xs r n w bs (omega arith)

  -- Dropping from a block moves its start.
  pub drop-slice :
      (k : ℕ) (xs : List A) (r n m q : ℕ)
      → k ≤ n
      → q ≡ r + k
      → m ≡ n - k
      → drop k (slice xs r n) ≡ slice xs q m
  drop-slice zero xs r n m q h e f =
      let e' : q ≡ r = omega arith in let f' : m ≡ n = omega arith in rw (e', f')
  drop-slice (suc k) xs r zero m q h e f = absurd (omega arith)
  drop-slice (suc k) [] zero (suc n) m zero h e f = absurd (omega arith)
  drop-slice (suc k) [] zero (suc n) m (suc q) h e f = refl
  drop-slice (suc k) (x ∷ xs) zero (suc n) m zero h e f = absurd (omega arith)
  drop-slice (suc k) (x ∷ xs) zero (suc n) m (suc q) h e f =
      drop-slice k xs zero n m q (omega arith) (omega arith) (omega arith)
  drop-slice (suc k) xs (suc r) (suc n) m zero h e f = absurd (omega arith)
  drop-slice (suc k) [] (suc r) (suc n) m (suc q) h e f = refl
  drop-slice (suc k) (x ∷ xs) (suc r) (suc n) m (suc q) h e f =
      drop-slice (suc k) xs r (suc n) m q (omega arith) (omega arith) (omega arith)

  pub drop-append_le :
      (k : ℕ) (xs ys : List A) → k ≤ length xs → drop k (xs ++ ys) ≡ drop k xs ++ ys
  drop-append_le zero xs ys h = refl
  drop-append_le (suc k) [] ys h = absurd (omega arith)
  drop-append_le (suc k) (x ∷ xs) ys h = drop-append_le k xs ys (omega arith)

module _ {ℓ} {A : Type ℓ} where
  -- What was copied to the front is read there.
  pub take-overlay-take :
      (n : ℕ) (xs bs : List A)
      → n ≤ length xs
      → n ≤ length bs
      → take n (overlay xs (take n bs)) ≡ take n bs
  take-overlay-take zero xs bs h k = refl
  take-overlay-take (suc n) [] bs h k = absurd (omega arith)
  take-overlay-take (suc n) (x ∷ xs) [] h k = absurd (omega arith)
  take-overlay-take (suc n) (x ∷ xs) (b ∷ bs) h k =
      ap (◌∷◌ b) (take-overlay-take n xs bs (omega arith) (omega arith))
