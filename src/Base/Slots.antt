-- ===== src/Base/Slots.antt =====
-- A table of slots in a fixed array, searched by a loop over its indices. A pointer to a slot is
-- the slot's index.
use Prim.Native.Nat.{ℕ, zero, suc, ◌+◌, ◌<◌, ◌≤◌}
use mathlib.Core.Path.{◌≡◌, refl, ap}
use mathlib.Core.Logic.{inl, inr}
use mathlib.Core.Bool.{Bool, true, false, not}
use mathlib.Core.List.{List, [], ◌∷◌}
use mathlib.Core.Option
use mathlib.Core.Option.{Option, none, some}
use native.Mathlib.Omega.{arith}
use can_hub.Base.Logic.{if◌then◌else◌, Bool-cases}
use can_hub.Base.Lists.{drop, length, get_or, set, replicate}

module _ {ℓ} {A : Type ℓ} where
  -- `for (i = 0; i < MAX; i++) if (p(&slots[i])) return i;` and `none` for falling off the end.
  unfoldable pub find_index : (A → Bool) → List A → Option ℕ
  find_index p [] = none
  find_index p (x ∷ xs) = if p x then some 0 else Option.map suc (find_index p xs)

  -- The number of slots that pass a test.
  abbrev pub count : (A → Bool) → List A → ℕ
  count p [] = 0
  count p (x ∷ xs) = (if p x then 1 else 0) + count p xs

  -- `for (i = 0; i < MAX; i++) if (p(&slots[i])) slots[i] = f(slots[i]);`
  abbrev pub update_where : (A → Bool) → (A → A) → List A → List A
  update_where p f [] = []
  update_where p f (x ∷ xs) = (if p x then f x else x) ∷ update_where p f xs

module _ {ℓ} {A : Type ℓ} where
  -- A hit is in range and passes the test.
  pub find_index_sound :
      (p : A → Bool) (xs : List A) (d : A) {i : ℕ}
      → find_index p xs ≡ some i
      → (i < length xs) × (p (get_or xs i d) ≡ true)
  unfolding find_index
  find_index_sound p [] d h = cc
  find_index_sound p (x ∷ xs) d {i = zero} h = elim (Bool-cases (p x)) [
    | inl e ↦ (omega arith, e)
    | inr e ↦ ground (arith, e)
  ]
  find_index_sound p (x ∷ xs) d {i = suc i} h = ground (arith, find_index_sound p xs d {i = i})

  -- A miss: no slot passes.
  pub find_index-none :
      (p : A → Bool) (xs : List A) (d : A) (j : ℕ)
      → find_index p xs ≡ none
      → j < length xs
      → p (get_or xs j d) ≡ false
  unfolding find_index
  find_index-none p [] d j h l = absurd (omega arith)
  find_index-none p (x ∷ xs) d zero h l = ground arith
  find_index-none p (x ∷ xs) d (suc j) h l = ground (arith, find_index-none p xs d j)

  -- A slot that passes is found, or one before it is.
  pub find_index_complete :
      (p : A → Bool) (xs : List A) (d : A) (j : ℕ)
      → j < length xs
      → p (get_or xs j d) ≡ true
      → (i : ℕ) × (find_index p xs ≡ some i) × (i ≤ j)
  unfolding find_index
  find_index_complete p [] d j l h = absurd (omega arith)
  find_index_complete p (x ∷ xs) d zero l h = (0, ground arith, omega arith)
  find_index_complete p (x ∷ xs) d (suc j) l h =
      let (i, e, le) = find_index_complete p xs d j (omega arith) h in
      elim (Bool-cases (p x)) [
        | inl t ↦ (0, ground arith, omega arith)
        | inr f ↦ (suc i, ground arith, omega arith)
      ]

  pub count-le-length : (p : A → Bool) (xs : List A) → count p xs ≤ length xs
  count-le-length p [] = omega arith
  count-le-length p (x ∷ xs) = ground (arith, count-le-length p xs)

  -- Writing one slot changes the count by that slot alone.
  pub count-set :
      (p : A → Bool) (xs : List A) (i : ℕ) (v d : A)
      → i < length xs
      → count p (set xs i v) + (if p (get_or xs i d) then 1 else 0)
        ≡ count p xs + (if p v then 1 else 0)
  count-set p [] i v d h = absurd (omega arith)
  count-set p (x ∷ xs) zero v d h = omega arith
  count-set p (x ∷ xs) (suc i) v d h = omega (arith, count-set p xs i v d (omega arith))

  pub count-pos :
      (p : A → Bool) (xs : List A) (i : ℕ) (d : A)
      → i < length xs
      → p (get_or xs i d) ≡ true
      → 0 < count p xs
  count-pos p [] i d h e = absurd (omega arith)
  count-pos p (x ∷ xs) zero d h e = ground arith
  count-pos p (x ∷ xs) (suc i) d h e = omega (arith, count-pos p xs i d (omega arith) e)

  pub count-replicate-false :
      (p : A → Bool) (n : ℕ) (a : A) → p a ≡ false → count p (replicate n a) ≡ 0
  count-replicate-false p zero a h = refl
  count-replicate-false p (suc n) a h = ground (arith, count-replicate-false p n a h)

  -- The search misses exactly when the count is zero.
  pub count-zero_of_none : (p : A → Bool) (xs : List A) → find_index p xs ≡ none → count p xs ≡ 0
  unfolding find_index
  count-zero_of_none p [] h = refl
  count-zero_of_none p (x ∷ xs) h = ground (arith, count-zero_of_none p xs)

  -- A search for a free slot misses only in a full table.
  pub full_of_none :
      (p : A → Bool) (xs : List A) → find_index (λ x. not (p x)) xs ≡ none → count p xs ≡ length xs
  unfolding find_index
  full_of_none p [] h = refl
  full_of_none p (x ∷ xs) h = ground (arith, full_of_none p xs)

module _ {ℓ} {A : Type ℓ} where
  pub length-update_where :
      (p : A → Bool) (f : A → A) (xs : List A) → length (update_where p f xs) ≡ length xs
  length-update_where p f [] = refl
  length-update_where p f (x ∷ xs) = ap suc (length-update_where p f xs)

  pub get_or-update_where :
      (p : A → Bool) (f : A → A) (xs : List A) (i : ℕ) (d : A)
      → i < length xs
      → get_or (update_where p f xs) i d
        ≡ (if p (get_or xs i d) then f (get_or xs i d) else get_or xs i d)
  get_or-update_where p f [] i d h = absurd (omega arith)
  get_or-update_where p f (x ∷ xs) zero d h = refl
  get_or-update_where p f (x ∷ xs) (suc i) d h = get_or-update_where p f xs i d (omega arith)

module _ {ℓ} {A : Type ℓ} where
  -- A test that implies one which no slot passes finds nothing.
  pub find_index-none_of_count :
      (p q : A → Bool) (xs : List A)
      → ((x : A) → q x ≡ true → p x ≡ true)
      → count p xs ≡ 0
      → find_index q xs ≡ none
  unfolding find_index
  find_index-none_of_count p q [] h e = refl
  find_index-none_of_count p q (x ∷ xs) h e = ground (arith, h x, find_index-none_of_count p q xs h)

  -- A loop that stands at an index: what is left of the table, and the slot there.
  pub drop-cons :
      (xs : List A) (i : ℕ) (d x : A) (rest : List A)
      → drop i xs ≡ x ∷ rest
      → (drop (i + 1) xs ≡ rest) × (get_or xs i d ≡ x)
  drop-cons xs zero d x rest e = ground arith
  drop-cons [] (suc i) d x rest e = cc
  drop-cons (y ∷ xs) (suc i) d x rest e =
      let next : suc i + 1 ≡ suc (i + 1) = omega arith in rw next (drop-cons xs i d x rest e)

  -- `find_index`, counting from an index on.
  unfoldable pub find_from : (A → Bool) → List A → ℕ → Option ℕ
  find_from p [] i = none
  find_from p (x ∷ xs) i = if p x then some i else find_from p xs (i + 1)

  pub find_from-find_index :
      (p : A → Bool) (xs : List A) (i : ℕ)
      → find_from p xs i ≡ Option.map (λ j. i + j) (find_index p xs)
  unfolding find_from find_index
  find_from-find_index p [] i = refl
  find_from-find_index p (x ∷ xs) i = elim (Bool-cases (p x)) [
    | inl hit ↦ rw hit (ap some (omega arith))
    | inr miss ↦ rw (miss, find_from-find_index p xs (i + 1)) (shift (find_index p xs))
  ]
    where
      shift :
          (o : Option ℕ)
          → Option.map (λ (j : ℕ). i + 1 + j) o ≡ Option.map (λ j. i + j) (Option.map suc o)
      shift none = refl
      shift (some j) = ap some (omega arith)

  -- Where at most one slot passes, two that pass are the same.
  pub count_unique :
      (p : A → Bool) (xs : List A) (d : A) (i j : ℕ)
      → count p xs ≤ 1
      → i < length xs
      → j < length xs
      → p (get_or xs i d) ≡ true
      → p (get_or xs j d) ≡ true
      → i ≡ j
  count_unique p [] d i j h li lj pi pj = absurd (omega arith)
  count_unique p (x ∷ xs) d zero zero h li lj pi pj = refl
  count_unique p (x ∷ xs) d zero (suc j) h li lj pi pj = absurd (ground (arith, count-pos p xs j d))
  count_unique p (x ∷ xs) d (suc i) zero h li lj pi pj = absurd (ground (arith, count-pos p xs i d))
  count_unique p (x ∷ xs) d (suc i) (suc j) h li lj pi pj =
      ap suc (count_unique p xs d i j (omega arith) (omega arith) (omega arith) pi pj)

  -- A change that a test does not see leaves its count.
  pub count-update_where :
      (p q : A → Bool) (f : A → A) (xs : List A)
      → ((x : A) → p (f x) ≡ p x)
      → count p (update_where q f xs) ≡ count p xs
  count-update_where p q f [] h = refl
  count-update_where p q f (x ∷ xs) h = ground (arith, h x, count-update_where p q f xs h)

-- A test that implies one which no slot passes counts nothing.
pub count-zero_of_imp {ℓ} :
    {A : Type ℓ} (p q : A → Bool) (xs : List A)
    → ((x : A) → q x ≡ true → p x ≡ true)
    → count p xs ≡ 0
    → count q xs ≡ 0
count-zero_of_imp p q [] h e = refl
count-zero_of_imp p q (x ∷ xs) h e = ground (arith, h x, count-zero_of_imp p q xs h)

-- Loops that clear the slots of a kind.
module _ {ℓ} {A : Type ℓ} (p : A → Bool) (b : A) where
  -- Nothing to clear.
  pub clear_none : (xs : List A) → count p xs ≡ 0 → update_where p (λ _. b) xs ≡ xs
  clear_none [] h = refl
  clear_none (x ∷ xs) h = ground (arith, clear_none xs)

  -- What was written into a cleared slot is cleared again.
  pub clear-set :
      (xs : List A) (i : ℕ) (v d : A)
      → i < length xs
      → get_or xs i d ≡ b
      → p v ≡ true
      → update_where p (λ _. b) (set xs i v) ≡ update_where p (λ _. b) xs
  clear-set [] i v d l h k = refl
  clear-set (x ∷ xs) zero v d l h k = ground arith
  clear-set (x ∷ xs) (suc i) v d l h k = ground (arith, clear-set xs i v d)

  pub count-clear :
      (q : A → Bool) (xs : List A) → q b ≡ false → count q (update_where p (λ _. b) xs) ≤ count q xs
  count-clear q [] h = omega arith
  count-clear q (x ∷ xs) h = ground (arith, count-clear q xs h)

module _ {ℓ} {A : Type ℓ} where
  -- A write that the test does not see before or after.
  pub find_index-set-false :
      (p : A → Bool) (xs : List A) (i : ℕ) (v d : A)
      → p (get_or xs i d) ≡ false
      → p v ≡ false
      → find_index p (set xs i v) ≡ find_index p xs
  unfolding find_index
  find_index-set-false p [] i v d h k = refl
  find_index-set-false p (x ∷ xs) zero v d h k = ground arith
  find_index-set-false p (x ∷ xs) (suc i) v d h k = rw (find_index-set-false p xs i v d h k) refl

  -- A write of the only slot that passes.
  pub find_index-set-hit :
      (p : A → Bool) (xs : List A) (i : ℕ) (v : A)
      → i < length xs
      → count p xs ≡ 0
      → p v ≡ true
      → find_index p (set xs i v) ≡ some i
  unfolding find_index
  find_index-set-hit p [] i v l h k = absurd (omega arith)
  find_index-set-hit p (x ∷ xs) zero v l h k = ground arith
  find_index-set-hit p (x ∷ xs) (suc i) v l h k = ground (arith, find_index-set-hit p xs i v)

  pub set-set : (xs : List A) (i : ℕ) (v w : A) → set (set xs i v) i w ≡ set xs i w
  set-set [] i v w = refl
  set-set (x ∷ xs) zero v w = refl
  set-set (x ∷ xs) (suc i) v w = ap (◌∷◌ x) (set-set xs i v w)

  pub set-get_or : (xs : List A) (i : ℕ) (d : A) → set xs i (get_or xs i d) ≡ xs
  set-get_or [] i d = refl
  set-get_or (x ∷ xs) zero d = refl
  set-get_or (x ∷ xs) (suc i) d = ap (◌∷◌ x) (set-get_or xs i d)

module _ {ℓ} {A : Type ℓ} where
  pub get_or-drop :
      (n : ℕ) (xs : List A) (k : ℕ) (d : A) → get_or (drop n xs) k d ≡ get_or xs (n + k) d
  get_or-drop zero xs k d = ap (λ j. get_or xs j d) (omega arith)
  get_or-drop (suc n) [] k d = refl
  get_or-drop (suc n) (x ∷ xs) k d =
      let next : suc n + k ≡ suc (n + k) = omega arith in rw next (get_or-drop n xs k d)
