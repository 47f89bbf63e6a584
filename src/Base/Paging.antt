-- ===== src/Base/Paging.antt =====
-- Listing the slots in use a page at a time: the loop of the list replies.
use Prim.Native.Nat.{ℕ, zero, suc, ◌+◌, ◌<◌, ◌≤◌}
use mathlib.Core.Path.{◌≡◌, refl, sym, ap, ◌∙◌}
use mathlib.Core.Logic.{◌⊎◌, inl, inr}
use mathlib.Core.Option.{none, some}
use mathlib.Core.Bool.{Bool, true, false}
use mathlib.Core.List.{List, [], ◌∷◌, ◌++◌, map, map-append, append-nil}
use native.Mathlib.Omega.{arith}
use can_hub.Base.Logic.{if◌then◌else◌, ltb, Bool-cases, Nat-lt}
use can_hub.Base.Slots.{find_from}
use can_hub.Base.Lists.{drop, take, length, get_or, take-append-drop, length-take, length-drop}

module _ {ℓ κ} {A : Type ℓ} {B : Type κ} (p : A → Bool) (f : A → B) where
  -- The loop over the slots left, with the entries still to be skipped and the room in the reply:
  -- what is put into the reply, and whether there is more.
  unfoldable pub page : List A → ℕ → ℕ → List B × Bool
  page [] skip room = ([], false)
  page (x ∷ xs) (suc skip) room = page xs (if p x then skip else suc skip) room
  page (x ∷ xs) zero zero = let rest = page xs zero zero in if p x then ([], true) else rest
  page (x ∷ xs) zero (suc room) = elim (p x) [
    | true ↦ let rest = page xs zero room in (f x ∷ rest.0, rest.1)
    | false ↦ page xs zero (suc room)
  ]

-- The slots in use, in order.
abbrev pub live {ℓ} : {A : Type ℓ} → (A → Bool) → List A → List A
live p [] = []
live p (x ∷ xs) = if p x then x ∷ live p xs else live p xs

module _ {ℓ κ} {A : Type ℓ} {B : Type κ} (p : A → Bool) (f : A → B) where
  page_lem :
      (xs : List A) (skip room : ℕ)
      → page p f xs skip room
        ≡ (map f (take room (drop skip (live p xs))), ltb (skip + room) (length (live p xs)))
  unfolding page
  page_lem [] skip room = ground (arith, empty_take skip room)
    where
      empty_take : (skip room : ℕ) → map f (take room (drop skip (live p []))) ≡ []
      empty_take zero zero = refl
      empty_take zero (suc room) = refl
      empty_take (suc skip) zero = refl
      empty_take (suc skip) (suc room) = refl
  page_lem (x ∷ xs) (suc skip) room = elim (Bool-cases (p x)) [
    | inl live_one ↦ rw live_one (ground (arith, page_lem xs skip room))
    | inr free_one ↦ rw free_one (ground (arith, page_lem xs (suc skip) room))
  ]
  page_lem (x ∷ xs) zero zero = elim (Bool-cases (p x)) [
    | inl live_one ↦ rw live_one (ground arith)
    | inr free_one ↦ rw free_one (ground (arith, page_lem xs 0 0))
  ]
  page_lem (x ∷ xs) zero (suc room) = elim (Bool-cases (p x)) [
    | inl live_one ↦ rw (live_one, page, page_lem xs 0 room) (ground arith)
    | inr free_one ↦ rw (free_one, page) (ground (arith, page_lem xs 0 (suc room)))
  ]

module _ {ℓ} {A : Type ℓ} where
  pub drop_all : (n : ℕ) (xs : List A) → length xs ≤ n → drop n xs ≡ []
  drop_all zero [] h = refl
  drop_all zero (x ∷ xs) h = absurd (omega arith)
  drop_all (suc n) [] h = refl
  drop_all (suc n) (x ∷ xs) h = drop_all n xs (omega arith)

  pub take_all : (n : ℕ) (xs : List A) → length xs ≤ n → take n xs ≡ xs
  take_all zero [] h = refl
  take_all zero (x ∷ xs) h = absurd (omega arith)
  take_all (suc n) [] h = refl
  take_all (suc n) (x ∷ xs) h = ap (◌∷◌ x) (take_all n xs (omega arith))

  pub drop-drop : (m n : ℕ) (xs : List A) → drop m (drop n xs) ≡ drop (n + m) xs
  drop-drop m zero xs = ap (λ k. drop k xs) (omega arith)
  drop-drop zero (suc n) [] = sym (drop_all (suc n + 0) [] (omega arith))
  drop-drop (suc m) (suc n) [] = sym (drop_all (suc n + suc m) [] (omega arith))
  drop-drop m (suc n) (x ∷ xs) =
      let shift : suc n + m ≡ suc (n + m) = omega arith in rw shift (drop-drop m n xs)

pub length-map {ℓ κ} :
    {A : Type ℓ} {B : Type κ} (f : A → B) (xs : List A) → length (map f xs) ≡ length xs
length-map f [] = refl
length-map f (x ∷ xs) = ap suc (length-map f xs)

module _ {ℓ κ} {A : Type ℓ} {B : Type κ} (p : A → Bool) (f : A → B) where
  -- What a reader gets that asks for the next page as long as there is more, each time at the
  -- offset behind the entries it has.
  unfoldable pub pages : ℕ → List A → ℕ → ℕ → List B
  pages zero xs offset room = []
  pages (suc fuel) xs offset room =
      let got = page p f xs offset room in
      let rest = pages fuel xs (offset + length got.0) room in got.0 ++ (if got.1 then rest else [])

  pub pages_lem :
      (fuel : ℕ) (xs : List A) (offset room : ℕ)
      → 0 < room
      → length (live p xs) ≤ fuel + offset
      → pages fuel xs offset room ≡ map f (drop offset (live p xs))
  unfolding pages
  pages_lem zero xs offset room some_room enough =
      ap (map f) (sym (drop_all offset (live p xs) (omega arith)))
  pages_lem (suc fuel) xs offset room some_room enough =
      let left = drop offset (live p xs) in
      let shown = map f (take room left) in
      elim (Nat-lt (offset + room) (length (live p xs))) [
        | inl more ↦
            let full : length shown ≡ room =
              length-map f (take room left)
              ∙ omega (arith, length-take room left, length-drop offset (live p xs)) in
            let on : ltb (offset + room) (length (live p xs)) ≡ true = ground arith in
            rw
              (
                page_lem p f xs offset room,
                on,
                full,
                pages_lem fuel xs (offset + room) room some_room (omega arith),
                ← drop-drop room offset (live p xs),
                ← map-append,
              )
              (ap (map f) (take-append-drop room left))
        | inr last ↦
            let off : ltb (offset + room) (length (live p xs)) ≡ false = ground arith in
            rw (page_lem p f xs offset room, off, append-nil)
              (ap (map f) (take_all room left (omega (arith, length-drop offset (live p xs)))))
      ]

-- The next slot in use, for a loop that goes on behind each: where it is, and which are left then.
pub find_from-live {ℓ} :
    {A : Type ℓ} (p : A → Bool) (xs : List A) (i : ℕ) (d : A)
    → ((find_from p xs i ≡ none) × (live p xs ≡ []))
      ⊎ ((k : ℕ) × (find_from p xs i ≡ some (i + k))
          × (k < length xs)
          × (live p xs ≡ get_or xs k d ∷ live p (drop (suc k) xs)))
unfolding find_from
find_from-live p [] i d = inl (refl, refl)
find_from-live p (x ∷ xs) i d = elim (Bool-cases (p x)) [
  | inl hit ↦ inr (0, rw hit (ap some (omega arith)), omega arith, rw hit refl)
  | inr miss ↦ elim (find_from-live p xs (i + 1) d) [
    | inl (none_left, empty) ↦ inl (rw miss none_left, rw miss empty)
    | inr (k, found, low, rest) ↦
        inr (suc k, rw (miss, found) (ap some (omega arith)), omega arith, rw miss rest)
  ]
]
