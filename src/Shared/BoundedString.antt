-- ===== src/Shared/BoundedString.antt =====
-- src/shared/bounded_string.c: the bounded copy of a C string into a buffer. A buffer is the list
-- of its bytes; the source is a list that holds a NUL, or `none` for a NULL pointer.
use can_hub.Base.{
  ℕ, zero, suc, ◌-◌, ◌≤◌, ◌<◌, ◌≡◌, refl, ◌∙◌, List, [], ◌∷◌, Option, none, some, arith, ◌==◌,
  if◌then◌else◌, Text, false, length, take, drop, set, overlay, length-overlay, length-set,
  length-take,
}

-- `strnlen(s, n)`
strnlen : List ℕ → ℕ → ℕ
strnlen s zero = 0
strnlen [] (suc n) = 0
strnlen (c ∷ s) (suc n) = if c == 0 then 0 else suc (strnlen s n)

pub copy : List ℕ → ℕ → Option (List ℕ) → List ℕ
copy destination destination_size none =
    if destination_size == 0 then destination else set destination 0 0
copy destination destination_size (some source) =
    let n = strnlen source (destination_size - 1) in
    if destination_size == 0 then destination else set (overlay destination (take n source)) n 0

-- The string that a buffer holds: its bytes before the first NUL.
pub c_str : List ℕ → Text
c_str [] = []
c_str (c ∷ s) = if c == 0 then [] else c ∷ c_str s

strnlen-le : (s : List ℕ) (n : ℕ) → strnlen s n ≤ n
unfolding strnlen
strnlen-le s zero = omega arith
strnlen-le [] (suc n) = omega arith
strnlen-le (c ∷ s) (suc n) = ground (arith, strnlen-le s n)

copied :
    (d s : List ℕ) (n : ℕ)
    → n < length d
    → c_str (set (overlay d (take (strnlen s n) s)) (strnlen s n) 0) ≡ take n (c_str s)
unfolding c_str strnlen
copied [] s n h = absurd (omega arith)
copied (x ∷ d) s zero h = refl
copied (x ∷ d) [] (suc n) h = refl
copied (x ∷ d) (c ∷ s) (suc n) h = ground (arith, copied d s n)

kept :
    (d bs : List ℕ) (n m : ℕ) → length bs ≤ n → n < m → drop m (set (overlay d bs) n 0) ≡ drop m d
kept [] bs n (suc m) h k = refl
kept [] bs n zero h k = absurd (omega arith)
kept (x ∷ d) bs n zero h k = absurd (omega arith)
kept (x ∷ d) [] zero (suc m) h k = refl
kept (x ∷ d) [] (suc n) (suc m) h k = kept_plain d n m (omega arith)
  where
    kept_plain : (d : List ℕ) (n m : ℕ) → n < m → drop m (set d n 0) ≡ drop m d
    kept_plain [] n m k = refl
    kept_plain (x ∷ d) n zero k = absurd (omega arith)
    kept_plain (x ∷ d) zero (suc m) k = refl
    kept_plain (x ∷ d) (suc n) (suc m) k = kept_plain d n m (omega arith)
kept (x ∷ d) (b ∷ bs) zero (suc m) h k = absurd (omega arith)
kept (x ∷ d) (b ∷ bs) (suc n) (suc m) h k = kept d bs n m (omega arith) (omega arith)

-- The copy of a string into a buffer that has at least the size given, which is not 0, holds the
-- string cut to one byte less than the size; the buffer keeps its length, and what lies past the
-- size.
pub copy_lem :
    (destination source : List ℕ) (size : ℕ)
    → 0 < size
    → size ≤ length destination
    → (c_str (copy destination size (some source)) ≡ take (size - 1) (c_str source))
      × (length (copy destination size (some source)) ≡ length destination)
      × (drop size (copy destination size (some source)) ≡ drop size destination)
unfolding copy
copy_lem d s zero h k = absurd (omega arith)
copy_lem d s (suc n) h k =
    let e : suc n - 1 ≡ n = omega arith in
    let f : (suc n == 0) ≡ false = ground arith in
    rw (e, f)
      (
        copied d s n (omega arith),
        length-set (overlay d (take (strnlen s n) s)) (strnlen s n) 0
            ∙ length-overlay d (take (strnlen s n) s),
        kept d (take (strnlen s n) s) (strnlen s n) (suc n)
            (omega (arith, length-take (strnlen s n) s)) (omega (arith, strnlen-le s n)),
      )
