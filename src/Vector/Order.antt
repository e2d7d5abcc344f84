-- ===== src/Vector/Order.antt =====
-- The three-way comparison of vectors (include/qbind/vector.h).
use qbind.Base.{ℕ, ◌≡◌, ◌≢◌, refl, arith, true, false, List, [], ◌∷◌, ◌++◌, none, inl, inr}
use qbind.Base.Tests.{if◌then◌else◌, Bool-cases}
use qbind.Base.Int.{ℤ, pos, negsuc, neg, eq_ℤ, ltb_ℤ, eq_of_parts}
use qbind.Base.Lists.{length, length-append}
use qbind.Vector.{first_difference, or_sizes, compare}

first_difference-append :
    (xs ys zs : List ℤ) → first_difference (xs ++ ys) (xs ++ zs) ≡ first_difference ys zs
unfolding first_difference
first_difference-append [] ys zs = refl
first_difference-append (x ∷ xs) ys zs = ground (arith, first_difference-append xs ys zs)

-- Behind a common prefix the first elements that differ decide how two vectors compare: -1 where
-- the left one is less, 1 otherwise.
pub compare-differ :
    (xs ys zs : List ℤ) (x y : ℤ)
    → x ≢ y
    → compare (xs ++ (x ∷ ys)) (xs ++ (y ∷ zs)) ≡ (if ltb_ℤ x y then negsuc 0 else pos 1)
unfolding compare
compare-differ xs ys zs x y ne = rw first_difference-append (ground (arith, eq_of_parts x y))

first_difference-prefix : (xs ys : List ℤ) → first_difference xs (xs ++ ys) ≡ none
unfolding first_difference
first_difference-prefix [] ys = refl
first_difference-prefix (x ∷ xs) ys = ground (arith, first_difference-prefix xs ys)

-- A vector that is a prefix of another compares as that one's surplus of elements: not as the
-- lesser.
compare-prefix : (xs ys : List ℤ) → compare xs (xs ++ ys) ≡ pos (length ys)
unfolding compare
compare-prefix xs ys = rw first_difference-prefix (ground (arith, length-append xs ys))

first_difference-swap :
    (xs ys : List ℤ) (n m : ℕ)
    → or_sizes (first_difference ys xs) n m ≡ neg (or_sizes (first_difference xs ys) m n)
unfolding first_difference
first_difference-swap [] [] n m = ground arith
first_difference-swap [] (y ∷ ys) n m = ground arith
first_difference-swap (x ∷ xs) [] n m = ground arith
first_difference-swap (x ∷ xs) (y ∷ ys) n m = elim (Bool-cases (eq_ℤ x y)) [
  | inl same ↦
      let swapped : eq_ℤ y x ≡ true = ground arith in
      rw (same, swapped) (first_difference-swap xs ys n m)
  | inr differ ↦
      let swapped : eq_ℤ y x ≡ false = ground arith in rw (differ, swapped) (heads x y differ)
]
  where
    heads :
        (x y : ℤ)
        → eq_ℤ x y ≡ false
        → (if ltb_ℤ y x then negsuc 0 else pos 1) ≡ neg (if ltb_ℤ x y then negsuc 0 else pos 1)
    heads x y h = ground arith

-- Swapping the two vectors negates the result of the comparison.
compare-swap : (xs ys : List ℤ) → compare ys xs ≡ neg (compare xs ys)
unfolding compare
compare-swap xs ys = first_difference-swap xs ys (length ys) (length xs)
