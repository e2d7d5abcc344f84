-- ===== src/Vector/Access.antt =====
-- Reading the elements of a vector (include/qbind/vector.h).
use qbind.Base.{
  ℕ, zero, suc, ◌+◌, ◌-◌, ◌*◌, ◌^◌, ◌<◌, ◌≡◌, ◌↔◌, refl, sym, ap, ◌∙◌, arith, true, List, [], ◌∷◌,
  Option, none, some,
}
use native.Mathlib.Nat.{zero-add, suc-add, zero-mul}
use qbind.Base.Tests.{ltb, ◌==◌, if◌then◌else◌}
use qbind.Base.Int.{pos}
use qbind.Base.Lists.{take, drop, get_elem?}
use qbind.Base.Outcome.{Outcome, ok, throw, undefined, str, num, out_of_range}
use qbind.TypeCode.{QType}
use qbind.Object.{vector}
use qbind.Vector.{at, subscript, front, back, empty, chunks, values}

drop-nil : (m : ℕ) → ◌≡◌ {A = List ℕ} (drop m []) []
drop-nil zero = refl
drop-nil (suc m) = refl

drop-drop : (m n : ℕ) (xs : List ℕ) → drop m (drop n xs) ≡ drop (n + m) xs
drop-drop m zero xs = rw zero-add
drop-drop m (suc n) [] = rw suc-add (drop-nil m)
drop-drop m (suc n) (x ∷ xs) = rw suc-add (drop-drop m n xs)

abbrev pub or_undefined : Option (List ℕ) → Outcome (List ℕ)
or_undefined none = undefined
or_undefined (some x) = ok x

get_elem?-chunks :
    (bytes n i : ℕ) (g : List ℕ)
    → get_elem? (chunks bytes n g) i
      ≡ (if ltb i n then some (take bytes (drop (i * bytes) g)) else none)
unfolding chunks
get_elem?-chunks bytes zero i g = ground arith
get_elem?-chunks bytes (suc n) zero g = rw zero-mul (ground arith)
get_elem?-chunks bytes (suc n) (suc i) g =
    let same : drop (suc i * bytes) g ≡ drop (i * bytes) (drop bytes g) =
      ap (λ k. drop k g) (omega arith) ∙ sym (drop-drop (i * bytes) bytes g) in
    ground (arith, same, get_elem?-chunks bytes n i (drop bytes g))

module _ (a : ℕ) (T : QType) (n : ℕ) (g : List ℕ) where
  -- `operator[]` of a vector object is the value that stands at the position from `cbegin()` on,
  -- and is undefined exactly where there is none.
  pub subscript-values :
      (i : ℕ) → subscript (vector a T n g) i ≡ or_undefined (get_elem? (values (vector a T n g)) i)
  unfolding subscript values
  subscript-values i = rw get_elem?-chunks (ground arith)

  -- `at` of a vector object is `operator[]` in range, and throws `out_of_range` with the position
  -- and the length beyond it.
  pub at-subscript :
      (i : ℕ)
      → at (vector a T n g) i ≡ (
          if ltb i n
          then subscript (vector a T n g) i
          else throw (
              out_of_range (
                str "Attempted to access index "
                ∷ num (pos i)
                ∷ str " but length is "
                ∷ num (pos n)
                ∷ [])))
  unfolding at subscript
  at-subscript i = ground arith

  pub back-subscript :
      n < 2 ^ 64
      → front (vector a T n g) ≡ subscript (vector a T n g) 0
        × (back (vector a T n g)
            ≡ (if n == 0 then undefined else subscript (vector a T n g) (n - 1)))
  unfolding front back subscript
  back-subscript small = (refl, ground arith)

  -- `empty` answers true exactly on a vector that has elements.
  pub empty-not : (empty (vector a T n g) ≡ ok true) ↔ (0 < n)
  unfolding empty
  empty-not = (λ h. ground arith, λ h. ground arith)
