-- ===== src/Vector/Filled.antt =====
-- The constructors of include/qbind/vector.h that copy values into a new vector.
use qbind.Base.{
  ℕ, zero, suc, ◌+◌, ◌-◌, ◌*◌, ◌≤◌, ◌<◌, ◌≡◌, refl, ap, sym, ◌∙◌, arith, List, [], ◌∷◌, ◌++◌, map,
  ◌⊎◌, inl, inr,
}
use qbind.Base.Tests.{ltb, Bool-cases}
use qbind.Base.Int.{sub_ℕ}
use qbind.Base.Lists.{length, take, drop, All, take-append, drop-append}
use qbind.Base.Outcome.{ok, throw, text, runtime_error}
use qbind.TypeCode.{QType, underlier, size_of}
use qbind.Object.{Object, vector}
use qbind.Vector.{Creation, chunks, values, transform, fill, of_range}

pub length-take-drop :
    {V : Type 0} (n first : ℕ) (xs : List V)
    → first + n ≤ length xs
    → length (take n (drop first xs)) ≡ n
length-take-drop zero first xs h = refl
length-take-drop (suc n) zero [] h = absurd (omega arith)
length-take-drop (suc n) zero (x ∷ xs) h = omega (arith, length-take-drop n zero xs (omega arith))
length-take-drop (suc n) (suc first) [] h = absurd (omega arith)
length-take-drop (suc n) (suc first) (x ∷ xs) h = length-take-drop (suc n) first xs (omega arith)

module _ {V : Type 0} (to_underlier : V → List ℕ) (T : QType) where
  -- Every value becomes as many bytes as an element has.
  abbrev pub IsSized : List V → Type 0
  IsSized xs = All (λ x. length (to_underlier x) ≡ size_of (underlier T)) xs

  chunks-transform :
      (xs : List V) (rest : List ℕ)
      → IsSized xs
      → chunks (size_of (underlier T)) (length xs) (transform to_underlier xs rest)
        ≡ map to_underlier xs
  unfolding chunks transform
  chunks-transform [] rest h = refl
  chunks-transform (x ∷ xs) rest h =
      let bytes = size_of (underlier T) in
      let later = transform to_underlier xs rest in
      let first : take bytes (to_underlier x ++ later) ≡ to_underlier x =
        ap (λ k. take k (to_underlier x ++ later)) (sym h.0) ∙ take-append (to_underlier x) later in
      let behind : drop bytes (to_underlier x ++ later) ≡ later =
        ap (λ k. drop k (to_underlier x ++ later)) (sym h.0) ∙ drop-append (to_underlier x) later in
      rw (first, behind) (ap (◌∷◌ (to_underlier x)) (chunks-transform xs rest h.1))

  -- A vector of as many elements is filled with exactly the values.
  fill-values :
      (a n : ℕ) (g : List ℕ) (xs : List V)
      → length xs ≡ n
      → IsSized xs
      → (r : Object) × (fill to_underlier (vector a T n g) xs ≡ ok r)
        × (values r ≡ map to_underlier xs)
  unfolding fill values
  fill-values a n g xs same sized =
      let rest = drop (length xs * size_of (underlier T)) g in
      (
        vector a T n (transform to_underlier xs rest),
        ground (arith),
        ap (λ k. chunks (size_of (underlier T)) k (transform to_underlier xs rest)) (sym same)
            ∙ chunks-transform xs rest sized,
      )

  -- The constructor from two iterators throws exactly where the second is before the first, and
  -- otherwise makes a vector of the values between them, in order.
  pub of_range-values :
      (kx : Creation) (a : ℕ) (g : List ℕ) (sequence : List V) (first last : ℕ)
      → kx.ktn T (sub_ℕ last first) ≡ vector a T (last - first) g
      → last ≤ length sequence
      → IsSized (take (last - first) (drop first sequence))
      → ((last < first)
          × (of_range kx to_underlier T sequence first last
              ≡ throw (runtime_error (text "Length must be non-negative"))))
        ⊎ ((first ≤ last)
            × ((r : Object) × (of_range kx to_underlier T sequence first last ≡ ok r)
                × (values r ≡ map to_underlier (take (last - first) (drop first sequence)))))
  unfolding of_range
  of_range-values kx a g sequence first last made inside sized =
      let range = take (last - first) (drop first sequence) in
      elim (Bool-cases (ltb last first)) [
        | inl before ↦ inl (ground arith, ground arith)
        | inr ordered ↦
            let (r, filled, same) =
              fill-values a (last - first) g range
                (length-take-drop (last - first) first sequence (ground arith)) sized in
            inr (ground arith, (r, rw made (ground (arith, filled)), same))
      ]
