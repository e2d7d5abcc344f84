-- ===== src/Vector/Made.antt =====
-- The objects of the class Vector (include/qbind/vector.h): what its constructors make and its
-- `push_back` leaves.
use mathlib.Core.Path.{subst}
use qbind.Base.{
  ℕ, ◌+◌, ◌-◌, ◌≡◌, sym, ap, ◌∙◌, arith, true, false, inl, inr, List, [], ◌∷◌, none, some,
}
use qbind.Base.Tests.{Bool-cases}
use qbind.Base.Int.{is_negative, sub_ℕ, ltb_ℤ, ℤ, pos, negsuc}
use qbind.Base.Lists.{length, take, drop}
use qbind.Base.Outcome.{ok-eq, ok, >>=-eq-ok, throw_if}
use qbind.TypeCode.{QType, char, underlier, size_of, vector_structure}
use qbind.Object.{Object, vector}
use qbind.Match.{is_simple}
use qbind.Append.{Joins}
use qbind.Vector.{
  Creation, from_k, of_length, of_chars, of_list, of_range, push_back_value, push_back, fill,
}
use qbind.Vector.Filled.{IsSized}
use qbind.Vector.Typed.{
  HasType, IsWhole, Creates, from_k-HasType, fill_vector-HasType, HasType-accepted, throw_if-false,
}
use qbind.Vector.Appended.{
  push_back_value-HasType, push_back-HasType, join_atom_lem, join_lists_lem,
}

-- By what the object of a vector was made. A value is pushed to any object, and any object to that
-- of a vector, since it is the appending member that checks them.
module _ (kx : Creation) (jk : Joins) {V : Type 0} (to_underlier : V → List ℕ) (T : QType) where
  pub data Made : Object → Type 0 where
    from_object : (k k' : Object) → IsWhole k → from_k T k ≡ ok k' → Made k'
    with_length : (n : ℤ) (k : Object) → of_length kx T n ≡ ok k → Made k
    with_list : (xs : List V) (k : Object) → of_list kx to_underlier T xs ≡ ok k → Made k
    with_range :
        (xs : List V) (first last : ℕ) (k : Object)
        → of_range kx to_underlier T xs first last ≡ ok k
        → Made k
    with_chars : (s : List ℕ) (k : Object) → T ≡ char → of_chars kx (some s) none ≡ ok k → Made k
    with_size :
        (s : List ℕ) (n : ℤ) (k : Object) → T ≡ char → of_chars kx (some s) (some n) ≡ ok k → Made k
    with_value :
        (k k' : Object) (x : V)
        → IsWhole k
        → push_back_value jk T k (to_underlier x) ≡ ok k'
        → Made k'
    with_vector : (k vec k' : Object) → Made k → IsWhole vec → push_back jk k vec ≡ ok k' → Made k'

module _ (kx : Creation) (jk : Joins) {V : Type 0} (to_underlier : V → List ℕ) (T : QType)
    (creates : Creates kx T)
    (sized : (x : V) → length (to_underlier x) ≡ size_of (underlier T)) where
  all-IsSized : (xs : List V) → IsSized to_underlier T xs
  all-IsSized [] = tt
  all-IsSized (x ∷ xs) = (sized x, all-IsSized xs)

  fill-HasType :
      (k r : Object) (xs : List V) → HasType T k → fill to_underlier k xs ≡ ok r → HasType T r
  fill-HasType k r xs made h =
      fill_vector-HasType to_underlier T made.addr made.count made.g0 xs r (all-IsSized xs)
        made.whole (ap (λ u. fill to_underlier u xs) (sym made.is) ∙ h)

  of_length-HasType : (n : ℤ) (k : Object) → of_length kx T n ≡ ok k → HasType T k
  unfolding of_length
  of_length-HasType (pos n) k h = subst (HasType T) (ok-eq h) (creates.ktn_made n)
  of_length-HasType (negsuc n) k h = absurd (ground arith)

  of_list-HasType : (xs : List V) (k : Object) → of_list kx to_underlier T xs ≡ ok k → HasType T k
  unfolding of_list
  of_list-HasType xs k h =
      fill-HasType (kx.ktn T (pos (length xs))) k xs (creates.ktn_made (length xs)) h

  of_range-HasType :
      (xs : List V) (first last : ℕ) (k : Object)
      → of_range kx to_underlier T xs first last ≡ ok k
      → HasType T k
  unfolding of_range
  of_range-HasType xs first last k h =
      let (_, guard, h1) = >>=-eq-ok (throw_if (is_negative (sub_ℕ last first)) _) _ h in
      let forward : is_negative (sub_ℕ last first) ≡ false = throw_if-false _ _ guard in
      let distance : sub_ℕ last first ≡ pos (last - first) = ground arith in
      let made : HasType T (kx.ktn T (sub_ℕ last first)) =
        subst (λ n. HasType T (kx.ktn T n)) (sym distance) (creates.ktn_made (last - first)) in
      fill-HasType (kx.ktn T (sub_ℕ last first)) k (take (last - first) (drop first xs)) made
        (ground (arith, h1))

  of_chars-HasType :
      (s : List ℕ) (n : ℤ) (k : Object)
      → T ≡ char
      → of_chars kx (some s) (some n) ≡ ok k
      → HasType T k
  unfolding of_chars
  of_chars-HasType s (pos n) k is_char h = elim (Bool-cases (ltb_ℤ (pos (length s + 1)) (pos n))) [
    | inl beyond ↦ absurd (ground arith)
    | inr within ↦
        subst (HasType T) (ok-eq (rw within at h)) (creates.kpn_made is_char s n (ground arith))
  ]
  of_chars-HasType s (negsuc n) k is_char h = absurd (ground arith)

  with_value-HasType :
      (k k' : Object) (x : V)
      → IsWhole k
      → push_back_value jk T k (to_underlier x) ≡ ok k'
      → HasType T k'
  with_value-HasType k k' x whole h =
      let made = join_atom_lem jk T k k' (to_underlier x) whole h in
      push_back_value-HasType jk T made.addr made.count made.g0 (to_underlier x) k' (sized x)
        made.whole (ap (λ u. push_back_value jk T u (to_underlier x)) (sym made.is) ∙ h)

  with_vector-HasType :
      (k vec k' : Object) → HasType T k → IsWhole vec → push_back jk k vec ≡ ok k' → HasType T k'
  with_vector-HasType k vec k' made whole h =
      let there = ap (λ u. push_back jk u vec) (sym made.is) ∙ h in
      let other = join_lists_lem jk T made.addr made.count made.g0 vec k' whole there in
      push_back-HasType jk T made.addr other.addr made.count other.count made.g0 other.g0 k'
        made.whole other.whole
        (ap (λ u. push_back jk (vector made.addr T made.count made.g0) u) (sym other.is) ∙ there)

  each-HasType : (k : Object) → Made kx jk to_underlier T k → HasType T k
  unfolding of_chars
  each-HasType _ (from_object k k' whole h) = from_k-HasType T k k' h whole
  each-HasType _ (with_length n k h) = of_length-HasType n k h
  each-HasType _ (with_list xs k h) = of_list-HasType xs k h
  each-HasType _ (with_range xs first last k h) = of_range-HasType xs first last k h
  each-HasType _ (with_chars s k is_char h) =
      subst (HasType T) (ok-eq h) (creates.kp_made is_char s)
  each-HasType _ (with_size s n k is_char h) = of_chars-HasType s n k is_char h
  each-HasType _ (with_value k k' x whole h) = with_value-HasType k k' x whole h
  each-HasType _ (with_vector k vec k' made whole h) =
      with_vector-HasType k vec k' (each-HasType k made) whole h

  -- Where the KX library makes vectors of the type that is asked for, of a length that is not
  -- negative, and appends to vectors, and every value has the size of an element: an object that
  -- any constructor of a vector of type T returned, from any object with a buffer of its size, or
  -- that a `push_back` of a value to any such object returned, or a `push_back` of any such object
  -- to a vector, is a vector of type T with a buffer of the size of its elements, and the check of
  -- the constructor accepts it.
  pub Made-HasType :
      (k : Object)
      → Made kx jk to_underlier T k
      → HasType T k × (is_simple vector_structure T k ≡ ok true)
  Made-HasType k made = (each-HasType k made, HasType-accepted T k (each-HasType k made))
