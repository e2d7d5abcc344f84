-- ===== src/NestedVector.antt =====
-- The class NestedVector of include/qbind/nested_vector.h, over the object that its `m_ptr` leads
-- to.
pub mod Paths
use qbind.Base.{ℕ, zero, suc, ◌+◌, ◌-◌, Bool, true, false, not, ◌||◌, List, [], ◌∷◌, String}
use qbind.Base.Tests.{ltb, leb, ◌==◌, ◌!=◌, if◌then◌else◌}
use qbind.Base.Int.{ℤ, pos, is_negative, ltb_ℤ}
use qbind.Base.Outcome.{
  Outcome, ok, throw, undefined, ◌>>=◌, ◌>>◌, Message, throw_if, text, str, num, runtime_error,
}
use qbind.TypeCode.{QType, atom_structure, vector_structure, nested_vector_structure}
use qbind.Object.{Object, Objects, nil, cons, is_null, t_of, n_of, nth, pointer_at, size}
use qbind.Match.{is_simple, is_simple_with_info}
use qbind.Append.{Joins, join_atom, tuple_append}

-- The alternatives of `reference`; `element k i` is the element `i` of the vector `k`.
pub data Reference : Type 0 where
  monostate : Reference
  element : Object → ℕ → Reference
  atom_at vector_at nested_at : Object → Reference

-- `NestedVector(K data)`
unfoldable pub from_k : QType → Object → Outcome Object
from_k T k = do
  throw_if (is_null k) (runtime_error (text "K is empty"))
  is_simple_with_info nested_vector_structure T k
  ok k

-- The fold of `NestedVector(Args&&... args)`, from the value `idx` on.
unfoldable pub check_values : (idx : ℕ) → Objects → Outcome (Unit {0})
check_values idx nil = ok tt
check_values idx (cons x xs) =
    let rest = check_values (suc idx) xs in
    throw_if (is_null x)
      (runtime_error (str "K behind value at index " ∷ num (pos idx) ∷ str " is empty." ∷ []))
    >> rest

-- `NestedVector(Args&&... args)`, where `knk` is the KX library's
unfoldable pub from_values : (knk : Objects → Object) → Objects → Outcome Object
unfolding check_values
from_values knk xs = do check_values 0 xs; ok (knk xs)

-- `return_or_throw<throws>`
unfoldable pub return_or_throw : (throws : Bool) → Message → Outcome Reference
return_or_throw true e = throw (runtime_error e)
return_or_throw false e = ok monostate

-- `if (bad) return return_or_throw<throws>(e);`
abbrev pub stop_if : Bool → (throws : Bool) → Message → Outcome Reference → Outcome Reference
stop_if true throws e rest = return_or_throw throws e
stop_if false throws e rest = rest

-- Behind the loop: the object that the path leads to, wrapped by a constructor that checks it.
unfoldable pub wrap : QType → (throws : Bool) → Object → Outcome Reference
unfolding t_of return_or_throw
wrap T throws k = stop_if (is_null k) throws (text "Found nullptr inside nested vector.") (do
  t ← t_of k
  if ltb_ℤ t (pos 0)
      then (is_simple_with_info atom_structure T k >> ok (atom_at k))
      else if ltb_ℤ (pos 0) t
      then (is_simple_with_info vector_structure T k >> ok (vector_at k))
      else (is_simple_with_info nested_vector_structure T k >> ok (nested_at k)))

abbrev is_empty : List ℕ → Bool
is_empty [] = true
is_empty (i ∷ is) = false

-- The loop of `get_idx`: `step` is `it - idxs.begin()`, the list is what is left from `it` on, and
-- `first` is `idxs.front()`, by which a flat vector is read, without a check of that index.
unfoldable pub descend :
    QType → (throws : Bool) → (first step : ℕ) → Object → List ℕ → Outcome Reference
unfolding t_of n_of pointer_at wrap return_or_throw
descend T throws first step k [] = wrap T throws k
descend T throws first step k (i ∷ is) =
    let next = pointer_at k i >>= λ k'. descend T throws first (suc step) k' is in
    stop_if (is_null k) throws (text "Found nullptr inside nested vector.") (do
      t ← t_of k
      n ← n_of k
      stop_if (ltb_ℤ t (pos 0)) throws
          (str "Attempted to index atom at index " ∷ num (pos step) ∷ [])
          (stop_if (not (ltb_ℤ (pos i) n)) throws
            (str "Index out of range at index " ∷ num (pos step) ∷ [])
            (if ltb_ℤ (pos 0) t
              then stop_if (not (is_empty is)) throws
                  (str "Not on last index. Attempted to index flat vector on index "
                    ∷ num (pos step)
                    ∷ [])
                  (is_simple_with_info vector_structure T k
                    >> (if ltb_ℤ (pos first) n then ok (element k first) else undefined))
              else next)))

-- `get_idx<throws>(idxs)`
unfoldable pub get_idx : QType → (throws : Bool) → Object → List ℕ → Outcome Reference
unfolding size return_or_throw pointer_at descend
get_idx T throws k [] = ok (nested_at k)
get_idx T throws k (i ∷ is) = do
  n ← size k
  stop_if (leb n i) throws (text "Index out of range on first index.") (do
    is_atom ← is_simple atom_structure T k
    stop_if is_atom throws (text "Attempted to index atom on first index.") (do
      is_vector ← is_simple vector_structure T k
      if is_vector
          then stop_if (not (is_empty is)) throws
              (text "Not on last index. Attempted to index flat vector on index 0")
              (is_simple_with_info vector_structure T k >> ok (element k i))
          else (do k' ← pointer_at k i; descend T throws i 1 k' is)))

-- `at(idxs)` and `operator[](idxs)`
unfoldable pub at : QType → Object → List ℕ → Outcome Reference
unfolding get_idx
at T k idxs = get_idx T true k idxs

unfoldable pub subscript : QType → Object → List ℕ → Outcome Reference
unfolding get_idx
subscript T k idxs = get_idx T false k idxs

-- `empty()`
unfoldable pub empty : Object → Outcome Bool
unfolding size
empty k = do n ← size k; ok (n != 0)

module _ (kx : Joins) (T : QType) where
  -- `push_back(value)`, with the bytes of the value
  unfoldable pub push_back_value : Object → List ℕ → Outcome Object
  unfolding join_atom
  push_back_value k value = do
    is_vector ← is_simple vector_structure T k
    throw_if (not is_vector)
        (runtime_error (text "Nested vector is not flat, cannot append underlier."))
    join_atom kx T k value

  -- `push_back` of an atom, a vector or a nested vector: the three overloads have one body.
  unfoldable pub push_back : Object → Object → Outcome Object
  push_back k value = do
    is_atom ← is_simple atom_structure T k
    is_vector ← is_simple vector_structure T k
    throw_if (is_atom || is_vector)
        (runtime_error (text "Nested vector is not tuple-based, cannot append atom."))
    tuple_append kx k value
