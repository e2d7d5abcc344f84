-- ===== src/Match.antt =====
-- The type checks of the class K, include/qbind/k.h: the inner type of an atom, a vector or a
-- nested vector, and `is` and `is_with_info` on the three.
pub mod Wrapper
pub mod Inner
pub mod Tuples
use qbind.Base.{ℕ, zero, suc, ◌+◌, Bool, true, false, ◌&&◌, ◌||◌, [], ◌∷◌, not}
use qbind.Base.Tests.{ltb, ◌==◌, ◌!=◌, if◌then◌else◌}
use qbind.Base.Int.{ℤ, pos, negsuc, abs, ltb_ℤ}
use qbind.Base.Outcome.{
  Outcome, ok, throw, undefined, terminated, noexcept, ◌>>=◌, ◌>>◌, Message, text, str, num,
  runtime_error, logic_error,
}
use qbind.TypeCode.{
  QType, code, type_name, Structure, structure_name, structure_index, atom_structure,
  vector_structure, nested_vector_structure,
}
use qbind.Object.{
  Object, Objects, null, atom, vector, list, dict, other_negative, other_positive, nil, cons, count,
  minus, signed64, t_of,
}

-- `std::variant<Type, std::string>`. A type is the value that was cast to `Type`.
pub data TypeOrError : Type 0 where
  type_is : ℕ → TypeOrError
  type_error : Message → TypeOrError

-- `std::variant<std::pair<Structure, Type>, std::string>`
pub data InnerType : Type 0 where
  inner_is : Structure → ℕ → InnerType
  inner_error : Message → InnerType

-- `if (t == Type(0) && t2 != Type(0)) t = t2;`
abbrev pub adopt : ℕ → ℕ → ℕ
adopt t t2 = if (t == 0) && (t2 != 0) then t2 else t

-- The branches for an object that is no mixed list.
abbrev pub leaf_type : ℤ → ℕ → TypeOrError
leaf_type kt t =
    if t == 0
    then type_is (abs kt)
    else if abs kt != t
    then type_error (text "Does not match expected type")
    else type_is t

-- What follows the recursive call in the loop: return a failure, or go on with the type adopted.
abbrev after_child : Outcome TypeOrError → ℕ → (ℕ → Outcome TypeOrError) → Outcome TypeOrError
after_child res t continue = do
  r ← res
  elim r [ type_error m ↦ ok (type_error m) | type_is t2 ↦ continue (adopt t t2) ]

-- `K::inner_type_impl`. The loop assigns the child to `k`, so from its second round on it tests
-- `i < k->n` and reads `G0[i]` of the last child: `loop k i t` is the loop at its head, and
-- `entry xs j i t` is the round `i` that reads the pointer `j` of `xs`.
unfoldable mutual
  pub inner_type_impl : Object → ℕ → Outcome TypeOrError
  inner_type_impl null t = throw (logic_error (text "Found nullptr when deducing inner type."))
  inner_type_impl (atom a T w g) t = ok (leaf_type (minus (code T)) t)
  inner_type_impl (vector a T n g) t = ok (leaf_type (pos (code T)) t)
  inner_type_impl (list a nil) t = ok (type_is t)
  inner_type_impl (list a (cons x xs)) t = entry (cons x xs) 0 0 t
  inner_type_impl (dict a x y) t = ok (leaf_type (pos 99) t)
  inner_type_impl (other_negative a k w) t = ok (leaf_type (negsuc (19 + k)) t)
  inner_type_impl (other_positive a k n) t = ok (leaf_type (pos (20 + k)) t)

  pub loop : Object → ℕ → ℕ → Outcome TypeOrError
  loop null i t = undefined
  loop (atom a T w g) i t = if ltb_ℤ (pos i) (signed64 w) then undefined else ok (type_is t)
  loop (vector a T n g) i t = if ltb i n then undefined else ok (type_is t)
  loop (list a ks) i t =
      let next = entry ks i i t in if ltb i (count ks) then next else ok (type_is t)
  loop (dict a x y) i t =
      let next = after_child (inner_type_impl y t) t (λ t'. loop y (suc i) t') in
      if i == 1 then next else ok (type_is t)
  loop (other_negative a k w) i t = if ltb_ℤ (pos i) (signed64 w) then undefined else ok (type_is t)
  loop (other_positive a k n) i t = if ltb i n then undefined else ok (type_is t)

  pub entry : Objects → ℕ → ℕ → ℕ → Outcome TypeOrError
  entry nil j i t = undefined
  entry (cons x xs) zero i t = after_child (inner_type_impl x t) t (λ t'. loop x (suc i) t')
  entry (cons x xs) (suc j) i t = entry xs j i t

-- `K::inner_type`
unfoldable pub inner_type : Object → Outcome InnerType
unfolding t_of
inner_type k = do
  res ← inner_type_impl k 0
  elim res [
    | type_error m ↦ ok (inner_error m)
    | type_is tv ↦
        if ltb tv 1 || ltb 19 tv || (tv == 3)
        then ok (
            inner_error (
              str "Invalid absolute type found. Not in range [1, 19] excluding 3. Found: "
              ∷ num (pos tv)
              ∷ []))
        else do
          kt ← t_of k
          ok (
              if ltb_ℤ kt (pos 0)
              then inner_is atom_structure tv
              else if ltb_ℤ (pos 0) kt
              then inner_is vector_structure tv
              else inner_is nested_vector_structure tv)
  ]

-- The test that `is` and `is_with_info` make of the pair that was found, for T = S<Q>.
abbrev pub accepts : Structure → QType → Structure → ℕ → Bool
accepts S Q s t =
    ((structure_index S == structure_index s) && (code Q == t))
    || ((structure_index S == structure_index nested_vector_structure) && (0 == t))

abbrev pub accepted : Structure → QType → InnerType → Bool
accepted S Q (inner_error m) = false
accepted S Q (inner_is s t) = accepts S Q s t

-- `K::is<S<Q>>` for an atom, a vector or a nested vector; it is `noexcept`.
unfoldable pub is_simple : Structure → QType → Object → Outcome Bool
is_simple S Q k = noexcept (do tc ← inner_type k; ok (accepted S Q tc))

-- `K::is_with_info<S<Q>>` for the same.
unfoldable pub is_simple_with_info : Structure → QType → Object → Outcome (Unit {0})
is_simple_with_info S Q k = do
  tc ← inner_type k
  elim tc [
    | inner_error m ↦ throw (runtime_error (str "Failed to deduce inner type: " ∷ m))
    | inner_is s t ↦
        if accepts S Q s t
        then ok tt
        else throw (
            runtime_error (
              str "Types did not match. Expected "
              ∷ str (structure_name S)
              ∷ str " "
              ∷ str (type_name (pos (code Q)))
              ∷ str " but found "
              ∷ str (structure_name s)
              ∷ str " "
              ∷ str (type_name (pos t))
              ∷ []))
  ]
