-- ===== src/Tuple/Index.antt =====
-- The class `internal::index_of` of include/qbind/utils.h, which the compiler evaluates, and the
-- member `get` by type of include/qbind/tuple.h.
use qbind.Base.{
  ℕ, zero, suc, ◌+◌, ◌≡◌, refl, ap, ◌∙◌, Bool, true, false, ◌&&◌, not, List, [], ◌∷◌, Option, none,
  some, inl, inr,
}
use qbind.Base.Tests.{if◌then◌else◌, Bool-cases}
use qbind.Base.Outcome.{Outcome}
use qbind.Object.{Object}
use qbind.Match.Wrapper.{Wrapper}
use qbind.Tuple.{get}

abbrev is_empty : List Wrapper → Bool
is_empty [] = true
is_empty (x ∷ xs) = false

-- `std::is_same_v` of two types, which is true on the same type.
pub record Same : Type 0 where
  pub is_same : Wrapper → Wrapper → Bool
  pub is_same_refl : (w : Wrapper) → is_same w w ≡ true

module _ (ty : Same) where
  -- `type_to_idx(idx)` in the class `index_of<T, U, Us...>`: its own parameters are not used. The
  -- compiler follows so many calls; `none` is a program that does not compile.
  unfoldable pub type_to_idx : (calls : ℕ) (T U : Wrapper) (idx : ℕ) → Option ℕ
  type_to_idx zero T U idx = none
  type_to_idx (suc calls) T U idx =
      let rest = type_to_idx calls T U (idx + 1) in if ty.is_same T U then some idx else rest

  -- `index_of<T, U, Us...>::value`: the assertion is checked whether T is U or not.
  unfoldable pub index_of : (calls : ℕ) (T U : Wrapper) → (Us : List Wrapper) → Option ℕ
  unfolding type_to_idx
  index_of calls T U Us = if is_empty Us then none else type_to_idx calls T U 0

  -- `get<T>()`
  unfoldable pub get_by_type :
      (calls : ℕ) (T U : Wrapper) → (Us : List Wrapper) → Object → Option (Outcome Object)
  unfolding index_of
  get_by_type calls T U Us k = elim (index_of calls T U Us) [
    | none ↦ none
    | some i ↦ some (get T i k)
  ]

  type_to_idx-is_same :
      (calls : ℕ) (T U : Wrapper) (idx : ℕ)
      → ty.is_same T U ≡ false
      → type_to_idx calls T U idx ≡ none
  unfolding type_to_idx
  type_to_idx-is_same zero T U idx h = refl
  type_to_idx-is_same (suc calls) T U idx h = rw h (type_to_idx-is_same calls T U (idx + 1) h)

  -- The lookup compiles exactly for the first type of two or more, whatever types follow and
  -- however many calls the compiler follows.
  pub index_of_lem :
      (calls : ℕ) (T U : Wrapper) (Us : List Wrapper)
      → index_of (suc calls) T U Us ≡ (if not (is_empty Us) && ty.is_same T U then some 0 else none)
  unfolding index_of type_to_idx
  index_of_lem calls T U [] = refl
  index_of_lem calls T U (V ∷ Us) = elim (Bool-cases (ty.is_same T U)) [
    | inl h ↦ rw h refl
    | inr h ↦ rw (h, type_to_idx-is_same calls T U 1 h) refl
  ]

  -- A tuple of the types `U`, `T` and `Us` has no `get` for `T`, if that is not the type `U`.
  pub get_by_type_lem :
      (calls : ℕ) (T U : Wrapper) (Us : List Wrapper) (k : Object)
      → ty.is_same T U ≡ false
      → get_by_type (suc calls) T U (T ∷ Us) k ≡ none
  unfolding get_by_type
  get_by_type_lem calls T U Us k h =
      let missing : index_of (suc calls) T U (T ∷ Us) ≡ none =
        index_of_lem calls T U (T ∷ Us) ∙ ap (λ b. if b then some 0 else none) h in
      ap (λ o. elim o [ none ↦ none | some i ↦ some (get T i k) ]) missing
