-- ===== src/Export/Check.antt =====
-- The check of the parameter types of an exported function (include/qbind/function.h), which the
-- compiler makes: NonConstLvalueRefArgChecker.
use qbind.Base.{
  ℕ, zero, suc, ◌<◌, ◌≡◌, ◌↔◌, refl, arith, Bool, true, false, ◌&&◌, ◌||◌, not, inl, inr,
}
use mathlib.Core.Path.{subst}
use qbind.Base.Tests.{Bool-cases, ◌==◌}

-- What `std::is_lvalue_reference_v` and `std::is_const_v` of the type referred to say of a type.
pub record ParameterType : Type 0 where
  pub is_lvalue_reference : Bool
  pub is_const : Bool

-- `IsNonConstLvalueRef<T>()`: whether its assertion holds.
unfoldable pub is_non_const_lvalue_ref : ParameterType → Bool
is_non_const_lvalue_ref T = not T.is_lvalue_reference || T.is_const

-- `NonConstLvalueRefArgChecker<Func>()`, for the arity and the argument types of a function: whether
-- it compiles.
unfoldable pub arg_checker : (arity : ℕ) → (arg_type : ℕ → ParameterType) → Bool
unfolding is_non_const_lvalue_ref
arg_checker zero arg_type = true
arg_checker (suc n) arg_type = arg_checker n arg_type && is_non_const_lvalue_ref (arg_type n)

-- The parameter is no lvalue reference, or one to a constant.
abbrev pub IsAllowed : ParameterType → Type 0
IsAllowed T = T.is_lvalue_reference ≡ true → T.is_const ≡ true

or_not_iff : (a b : Bool) → (not a || b ≡ true) ↔ (a ≡ true → b ≡ true)
or_not_iff true b = (λ h e. h, λ h. h refl)
or_not_iff false b = (λ h e. cc, λ h. refl)

and_iff : (a b : Bool) → (a && b ≡ true) ↔ ((a ≡ true) × (b ≡ true))
and_iff true b = (λ h. (refl, h), λ h. h.1)
and_iff false b = (λ h. cc, λ h. cc)

-- The check passes exactly where every parameter that is an lvalue reference refers to a constant.
pub arg_checker_iff :
    (arity : ℕ) (arg_type : ℕ → ParameterType)
    → (arg_checker arity arg_type ≡ true) ↔ ((i : ℕ) → i < arity → IsAllowed (arg_type i))
unfolding arg_checker is_non_const_lvalue_ref
arg_checker_iff zero arg_type = (λ h i l. absurd (omega (arith, l)), λ h. refl)
arg_checker_iff (suc n) arg_type =
    let (passed, back) = arg_checker_iff n arg_type in
    let last = or_not_iff (arg_type n).is_lvalue_reference (arg_type n).is_const in
    let both = and_iff (arg_checker n arg_type) (is_non_const_lvalue_ref (arg_type n)) in
    (
      λ h i l. elim (Bool-cases (i == n)) [
        | inl same ↦ subst (λ j. IsAllowed (arg_type j)) (ground arith) (last.0 (both.0 h).1)
        | inr other ↦ passed (both.0 h).0 i (ground arith)
      ],
      λ h. both.1 (back (λ i l. h i (omega (arith, l))), last.1 (h n (omega arith))),
    )
