-- ===== src/Export/Macros.antt =====
-- The macros of include/qbind/function.h that write the signature and the call of an exported
-- function, as the tokens that they expand to. The macros of Boost are a parameter. The delay of a
-- comma by QBIND_ID and QBIND_COMMA is not modelled: it expands to the comma.
use mathlib.Core.List.{append_assoc}
use qbind.Base.{ℕ, zero, suc, ◌≤◌, ◌≡◌, refl, sym, ap, ◌∙◌, arith, String, List, [], ◌∷◌, ◌++◌}
use qbind.Base.Tests.{◌==◌, if◌then◌else◌}

-- `karr n` is the name karr followed by the number.
pub data Token : Type 0 where
  word : String → Token
  karr number : ℕ → Token
  comma opening closing semicolon : Token

abbrev pub Tokens : Type 0
Tokens = List Token

-- `BOOST_PP_IF`, `BOOST_PP_SUB` and `BOOST_PP_REPEAT`, on numbers up to the limit of Boost.
pub record Preprocessor : Type 0 where
  pub limit : ℕ
  pub if_not_zero : ℕ → Tokens → Tokens → Tokens
  pub sub : ℕ → ℕ → ℕ
  pub repeat : ℕ → (ℕ → Tokens) → Tokens
  pub if_not_zero_zero : (t e : Tokens) → if_not_zero 0 t e ≡ e
  pub if_not_zero_suc : (n : ℕ) (t e : Tokens) → suc n ≤ limit → if_not_zero (suc n) t e ≡ t
  pub sub_suc : (n : ℕ) → suc n ≤ limit → sub (suc n) 1 ≡ n
  pub repeat_zero : (fold : ℕ → Tokens) → repeat 0 fold ≡ []
  pub repeat_suc :
      (n : ℕ) (fold : ℕ → Tokens) → suc n ≤ limit → repeat (suc n) fold ≡ repeat n fold ++ fold n

-- `QBIND_PARAMETER(n)`
unfoldable pub parameter : ℕ → Tokens
parameter n = word "K" ∷ karr n ∷ []

-- `QBIND_PARAMETER_FOLD(z, n, str)`
unfoldable pub parameter_fold : ℕ → Tokens
unfolding parameter
parameter_fold n = parameter n ++ (comma ∷ [])

-- `QBIND_ARGUMENT(fn, n)`
unfoldable pub argument : String → ℕ → Tokens
argument fn n =
    word "qbind::Converter::to_cpp<qbind::ArgType<decltype"
    ∷ opening
    ∷ word fn
    ∷ closing
    ∷ comma
    ∷ number n
    ∷ word ">>"
    ∷ opening
    ∷ karr n
    ∷ closing
    ∷ []

-- `QBIND_ARGUMENT_FOLD(z, n, fn)`
unfoldable pub argument_fold : String → ℕ → Tokens
unfolding argument
argument_fold fn n = argument fn n ++ (comma ∷ [])

abbrev pub in_parentheses : Tokens → Tokens
in_parentheses ts = opening ∷ ts ++ (closing ∷ [])

-- What stands before the call where its result is converted.
abbrev pub conversion : String → Tokens
conversion fn =
    word "return"
    ∷ word "qbind::Converter::to_q<qbind::ResultType<decltype"
    ∷ opening
    ∷ word fn
    ∷ closing
    ∷ word ">>"
    ∷ []

module _ (pp : Preprocessor) where
  -- `QBIND_PARAMETERS(n)`
  unfoldable pub parameters : ℕ → Tokens
  unfolding parameter_fold
  parameters n =
      pp.if_not_zero n
        (pp.if_not_zero (pp.sub n 1)
          (in_parentheses (pp.repeat (pp.sub n 1) parameter_fold ++ parameter (pp.sub n 1)))
          (in_parentheses (parameter 0)))
        (in_parentheses [])

  -- `QBIND_FN_SIGNATURE(name, nargs)`
  unfoldable pub fn_signature : String → ℕ → Tokens
  unfolding parameters
  fn_signature name nargs = word "K" ∷ word name ∷ parameters nargs

  -- `QBIND_ARGUMENTS(fn, n)`
  unfoldable pub qbind_arguments : String → ℕ → Tokens
  unfolding argument_fold
  qbind_arguments fn n =
      pp.if_not_zero n
        (pp.if_not_zero (pp.sub n 1)
          (in_parentheses (pp.repeat (pp.sub n 1) (argument_fold fn) ++ argument fn (pp.sub n 1)))
          (in_parentheses (argument fn 0)))
        (in_parentheses [])

  -- `QBIND_RETURN_CONVERSION(returns, fn)`
  unfoldable pub return_conversion : (returns : ℕ) → String → Tokens
  return_conversion returns fn = pp.if_not_zero returns (conversion fn) []

  -- `QBIND_CALL_SIGNATURE(returns, name, nargs)`
  unfoldable pub call_signature : (returns : ℕ) → String → ℕ → Tokens
  unfolding return_conversion qbind_arguments
  call_signature returns name nargs =
      return_conversion returns name
      ++ in_parentheses (word name ∷ qbind_arguments name nargs)
      ++ (semicolon ∷ [])

-- `each 0` to `each (n - 1)` with commas between them.
unfoldable pub separated : (each : ℕ → Tokens) → ℕ → Tokens
separated each zero = []
separated each (suc zero) = each 0
separated each (suc (suc n)) = separated each (suc n) ++ (comma ∷ each (suc n))

module _ (pp : Preprocessor) (each fold : ℕ → Tokens)
    (folded : (i : ℕ) → fold i ≡ each i ++ (comma ∷ [])) where
  repeat-separated :
      (n : ℕ) → suc n ≤ pp.limit → pp.repeat n fold ++ each n ≡ separated each (suc n)
  unfolding separated
  repeat-separated zero h = rw (pp.repeat_zero fold) refl
  repeat-separated (suc n) h =
      let before = pp.repeat n fold in
      rw (pp.repeat_suc n fold (omega (arith, h)), folded n)
        (append_assoc before (each n ++ (comma ∷ [])) (each (suc n))
          ∙ ap (λ ts. before ++ ts) (append_assoc (each n) (comma ∷ []) (each (suc n)))
          ∙ sym (append_assoc before (each n) (comma ∷ each (suc n)))
          ∙ ap (λ ts. ts ++ (comma ∷ each (suc n))) (repeat-separated n (omega (arith, h))))

  if_not_zero-separated :
      (n : ℕ)
      → n ≤ pp.limit
      → pp.if_not_zero n
          (pp.if_not_zero
            (pp.sub n 1)
            (in_parentheses (pp.repeat (pp.sub n 1) fold ++ each (pp.sub n 1)))
            (in_parentheses (each 0)))
          (in_parentheses [])
        ≡ in_parentheses (separated each n)
  unfolding separated
  if_not_zero-separated zero h = pp.if_not_zero_zero _ _
  if_not_zero-separated (suc zero) h =
      rw (pp.sub_suc 0 h) (pp.if_not_zero_suc 0 _ _ h ∙ pp.if_not_zero_zero _ _)
  if_not_zero-separated (suc (suc n)) h = rw (pp.sub_suc (suc n) h) (
      pp.if_not_zero_suc (suc n) _ _ h
      ∙ pp.if_not_zero_suc n _ _ (omega (arith, h))
      ∙ ap in_parentheses (repeat-separated (suc n) h))

module _ (pp : Preprocessor) where
  return_conversion_lem :
      (returns : ℕ) (fn : String)
      → returns ≤ pp.limit
      → return_conversion pp returns fn ≡ (if returns == 0 then [] else conversion fn)
  unfolding return_conversion
  return_conversion_lem zero fn h = pp.if_not_zero_zero _ _
  return_conversion_lem (suc n) fn h = pp.if_not_zero_suc n _ _ h ∙ ground arith

  -- Up to the limit of Boost, and with the macros of Boost as they are documented: for `n`
  -- parameters QBIND_FN_SIGNATURE expands to the name with `K karr0` to `K karr(n-1)`, separated by
  -- commas, and QBIND_CALL_SIGNATURE to the call of the function with the conversion of each of
  -- these parameters in the same order, behind the conversion of its result exactly where `returns`
  -- is not 0.
  pub fn_signature-call_signature :
      (name fn : String) (nargs returns : ℕ)
      → nargs ≤ pp.limit
      → returns ≤ pp.limit
      → (fn_signature pp name nargs
          ≡ word "K" ∷ word name ∷ in_parentheses (separated parameter nargs))
        × (call_signature pp returns fn nargs
            ≡ (if returns == 0 then [] else conversion fn)
              ++ in_parentheses (word fn ∷ in_parentheses (separated (argument fn) nargs))
              ++ (semicolon ∷ []))
  unfolding fn_signature parameters parameter_fold call_signature qbind_arguments argument_fold
  fn_signature-call_signature name fn nargs returns h h' =
      let call : Tokens → Tokens → Tokens =
        λ before args. before ++ in_parentheses (word fn ∷ args) ++ (semicolon ∷ []) in
      (
        ap (λ ts. word "K" ∷ word name ∷ ts)
            (if_not_zero-separated pp parameter parameter_fold (λ i. refl) nargs h),
        ap (λ before. call before (qbind_arguments pp fn nargs))
              (return_conversion_lem returns fn h')
            ∙ ap (call (if returns == 0 then [] else conversion fn))
                (if_not_zero-separated pp (argument fn) (argument_fold fn) (λ i. refl) nargs h),
      )
