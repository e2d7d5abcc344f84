-- ===== src/Match/Wrapper.antt =====
-- The type checks of the class K on the wrappers that hold several types, include/qbind/k.h:
-- `tuple_type_match`, `dictionary_type_match`, and `is` and `is_with_info` on every wrapper.
use qbind.Base.{
  ℕ, suc, String, Option, none, some, Bool, true, false, ◌||◌, ◌&&◌, not, [], ◌∷◌, ◌++◌,
}
use qbind.Base.Tests.{◌==◌, if◌then◌else◌}
use qbind.Base.Int.{ℤ, pos, eq_ℤ}
use qbind.Base.Outcome.{
  Outcome, ok, throw, undefined, noexcept, ◌>>=◌, Message, text, str, num, runtime_error,
}
use qbind.TypeCode.{
  QType, code, type_name, Structure, structure_name, structure_index, atom_structure,
  vector_structure, nested_vector_structure,
}
use qbind.Object.{Object, is_null, t_of, n_of, pointer_at}
use qbind.Match.{InnerType, inner_type, inner_is, inner_error, is_simple, is_simple_with_info}

-- The wrapper types of C++: `Atom<T>`, `Vector<T>`, `NestedVector<T>`, `Tuple<Ts...>` and
-- `Dictionary<TKey, TValue>`.
mutual
  pub data Wrapper : Type 0 where
    atom_of vector_of nested_of : QType → Wrapper
    tuple_of : Wrappers → Wrapper
    dictionary_of : Wrapper → Wrapper → Wrapper

  pub data Wrappers : Type 0 where
    end : Wrappers
    and_then : Wrapper → Wrappers → Wrappers

-- `sizeof...(Types)`
abbrev pub arity : Wrappers → ℕ
arity end = 0
arity (and_then w ws) = suc (arity ws)

-- `std::optional<std::string>`: a match has no value.
abbrev pub Verdict : Type 0
Verdict = Option Message

abbrev pub place : ℕ → ℕ → Message
place depth idx = str " depth " ∷ num (pos depth) ∷ str " index " ∷ num (pos idx) ∷ []

-- What `tuple_type_match_impl` makes of the inner type of an entry for an atom, a vector or a
-- nested vector.
abbrev pub simple_verdict : (depth idx : ℕ) → Structure → QType → InnerType → Verdict
simple_verdict depth idx S Q (inner_error m) = some (
    str "Failed to get inner type for "
    ∷ str (structure_name S)
    ∷ str " "
    ∷ str (type_name (pos (code Q)))
    ∷ str " at"
    ∷ (place depth idx ++ (str ": " ∷ m)))
simple_verdict depth idx S Q (inner_is s t) =
    if ((structure_index s == structure_index S) && (t == code Q))
      || ((structure_index s == structure_index nested_vector_structure) && (t == 0))
    then none
    else some (
        str "Types did not match at"
        ∷ (place depth idx
            ++ (str ". Expected "
                ∷ str (structure_name S)
                ∷ str " "
                ∷ str (type_name (pos (code Q)))
                ∷ str " but found "
                ∷ str (structure_name s)
                ∷ str " "
                ∷ str (type_name (pos t))
                ∷ [])))

unfoldable pub match_simple : (depth idx : ℕ) → Structure → QType → Object → Outcome Verdict
match_simple depth idx S Q entry = do res ← inner_type entry; ok (simple_verdict depth idx S Q res)

abbrev bad_length : (depth idx arity : ℕ) → ℤ → Message
bad_length depth idx arity n =
    str "Bad length at Depth: "
    ∷ num (pos depth)
    ∷ str " Index: "
    ∷ num (pos idx)
    ∷ str ". Expected: "
    ∷ num (pos arity)
    ∷ str " Found: "
    ∷ num n
    ∷ []

abbrev at_place : String → (depth idx : ℕ) → Message
at_place s depth idx =
    str s ∷ str " at Depth: " ∷ num (pos depth) ∷ str " Index: " ∷ num (pos idx) ∷ []

-- `if (bad) return message;`
abbrev pub fail_if : Bool → Message → Outcome Verdict → Outcome Verdict
fail_if true m rest = ok (some m)
fail_if false m rest = rest

-- The guards of `tuple_type_match`, over the matcher of the entries.
unfoldable pub match_guarded :
    (depth idx arity : ℕ) → (Object → Outcome Verdict) → Object → Outcome Verdict
unfolding t_of n_of
match_guarded depth idx arity entries k = fail_if (is_null k) (text "Root is nullptr") (do
  t ← t_of k
  fail_if (not (eq_ℤ t (pos 0))) (at_place "Not tuple" depth idx) (do
    n ← n_of k
    fail_if (not (eq_ℤ n (pos arity))) (bad_length depth idx arity n) (entries k)))

-- What `dictionary_type_match_impl` makes of the inner type of keys or values that are no tuple.
-- Where the types differ the source builds a message and reaches the end of the function with no
-- `return`.
abbrev pub part_verdict : String → Structure → QType → InnerType → Outcome Verdict
part_verdict k_or_v S Q (inner_error m) =
    ok (some (str "Failed to check type of " ∷ str k_or_v ∷ str ": " ∷ m))
part_verdict k_or_v S Q (inner_is s t) =
    if structure_index s == structure_index atom_structure
    then ok (some (str "Cannot use an atom as " ∷ str k_or_v ∷ []))
    else if ((structure_index s == structure_index S) && (t == code Q))
        || ((structure_index s == structure_index nested_vector_structure) && (t == 0))
    then ok none
    else undefined

unfoldable pub match_part : String → Structure → QType → Object → Outcome Verdict
match_part k_or_v S Q k = do res ← inner_type k; part_verdict k_or_v S Q res

-- `ss << k_or_v << " do not match TKey: " << res.value()`
abbrev pub label : String → Outcome Verdict → Outcome Verdict
label k_or_v m = do
  v ← m
  elim v [ none ↦ ok none | some e ↦ ok (some (str k_or_v ∷ str " do not match TKey: " ∷ e)) ]

-- `kres.value() + " and " + vres.value()`, or the one that failed, or none.
abbrev pub combine : Verdict → Verdict → Verdict
combine (some a) (some b) = some (a ++ (str " and " ∷ b))
combine (some a) none = some a
combine none (some b) = some b
combine none none = none

-- `dictionary_type_match`, over the checks of keys and values.
unfoldable pub match_dictionary :
    (Object → Outcome Verdict) → (Object → Outcome Verdict) → Object → Outcome Verdict
unfolding t_of pointer_at
match_dictionary check_keys check_values k = fail_if (is_null k) (text "Root is nullptr") (do
  t ← t_of k
  fail_if (not (eq_ℤ t (pos 99))) (text "Not a dictionary") (do
    keys ← pointer_at k 0
    kres ← check_keys keys
    values ← pointer_at k 1
    vres ← check_values values
    ok (combine kres vres)))

unfoldable mutual
  -- `tuple_type_match_impl<Depth, Idx, Type, RemainingType...>`. Every kind of entry returns its
  -- verdict, so the lines behind, which go on to the remaining types, are never reached. With no
  -- type the source does not compile.
  pub tuple_impl : (depth idx : ℕ) → Wrappers → Object → Outcome Verdict
  tuple_impl depth idx end k = ok none
  tuple_impl depth idx (and_then w ws) k = do
    entry ← pointer_at k idx
    fail_if (is_null entry) (at_place "Found nullptr" depth idx) (match_entry w depth idx entry)

  pub match_entry : Wrapper → (depth idx : ℕ) → Object → Outcome Verdict
  match_entry (atom_of T) depth idx entry = match_simple depth idx atom_structure T entry
  match_entry (vector_of T) depth idx entry = match_simple depth idx vector_structure T entry
  match_entry (nested_of T) depth idx entry = match_simple depth idx nested_vector_structure T entry
  match_entry (tuple_of ws) depth idx entry = tuple_impl (suc depth) 0 ws entry
  match_entry (dictionary_of wk wv) depth idx entry =
      match_dictionary (dictionary_part "keys" wk) (dictionary_part "values" wv) entry

  -- `dictionary_type_match_impl`; for a dictionary the source does not compile.
  pub dictionary_part : String → Wrapper → Object → Outcome Verdict
  dictionary_part k_or_v (atom_of T) k = match_part k_or_v atom_structure T k
  dictionary_part k_or_v (vector_of T) k = match_part k_or_v vector_structure T k
  dictionary_part k_or_v (nested_of T) k = match_part k_or_v nested_vector_structure T k
  dictionary_part k_or_v (tuple_of ws) k =
      label k_or_v (match_guarded 0 0 (arity ws) (tuple_impl 0 0 ws) k)
  dictionary_part k_or_v (dictionary_of wk wv) k = ok none

-- `tuple_type_match`
unfoldable pub tuple_type_match : (depth idx : ℕ) → Wrappers → Object → Outcome Verdict
unfolding match_guarded
tuple_type_match depth idx ws k = match_guarded depth idx (arity ws) (tuple_impl depth idx ws) k

-- `dictionary_type_match`
unfoldable pub dictionary_type_match : Wrapper → Wrapper → Object → Outcome Verdict
unfolding match_dictionary
dictionary_type_match wk wv k =
    match_dictionary (dictionary_part "keys" wk) (dictionary_part "values" wv) k

abbrev pub has_no_value : Verdict → Bool
has_no_value none = true
has_no_value (some e) = false

abbrev pub throw_value : Verdict → Outcome (Unit {0})
throw_value none = ok tt
throw_value (some e) = throw (runtime_error e)

-- `K::is<T>`
unfoldable pub is_of : Wrapper → Object → Outcome Bool
unfolding is_simple tuple_type_match dictionary_type_match
is_of (atom_of T) k = is_simple atom_structure T k
is_of (vector_of T) k = is_simple vector_structure T k
is_of (nested_of T) k = is_simple nested_vector_structure T k
is_of (tuple_of ws) k = noexcept (do res ← tuple_type_match 0 0 ws k; ok (has_no_value res))
is_of (dictionary_of wk wv) k =
    noexcept (do res ← dictionary_type_match wk wv k; ok (has_no_value res))

-- `K::is_with_info<T>`; the overload for dictionaries is `noexcept`.
unfoldable pub is_with_info : Wrapper → Object → Outcome (Unit {0})
unfolding is_simple_with_info tuple_type_match dictionary_type_match
is_with_info (atom_of T) k = is_simple_with_info atom_structure T k
is_with_info (vector_of T) k = is_simple_with_info vector_structure T k
is_with_info (nested_of T) k = is_simple_with_info nested_vector_structure T k
is_with_info (tuple_of ws) k = do res ← tuple_type_match 0 0 ws k; throw_value res
is_with_info (dictionary_of wk wv) k =
    noexcept (do res ← dictionary_type_match wk wv k; throw_value res)
