-- ===== src/Match/Tuples.antt =====
-- What the checks on tuples and dictionaries accept (include/qbind/k.h).
use qbind.Base.{ℕ, suc, String, List, ◌≡◌, ◌≢◌, ◌↔◌, refl, ap, none, Bool, true, false, arith, ◌&&◌}
use qbind.Base.Tests.{◌==◌, if◌then◌else◌}
use qbind.Base.Outcome.{
  Outcome, ok, throw, undefined, terminated, noexcept, ◌>>=◌, >>=-eq-ok, Message,
}
use qbind.TypeCode.{
  QType, code, Structure, atom_structure, vector_structure, nested_vector_structure,
}
use qbind.Object.{
  Object, Objects, null, atom, vector, list, dict, other_negative, other_positive, nil, cons, count,
  is_null, nth, pointer_at,
}
use qbind.Match.{InnerType, inner_is, inner_error, inner_type, inner_type_impl, is_simple}
use qbind.Match.Inner.{
  IsCode, inner_type-IsCode, inner_type-leaf_vector, code-IsCode, is_simple_iff,
  structure_index-injective,
}
use qbind.Match.Wrapper.{
  Wrapper, Wrappers, atom_of, vector_of, nested_of, tuple_of, dictionary_of, end, and_then, arity,
  Verdict, simple_verdict, match_simple, fail_if, tuple_impl, match_entry, match_part,
  dictionary_part, tuple_type_match, dictionary_type_match, is_of, combine, has_no_value,
}

-- The wrapper is no tuple and no dictionary.
abbrev pub IsSimple : Wrapper → Type 0
IsSimple (tuple_of ws) = ⊥
IsSimple (dictionary_of wk wv) = ⊥
IsSimple _ = Unit

abbrev pub AllSimple : Wrappers → Type 0
AllSimple end = Unit
AllSimple (and_then w ws) = IsSimple w × AllSimple ws

-- Each object is accepted by the wrapper at its place, and there are as many of both.
abbrev pub Each : Wrappers → Objects → Type 0
Each end nil = Unit
Each end (cons x xs) = ⊥
Each (and_then w ws) nil = ⊥
Each (and_then w ws) (cons x xs) = (is_of w x ≡ ok true) × Each ws xs

-- What the check sees of an object that is matched with a type: an atom, a vector, a nested vector
-- or a dictionary is checked itself, and of an object for a tuple only the pointer in its first
-- place.
unfoldable mutual
  pub FirstMatches : Wrapper → Object → Type 0
  FirstMatches (tuple_of ws) x = FirstOf ws x
  FirstMatches (dictionary_of wk wv) x = dictionary_type_match wk wv x ≡ ok none
  FirstMatches w x = is_of w x ≡ ok true

  pub FirstOf : Wrappers → Object → Type 0
  FirstOf end x = Unit {0}
  FirstOf (and_then w ws) x =
      (y : Object) × (pointer_at x 0 ≡ ok y) × (is_null y ≡ false) × FirstMatches w y

-- A mixed list with as many entries as types, whose first entry is seen to match.
abbrev pub Conforms : Wrappers → Object → Type 0
Conforms ws (list a ks) = (arity ws ≡ count ks) × FirstOf ws (list a ks)
Conforms ws _ = ⊥

match_simple-none_of :
    (depth idx : ℕ) (S : Structure) (Q : QType) (m : Outcome InnerType)
    → ((s : Structure) (t : ℕ) → m ≡ ok (inner_is s t) → IsCode t)
    → (m >>= λ res. ok (simple_verdict depth idx S Q res)) ≡ ok none
    → m ≡ ok (inner_is S (code Q))
match_simple-none_of depth idx S Q (ok (inner_is s t)) h e =
    let (positive, _, _) = h s t refl in ground (arith, structure_index-injective s S)
match_simple-none_of depth idx S Q (ok (inner_error m)) h e = cc
match_simple-none_of depth idx S Q (throw x) h e = cc
match_simple-none_of depth idx S Q undefined h e = cc
match_simple-none_of depth idx S Q terminated h e = cc

-- An entry for an atom, a vector or a nested vector matches exactly where `is` accepts it.
pub match_simple_iff :
    (depth idx : ℕ) (S : Structure) (Q : QType) (x : Object)
    → (match_simple depth idx S Q x ≡ ok none) ↔ (is_simple S Q x ≡ ok true)
unfolding match_simple
match_simple_iff depth idx S Q x = (
  λ h. (is_simple_iff S Q x).1 (match_simple-none_of depth idx S Q _ (inner_type-IsCode x) h),
  λ h. rw ((is_simple_iff S Q x).0 h) (ground arith),
)

unfailed :
    (failed : Bool) (m : Message) (rest : Outcome Verdict)
    → fail_if failed m rest ≡ ok none
    → (failed ≡ false) × (rest ≡ ok none)
unfailed true m rest h = cc
unfailed false m rest h = (refl, h)

pub is_of-null : (w : Wrapper) → IsSimple w → is_of w null ≢ ok true
unfolding is_of inner_type inner_type_impl
is_of-null (atom_of T) s h = cc
is_of-null (vector_of T) s h = cc
is_of-null (nested_of T) s h = cc
is_of-null (tuple_of ws) s h = absurd s
is_of-null (dictionary_of wk wv) s h = absurd s

mutual
  unfolding tuple_impl is_of dictionary_type_match FirstMatches

  match_entry_iff :
      (w : Wrapper) (depth idx : ℕ) (x : Object)
      → (match_entry w depth idx x ≡ ok none) ↔ FirstMatches w x
  match_entry_iff (atom_of T) depth idx x = match_simple_iff depth idx atom_structure T x
  match_entry_iff (vector_of T) depth idx x = match_simple_iff depth idx vector_structure T x
  match_entry_iff (nested_of T) depth idx x = match_simple_iff depth idx nested_vector_structure T x
  match_entry_iff (tuple_of ws) depth idx x = tuple_impl_iff ws (suc depth) x
  match_entry_iff (dictionary_of wk wv) depth idx x = (λ h. h, λ h. h)

  tuple_impl_iff :
      (ws : Wrappers) (depth : ℕ) (x : Object) → (tuple_impl depth 0 ws x ≡ ok none) ↔ FirstOf ws x
  tuple_impl_iff end depth x = (λ h. tt, λ h. refl)
  tuple_impl_iff (and_then w ws) depth x =
      let first = match_entry_iff w depth 0 in
      (
        λ h.
            let (y, e, h1) = >>=-eq-ok (pointer_at x 0) _ h in
            let (there, matched) = unfailed (is_null y) _ (match_entry w depth 0 y) h1 in
            (y, e, there, (first y).0 matched),
        λ (y, e, there, m). rw (e, there) ((first y).1 m),
      )

Each-count : (ws : Wrappers) (ks : Objects) → Each ws ks → arity ws ≡ count ks
Each-count end nil h = refl
Each-count end (cons x xs) h = absurd h
Each-count (and_then w ws) nil h = absurd h
Each-count (and_then w ws) (cons x xs) h = ap suc (Each-count ws xs h.1)

-- `tuple_type_match` finds no fault exactly in a mixed list that has one entry for each type and
-- whose FIRST entry matches the first type: an atom, a vector or a nested vector where `is` accepts
-- the entry, a dictionary where `dictionary_type_match` does, and a tuple where the pointer in the
-- first place of the entry is not null and matches in the same way the first of that tuple's types.
pub tuple_type_match_iff :
    (ws : Wrappers) (k : Object) → (tuple_type_match 0 0 ws k ≡ ok none) ↔ Conforms ws k
unfolding tuple_type_match
tuple_type_match_iff ws (list a ks) =
    let first = tuple_impl_iff ws 0 (list a ks) in
    (
      λ h. (ground arith, first.0 (ground arith)),
      λ (same, m). let matched = first.1 m in ground arith,
    )
tuple_type_match_iff ws null = (λ h. cc, λ h. absurd h)
tuple_type_match_iff ws (atom a T w g) = (λ h. ground arith, λ h. absurd h)
tuple_type_match_iff ws (vector a T n g) = (λ h. ground arith, λ h. absurd h)
tuple_type_match_iff ws (dict a x y) = (λ h. cc, λ h. absurd h)
tuple_type_match_iff ws (other_negative a k w) = (λ h. ground arith, λ h. absurd h)
tuple_type_match_iff ws (other_positive a k n) = (λ h. ground arith, λ h. absurd h)

FirstMatches-is_of :
    (w : Wrapper) (x : Object) → IsSimple w → is_of w x ≡ ok true → FirstMatches w x
unfolding FirstMatches
FirstMatches-is_of (atom_of T) x s h = h
FirstMatches-is_of (vector_of T) x s h = h
FirstMatches-is_of (nested_of T) x s h = h
FirstMatches-is_of (tuple_of ws) x s h = absurd s
FirstMatches-is_of (dictionary_of wk wv) x s h = absurd s

pub is_null-is_of :
    (w : Wrapper) (x : Object) → IsSimple w → is_of w x ≡ ok true → is_null x ≡ false
is_null-is_of w null s h = absurd (is_of-null w s h)
is_null-is_of w x s h = refl

-- Entries that the types accept conform.
pub Conforms-Each :
    (ws : Wrappers) (a : ℕ) (xs : Objects) → AllSimple ws → Each ws xs → Conforms ws (list a xs)
unfolding FirstMatches pointer_at nth
Conforms-Each end a nil s h = (refl, tt)
Conforms-Each end a (cons x xs) s h = absurd h
Conforms-Each (and_then w ws) a nil s h = absurd h
Conforms-Each (and_then w ws) a (cons x xs) s h = (
  Each-count (and_then w ws) (cons x xs) h,
  (x, refl, is_null-is_of w x s.0 h.0, FirstMatches-is_of w x s.0 h.0),
)

dictionary_part-vector :
    (k_or_v : String) (Q T : QType) (b n : ℕ) (g : List ℕ)
    → dictionary_part k_or_v (vector_of Q) (vector b T n g)
      ≡ (if code T == code Q then ok none else undefined)
unfolding tuple_impl match_part
dictionary_part-vector k_or_v Q T b n g =
    rw (inner_type-leaf_vector b T n g) (ground (arith, code-IsCode T))

abbrev ends_well : Bool → Outcome Verdict
ends_well p = if p then ok none else undefined

both_parts :
    (p q : Bool)
    → noexcept (
        (ends_well p >>= λ kres. ends_well q >>= λ vres. ok (combine kres vres)) >>= λ res.
        ok (has_no_value res))
      ≡ (if p && q then ok true else undefined)
both_parts true true = refl
both_parts true false = refl
both_parts false q = refl

-- `is` for a dictionary of vectors is true on a dictionary of vectors whose element types agree,
-- and undefined on any other dictionary of vectors.
is_of-dictionary_of_vectors :
    (K V T U : QType) (a b c n m : ℕ) (g g' : List ℕ)
    → is_of (dictionary_of (vector_of K) (vector_of V)) (dict a (vector b T n g) (vector c U m g'))
      ≡ (if (code T == code K) && (code U == code V) then ok true else undefined)
unfolding is_of
is_of-dictionary_of_vectors K V T U a b c n m g g' =
    rw (dictionary_part-vector "keys" K T b n g, dictionary_part-vector "values" V U c m g')
      (both_parts (code T == code K) (code U == code V))
