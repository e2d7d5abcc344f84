-- ===== src/Dictionary/Lookup.antt =====
-- What a lookup in a dictionary from vector to vector finds (include/qbind/dictionary.h).
use qbind.Base.{
  ℕ, zero, suc, ◌≡◌, refl, sym, ap, ◌∙◌, arith, Bool, true, false, List, [], ◌∷◌, Option, none,
  some,
}
use qbind.Base.Tests.{ltb, if◌then◌else◌}
use qbind.Base.Lists.{length, get_elem?}
use qbind.Base.Outcome.{Outcome, ok, ◌>>=◌}
use qbind.TypeCode.{QType, code, underlier, vector_structure}
use qbind.Object.{Object, vector, dict}
use qbind.Match.{inner_type, inner_is}
use qbind.Match.Wrapper.{vector_of}
use qbind.Match.Inner.{is_simple_iff, is_simple_with_info_iff, inner_type-leaf_vector}
use qbind.Vector
use qbind.Vector.{values, chunks}
use qbind.Dictionary.{
  Memory, value_equal, find_index, count_values, Dictionary, find, contains, subscript, same_ctype,
  key_reference, values_of,
}
use qbind.Vector.Iteration.{forward-backward, length-values}
use qbind.Vector.Access.{or_undefined, subscript-values}

find_index-count :
    (equal : List ℕ → List ℕ → Bool) (xs : List (List ℕ)) (v : List ℕ)
    → ltb (find_index equal xs v) (length xs) ≡ ltb 0 (count_values equal xs v)
unfolding find_index count_values
find_index-count equal [] v = refl
find_index-count equal (x ∷ xs) v = ground (arith, find_index-count equal xs v)

-- A dictionary as an association list, and the value of the first entry with a key.
abbrev zip : List (List ℕ) → List (List ℕ) → List (List ℕ × List ℕ)
zip [] ys = []
zip (x ∷ xs) [] = []
zip (x ∷ xs) (y ∷ ys) = (x, y) ∷ zip xs ys

unfoldable pub lookup :
    (equal : List ℕ → List ℕ → Bool) → List (List ℕ × List ℕ) → (key : List ℕ) → Option (List ℕ)
lookup equal [] key = none
lookup equal ((k, v) ∷ rest) key = if equal k key then some v else lookup equal rest key

abbrev pub is_some : Option (List ℕ) → Bool
is_some none = false
is_some (some v) = true

get_elem?-find_index :
    (equal : List ℕ → List ℕ → Bool) (xs ys : List (List ℕ)) (v : List ℕ)
    → length xs ≡ length ys
    → get_elem? ys (find_index equal xs v) ≡ lookup equal (zip xs ys) v
unfolding find_index lookup
get_elem?-find_index equal [] [] v e = refl
get_elem?-find_index equal [] (y ∷ ys) v e = absurd (omega arith)
get_elem?-find_index equal (x ∷ xs) [] v e = absurd (omega arith)
get_elem?-find_index equal (x ∷ xs) (y ∷ ys) v e =
    ground (arith, get_elem?-find_index equal xs ys v)

is_some-get_elem? : (xs : List (List ℕ)) (i : ℕ) → is_some (get_elem? xs i) ≡ ltb i (length xs)
is_some-get_elem? [] i = ground arith
is_some-get_elem? (x ∷ xs) zero = ground arith
is_some-get_elem? (x ∷ xs) (suc i) = is_some-get_elem? xs i ∙ ground arith

vector_from_k :
    (T U : QType) (a n : ℕ) (g : List ℕ)
    → code T ≡ code U
    → Vector.from_k T (vector a U n g) ≡ ok (vector a U n g)
unfolding Vector.from_k
vector_from_k T U a n g h =
    let same : inner_type (vector a U n g) ≡ ok (inner_is vector_structure (code T)) =
      rw h (inner_type-leaf_vector a U n g) in
    rw (
      (is_simple_with_info_iff vector_structure T _).1
        ((is_simple_iff vector_structure T _).1 same))

-- A dictionary object from `n` keys to `n` values, as a `Dictionary` of their types.
abbrev pub dictionary : (K V : QType) → (a b c n : ℕ) → (g g' : List ℕ) → Dictionary
dictionary K V a b c n g g' = record {
  key_type = vector_of K;
  value_type = vector_of V;
  m_ptr = dict a (vector b K n g) (vector c V n g');
  m_length = n;
}

abbrev parts : Object → List (List ℕ × List ℕ)
parts (dict a ks vs) = zip (values ks) (values vs)
parts k = []

unfoldable pub pairs : Dictionary → List (List ℕ × List ℕ)
pairs d = parts d.m_ptr

-- A reference to a value of the type of the keys is kept.
referenced :
    (K V : QType) (o : Option (List ℕ))
    → same_ctype K V ≡ true
    → (or_undefined o >>= key_reference (vector_of K) (vector_of V)) ≡ or_undefined o
unfolding key_reference
referenced K V none same = refl
referenced K V (some x) same = rw same refl

module _ (mem : Memory) (K V : QType) (a b c n : ℕ) (g g' : List ℕ) (key : List ℕ) where
  find_lem :
      find mem (dictionary K V a b c n g g') key
      ≡ ok (find_index (value_equal mem (underlier K)) (values (vector b K n g)) key)
  unfolding find
  find_lem = rw (vector_from_k K K b n g refl, (forward-backward b K n g).0) refl

  values_of_lem : values_of (dictionary K V a b c n g g') ≡ ok (vector c V n g')
  unfolding values_of
  values_of_lem = rw (vector_from_k V V c n g' refl) refl

  -- In a dictionary from vectors to vectors over the same C type, by the `==` of that type:
  -- `operator[]` is the lookup in the association list of keys and values, undefined where the key
  -- is missing, `contains` answers whether the lookup finds a value, and so does the count of the
  -- key being above 0.
  pub subscript-lookup :
      same_ctype K V ≡ true
      → (subscript mem (dictionary K V a b c n g g') key
          ≡ or_undefined
              (lookup (value_equal mem (underlier K)) (pairs (dictionary K V a b c n g g')) key))
        × (contains mem (dictionary K V a b c n g g') key
            ≡ ok (
                is_some (
                  lookup
                    (value_equal mem (underlier K))
                    (pairs (dictionary K V a b c n g g'))
                    key)))
        × (ltb 0 (count_values (value_equal mem (underlier K)) (values (vector b K n g)) key)
            ≡ is_some
                (lookup (value_equal mem (underlier K)) (pairs (dictionary K V a b c n g g')) key))
  unfolding subscript contains pairs
  subscript-lookup same =
      let d = dictionary K V a b c n g g' in
      let refer : List ℕ → Outcome (List ℕ) = key_reference (vector_of K) (vector_of V) in
      let equal = value_equal mem (underlier K) in
      let keys = values (vector b K n g) in
      let vs = values (vector c V n g') in
      let long : length keys ≡ n = length-values b K n g in
      let long' : length vs ≡ n = length-values c V n g' in
      let idx = find_index equal keys key in
      let result = get_elem?-find_index equal keys vs key (long ∙ sym long') in
      let counted : ltb idx n ≡ is_some (lookup equal (zip keys vs) key) =
        ap (ltb idx) (sym long') ∙ sym (is_some-get_elem? vs idx) ∙ ap is_some result in
      let read : (Vector.subscript (vector c V n g') idx >>= refer)
          ≡ or_undefined (lookup equal (zip keys vs) key) =
        ap (λ m. m >>= refer) (subscript-values c V n g' idx ∙ ap or_undefined result)
        ∙ referenced K V (lookup equal (zip keys vs) key) same in
      (
        ap (λ m. m >>= λ i. values_of d >>= λ u. Vector.subscript u i >>= refer) find_lem
            ∙ ap (λ m. m >>= λ u. Vector.subscript u idx >>= refer) values_of_lem
            ∙ read,
        ap (λ m. m >>= λ i. ok (ltb i n)) find_lem ∙ ap ok counted,
        sym (find_index-count equal keys key) ∙ ap (ltb idx) long ∙ counted,
      )
