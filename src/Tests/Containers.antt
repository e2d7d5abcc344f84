-- ===== src/Tests/Containers.antt =====
-- Vectors, nested vectors and dictionaries (include/qbind) at concrete objects.
use qbind.Base.{ℕ, false, reverse, ◌+◌, ◌≡◌, refl, true, [], ◌∷◌, ◌++◌, List}
use qbind.Base.Tests.{ltb}
use qbind.Base.Lists.{get_elem?}
use qbind.Base.Outcome.{ok}
use qbind.TypeCode.{underlier, byte, nested_vector_structure}
use qbind.Object.{Object, Objects, vector, list, nil, cons, nth, t_of}
use qbind.Match.{is_simple, inner_type, inner_type_impl}
use qbind.Append.{Joins, snoc}
use qbind.Vector
use qbind.Vector.{values, compare, front, back}
use qbind.Vector.Access.{or_undefined}
use qbind.Vector.Iteration.{forward, backward, forward-backward}
use qbind.NestedVector.{Reference, monostate, element, push_back}
use qbind.NestedVector
use qbind.NestedVector.Paths.{Leads, here, down, read, subscript-Leads}
use qbind.Ipc.{little}
use qbind.Dictionary.{
  Memory, value_equal, float_equal, is_nan, magnitude, count_values, same_ctype, subscript,
  contains,
}
use qbind.Dictionary.Lookup.{dictionary, pairs, lookup, is_some, subscript-lookup}

-- Three bytes, and the keys and values of the dictionaries.
abbrev three : Object
three = vector 64 byte 3 (10 ∷ 20 ∷ 30 ∷ [])

forward-backward_example :
    (forward three ≡ ok (values three))
    × (backward three ≡ ok (reverse (values three)))
    × ((i : ℕ) → Vector.subscript three i ≡ or_undefined (get_elem? (values three) i))
forward-backward_example = forward-backward 64 byte 3 (10 ∷ 20 ∷ 30 ∷ [])

-- A nested vector: a vector of one byte and a vector of three bytes.
abbrev entries : Objects
entries = cons (vector 96 byte 1 (7 ∷ [])) (cons three nil)

nested-accepted : is_simple nested_vector_structure byte (list 128 entries) ≡ ok true
unfolding is_simple inner_type inner_type_impl t_of
nested-accepted = refl

to_three : Leads (list 128 entries) (1 ∷ []) three
unfolding nth
to_three = down 128 entries 1 three refl (here three)

-- At [1, 2] the element 1 is read.
subscript-Leads_example :
    NestedVector.subscript byte (list 128 entries) (1 ∷ ([] ++ (2 ∷ []))) ≡ read three 3 1 2
subscript-Leads_example =
    subscript-Leads byte 128 entries 1 [] 2 64 3 (10 ∷ 20 ∷ 30 ∷ []) nested-accepted to_three

-- Appending in place.
abbrev joined : Object → Object → Object
joined (list a xs) y = list a (snoc xs y)
joined x y = x

abbrev concatenated : Object → Object → Object
concatenated (vector a T n g) (vector b U m g') = vector a T (n + m) (g ++ g')
concatenated x y = x

abbrev added : Object → List ℕ → Object
added (vector a T n g) v = vector a T (n + 1) (g ++ v)
added x v = x

abbrev address_of : Object → List ℕ → ℕ
address_of (vector a T n g) v = a
address_of x v = 0

abbrev address : Object → Object → ℕ
address (list a xs) y = a
address (vector a T n g) y = a
address x y = 0

abbrev pub in_place : Joins
in_place = record {
  ja = added;
  js = added;
  ss = λ v. v;
  jv = concatenated;
  jk = joined;
  jk_address = address;
  jk_entries = λ a xs y. refl;
  ja_address = address_of;
  ja_elements = λ a T n g v. refl;
  js_address = address_of;
  js_elements = λ a T n g v. refl;
  ss_length = λ v. refl;
  jv_address = address;
  jv_elements = λ a b T n m g g'. refl;
}

abbrev keys : List (List ℕ)
keys = (10 ∷ []) ∷ (20 ∷ []) ∷ (20 ∷ []) ∷ []

abbrev memory : Memory
memory = record { native = little; chars = λ pointer. [] }

byte_same : same_ctype byte byte ≡ true
unfolding underlier
byte_same = refl

-- The key 20, at the second place.
subscript-lookup_example :
    (subscript memory
        (dictionary byte byte 160 64 192 3 (10 ∷ 20 ∷ 30 ∷ []) (7 ∷ 8 ∷ 9 ∷ []))
        (20 ∷ [])
      ≡ or_undefined (
          lookup
            (value_equal memory (underlier byte))
            (pairs (dictionary byte byte 160 64 192 3 (10 ∷ 20 ∷ 30 ∷ []) (7 ∷ 8 ∷ 9 ∷ [])))
            (20 ∷ [])))
    × (contains memory
          (dictionary byte byte 160 64 192 3 (10 ∷ 20 ∷ 30 ∷ []) (7 ∷ 8 ∷ 9 ∷ []))
          (20 ∷ [])
        ≡ ok (
            is_some (
              lookup
                (value_equal memory (underlier byte))
                (pairs (dictionary byte byte 160 64 192 3 (10 ∷ 20 ∷ 30 ∷ []) (7 ∷ 8 ∷ 9 ∷ [])))
                (20 ∷ []))))
    × (ltb 0 (
          count_values
            (value_equal memory (underlier byte))
            (values (vector 64 byte 3 (10 ∷ 20 ∷ 30 ∷ [])))
            (20 ∷ []))
        ≡ is_some (
            lookup
              (value_equal memory (underlier byte))
              (pairs (dictionary byte byte 160 64 192 3 (10 ∷ 20 ∷ 30 ∷ []) (7 ∷ 8 ∷ 9 ∷ [])))
              (20 ∷ [])))
subscript-lookup_example =
    subscript-lookup memory byte byte 160 64 192 3 (10 ∷ 20 ∷ 30 ∷ []) (7 ∷ 8 ∷ 9 ∷ []) (20 ∷ [])
      byte_same

-- Neither a NaN nor its own bits are equal, and the two zeros are.
nan_unequal : float_equal 4 2143289344 2143289344 ≡ false
unfolding float_equal is_nan magnitude
nan_unequal = refl

zeros_equal : float_equal 4 0 2147483648 ≡ true
unfolding float_equal is_nan magnitude
zeros_equal = refl
