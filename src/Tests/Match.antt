-- ===== src/Tests/Match.antt =====
-- The type checks of include/qbind/k.h at concrete objects.
use qbind.Base.{◌≡◌, ◌↔◌, refl, true, none, ℕ}
use qbind.Base.Tests.{ltb, if◌then◌else◌}
use qbind.Base.Lists.{replicate}
use qbind.Base.Outcome.{ok, undefined}
use qbind.TypeCode.{long, float, vector_structure, nested_vector_structure, code}
use qbind.Tuple.{from_k, from_elements, get, followed_by, cat_all}
use qbind.Tuple.Cat.{joined, cat_all-joined}
use qbind.Tests.Containers.{in_place}
use qbind.Tuple.Elements.{PlaceOf, first, behind, get-from_elements}
use qbind.Object.{Objects, Object, atom, vector, list, nil, cons, t_of, n_of, pointer_at}
use qbind.Match.{inner_type, inner_is, inner_type_impl, is_simple}
use qbind.Match.Inner.{inner_type-vector_first, is_simple_iff}
use qbind.Match.Wrapper.{
  Wrapper, match_guarded, Wrappers, atom_of, vector_of, end, and_then, tuple_type_match, is_of,
  tuple_impl, match_simple,
}
use qbind.Match.Tuples.{Each, Conforms, tuple_type_match_iff}

-- Two longs, a long and a float.
abbrev two_longs : Object
two_longs = vector 64 long 2 (replicate 16 1)

abbrev one_long : Object
one_long = vector 96 long 1 (replicate 8 1)

abbrev a_float : Object
a_float = atom 128 float 5 (replicate 8 0)

abbrev pair : Wrappers
pair = and_then (vector_of long) (and_then (atom_of float) end)

tuple_type_match_iff_example :
    (tuple_type_match 0 0 pair (list 160 (cons two_longs (cons a_float nil))) ≡ ok none)
    ↔ Conforms pair (list 160 (cons two_longs (cons a_float nil)))
tuple_type_match_iff_example =
    tuple_type_match_iff pair (list 160 (cons two_longs (cons a_float nil)))

-- The second entry should be a float.
second_unchecked :
    tuple_type_match 0 0 pair (list 160 (cons two_longs (cons two_longs nil))) ≡ ok none
unfolding tuple_type_match match_guarded tuple_impl match_simple inner_type inner_type_impl t_of
    n_of pointer_at
second_unchecked = refl

conforms : Each pair (cons two_longs (cons a_float nil))
unfolding is_of is_simple inner_type inner_type_impl t_of
conforms = (refl, (refl, tt))

is_simple_iff_example :
    (is_simple vector_structure long two_longs ≡ ok true)
    ↔ (inner_type two_longs ≡ ok (inner_is vector_structure (code long)))
is_simple_iff_example = is_simple_iff vector_structure long two_longs

inner_type-vector_first_example :
    inner_type (list 160 (cons one_long (cons a_float nil)))
    ≡ (if ltb 1 1 then undefined else ok (inner_is nested_vector_structure (code long)))
inner_type-vector_first_example =
    inner_type-vector_first 160 96 long 1 (replicate 8 1) (cons a_float nil)

-- The tuple of the two longs and the float.
abbrev both : Objects
both = cons two_longs (cons a_float nil)

get-from_elements_example :
    (from_elements (λ xs. list 160 xs) both ≡ ok (list 160 both))
    × (from_k pair (list 160 both) ≡ ok (list 160 both))
    × (get (atom_of float) 1 (list 160 both) ≡ ok a_float)
get-from_elements_example =
    get-from_elements (λ xs. list 160 xs) 160 pair both 1 (atom_of float) a_float refl
      (tt, (tt, tt)) conforms
      (behind (vector_of long) two_longs (first (atom_of float) end a_float nil))

abbrev single : Wrappers
single = and_then (vector_of long) end

-- The pair and then a tuple of one vector.
cat_all-joined_example :
    (b : ℕ) × (cat_all in_place pair single (list 160 both) (cons one_long nil)
      ≡ ok (list b (joined both (cons one_long nil))))
    × ((i : ℕ) (w : Wrapper) (x : Object)
        → PlaceOf (followed_by pair single) (joined both (cons one_long nil)) i w x
        → get w i (list b (joined both (cons one_long nil))) ≡ ok x)
unfolding is_of is_simple inner_type inner_type_impl t_of
cat_all-joined_example =
    cat_all-joined in_place pair single 160 both (cons one_long nil) (tt, (tt, tt)) (tt, tt)
      conforms (refl, tt) (tt, tt)
