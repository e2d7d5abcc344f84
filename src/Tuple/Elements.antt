-- ===== src/Tuple/Elements.antt =====
-- A tuple that is made of its elements (include/qbind/tuple.h).
use qbind.Base.{ℕ, zero, suc, ◌≡◌, refl, true}
use qbind.Base.Outcome.{ok}
use qbind.Object.{Object, Objects, list, nil, cons, nth, pointer_at}
use qbind.Match.Inner.{is_simple_with_info_iff}
use qbind.TypeCode.{atom_structure, vector_structure, nested_vector_structure}
use qbind.Match.Wrapper.{
  Wrapper, Wrappers, atom_of, vector_of, nested_of, tuple_of, dictionary_of, end, and_then, is_of,
  is_with_info,
}
use qbind.Match.Tuples.{
  IsSimple, AllSimple, Each, is_null-is_of, Conforms-Each, tuple_type_match_iff,
}
use qbind.Tuple.{from_k, check_elements, from_elements, get}

is_with_info-is_of :
    (w : Wrapper) (x : Object) → IsSimple w → is_of w x ≡ ok true → is_with_info w x ≡ ok tt
unfolding is_of is_with_info
is_with_info-is_of (atom_of T) x s h = (is_simple_with_info_iff atom_structure T x).1 h
is_with_info-is_of (vector_of T) x s h = (is_simple_with_info_iff vector_structure T x).1 h
is_with_info-is_of (nested_of T) x s h = (is_simple_with_info_iff nested_vector_structure T x).1 h
is_with_info-is_of (tuple_of ws) x s h = absurd s
is_with_info-is_of (dictionary_of wk wv) x s h = absurd s

check_elements-Each :
    (ws : Wrappers) (idx : ℕ) (xs : Objects)
    → AllSimple ws
    → Each ws xs
    → check_elements idx xs ≡ ok tt
unfolding check_elements
check_elements-Each end idx nil s h = refl
check_elements-Each end idx (cons x xs) s h = absurd h
check_elements-Each (and_then w ws) idx nil s h = absurd h
check_elements-Each (and_then w ws) idx (cons x xs) s h =
    rw (is_null-is_of w x s.0 h.0, check_elements-Each ws (suc idx) xs s.1 h.1)

-- The wrapper and the element that stand at one place of both lists.
pub data PlaceOf : Wrappers → Objects → ℕ → Wrapper → Object → Type 0 where
  first :
      (w : Wrapper) (ws : Wrappers) (x : Object) (xs : Objects)
      → PlaceOf (and_then w ws) (cons x xs) zero w x
  behind :
      {ws : Wrappers} {xs : Objects} {i : ℕ} {w : Wrapper} {x : Object} (v : Wrapper) (y : Object)
      → PlaceOf ws xs i w x
      → PlaceOf (and_then v ws) (cons y xs) (suc i) w x

pub PlaceOf-Each :
    {ws : Wrappers} {xs : Objects} {i : ℕ} {w : Wrapper} {x : Object}
    → PlaceOf ws xs i w x
    → AllSimple ws
    → Each ws xs
    → IsSimple w × (is_of w x ≡ ok true) × (nth xs i ≡ ok x)
unfolding nth
PlaceOf-Each (first w ws x xs) s h = (s.0, h.0, refl)
PlaceOf-Each (behind v y place) s h = PlaceOf-Each place s.1 h.1

pub get-place :
    (w : Wrapper) (x : Object) (a i : ℕ) (xs : Objects)
    → IsSimple w
    → is_of w x ≡ ok true
    → nth xs i ≡ ok x
    → get w i (list a xs) ≡ ok x
unfolding get pointer_at
get-place w x a i xs s h e = rw (e, is_null-is_of w x s h, is_with_info-is_of w x s h)

-- A tuple of atoms, vectors and nested vectors, made by `knk` of elements that the types accept, is
-- made without a fault, is accepted by the constructor from a K, and `get` returns the element at
-- the place of its wrapper.
pub get-from_elements :
    (knk : Objects → Object) (a : ℕ) (ws : Wrappers) (xs : Objects) (i : ℕ) (w : Wrapper)
    (x : Object)
    → knk xs ≡ list a xs
    → AllSimple ws
    → Each ws xs
    → PlaceOf ws xs i w x
    → (from_elements knk xs ≡ ok (list a xs))
      × (from_k ws (list a xs) ≡ ok (list a xs))
      × (get w i (list a xs) ≡ ok x)
unfolding from_elements from_k is_with_info
get-from_elements knk a ws xs i w x made s h place =
    let (simple, accepted, there) = PlaceOf-Each place s h in
    (
      rw (check_elements-Each ws 0 xs s h, made),
      rw ((tuple_type_match_iff ws (list a xs)).1 (Conforms-Each ws a xs s h)),
      get-place w x a i xs simple accepted there,
    )
