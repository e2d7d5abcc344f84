-- ===== src/NestedVector/Paths.antt =====
-- What a path of indices leads to in a nested vector, and what can be appended to one
-- (include/qbind/nested_vector.h).
use qbind.Base.{ℕ, zero, suc, ◌<◌, ◌≡◌, ◌≢◌, ap, arith, true, false, List, [], ◌∷◌, ◌++◌}
use qbind.Base.Tests.{ltb, if◌then◌else◌}
use qbind.Base.Outcome.{Outcome, ok, undefined}
use qbind.TypeCode.{QType, atom_structure, vector_structure, nested_vector_structure}
use qbind.Object.{Object, Objects, atom, vector, list, nil, cons, count, nth}
use qbind.Match.{is_simple, is_simple_with_info, inner_type, inner_type_impl}
use qbind.Match.Inner.{inner_type-leaf_vector, is_simple_iff, is_simple_with_info_iff, code-IsCode}
use qbind.Append.{Joins, snoc, tuple_append}
use qbind.NestedVector.{
  Reference, monostate, element, from_k, from_values, descend, subscript, push_back,
}

-- The constructor accepts exactly what `is` accepts.
from_k-is_simple :
    (T : QType) (k : Object) {r : Object}
    → from_k T k ≡ ok r
    → is_simple nested_vector_structure T k ≡ ok true
unfolding from_k
from_k-is_simple T k h = (is_simple_with_info_iff nested_vector_structure T k).0 (ground arith)

-- The constructor of NestedVector never returns on a flat vector.
pub from_k-vector :
    (T : QType) (a : ℕ) (n : ℕ) (g : List ℕ) (r : Object) → from_k T (vector a T n g) ≢ ok r
from_k-vector T a n g r h =
    let found = (is_simple_iff nested_vector_structure T _).0 (from_k-is_simple T _ h) in
    cc (inner_type-leaf_vector a T n g)

-- The path leads from the first object, which is a mixed list or the end, to the last.
pub data Leads : Object → List ℕ → Object → Type 0 where
  here : (k : Object) → Leads k [] k
  down :
      (a : ℕ) (xs : Objects) (i : ℕ) {is : List ℕ} (k : Object) {v : Object}
      → nth xs i ≡ ok k
      → Leads k is v
      → Leads (list a xs) (i ∷ is) v

nth-count : (xs : Objects) (i : ℕ) (k : Object) → nth xs i ≡ ok k → i < count xs
unfolding nth
nth-count nil i k h = cc
nth-count (cons x xs) zero k h = omega arith
nth-count (cons x xs) (suc i) k h = omega (arith, nth-count xs i k h)

-- What is read of a vector of `n` elements by the first index, where `j` is the last one.
abbrev pub read : Object → (n first j : ℕ) → Outcome Reference
read k n first j =
    if ltb j n then (if ltb first n then ok (element k first) else undefined) else ok monostate

module _ (T : QType) (b n : ℕ) (g : List ℕ) (first : ℕ) where
  vector_end :
      (step j : ℕ)
      → descend T false first step (vector b T n g) (j ∷ []) ≡ read (vector b T n g) n first j
  unfolding descend
  vector_end step j =
      rw
        ((is_simple_with_info_iff vector_structure T _).1
          ((is_simple_iff vector_structure T _).1 (inner_type-leaf_vector b T n g)))
        (ground (arith, code-IsCode T))

  descend-Leads :
      {k : Object} {is : List ℕ} (step j : ℕ)
      → Leads k is (vector b T n g)
      → descend T false first step k (is ++ (j ∷ [])) ≡ read (vector b T n g) n first j
  unfolding descend
  descend-Leads step j (here k) = vector_end step j
  descend-Leads step j (down a xs i {is} k e l) =
      rw e (ground (arith, nth-count xs i k e, descend-Leads (suc step) j l))

-- What is accepted as a nested vector is no atom and no vector.
module _ (T : QType) (k : Object) (accepted : is_simple nested_vector_structure T k ≡ ok true) where
  no_atom : is_simple atom_structure T k ≡ ok false
  unfolding is_simple
  no_atom = rw ((is_simple_iff nested_vector_structure T k).0 accepted)

  no_vector : is_simple vector_structure T k ≡ ok false
  unfolding is_simple
  no_vector = rw ((is_simple_iff nested_vector_structure T k).0 accepted)

Leads-down :
    (a : ℕ) (xs : Objects) (i : ℕ) (is : List ℕ) (v : Object)
    → Leads (list a xs) (i ∷ is) v
    → (k : Object) × (nth xs i ≡ ok k) × Leads k is v
Leads-down a xs i is v (down _ _ _ k e l) = (k, e, l)

-- In an accepted nested vector a path of indices that leads to a vector and one index more: where
-- the last index is in range it reads the element of that vector whose number is the FIRST index of
-- the path, which is undefined where that is out of range; otherwise it reads nothing.
pub subscript-Leads :
    (T : QType) (a : ℕ) (xs : Objects) (i : ℕ) (is : List ℕ) (j : ℕ) (b n : ℕ) (g : List ℕ)
    → is_simple nested_vector_structure T (list a xs) ≡ ok true
    → Leads (list a xs) (i ∷ is) (vector b T n g)
    → subscript T (list a xs) (i ∷ (is ++ (j ∷ []))) ≡ read (vector b T n g) n i j
unfolding subscript
subscript-Leads T a xs i is j b n g accepted leads =
    let (k, e, l) = Leads-down a xs i is _ leads in
    rw (no_atom T _ accepted, no_vector T _ accepted, e)
      (ground (arith, nth-count xs i k e, descend-Leads T b n g i 1 j l))

tuple_append-atom :
    (kx : Joins) (k : Object) (a : ℕ) (U : QType) (w : ℕ) (g : List ℕ) (r : Object)
    → tuple_append kx k (atom a U w g) ≢ ok r
unfolding tuple_append
tuple_append-atom kx Object.null a U w g r h = cc
tuple_append-atom kx k a U w g r h = ground arith

-- No `push_back` of an atom to a nested vector returns, whatever the objects and the KX library.
push_back-atom :
    (kx : Joins) (T U : QType) (k : Object) (a w : ℕ) (g : List ℕ) (r : Object)
    → push_back kx T k (atom a U w g) ≢ ok r
unfolding push_back
push_back-atom kx T U k a w g r h = ground (arith, tuple_append-atom kx k a U w g r)

-- `push_back` of a vector to an accepted nested vector puts it behind the entries.
push_back-vector :
    (kx : Joins) (T : QType) (a : ℕ) (xs : Objects) (b n : ℕ) (g : List ℕ)
    → is_simple nested_vector_structure T (list a xs) ≡ ok true
    → push_back kx T (list a xs) (vector b T n g)
      ≡ ok (list (kx.jk_address (list a xs) (vector b T n g)) (snoc xs (vector b T n g)))
unfolding push_back tuple_append
push_back-vector kx T a xs b n g accepted =
    rw (no_atom T _ accepted, no_vector T _ accepted) (cc (kx.jk_entries a xs (vector b T n g)))

-- A nested vector that is made of no values is refused by the constructor from a K.
from_k-from_values :
    (T : QType) (knk : Objects → Object) (a : ℕ)
    → knk nil ≡ list a nil
    → (from_values knk nil ≡ ok (list a nil)) × (from_k T (list a nil) ≢ ok (list a nil))
unfolding from_values from_k is_simple_with_info inner_type inner_type_impl
from_k-from_values T knk a made = (ap ok made, λ h. cc)
