-- ===== src/Vector/Append.antt =====
-- Appending a vector to a vector (include/qbind/vector.h).
use qbind.Base.{ℕ, zero, suc, ◌+◌, ◌*◌, ◌≤◌, ◌≡◌, refl, ap, arith, List, [], ◌∷◌, ◌++◌}
use native.Mathlib.Nat.{zero-add, suc-add}
use qbind.Base.Lists.{length, take, drop}
use qbind.Base.Outcome.{ok}
use qbind.Match.Inner.{code-IsCode}
use qbind.TypeCode.{QType, underlier, size_of}
use qbind.Object.{Object, vector, t_of}
use qbind.Append.{Joins, join_lists}
use qbind.Vector.{chunks, values, push_back}

take-append_le : (n : ℕ) (g g' : List ℕ) → n ≤ length g → take n (g ++ g') ≡ take n g
take-append_le zero g g' h = refl
take-append_le (suc n) [] g' h = absurd (omega arith)
take-append_le (suc n) (x ∷ g) g' h = ap (◌∷◌ x) (take-append_le n g g' (omega arith))

drop-append_le : (n : ℕ) (g g' : List ℕ) → n ≤ length g → drop n (g ++ g') ≡ drop n g ++ g'
drop-append_le zero g g' h = refl
drop-append_le (suc n) [] g' h = absurd (omega arith)
drop-append_le (suc n) (x ∷ g) g' h = drop-append_le n g g' (omega arith)

length-drop_le : (n : ℕ) (g : List ℕ) → n ≤ length g → length (drop n g) + n ≡ length g
length-drop_le zero g h = omega arith
length-drop_le (suc n) [] h = absurd (omega arith)
length-drop_le (suc n) (x ∷ g) h = omega (arith, length-drop_le n g (omega arith))

chunks-append :
    (bytes n m : ℕ) (g g' : List ℕ)
    → length g ≡ n * bytes
    → chunks bytes (n + m) (g ++ g') ≡ chunks bytes n g ++ chunks bytes m g'
unfolding chunks
chunks-append bytes zero m [] g' h = rw zero-add
chunks-append bytes zero m (x ∷ g) g' h = absurd (omega arith)
chunks-append bytes (suc n) m g g' h =
    let enough : bytes ≤ length g = omega arith in
    let left : length (drop bytes g) ≡ n * bytes = omega (arith, length-drop_le bytes g enough) in
    rw (suc-add, take-append_le bytes g g' enough, drop-append_le bytes g g' enough)
      (ap (◌∷◌ (take bytes g)) (chunks-append bytes n m (drop bytes g) g' left))

-- `push_back` of a vector to a vector of the same type, with a buffer of the size of its elements,
-- makes a vector whose values are those of the first and then those of the second.
pub push_back-values :
    (kx : Joins) (a b : ℕ) (T : QType) (n m : ℕ) (g g' : List ℕ)
    → length g ≡ n * size_of (underlier T)
    → (r : Object) × (push_back kx (vector a T n g) (vector b T m g') ≡ ok r)
      × (values r ≡ values (vector a T n g) ++ values (vector b T m g'))
unfolding push_back join_lists t_of values
push_back-values kx a b T n m g g' h = (
  vector (kx.jv_address (vector a T n g) (vector b T m g')) T (n + m) (g ++ g'),
  ground (arith, code-IsCode T, kx.jv_elements a b T n m g g'),
  chunks-append (size_of (underlier T)) n m g g' h,
)
