-- ===== src/Vector.antt =====
-- The class Vector of include/qbind/vector.h, over the object that its `m_ptr` leads to.
pub mod Access
pub mod Order
pub mod Append
pub mod Filled
pub mod Typed
pub mod Appended
pub mod Made
pub mod Iteration
use qbind.Base.{
  ℕ, zero, suc, ◌+◌, ◌-◌, ◌*◌, ◌%◌, ◌^◌, Bool, true, false, not, List, [], ◌∷◌, ◌++◌, Option, none,
  some, String,
}
use qbind.Base.Tests.{ltb, leb, ◌==◌, ◌!=◌, if◌then◌else◌}
use qbind.Base.Int.{ℤ, pos, negsuc, is_negative, abs, ltb_ℤ, eq_ℤ, ◌-ℤ◌, sub_ℕ}
use qbind.Base.Lists.{length, take, drop}
use qbind.Base.Outcome.{
  Outcome, ok, throw, undefined, ◌>>=◌, ◌>>◌, throw_if, text, str, num, runtime_error, out_of_range,
}
use qbind.TypeCode.{QType, underlier, size_of, vector_structure}
use qbind.Object.{Object, null, vector, is_null, size}
use qbind.Match.{is_simple_with_info}
use qbind.Append.{Joins, join_atom, join_lists}

-- `Vector(K data)`
unfoldable pub from_k : QType → Object → Outcome Object
from_k T k = do
  throw_if (is_null k) (runtime_error (text "K is empty"))
  is_simple_with_info vector_structure T k
  ok k

-- The creation of a vector by the KX library: `ktn(t, n)`, `kp(s)` and `kpn(s, n)`. A text is the
-- list of its bytes without the final 0. The library takes the numbers as they are given.
pub record Creation : Type 0 where
  pub ktn : QType → ℤ → Object
  pub kp : List ℕ → Object
  pub kpn : List ℕ → ℤ → Object

module _ (kx : Creation) where
  -- `Vector(int64_t length)`
  unfoldable pub of_length : QType → ℤ → Outcome Object
  of_length T n = do
    throw_if (is_negative n) (runtime_error (text "Length must be non-negative"))
    ok (kx.ktn T n)

  -- `Vector(char *str, std::optional<int64_t> size)`, where `none` is the null pointer; `kpn` may
  -- read the final 0 of the text, and beyond it is undefined.
  unfoldable pub of_chars : Option (List ℕ) → Option ℤ → Outcome Object
  of_chars none n = throw (runtime_error (text "Receive nullptr"))
  of_chars (some s) none = ok (kx.kp s)
  of_chars (some s) (some n) = do
    throw_if (is_negative n) (runtime_error (text "Length must be non-negative"))
    if ltb_ℤ (pos (length s + 1)) n then undefined else ok (kx.kpn s n)

-- `data<underlier>()[pos]`: the bytes of an element, undefined beyond the last.
unfoldable pub element : Object → ℕ → Outcome (List ℕ)
element (vector a T n g) i =
    let bytes = size_of (underlier T) in
    if ltb i n then ok (take bytes (drop (i * bytes) g)) else undefined
element k i = undefined

-- `check_in_range(pos)`
unfoldable pub check_in_range : Object → ℕ → Outcome (Unit {0})
unfolding size
check_in_range k i = do
  n ← size k
  throw_if (leb n i) (
      out_of_range
        (str "Attempted to access index " ∷ num (pos i) ∷ str " but length is " ∷ num (pos n) ∷ []))

-- `at(pos)`
unfoldable pub at : Object → ℕ → Outcome (List ℕ)
unfolding check_in_range element
at k i = check_in_range k i >> element k i

-- `operator[](pos)`
unfoldable pub subscript : Object → ℕ → Outcome (List ℕ)
unfolding element
subscript k i = element k i

-- `front()`
unfoldable pub front : Object → Outcome (List ℕ)
unfolding element
front k = element k 0

-- `back()`; the index is a `size_t` and wraps around below 0.
unfoldable pub back : Object → Outcome (List ℕ)
unfolding size element
back k = do n ← size k; element k ((n + 2 ^ 64 - 1) % 2 ^ 64)

-- `empty()`
unfoldable pub empty : Object → Outcome Bool
unfolding size
empty k = do n ← size k; ok (n != 0)

-- The values from `cbegin()` to `cend()`.
unfoldable pub chunks : (bytes n : ℕ) → List ℕ → List (List ℕ)
chunks bytes zero g = []
chunks bytes (suc n) g = take bytes g ∷ chunks bytes n (drop bytes g)

unfoldable pub values : Object → List (List ℕ)
unfolding chunks
values (vector a T n g) = chunks (size_of (underlier T)) n g
values k = []

-- `std::transform(first, last, it, to_underlier)` into the elements of a vector, of which `rest` are
-- the bytes that are left; undefined beyond the last element.
unfoldable pub transform :
    {V : Type 0} → (to_underlier : V → List ℕ) → List V → (rest : List ℕ) → List ℕ
transform to_underlier [] rest = rest
transform to_underlier (x ∷ xs) rest = to_underlier x ++ transform to_underlier xs rest

unfoldable pub fill : {V : Type 0} → (to_underlier : V → List ℕ) → Object → List V → Outcome Object
unfolding transform
fill to_underlier (vector a T n g) xs =
    let rest = drop (length xs * size_of (underlier T)) g in
    if leb (length xs) n then ok (vector a T n (transform to_underlier xs rest)) else undefined
fill to_underlier k xs = undefined

module _ (kx : Creation) {V : Type 0} (to_underlier : V → List ℕ) (T : QType) where
  -- `Vector(std::initializer_list<value> list)`
  unfoldable pub of_list : List V → Outcome Object
  unfolding fill
  of_list list = fill to_underlier (kx.ktn T (pos (length list))) list

  -- `Vector(iterator_type first, iterator_type last)`, with the positions of two iterators into a
  -- sequence: a position beyond the end of the sequence is undefined.
  unfoldable pub of_range : List V → (first last : ℕ) → Outcome Object
  unfolding fill
  of_range sequence first last = do
    let distance = sub_ℕ last first
    throw_if (is_negative distance) (runtime_error (text "Length must be non-negative"))
    if ltb (length sequence) last
        then undefined
        else fill to_underlier (kx.ktn T distance) (take (last - first) (drop first sequence))

-- The loop of `operator<=>` on two vectors of numbers, `fuel` elements before the end of the
-- shorter one; `none` means that all were equivalent.
unfoldable pub first_difference : List ℤ → List ℤ → Option ℤ
first_difference [] ys = none
first_difference (x ∷ xs) [] = none
first_difference (x ∷ xs) (y ∷ ys) =
    if not (eq_ℤ x y) then some (if ltb_ℤ x y then negsuc 0 else pos 1) else first_difference xs ys

abbrev pub or_sizes : Option ℤ → ℕ → ℕ → ℤ
or_sizes none lhs rhs = sub_ℕ rhs lhs
or_sizes (some d) lhs rhs = d

-- `operator<=>`; the result is `rhs.size() - size()` where no element differs.
unfoldable pub compare : List ℤ → List ℤ → ℤ
unfolding first_difference
compare lhs rhs = or_sizes (first_difference lhs rhs) (length lhs) (length rhs)

module _ (kx : Joins) where
  -- `push_back(value)`, with the bytes of the value, and `push_back(vec)`
  unfoldable pub push_back_value : QType → Object → List ℕ → Outcome Object
  push_back_value T k value = join_atom kx T k value

  unfoldable pub push_back : Object → Object → Outcome Object
  push_back k vec = join_lists kx k vec
