-- ===== src/Atom.antt =====
-- The class Atom of include/qbind/atom.h, over the object that its `m_ptr` leads to, and the memory
-- that `data()` of include/qbind/k.h leads to. The value of an atom is the bytes of its underlier;
-- the lowest byte of the union stands first, as on the platforms of the vendored objects.
pub mod Values
use qbind.Base.{ℕ, ◌+◌, List, [], ◌∷◌, ◌++◌}
use qbind.Base.Tests.{ltb, if◌then◌else◌}
use qbind.Base.Lists.{length, take, drop}
use qbind.Base.Outcome.{Outcome, ok, undefined, ◌>>=◌, ◌>>◌, throw_if, text, runtime_error}
use qbind.TypeCode.{QType, underlier, size_of, atom_structure}
use qbind.Object.{Object, atom, vector, is_null}
use qbind.Match.{is_simple_with_info}
use qbind.Ipc.{bytes_le, number_le}

-- The memory from `data()` on: from the union of an atom, from `G0` of a vector.
unfoldable pub memory_at : Object → Outcome (List ℕ)
unfolding bytes_le
memory_at (atom a T w g) = ok (bytes_le 8 w ++ g)
memory_at (vector a T n g) = ok g
memory_at k = undefined

-- `data<underlier>()[0]`, as bytes, and the write `*data<underlier>() = v` on an atom; undefined
-- where the object has fewer bytes.
unfoldable pub first_element : QType → Object → Outcome (List ℕ)
unfolding memory_at
first_element T k = do
  bytes ← memory_at k
  if ltb (length bytes) (size_of (underlier T))
      then undefined
      else ok (take (size_of (underlier T)) bytes)

unfoldable pub put_first : Object → List ℕ → Outcome Object
unfolding bytes_le number_le
put_first (atom a T w g) v =
    let bytes = bytes_le 8 w ++ g in
    let after = v ++ drop (length v) bytes in
    if ltb (length bytes) (length v)
    then undefined
    else ok (atom a T (number_le (take 8 after)) (drop 8 after))
put_first k v = undefined

-- `Atom(K data)`
unfoldable pub from_k : QType → Object → Outcome Object
from_k T k = do
  throw_if (is_null k) (runtime_error (text "K is empty"))
  is_simple_with_info atom_structure T k
  ok k

-- `operator reference()`
unfoldable pub reference : QType → Object → Outcome (List ℕ)
unfolding first_element
reference T k = first_element T k

-- `operator value()` of an atom of symbols: the view of the characters that the pointer leads to.
unfoldable pub value : (characters : List ℕ → List ℕ) → QType → Object → Outcome (List ℕ)
unfolding first_element
value characters T k = do p ← first_element T k; ok (characters p)

module _ {V : Type 0} (to_underlier : V → List ℕ) where
  -- `operator=(value value)`
  unfoldable pub assign : Object → V → Outcome Object
  unfolding put_first
  assign k value = put_first k (to_underlier value)

  -- `Atom(value v)`, where `ka` is the KX library's
  unfoldable pub from_value : (ka : QType → Object) → QType → V → Outcome Object
  unfolding from_k assign
  from_value ka T v = do tmp ← from_k T (ka T); assign tmp v
