-- ===== src/Tuple.antt =====
-- The class Tuple of include/qbind/tuple.h, over the object that its `m_ptr` leads to.
pub mod Elements
pub mod Cat
pub mod Index
use qbind.Base.{ℕ, zero, suc, ◌+◌, Bool, true, false, [], ◌∷◌}
use qbind.Base.Int.{pos}
use qbind.Base.Outcome.{
  Outcome, ok, throw, undefined, ◌>>=◌, ◌>>◌, throw_if, text, str, num, runtime_error,
}
use qbind.Object.{Object, Objects, nil, cons, is_null, pointer_at}
use qbind.Match.Wrapper.{Wrapper, Wrappers, end, and_then, tuple_of, is_with_info}
use qbind.Append.{Joins, tuple_append}

-- `Tuple(K data)`
unfoldable pub from_k : Wrappers → Object → Outcome Object
from_k ws k = do
  throw_if (is_null k) (runtime_error (text "K is empty"))
  is_with_info (tuple_of ws) k
  ok k

-- The fold of `Tuple(Types&&... elements)`, from the element `idx` on.
unfoldable pub check_elements : (idx : ℕ) → Objects → Outcome (Unit {0})
check_elements idx nil = ok tt
check_elements idx (cons x xs) =
    let rest = check_elements (suc idx) xs in
    throw_if (is_null x)
      (runtime_error (str "K behind value at index " ∷ num (pos idx) ∷ str " is empty." ∷ []))
    >> rest

-- `Tuple(Types&&... elements)`, where `knk` is the KX library's
unfoldable pub from_elements : (knk : Objects → Object) → Objects → Outcome Object
from_elements knk xs = do check_elements 0 xs; ok (knk xs)

-- `get<Idx>()`: the entry, wrapped by a constructor that checks it.
unfoldable pub get : Wrapper → (idx : ℕ) → Object → Outcome Object
get w idx k = do
  x ← pointer_at k idx
  throw_if (is_null x) (runtime_error (text "K is empty"))
  is_with_info w x
  ok x

-- `Types..., Types2...`
unfoldable pub followed_by : Wrappers → Wrappers → Wrappers
followed_by end vs = vs
followed_by (and_then w ws) vs = and_then w (followed_by ws vs)

-- `cat(value)`: the object is appended to the one that `m_ptr` leads to, and a tuple is made of it.
unfoldable pub cat : Joins → Wrappers → Wrapper → Object → Object → Outcome Object
unfolding followed_by
cat kx ws w k value = do k' ← tuple_append kx k value; from_k (followed_by ws (and_then w end)) k'

-- The loop of `cat(other)` on the entries of the other tuple, and `cat(other)`
unfoldable pub append_all : Joins → Object → Objects → Outcome Object
append_all kx k nil = ok k
append_all kx k (cons x xs) = tuple_append kx k x >>= λ k'. append_all kx k' xs

unfoldable pub cat_all : Joins → (ws vs : Wrappers) → Object → Objects → Outcome Object
unfolding append_all followed_by
cat_all kx ws vs k entries = do k' ← append_all kx k entries; from_k (followed_by ws vs) k'
