-- ===== src/Dictionary.antt =====
-- The class Dictionary of include/qbind/dictionary.h, over the object that its `m_ptr` leads to, and
-- the search of `internal::Keys` in a vector. The search in keys of another type, and the access to
-- values of another type, do not compile in the source.
pub mod Lookup
pub mod Parts
pub mod Made
use qbind.Base.{
  ℕ, zero, suc, ◌+◌, ◌-◌, ◌*◌, ◌%◌, ◌^◌, ◌&&◌, ◌||◌, not, Bool, true, false, List, [], ◌∷◌,
}
use qbind.Base.Tests.{ltb, leb, ◌!=◌, ◌==◌, if◌then◌else◌}
use qbind.Base.Lists.{list_eq}
use qbind.Base.Outcome.{
  Outcome, ok, throw, undefined, ◌>>=◌, ◌>>◌, throw_if, text, runtime_error, out_of_range,
}
use qbind.TypeCode.{
  QType, CType, c_bool, c_guid, c_uint8, c_int16, c_int32, c_int64, c_float, c_double, c_char,
  c_char_ptr, underlier,
}
use qbind.Ipc.{Endian, value_of}
use qbind.Object.{
  Object, null, atom, vector, list, dict, other_negative, other_positive, is_null, pointer_at, size,
  count,
}
use qbind.Match.Wrapper.{
  Wrapper, atom_of, vector_of, nested_of, tuple_of, dictionary_of, is_with_info,
}
use qbind.Atom
use qbind.Tuple
use qbind.NestedVector
use qbind.Vector
use qbind.Vector.Iteration.{forward}

-- The machine: its byte order, and the characters of the symbol that the bytes of a pointer lead to.
pub record Memory : Type 0 where
  pub native : Endian
  pub chars : List ℕ → List ℕ

-- `==` of two floating point numbers of `w` bytes, by their bits: a NaN equals nothing, and the two
-- zeros equal each other.
unfoldable pub magnitude : (w x : ℕ) → ℕ
magnitude w x = x % 2 ^ (8 * w - 1)

unfoldable pub is_nan : (w x : ℕ) → Bool
unfolding magnitude
is_nan w x = ltb (if w == 4 then 2139095040 else 9218868437227405312) (magnitude w x)

unfoldable pub float_equal : (w x y : ℕ) → Bool
unfolding is_nan magnitude
float_equal w x y =
    not (is_nan w x)
    && not (is_nan w y)
    && ((x == y) || ((magnitude w x == 0) && (magnitude w y == 0)))

-- `*it == value`, with the bytes of both, and for symbols with the characters of the value
unfoldable pub value_equal : Memory → CType → List ℕ → List ℕ → Bool
unfolding float_equal list_eq
value_equal mem c_float x v = float_equal 4 (value_of mem.native x) (value_of mem.native v)
value_equal mem c_double x v = float_equal 8 (value_of mem.native x) (value_of mem.native v)
value_equal mem c_char_ptr x v = list_eq (mem.chars x) v
value_equal mem _ x v = list_eq x v

module _ (equal : List ℕ → List ℕ → Bool) where
  -- `std::find(keys.begin(), keys.end(), value) - keys.begin()`
  unfoldable pub find_index : List (List ℕ) → List ℕ → ℕ
  find_index [] v = 0
  find_index (x ∷ xs) v = if equal x v then 0 else suc (find_index xs v)

  -- `std::count(keys.begin(), keys.end(), value)`
  unfoldable pub count_values : List (List ℕ) → List ℕ → ℕ
  count_values [] v = 0
  count_values (x ∷ xs) v = (if equal x v then 1 else 0) + count_values xs v

-- The members, for `Dictionary<TKey, TValue>`.
pub record Dictionary : Type 0 where
  pub key_type : Wrapper
  pub value_type : Wrapper
  pub m_ptr : Object
  pub m_length : ℕ

-- `Dictionary(K data)`
unfoldable pub from_k : (K V : Wrapper) → Object → Outcome Dictionary
unfolding pointer_at size
from_k K V k = do
  throw_if (is_null k) (runtime_error (text "K is empty"))
  is_with_info (dictionary_of K V) k
  keys ← pointer_at k 0
  n ← size keys
  ok (record { key_type = K; value_type = V; m_ptr = k; m_length = n })

-- `Dictionary(TKey ks, TValue vs)`, where `xD` is the KX library's
unfoldable pub from_parts :
    (xD : Object → Object → Object) (K V : Wrapper) → Object → Object → Outcome Dictionary
unfolding size
from_parts xD K V ks vs = do
  n ← size ks
  m ← size vs
  throw_if (n != m) (runtime_error (text "Keys and value must be same length"))
  ok (record { key_type = K; value_type = V; m_ptr = xD ks vs; m_length = n })

-- The constructor of a wrapper from an object.
unfoldable pub wrapped : Wrapper → Object → Outcome Object
unfolding Atom.from_k Vector.from_k NestedVector.from_k Tuple.from_k
wrapped (atom_of T) k = Atom.from_k T k
wrapped (vector_of T) k = Vector.from_k T k
wrapped (nested_of T) k = NestedVector.from_k T k
wrapped (tuple_of ws) k = Tuple.from_k ws k
wrapped (dictionary_of wk wv) k = do d ← from_k wk wv k; ok d.m_ptr

-- `keys()` and `values()`: a `TKey` and a `TValue` of what the object holds.
unfoldable pub keys_of : Dictionary → Outcome Object
unfolding pointer_at wrapped
keys_of d = pointer_at d.m_ptr 0 >>= λ k. wrapped d.key_type k

unfoldable pub values_of : Dictionary → Outcome Object
unfolding pointer_at wrapped
values_of d = pointer_at d.m_ptr 1 >>= λ k. wrapped d.value_type k

-- `check_in_range(pos)`: the size of the dictionary object, not of its keys.
unfoldable pub check_in_range : Dictionary → ℕ → Outcome (Unit {0})
unfolding size
check_in_range d idx = do
  n ← size d.m_ptr
  throw_if (leb n idx) (out_of_range (text "Key lookup failed"))

-- A `TKey::const_reference` to an element of the values: a reference to another type is one to a
-- temporary, which is gone behind the return.
abbrev index_of_ctype : CType → ℕ
index_of_ctype c_bool = 0
index_of_ctype c_guid = 1
index_of_ctype c_uint8 = 2
index_of_ctype c_int16 = 3
index_of_ctype c_int32 = 4
index_of_ctype c_int64 = 5
index_of_ctype c_float = 6
index_of_ctype c_double = 7
index_of_ctype c_char = 8
index_of_ctype c_char_ptr = 9

abbrev pub same_ctype : (K V : QType) → Bool
same_ctype K V = index_of_ctype (underlier K) == index_of_ctype (underlier V)

unfoldable pub key_reference : (key_type value_type : Wrapper) → List ℕ → Outcome (List ℕ)
key_reference (vector_of K) (vector_of V) x = if same_ctype K V then ok x else undefined
key_reference _ _ x = undefined

module _ (mem : Memory) where
  -- The search in the keys, where they are a vector.
  unfoldable pub find_in : Wrapper → Object → List ℕ → Outcome ℕ
  unfolding find_index value_equal
  find_in (vector_of T) ks key = do
    vs ← forward ks
    ok (find_index (value_equal mem (underlier T)) vs key)
  find_in _ ks key = undefined

  unfoldable pub count_in : Wrapper → Object → List ℕ → Outcome ℕ
  unfolding count_values value_equal
  count_in (vector_of T) ks key = do
    vs ← forward ks
    ok (count_values (value_equal mem (underlier T)) vs key)
  count_in _ ks key = undefined

  -- `find(key)` and `count(key)`, with the bytes of the key, or the characters of a symbol
  unfoldable pub find : Dictionary → List ℕ → Outcome ℕ
  unfolding keys_of find_in
  find d key = do ks ← keys_of d; find_in d.key_type ks key

  unfoldable pub count_of : Dictionary → List ℕ → Outcome ℕ
  unfolding keys_of count_in
  count_of d key = do ks ← keys_of d; count_in d.key_type ks key

  -- `contains(key)`
  unfoldable pub contains : Dictionary → List ℕ → Outcome Bool
  unfolding find
  contains d key = do idx ← find d key; ok (ltb idx d.m_length)

  -- `get(key)`
  unfoldable pub get : Dictionary → List ℕ → Outcome (List ℕ)
  unfolding find check_in_range values_of key_reference
  get d key = do
    idx ← find d key
    check_in_range d idx
    vs ← values_of d
    x ← Vector.subscript vs idx
    key_reference d.key_type d.value_type x

  -- `operator[](key)`
  unfoldable pub subscript : Dictionary → List ℕ → Outcome (List ℕ)
  unfolding find values_of key_reference
  subscript d key = do
    idx ← find d key
    vs ← values_of d
    x ← Vector.subscript vs idx
    key_reference d.key_type d.value_type x

-- `size()` and `empty()`
unfoldable pub length_of : Dictionary → ℕ
length_of d = d.m_length

unfoldable pub empty : Dictionary → Bool
unfolding length_of
empty d = length_of d != 0
