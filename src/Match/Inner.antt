-- ===== src/Match/Inner.antt =====
-- What `K::inner_type` and the checks on atoms, vectors and nested vectors accept
-- (include/qbind/k.h).
use qbind.Base.{ℕ, List, ◌≤◌, ◌≡◌, sym, ap, ◌≢◌, ◌↔◌, refl, true, arith}
use qbind.Base.Tests.{ltb, if◌then◌else◌}
use qbind.Base.Outcome.{Outcome, ok, throw, undefined, terminated, noexcept, ◌>>=◌}
use qbind.TypeCode.{
  QType, code, Structure, structure_index, atom_structure, vector_structure,
  nested_vector_structure,
}
use qbind.Object.{Object, Objects, atom, vector, list, cons, t_of}
use qbind.Match.{
  InnerType, inner_is, inner_error, inner_type_impl, inner_type, accepts, accepted, is_simple,
  is_simple_with_info,
}

-- A code that some `QType` has.
abbrev pub IsCode : ℕ → Type 0
IsCode t = (1 ≤ t) × (t ≤ 19) × (t ≢ 3)

pub code-IsCode : (T : QType) → IsCode (code T)
code-IsCode T = (ground arith, ground arith, λ e. ground arith)

pub inner_type-IsCode :
    (k : Object) (s : Structure) (t : ℕ) → inner_type k ≡ ok (inner_is s t) → IsCode t
unfolding inner_type
inner_type-IsCode k s t h = (ground arith, ground arith, λ e. ground arith)

-- Where the first pointer of a mixed list leads to a vector, the inner type of the list is that of
-- the vector alone, whatever follows, if the vector has at most one element; with a longer one it
-- is undefined.
pub inner_type-vector_first :
    (a b : ℕ) (T : QType) (n : ℕ) (g : List ℕ) (xs : Objects)
    → inner_type (list a (cons (vector b T n g) xs))
      ≡ (if ltb 1 n then undefined else ok (inner_is nested_vector_structure (code T)))
unfolding inner_type inner_type_impl t_of
inner_type-vector_first a b T n g xs = ground (arith, code-IsCode T)

pub inner_type-leaf_atom :
    (a : ℕ) (T : QType) (w : ℕ) (g : List ℕ)
    → inner_type (atom a T w g) ≡ ok (inner_is atom_structure (code T))
unfolding inner_type inner_type_impl t_of
inner_type-leaf_atom a T w g = ground (arith, code-IsCode T)

pub inner_type-leaf_vector :
    (a : ℕ) (T : QType) (n : ℕ) (g : List ℕ)
    → inner_type (vector a T n g) ≡ ok (inner_is vector_structure (code T))
unfolding inner_type inner_type_impl t_of
inner_type-leaf_vector a T n g = ground (arith, code-IsCode T)

pub structure_index-injective : (S s : Structure) → structure_index S ≡ structure_index s → S ≡ s
structure_index-injective S s h = ground arith

-- A found type has a code, so the rule for a type 0 never applies.
pub accepts-eq :
    (S : Structure) (Q : QType) (s : Structure) (t : ℕ)
    → IsCode t
    → (accepts S Q s t ≡ true) ↔ (inner_is S (code Q) ≡ inner_is s t)
accepts-eq S Q s t h = (λ e. ground (arith, structure_index-injective S s), λ e. ground arith)

accepted-eq :
    (S : Structure) (Q : QType) (m : Outcome InnerType)
    → ((s : Structure) (t : ℕ) → m ≡ ok (inner_is s t) → IsCode t)
    → noexcept (m >>= λ tc. ok (accepted S Q tc)) ≡ ok true
    → m ≡ ok (inner_is S (code Q))
accepted-eq S Q (ok (inner_is s t)) h e =
    ap ok (sym ((accepts-eq S Q s t (h s t refl)).0 (ground arith)))
accepted-eq S Q (ok (inner_error m)) h e = cc
accepted-eq S Q (throw x) h e = cc
accepted-eq S Q undefined h e = cc
accepted-eq S Q terminated h e = cc

-- For an atom, a vector or a nested vector, `is` accepts exactly an object whose inner type is the
-- structure and the type of the wrapper.
pub is_simple_iff :
    (S : Structure) (Q : QType) (k : Object)
    → (is_simple S Q k ≡ ok true) ↔ (inner_type k ≡ ok (inner_is S (code Q)))
unfolding is_simple
is_simple_iff S Q k =
    (accepted-eq S Q (inner_type k) (inner_type-IsCode k), λ h. rw h (ground arith))

-- For an atom, a vector or a nested vector, `is_with_info` returns exactly where `is` accepts.
pub is_simple_with_info_iff :
    (S : Structure) (Q : QType) (k : Object)
    → (is_simple_with_info S Q k ≡ ok tt) ↔ (is_simple S Q k ≡ ok true)
unfolding is_simple is_simple_with_info
is_simple_with_info_iff S Q k = (λ h. ground arith, λ h. ground arith)
