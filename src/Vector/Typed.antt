-- ===== src/Vector/Typed.antt =====
-- What an object of the class Vector (include/qbind/vector.h) can hold, whatever it was made by and
-- whatever was appended to it.
use mathlib.Core.Path.{subst}
use native.Mathlib.Nat.{mul-le-mul_right}
use qbind.Base.{
  ℕ, ◌+◌, ◌*◌, ◌≤◌, ◌≡◌, refl, sym, ap, ◌∙◌, arith, Bool, true, false, List, [], ◌∷◌, inl, inr,
}
use qbind.Base.Tests.{leb, Bool-cases}
use qbind.Base.Lists.{length, drop, length-append}
use qbind.Base.Int.{ℤ, pos, eq_ℤ}
use qbind.Base.Outcome.{Exception, throw_if, ok-eq, ok}
use qbind.TypeCode.{QType, char, code, code-injective, underlier, size_of, vector_structure}
use qbind.Object.{Object, null, atom, vector, list, dict, other_negative, other_positive, t_of}
use qbind.Match.{inner_type, inner_type_impl, is_simple, inner_is}
use qbind.Match.Inner.{code-IsCode, is_simple_iff, is_simple_with_info_iff, inner_type-leaf_vector}
use qbind.Ipc.Access.{length-drop}
use qbind.Vector.{Creation, from_k, transform, fill}
use qbind.Vector.Filled.{IsSized}

abbrev is_vector : Object → Bool
is_vector (vector a T n g) = true
is_vector k = false

inner_type-is_vector :
    (k : Object) (c : ℕ) → inner_type k ≡ ok (inner_is vector_structure c) → is_vector k ≡ true
unfolding inner_type t_of inner_type_impl
inner_type-is_vector null c h = ground arith
inner_type-is_vector (atom a T w g) c h = ground arith
inner_type-is_vector (vector a T n g) c h = refl
inner_type-is_vector (list a xs) c h = ground arith
inner_type-is_vector (dict a x y) c h = ground arith
inner_type-is_vector (other_negative a k w) c h = ground arith
inner_type-is_vector (other_positive a k n) c h = ground arith

-- The object is a vector of the type, and its buffer has the size of its elements.
pub record HasType (T : QType) (k : Object) : Type 0 where
  pub addr : ℕ
  pub count : ℕ
  pub g0 : List ℕ
  pub is : k ≡ vector addr T count g0
  pub whole : length g0 ≡ count * size_of (underlier T)

abbrev pub IsWhole : Object → Type 0
IsWhole (vector a T n g) = length g ≡ n * size_of (underlier T)
IsWhole k = Unit {0}

-- Of a length that is not negative, `ktn` makes a vector of the type that is asked for, `kp` and
-- `kpn` one of characters.
pub record Creates (kx : Creation) (T : QType) : Type 0 where
  pub ktn_made : (n : ℕ) → HasType T (kx.ktn T (pos n))
  pub kp_made : T ≡ char → (s : List ℕ) → HasType T (kx.kp s)
  pub kpn_made : T ≡ char → (s : List ℕ) (n : ℕ) → n ≤ length s + 1 → HasType T (kx.kpn s (pos n))

vector_of_type :
    (T : QType) (k : Object)
    → inner_type k ≡ ok (inner_is vector_structure (code T))
    → IsWhole k
    → HasType T k
vector_of_type T (vector a U n g) found whole =
    let same : U ≡ T = code-injective U T (cc (inner_type-leaf_vector a U n g)) in
    record {
      addr = a;
      count = n;
      g0 = g;
      is = ap (λ V. vector a V n g) same;
      whole = whole ∙ ap (λ V. n * size_of (underlier V)) same;
    }
vector_of_type T k found whole = absurd (no_vector (inner_type-is_vector k (code T) found))
  where
    no_vector : false ≡ true → ⊥
    no_vector h = cc

pub from_k-HasType : (T : QType) (k k' : Object) → from_k T k ≡ ok k' → IsWhole k → HasType T k'
unfolding from_k
from_k-HasType T k k' h whole =
    let accepted : is_simple vector_structure T k ≡ ok true =
      (is_simple_with_info_iff vector_structure T k).0 (ground arith) in
    let same : k ≡ k' = ground arith in
    subst (HasType T) same
      (vector_of_type T k ((is_simple_iff vector_structure T k).0 accepted) whole)

length-transform :
    {V : Type 0} (to_underlier : V → List ℕ) (T : QType) (xs : List V) (rest : List ℕ)
    → IsSized to_underlier T xs
    → length (transform to_underlier xs rest) ≡ length xs * size_of (underlier T) + length rest
unfolding transform
length-transform f T [] rest h = omega arith
length-transform f T (x ∷ xs) rest h =
    omega (arith, length-append (f x) (transform f xs rest), length-transform f T xs rest h.1, h.0)

pub fill_vector-HasType :
    {V : Type 0} (to_underlier : V → List ℕ) (T : QType) (a n : ℕ) (g : List ℕ) (xs : List V)
    (r : Object)
    → IsSized to_underlier T xs
    → length g ≡ n * size_of (underlier T)
    → fill to_underlier (vector a T n g) xs ≡ ok r
    → HasType T r
unfolding fill
fill_vector-HasType f T a n g xs r sized whole h = elim (Bool-cases (leb (length xs) n)) [
  | inl within ↦
      let w = size_of (underlier T) in
      let rest = drop (length xs * w) g in
      let made : vector a T n (transform f xs rest) ≡ r = ok-eq (rw within at h) in
      let less : length xs * w ≤ n * w = mul-le-mul_right w (ground arith) in
      record {
        addr = a;
        count = n;
        g0 = transform f xs rest;
        is = sym made;
        whole = omega (arith, length-transform f T xs rest sized, length-drop (length xs * w) g);
      }
  | inr beyond ↦ absurd (ground arith)
]

-- The check of the constructor that takes an object accepts such an object.
pub HasType-accepted :
    (T : QType) (k : Object) → HasType T k → is_simple vector_structure T k ≡ ok true
HasType-accepted T k made =
    subst (λ u. is_simple vector_structure T u ≡ ok true) (sym made.is)
      ((is_simple_iff vector_structure T (vector made.addr T made.count made.g0)).1
        (inner_type-leaf_vector made.addr T made.count made.g0))

-- A guard that let a call go on.
pub throw_if-false : (b : Bool) (e : Exception) → throw_if b e ≡ ok tt → b ≡ false
throw_if-false true e h = cc
throw_if-false false e h = refl

-- An object with the code of the type is a vector of it.
pub t_of-HasType :
    (T : QType) (k : Object) (t : ℤ)
    → t_of k ≡ ok t
    → eq_ℤ t (pos (code T)) ≡ true
    → IsWhole k
    → HasType T k
unfolding t_of
t_of-HasType T null t h same whole = absurd (ground arith)
t_of-HasType T (atom a U w g) t h same whole = absurd (ground (arith, code-IsCode U, code-IsCode T))
t_of-HasType T (vector a U n g) t h same whole =
    let equal : U ≡ T = code-injective U T (ground arith) in
    record {
      addr = a;
      count = n;
      g0 = g;
      is = ap (λ V. vector a V n g) equal;
      whole = whole ∙ ap (λ V. n * size_of (underlier V)) equal;
    }
t_of-HasType T (list a xs) t h same whole = absurd (ground (arith, code-IsCode T))
t_of-HasType T (dict a x y) t h same whole = absurd (ground (arith, code-IsCode T))
t_of-HasType T (other_negative a k w) t h same whole = absurd (ground (arith, code-IsCode T))
t_of-HasType T (other_positive a k n) t h same whole = absurd (ground (arith, code-IsCode T))
