-- ===== src/Equal/Compare.antt =====
-- When `K::equal` answers true, false or throws (include/qbind/k.h).
use qbind.Base.{
  ℕ, suc, ◌*◌, ◌^◌, ◌%◌, ◌-◌, ◌≡◌, ◌≢◌, refl, sym, ◌∙◌, inl, inr, false, ◌&&◌, List, arith,
}
use mathlib.Core.Path.{ap₂}
use qbind.Base.Tests.{◌==◌, Bool-cases}
use qbind.Base.Int.{negsuc}
use qbind.Base.Lists.{length, take, take-length, list_eq}
use qbind.Base.Outcome.{Outcome, ok, throw, text, logic_error}
use qbind.Match.Inner.{code-IsCode}
use qbind.TypeCode.{code-injective, QType, guid, symbol, code, underlier, size_of}
use qbind.Object.{Objects, atom, vector, list, count, minus}
use qbind.Equal.{byte_size, atom_equal, vector_equal, memcmp_equal, equal_guarded, equal}

-- The exception of the default case.
abbrev pub unaccounted {ℓ} : {A : Type ℓ} → Outcome A
unaccounted = throw (logic_error (text "Unaccounted for type in checking K equals"))

-- The `switch` in `equal` gives each type but the symbol the size of the C type that `c_type` names
-- for it.
pub byte_size-size_of : (T : QType) → T ≢ symbol → byte_size (code T) ≡ ok (size_of (underlier T))
unfolding byte_size underlier size_of
byte_size-size_of T h = ground arith

-- Mixed lists of one length, symbol atoms, and symbol vectors of one length are never compared: the
-- comparison throws, whatever they hold.
equal-throws :
    ((a b : ℕ) (xs ys : Objects)
      → count xs ≡ count ys
      → equal (list a xs) (list b ys) ≡ unaccounted)
    × ((a b w v : ℕ) (g g' : List ℕ) → equal (atom a symbol w g) (atom b symbol v g') ≡ unaccounted)
    × ((a b n : ℕ) (g g' : List ℕ)
        → equal (vector a symbol n g) (vector b symbol n g') ≡ unaccounted)
unfolding equal equal_guarded byte_size
equal-throws = (λ a b xs ys h. ground arith, λ a b w v g g'. refl, λ a b n g g'. ground arith)

memcmp_equal-list_eq :
    (g g' : List ℕ) (len : ℕ)
    → length g ≡ len
    → length g' ≡ len
    → memcmp_equal g g' len ≡ ok (list_eq g g')
unfolding memcmp_equal
memcmp_equal-list_eq g g' len h h' =
    let whole : take len g ≡ g = rw (← h) (take-length g) in
    let whole' : take len g' ≡ g' = rw (← h') (take-length g') in ground (arith, whole, whole')

equal-vector_same :
    (a b : ℕ) (T : QType) (n : ℕ) (g g' : List ℕ)
    → T ≢ symbol
    → equal (vector a T n g) (vector b T n g') ≡ memcmp_equal g g' (size_of (underlier T) * n)
unfolding equal equal_guarded vector_equal
equal-vector_same a b T n g g' nonsymbol = ground (arith, byte_size-size_of T, code-IsCode T)

equal-vector_differ :
    (a b : ℕ) (T U : QType) (n m : ℕ) (g g' : List ℕ)
    → ¬ ((T ≡ U) × (n ≡ m))
    → equal (vector a T n g) (vector b U m g') ≡ ok false
unfolding equal equal_guarded
equal-vector_differ a b T U n m g g' differ = ground (arith, code-injective T U, code-IsCode T)

-- Vectors with buffers of the size of their elements, the left one no vector of symbols, are equal
-- exactly if type, length and bytes are.
pub equal-vector :
    (a b : ℕ) (T U : QType) (n m : ℕ) (g g' : List ℕ)
    → T ≢ symbol
    → length g ≡ size_of (underlier T) * n
    → length g' ≡ size_of (underlier U) * m
    → equal (vector a T n g) (vector b U m g') ≡ ok ((code T == code U) && (n == m) && list_eq g g')
equal-vector a b T U n m g g' nonsymbol h h' = elim (Bool-cases ((code T == code U) && (n == m))) [
  | inl same ↦
      let t : T ≡ U = code-injective T U (ground arith) in
      let k : n ≡ m = ground arith in
      let bytes =
        memcmp_equal-list_eq g g' (size_of (underlier T) * n) h
          (h' ∙ sym (ap₂ (λ V l. size_of (underlier V) * l) t k)) in
      rw (← t, ← k) (equal-vector_same a b T n g g' nonsymbol ∙ bytes ∙ ground arith)
  | inr differ ↦ equal-vector_differ a b T U n m g g' (λ (t, k). ground arith) ∙ ground arith
]

-- A GUID atom equals another exactly if they are one object with the value of `n`: two atoms at
-- different addresses differ, whatever their bytes.
pub equal-guid_atom :
    (a b w v : ℕ) (g g' : List ℕ)
    → equal (atom a guid w g) (atom b guid v g') ≡ ok ((w == v) && (a == b))
unfolding equal equal_guarded byte_size atom_equal
equal-guid_atom a b w v g g' = refl

minus-code : (T : QType) → minus (code T) ≡ negsuc (code T - 1)
minus-code T = ground arith

byte_size-suc : (T : QType) → T ≢ symbol → byte_size (suc (code T - 1)) ≡ ok (size_of (underlier T))
byte_size-suc T h = rw (suc_pred T) (byte_size-size_of T h)
  where
    suc_pred : (V : QType) → suc (code V - 1) ≡ code V
    suc_pred V = ground arith

size_of-ne_sixteen : (T : QType) → T ≢ guid → (size_of (underlier T) == 16) ≡ false
unfolding size_of underlier
size_of-ne_sixteen T h = ground arith

-- Atoms, the left one no symbol and no GUID, are equal exactly if their types are and the bytes of
-- the union that the type has.
pub equal-atom :
    (a b : ℕ) (T U : QType) (w v : ℕ) (g g' : List ℕ)
    → T ≢ symbol
    → T ≢ guid
    → equal (atom a T w g) (atom b U v g')
      ≡ ok (
          (code T == code U)
          && (w % 256 ^ size_of (underlier T) == v % 256 ^ size_of (underlier T)))
unfolding equal equal_guarded atom_equal
equal-atom a b T U w v g g' nonsymbol nonguid =
    rw (minus-code T, minus-code U, byte_size-suc T nonsymbol, size_of-ne_sixteen T nonguid)
      (ground (arith, code-IsCode T, code-IsCode U))
