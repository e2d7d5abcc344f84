-- ===== src/Atom/Values.antt =====
-- The values of atoms (include/qbind/atom.h): what is assigned is read again, and equality.
use qbind.Base.{
  ℕ, zero, suc, ◌+◌, ◌-◌, ◌*◌, ◌^◌, ◌%◌, ◌≤◌, ◌<◌, ◌≡◌, ◌≢◌, ◌↔◌, refl, sym, ap, ◌∙◌, arith, true,
  false, List, [], ◌∷◌, ◌++◌,
}
use native.Mathlib.Nat.{add-mul-mod_self_left, mod-eq_of_lt, mul_assoc}
use qbind.Base.Tests.{ltb}
use qbind.Base.Lists.{length, take, drop, length-append}
use qbind.Base.Outcome.{ok}
use qbind.TypeCode.{QType, guid, symbol, underlier, size_of, atom_structure}
use qbind.Match.Inner.{inner_type-leaf_atom, is_simple_iff, is_simple_with_info_iff}
use qbind.Object.{Object, atom}
use qbind.Equal.{operator_eq}
use qbind.Equal.Compare.{equal-atom}
use qbind.Ipc.{bytes_le, number_le}
use qbind.Ipc.Bytes.{
  AreBytes, AreBytes-append, length-bytes_le, bytes_le-AreBytes, bytes_le-number_le,
}
use qbind.Ipc.Access.{
  take-append_left, length-drop, length-take_of_le, take-AreBytes, drop-AreBytes,
}
use qbind.Atom.{memory_at, first_element, put_first, from_k, reference, assign, from_value}

from_k-atom : (a : ℕ) (T : QType) (w : ℕ) (g : List ℕ) → from_k T (atom a T w g) ≡ ok (atom a T w g)
unfolding from_k
from_k-atom a T w g =
    rw
      ((is_simple_with_info_iff atom_structure T (atom a T w g)).1
        ((is_simple_iff atom_structure T (atom a T w g)).1 (inner_type-leaf_atom a T w g)))
      refl

number_le-append :
    (xs ys : List ℕ) → number_le (xs ++ ys) ≡ number_le xs + 256 ^ length xs * number_le ys
unfolding number_le
number_le-append [] ys = omega arith
number_le-append (x ∷ xs) ys =
    let n = number_le ys in
    let power : 256 ^ suc (length xs) ≡ 256 * 256 ^ length xs = omega arith in
    omega (
      arith,
      number_le-append xs ys,
      ap (λ (t : ℕ). t * n) power,
      mul_assoc 256 (256 ^ length xs) n,
    )

number_le-bound : (xs : List ℕ) → AreBytes xs → number_le xs < 256 ^ length xs
unfolding number_le
number_le-bound [] h = omega arith
number_le-bound (x ∷ xs) h =
    let small = h.0 in
    let power : 256 ^ suc (length xs) ≡ 256 * 256 ^ length xs = omega arith in
    omega (arith, number_le-bound xs h.1, power)

take-drop : (n : ℕ) (xs : List ℕ) → take n xs ++ drop n xs ≡ xs
take-drop zero xs = refl
take-drop (suc n) [] = refl
take-drop (suc n) (x ∷ xs) = ap (◌∷◌ x) (take-drop n xs)

first_element-memory_at :
    (T : QType) (k : Object) (bs : List ℕ)
    → memory_at k ≡ ok bs
    → size_of (underlier T) ≤ length bs
    → first_element T k ≡ ok (take (size_of (underlier T)) bs)
unfolding first_element
first_element-memory_at T k bs h enough =
    let fits : ltb (length bs) (size_of (underlier T)) ≡ false = ground arith in rw (h, fits)

-- An atom that is written keeps its memory in one piece.
module _ (a : ℕ) (T : QType) (w : ℕ) (g v : List ℕ) (room : length v ≤ 8 + length g)
    (bytes : AreBytes v) (stored : AreBytes g) where
  abbrev after : List ℕ
  after = v ++ drop (length v) (bytes_le 8 w ++ g)

  abbrev written : Object
  written = atom a T (number_le (take 8 after)) (drop 8 after)

  put_first-written : put_first (atom a T w g) v ≡ ok written
  unfolding put_first
  put_first-written =
      let fits : ltb (length (bytes_le 8 w ++ g)) (length v) ≡ false =
        ground (arith, length-append (bytes_le 8 w) g, length-bytes_le 8 w) in
      rw fits refl

  length-after : length after ≡ 8 + length g
  length-after = omega (
    arith,
    length-append v (drop (length v) (bytes_le 8 w ++ g)),
    length-drop (length v) (bytes_le 8 w ++ g),
    length-append (bytes_le 8 w) g,
    length-bytes_le 8 w,
  )

  memory_at-written : memory_at written ≡ ok after
  unfolding memory_at
  memory_at-written =
      let eight : length (take 8 after) ≡ 8 =
        length-take_of_le 8 after (omega (arith, length-after)) in
      let whole =
        drop-AreBytes (length v) (bytes_le 8 w ++ g)
          (AreBytes-append (bytes_le 8 w) g (bytes_le-AreBytes 8 w) stored) in
      let all = AreBytes-append v (drop (length v) (bytes_le 8 w ++ g)) bytes whole in
      let back : bytes_le 8 (number_le (take 8 after)) ≡ take 8 after =
        ap (λ k. bytes_le k (number_le (take 8 after))) (sym eight)
        ∙ bytes_le-number_le (take 8 after) (take-AreBytes 8 after all) in
      ap ok (ap (λ l. l ++ drop 8 after) back ∙ take-drop 8 after)

  first_element-written : size_of (underlier T) ≡ length v → first_element T written ≡ ok v
  first_element-written width =
      first_element-memory_at T written after memory_at-written (omega (arith, width, length-after))
      ∙ ap (λ n. ok (take n after)) width
      ∙ ap ok (take-append_left v (drop (length v) (bytes_le 8 w ++ g)) (length v) refl)

-- An atom that is made of a value has the bytes of its underlier.
abbrev pub Fits : QType → List ℕ → Type 0
Fits T v = (length v ≡ size_of (underlier T)) × AreBytes v

take-append_ge :
    (n : ℕ) (xs ys : List ℕ) → length xs ≤ n → take n (xs ++ ys) ≡ xs ++ take (n - length xs) ys
take-append_ge n [] ys h = ap (λ k. take k ys) (omega arith)
take-append_ge zero (x ∷ xs) ys h = absurd (omega arith)
take-append_ge (suc n) (x ∷ xs) ys h =
    ap (◌∷◌ x) (take-append_ge n xs ys (omega arith) ∙ ap (λ k. xs ++ take k ys) (omega arith))

-- The bytes of a value are the low ones of the union.
low_bytes :
    (v rest : List ℕ)
    → length v ≤ 8
    → AreBytes v
    → number_le (take 8 (v ++ rest)) % 256 ^ length v ≡ number_le v
low_bytes v rest short bytes =
    ap (λ l. number_le l % 256 ^ length v) (take-append_ge 8 v rest short)
    ∙ ap (λ n. n % 256 ^ length v) (number_le-append v (take (8 - length v) rest))
    ∙ add-mul-mod_self_left (number_le v) (256 ^ length v) (number_le (take (8 - length v) rest))
    ∙ mod-eq_of_lt (number_le-bound v bytes)

narrow : (T : QType) → T ≢ guid → size_of (underlier T) ≤ 8
unfolding underlier size_of
narrow T ne = ground arith

number_le-injective :
    (v u : List ℕ)
    → length v ≡ length u
    → AreBytes v
    → AreBytes u
    → number_le v ≡ number_le u
    → v ≡ u
number_le-injective v u same bytes bytes' h =
    sym (bytes_le-number_le v bytes)
    ∙ ap (λ k. bytes_le k (number_le v)) same
    ∙ ap (bytes_le (length u)) h
    ∙ bytes_le-number_le u bytes'

-- The object that `ka` makes, in which an atom of the type has room.
pub record Makes (ka : QType → Object) (T : QType) : Type 0 where
  pub addr : ℕ
  pub word : ℕ
  pub g0 : List ℕ
  pub made : ka T ≡ atom addr T word g0
  pub room : size_of (underlier T) ≤ 8 + length g0
  pub stored : AreBytes g0

module _ {V : Type 0} (to_underlier : V → List ℕ) (ka : QType → Object) (T : QType) (m : Makes ka T)
    (x : V) (fits : Fits T (to_underlier x)) where
  abbrev made_of : Object
  made_of =
      let v = to_underlier x in
      let after = v ++ drop (length v) (bytes_le 8 m.word ++ m.g0) in
      atom m.addr T (number_le (take 8 after)) (drop 8 after)

  from_value-made_of : from_value to_underlier ka T x ≡ ok made_of
  unfolding from_value assign
  from_value-made_of =
      let within : length (to_underlier x) ≤ 8 + length m.g0 = omega (arith, fits.0, m.room) in
      rw (m.made, from_k-atom m.addr T m.word m.g0)
        (put_first-written m.addr T m.word m.g0 (to_underlier x) within fits.1 m.stored)

  -- Where `ka` makes an atom of the type with room for its values, an atom that is made of a value,
  -- whose underlier is of the width of the type, is made without a fault, is accepted by the
  -- constructor from a K, and gives the underlier back.
  pub reference-from_value :
      (k : Object) × (from_value to_underlier ka T x ≡ ok k)
      × (from_k T k ≡ ok k)
      × (reference T k ≡ ok (to_underlier x))
  unfolding reference
  reference-from_value =
      let within : length (to_underlier x) ≤ 8 + length m.g0 = omega (arith, fits.0, m.room) in
      let v = to_underlier x in
      let after = v ++ drop (length v) (bytes_le 8 m.word ++ m.g0) in
      (
        made_of,
        from_value-made_of,
        from_k-atom m.addr T (number_le (take 8 after)) (drop 8 after),
        first_element-written m.addr T m.word m.g0 v within fits.1 m.stored (sym fits.0),
      )

module _ {V : Type 0} (to_underlier : V → List ℕ) (ka ka' : QType → Object) (T : QType)
    (m : Makes ka T) (m' : Makes ka' T) where
  -- Where `ka` makes atoms of the type with room for its values, two atoms of one type, no symbol
  -- and no GUID, that are made of values, whose underliers are of the width of the type, are made
  -- without a fault, and are equal by `operator==` exactly if the underliers are the same.
  pub from_value-equal :
      (x y : V)
      → Fits T (to_underlier x)
      → Fits T (to_underlier y)
      → T ≢ symbol
      → T ≢ guid
      → (k k' : Object) × (from_value to_underlier ka T x ≡ ok k)
        × (from_value to_underlier ka' T y ≡ ok k')
        × ((operator_eq k k' ≡ ok true) ↔ (to_underlier x ≡ to_underlier y))
  unfolding operator_eq
  from_value-equal x y fits fits' nonsymbol nonguid =
      let v = to_underlier x in
      let u = to_underlier y in
      let width = size_of (underlier T) in
      let first = v ++ drop (length v) (bytes_le 8 m.word ++ m.g0) in
      let second = u ++ drop (length u) (bytes_le 8 m'.word ++ m'.g0) in
      let n = number_le (take 8 first) in
      let n' = number_le (take 8 second) in
      let compared =
        equal-atom m.addr m'.addr T T n n' (drop 8 first) (drop 8 second) nonsymbol nonguid in
      let low : n % 256 ^ width ≡ number_le v =
        ap (λ k. n % 256 ^ k) (sym fits.0)
        ∙ low_bytes v (drop (length v) (bytes_le 8 m.word ++ m.g0))
            (omega (arith, fits.0, narrow T nonguid)) fits.1 in
      let low' : n' % 256 ^ width ≡ number_le u =
        ap (λ k. n' % 256 ^ k) (sym fits'.0)
        ∙ low_bytes u (drop (length u) (bytes_le 8 m'.word ++ m'.g0))
            (omega (arith, fits'.0, narrow T nonguid)) fits'.1 in
      (
        made_of to_underlier ka T m x fits,
        made_of to_underlier ka' T m' y fits',
        from_value-made_of to_underlier ka T m x fits,
        from_value-made_of to_underlier ka' T m' y fits',
        rw (compared, low, low')
            (
              λ h. number_le-injective v u (fits.0 ∙ sym fits'.0) fits.1 fits'.1 (ground arith),
              λ h. rw h (ground arith),
            ),
      )

-- An atom of a GUID is read from the union on: the number of elements, and the first half of the
-- GUID behind it.
reference-guid :
    (a w : ℕ) (g : List ℕ)
    → 16 ≤ length g
    → reference guid (atom a guid w g) ≡ ok (bytes_le 8 w ++ take 8 g)
unfolding reference first_element memory_at size_of underlier
reference-guid a w g long =
    let fits : ltb (length (bytes_le 8 w ++ g)) 16 ≡ false =
      ground (arith, length-append (bytes_le 8 w) g, length-bytes_le 8 w) in
    let left : 16 - length (bytes_le 8 w) ≡ 8 = omega (arith, length-bytes_le 8 w) in
    rw fits (
      ap ok (
        take-append_ge 16 (bytes_le 8 w) g (omega (arith, length-bytes_le 8 w))
        ∙ ap (λ n. bytes_le 8 w ++ take n g) left))
