-- ===== src/Ipc/Serializer/Format.antt =====
-- The serialized form of q's atoms and vectors of numbers, which the class Serializer
-- (tools/connection/main.cpp) writes, read by a peer.
use qbind.Base.{
  ℕ, zero, suc, ◌+◌, ◌-◌, ◌*◌, ◌^◌, ◌<◌, ◌≡◌, ◌≢◌, refl, ap, arith, true, false, List, [], ◌∷◌,
  ◌++◌, none, some,
}
use qbind.Base.Tests.{ltb, ◌==◌, ◌!=◌, if◌then◌else◌}
use qbind.Base.Lists.{length, take, drop, get_elem?, All, length-append}
use qbind.Base.Outcome.{Outcome, ok, undefined}
use qbind.TypeCode.{QType, symbol, code, underlier, size_of}
use qbind.Match.Inner.{code-IsCode}
use qbind.Ipc.{Endian, little, big, bytes_of, bytes_le, value_of}
use qbind.Ipc.Access.{take-append_left, drop-append_left}
use qbind.Ipc.Bytes.{length-bytes_of, value_of-bytes_of}
use qbind.Ipc.Serializer.{memory_of}
use qbind.Ipc.Serializer.Layout.{length-memory_of}

-- What a peer gets: the code of the type, and the bit pattern or patterns.
pub data Received : Type 0 where
  atom : (code value : ℕ) → Received
  vector : (code : ℕ) → (values : List ℕ) → Received

-- The bytes of a value, by the code of its type.
abbrev widths : List ℕ
widths = 0 ∷ 1 ∷ 16 ∷ 0 ∷ 1 ∷ 2 ∷ 4 ∷ 8 ∷ 4 ∷ 8 ∷ 1 ∷ 0 ∷ 8 ∷ 4 ∷ 4 ∷ 8 ∷ 8 ∷ 4 ∷ 4 ∷ 4 ∷ []

abbrev width_at : ℕ → ℕ
width_at c = elim (get_elem? widths c) [ none ↦ 0 | some w ↦ w ]

unfoldable pub values_in : Endian → (width n : ℕ) → List ℕ → List ℕ
values_in e width zero bs = []
values_in e width (suc n) bs = value_of e (take width bs) ∷ values_in e width n (drop width bs)

-- A whole object; one with attributes or of another kind is not read.
unfoldable pub object_of : Endian → List ℕ → Outcome Received
unfolding values_in
object_of e [] = undefined
object_of e (t ∷ rest) =
    if ltb 128 t
    then (if length rest == width_at (256 - t)
        then ok (atom (256 - t) (value_of e rest))
        else undefined)
    else elim rest [
      | [] ↦ undefined
      | attributes ∷ counted ↦
          let n = value_of e (take 4 counted) in
          if attributes != 0
          then undefined
          else if length counted == 4 + n * width_at t
          then ok (vector t (values_in e (width_at t) n (drop 4 counted)))
          else undefined
    ]

width_at-code : (T : QType) → T ≢ symbol → width_at (code T) ≡ size_of (underlier T)
unfolding underlier size_of
width_at-code QType.symbol ne = absurd (ne refl)
width_at-code T ne = refl

values_in-memory_of :
    (e : Endian) (width : ℕ) (vs : List ℕ)
    → All (λ v. v < 256 ^ width) vs
    → values_in e width (length vs) (memory_of e width vs) ≡ vs
unfolding values_in memory_of
values_in-memory_of e width [] h = refl
values_in-memory_of e width (v ∷ vs) h =
    let first = bytes_of e width v in
    let rest = memory_of e width vs in
    let wide = length-bytes_of e width v in
    rw
      (
        take-append_left first rest width wide,
        value_of-bytes_of e width v h.0,
        drop-append_left first rest width wide,
      )
      (ap (◌∷◌ v) (values_in-memory_of e width vs h.1))

pub bytes_of-one : (e : Endian) (v : ℕ) → v < 256 → bytes_of e 1 v ≡ v ∷ []
unfolding bytes_of bytes_le
bytes_of-one little v h = ap (λ b. b ∷ []) (omega arith)
bytes_of-one big v h = ap (λ b. b ∷ []) (omega arith)

module _ (e : Endian) (T : QType) (number : T ≢ symbol) where
  pub object_of-atom :
      (v : ℕ)
      → v < 256 ^ size_of (underlier T)
      → object_of e ((256 - code T) ∷ bytes_of e (size_of (underlier T)) v) ≡ ok (atom (code T) v)
  unfolding object_of
  object_of-atom v small =
      let w = size_of (underlier T) in
      let back : 256 - (256 - code T) ≡ code T = omega (arith, code-IsCode T) in
      let negative : ltb 128 (256 - code T) ≡ true = ground (arith, code-IsCode T) in
      let whole : (length (bytes_of e w v) == width_at (code T)) ≡ true =
        ground (arith, width_at-code T number, length-bytes_of e w v) in
      rw (negative, back, whole, value_of-bytes_of e w v small)

  pub object_of-vector :
      (vs : List ℕ)
      → length vs < 256 ^ 4
      → All (λ v. v < 256 ^ size_of (underlier T)) vs
      → object_of e (
          ((bytes_of e 1 (code T) ++ bytes_of e 1 0) ++ bytes_of e 4 (length vs))
          ++ memory_of e (size_of (underlier T)) vs)
        ≡ ok (vector (code T) vs)
  unfolding object_of
  object_of-vector vs few small =
      let w = size_of (underlier T) in
      let field = bytes_of e 4 (length vs) in
      let memory = memory_of e w vs in
      let wide = length-bytes_of e 4 (length vs) in
      let positive : ltb 128 (code T) ≡ false = ground (arith, code-IsCode T) in
      let known = width_at-code T number in
      let whole : (length (field ++ memory) == 4 + length vs * w) ≡ true =
        ground (arith, length-append field memory, wide, length-memory_of e w vs) in
      rw
        (
          bytes_of-one e (code T) (omega (arith, code-IsCode T)),
          bytes_of-one e 0 (omega arith),
          positive,
          take-append_left field memory 4 wide,
          value_of-bytes_of e 4 (length vs) few,
          known,
          whole,
          drop-append_left field memory 4 wide,
          values_in-memory_of e w vs small,
        )
        refl
