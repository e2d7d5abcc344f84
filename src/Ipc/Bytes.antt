-- ===== src/Ipc/Bytes.antt =====
-- Numbers and their bytes in either order (tools/connection/main.cpp).
use qbind.Base.{
  ℕ, zero, suc, ◌+◌, ◌*◌, ◌/◌, ◌%◌, ◌^◌, ◌<◌, ◌≡◌, refl, sym, ap, ◌∙◌, arith, true, false, List, [],
  ◌∷◌, ◌++◌, reverse, inl, inr,
}
use mathlib.Core.List.{reverse-cons, reverse-reverse}
use qbind.Base.Tests.{◌==◌, Bool-cases}
use qbind.Base.Lists.{length, All, length-append}
use qbind.Ipc.{
  Endian, little, big, same_endian, bytes_le, number_le, in_order, bytes_of, value_of,
  to_native_endian,
}

-- Each of the numbers is a byte.
abbrev pub AreBytes : List ℕ → Type 0
AreBytes bs = All (λ b. b < 256) bs

pub length-reverse : (bs : List ℕ) → length (reverse bs) ≡ length bs
length-reverse [] = refl
length-reverse (b ∷ bs) =
    ap length (reverse-cons b bs)
    ∙ length-append (reverse bs) (b ∷ [])
    ∙ omega (arith, length-reverse bs)

pub AreBytes-append : (bs cs : List ℕ) → AreBytes bs → AreBytes cs → AreBytes (bs ++ cs)
AreBytes-append [] cs h h' = h'
AreBytes-append (b ∷ bs) cs h h' = (h.0, AreBytes-append bs cs h.1 h')

pub AreBytes-reverse : (bs : List ℕ) → AreBytes bs → AreBytes (reverse bs)
AreBytes-reverse [] h = tt
AreBytes-reverse (b ∷ bs) h =
    rw (reverse-cons b bs)
      (AreBytes-append (reverse bs) (b ∷ []) (AreBytes-reverse bs h.1) (h.0, tt))

pub length-bytes_le : (w v : ℕ) → length (bytes_le w v) ≡ w
unfolding bytes_le
length-bytes_le zero v = refl
length-bytes_le (suc w) v = ap suc (length-bytes_le w (v / 256))

pub bytes_le-AreBytes : (w v : ℕ) → AreBytes (bytes_le w v)
unfolding bytes_le
bytes_le-AreBytes zero v = tt
bytes_le-AreBytes (suc w) v = (omega arith, bytes_le-AreBytes w (v / 256))

pub number_le-bytes_le : (w v : ℕ) → v < 256 ^ w → number_le (bytes_le w v) ≡ v
unfolding bytes_le number_le
number_le-bytes_le zero v h = omega arith
number_le-bytes_le (suc w) v h = omega (arith, number_le-bytes_le w (v / 256) (omega arith))

pub bytes_le-number_le : (bs : List ℕ) → AreBytes bs → bytes_le (length bs) (number_le bs) ≡ bs
unfolding bytes_le number_le
bytes_le-number_le [] h = refl
bytes_le-number_le (b ∷ bs) h =
    let low : (b + 256 * number_le bs) % 256 ≡ b = (let lt = h.0 in omega arith) in
    let high : (b + 256 * number_le bs) / 256 ≡ number_le bs = (let lt = h.0 in omega arith) in
    rw (low, high, bytes_le-number_le bs h.1)

in_order-in_order : (e : Endian) (bs : List ℕ) → in_order e (in_order e bs) ≡ bs
in_order-in_order little bs = refl
in_order-in_order big bs = reverse-reverse bs

length-in_order : (e : Endian) (bs : List ℕ) → length (in_order e bs) ≡ length bs
length-in_order little bs = refl
length-in_order big bs = length-reverse bs

in_order-AreBytes : (e : Endian) (bs : List ℕ) → AreBytes bs → AreBytes (in_order e bs)
in_order-AreBytes little bs h = h
in_order-AreBytes big bs h = AreBytes-reverse bs h

pub length-bytes_of : (e : Endian) (w v : ℕ) → length (bytes_of e w v) ≡ w
unfolding bytes_of
length-bytes_of e w v = length-in_order e _ ∙ length-bytes_le w v

pub bytes_of-AreBytes : (e : Endian) (w v : ℕ) → AreBytes (bytes_of e w v)
unfolding bytes_of
bytes_of-AreBytes e w v = in_order-AreBytes e _ (bytes_le-AreBytes w v)

pub value_of-bytes_of : (e : Endian) (w v : ℕ) → v < 256 ^ w → value_of e (bytes_of e w v) ≡ v
unfolding bytes_of value_of
value_of-bytes_of e w v h = ap number_le (in_order-in_order e _) ∙ number_le-bytes_le w v h

pub bytes_of-value_of :
    (e : Endian) (w : ℕ) (bs : List ℕ)
    → length bs ≡ w
    → AreBytes bs
    → bytes_of e w (value_of e bs) ≡ bs
unfolding bytes_of value_of
bytes_of-value_of e w bs n h = rw (← n) (
    ap (λ l. in_order e (bytes_le l (number_le (in_order e bs)))) (sym (length-in_order e bs))
    ∙ ap (in_order e) (bytes_le-number_le (in_order e bs) (in_order-AreBytes e bs h))
    ∙ in_order-in_order e bs)

same_endian-eq : (a b : Endian) → same_endian a b ≡ true → a ≡ b
same_endian-eq little little h = refl
same_endian-eq little big h = cc
same_endian-eq big little h = cc
same_endian-eq big big h = refl

-- The bytes in the other order.
in_order-other :
    (a b : Endian) (bs : List ℕ) → same_endian a b ≡ false → in_order a bs ≡ reverse (in_order b bs)
in_order-other little little bs h = cc
in_order-other little big bs h = sym (reverse-reverse bs)
in_order-other big little bs h = refl
in_order-other big big bs h = cc

-- One byte reads alike in every order.
in_order-one : (a b : Endian) (bs : List ℕ) → length bs ≡ 1 → in_order a bs ≡ in_order b bs
in_order-one a b [] h = absurd (omega arith)
in_order-one little little (x ∷ []) h = refl
in_order-one little big (x ∷ []) h = refl
in_order-one big little (x ∷ []) h = refl
in_order-one big big (x ∷ []) h = refl
in_order-one a b (x ∷ y ∷ bs) h = absurd (omega arith)

-- In the memory of any machine a value converted for an order has its bytes in that order.
pub bytes_of-to_native_endian :
    (native e : Endian) (w v : ℕ)
    → bytes_of native w (to_native_endian native w v e) ≡ bytes_of e w v
unfolding to_native_endian
bytes_of-to_native_endian native e w v = elim (Bool-cases (same_endian e native)) [
  | inl same ↦ rw (same, same_endian-eq e native same)
  | inr apart ↦ elim (Bool-cases (w == 1)) [
    | inl one ↦
        rw (apart, one) (in_order-one native e (bytes_le w v) (length-bytes_le w v ∙ ground arith))
    | inr wide ↦
        rw (apart, wide)
          (bytes_of-value_of native w _ (length-reverse _ ∙ length-bytes_of native w v)
              (AreBytes-reverse _ (bytes_of-AreBytes native w v))
            ∙ sym (in_order-other e native (bytes_le w v) apart))
  ]
]

in_order-reverse : (e : Endian) (bs : List ℕ) → in_order e (reverse bs) ≡ reverse (in_order e bs)
in_order-reverse little bs = refl
in_order-reverse big bs = refl

-- A value that was read from bytes in some order and converted from it is the number of the bytes
-- in that order, whatever the machine.
pub to_native_endian-value_of :
    (native e : Endian) (w : ℕ) (bs : List ℕ)
    → length bs ≡ w
    → AreBytes bs
    → to_native_endian native w (value_of native bs) e ≡ value_of e bs
unfolding to_native_endian
to_native_endian-value_of native e w bs n h = elim (Bool-cases (same_endian e native)) [
  | inl same ↦ rw (same, same_endian-eq e native same)
  | inr apart ↦ elim (Bool-cases (w == 1)) [
    | inl one ↦ rw (apart, one) (ap number_le (in_order-one native e bs (n ∙ ground arith)))
    | inr wide ↦
        rw (apart, wide, bytes_of-value_of native w bs n h)
          (ap number_le (in_order-reverse native bs ∙ sym (in_order-other e native bs apart)))
  ]
]
