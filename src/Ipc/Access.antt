-- ===== src/Ipc/Access.antt =====
-- Reading and writing a Buffer (tools/connection/main.cpp).
use qbind.Base.{
  ℕ, zero, suc, ◌+◌, ◌-◌, ◌^◌, ◌<◌, ◌≤◌, ◌≡◌, refl, sym, ap, ◌∙◌, arith, List, [], ◌∷◌, ◌++◌,
}
use qbind.Base.Tests.{ge→ltb, lt→ltb}
use qbind.Base.Lists.{length, take, drop, length-append}
use qbind.Base.Outcome.{ok, undefined, ◌>>=◌}
use qbind.Ipc.{Endian, bytes_of, value_of, Buffer, copy_at, read_at, write_at}
use qbind.Ipc.Bytes.{
  AreBytes, AreBytes-append, length-bytes_of, bytes_of-AreBytes, value_of-bytes_of,
  bytes_of-to_native_endian, to_native_endian-value_of,
}

-- The bytes with `src` in place of those from `idx` on.
abbrev pub overlay : List ℕ → ℕ → List ℕ → List ℕ
overlay bs idx src = take idx bs ++ (src ++ drop (idx + length src) bs)

pub take-AreBytes : (n : ℕ) (bs : List ℕ) → AreBytes bs → AreBytes (take n bs)
take-AreBytes zero bs h = tt
take-AreBytes (suc n) [] h = tt
take-AreBytes (suc n) (b ∷ bs) h = (h.0, take-AreBytes n bs h.1)

pub drop-AreBytes : (n : ℕ) (bs : List ℕ) → AreBytes bs → AreBytes (drop n bs)
drop-AreBytes zero bs h = h
drop-AreBytes (suc n) [] h = tt
drop-AreBytes (suc n) (b ∷ bs) h = drop-AreBytes n bs h.1

pub length-take_of_le : (n : ℕ) (bs : List ℕ) → n ≤ length bs → length (take n bs) ≡ n
length-take_of_le zero bs h = refl
length-take_of_le (suc n) [] h = absurd (omega arith)
length-take_of_le (suc n) (b ∷ bs) h = ap suc (length-take_of_le n bs (omega arith))

pub length-drop : (n : ℕ) (bs : List ℕ) → length (drop n bs) ≡ length bs - n
length-drop zero bs = omega arith
length-drop (suc n) [] = omega arith
length-drop (suc n) (b ∷ bs) = omega (arith, length-drop n bs)

pub take-append_left : (xs ys : List ℕ) (n : ℕ) → length xs ≡ n → take n (xs ++ ys) ≡ xs
take-append_left [] ys n h = rw (← h)
take-append_left (x ∷ xs) ys zero h = absurd (omega arith)
take-append_left (x ∷ xs) ys (suc n) h = ap (◌∷◌ x) (take-append_left xs ys n (omega arith))

pub drop-append_left : (xs ys : List ℕ) (n : ℕ) → length xs ≡ n → drop n (xs ++ ys) ≡ ys
drop-append_left [] ys n h = rw (← h)
drop-append_left (x ∷ xs) ys zero h = absurd (omega arith)
drop-append_left (x ∷ xs) ys (suc n) h = drop-append_left xs ys n (omega arith)

take-drop-overlay :
    (bs : List ℕ) (idx : ℕ) (src : List ℕ)
    → idx ≤ length bs
    → take (length src) (drop idx (overlay bs idx src)) ≡ src
take-drop-overlay bs idx src h =
    rw
      (drop-append_left (take idx bs) (src ++ drop (idx + length src) bs) idx
        (length-take_of_le idx bs h))
      (take-append_left src _ (length src) refl)

pub length-overlay :
    (bs : List ℕ) (idx : ℕ) (src : List ℕ)
    → idx + length src ≤ length bs
    → length (overlay bs idx src) ≡ length bs
length-overlay bs idx src h =
    length-append (take idx bs) _
    ∙ omega (
      arith,
      length-append src (drop (idx + length src) bs),
      length-drop (idx + length src) bs,
      length-take_of_le idx bs (omega arith),
    )

module _ (native : Endian) (w : ℕ) (buf : Buffer) (idx : ℕ)
    (inside : idx + w ≤ length buf.bytes) where
  -- A read inside the buffer yields the number whose bytes stand there in the buffer's order.
  pub read_at-value_of :
      AreBytes buf.bytes
      → read_at native w buf idx ≡ ok (value_of buf.endianness (take w (drop idx buf.bytes)))
  unfolding read_at
  read_at-value_of h =
      let enough : w ≤ length (drop idx buf.bytes) = rw (length-drop idx buf.bytes) (omega arith) in
      let value =
        to_native_endian-value_of native buf.endianness w (take w (drop idx buf.bytes))
          (length-take_of_le w _ enough) (take-AreBytes w _ (drop-AreBytes idx _ h)) in
      rw (ge→ltb (length buf.bytes) (idx + w) inside, value)

  -- A write inside the buffer puts the bytes of the value there in the buffer's order, and leaves
  -- the others as they are.
  pub write_at-bytes_of :
      (v : ℕ)
      → write_at native w v buf idx
        ≡ ok (record buf { bytes = overlay buf.bytes idx (bytes_of buf.endianness w v) })
  unfolding write_at
  write_at-bytes_of v = rw (
    bytes_of-to_native_endian native buf.endianness w v,
    length-bytes_of buf.endianness w v,
    ge→ltb (length buf.bytes) (idx + w) inside,
  )

-- A write that passes the end of the buffer is undefined.
pub write_at-undefined :
    (native : Endian) (w v : ℕ) (buf : Buffer) (idx : ℕ)
    → length buf.bytes < idx + w
    → write_at native w v buf idx ≡ undefined
unfolding write_at copy_at
write_at-undefined native w v buf idx outside = rw (
  bytes_of-to_native_endian native buf.endianness w v,
  length-bytes_of buf.endianness w v,
  lt→ltb (length buf.bytes) (idx + w) outside,
)

overlay-AreBytes :
    (bs : List ℕ) (idx : ℕ) (src : List ℕ)
    → AreBytes bs
    → AreBytes src
    → AreBytes (overlay bs idx src)
overlay-AreBytes bs idx src h h' =
    AreBytes-append _ _ (take-AreBytes idx bs h)
      (AreBytes-append src _ h' (drop-AreBytes (idx + length src) bs h))

-- A value of `w` bytes that one machine writes inside a buffer of bytes another machine reads
-- there, whatever the byte orders of the two machines and of the buffer.
pub read_at-write_at :
    (native native' : Endian) (w v : ℕ) (buf : Buffer) (idx : ℕ)
    → AreBytes buf.bytes
    → idx + w ≤ length buf.bytes
    → v < 256 ^ w
    → (write_at native w v buf idx >>= λ b. read_at native' w b idx) ≡ ok v
read_at-write_at native native' w v buf idx h inside small =
    let src = bytes_of buf.endianness w v in
    let wide : length src ≡ w = length-bytes_of buf.endianness w v in
    let there : take w (drop idx (overlay buf.bytes idx src)) ≡ src =
      ap (λ k. take k (drop idx (overlay buf.bytes idx src))) (sym wide)
      ∙ take-drop-overlay buf.bytes idx src (omega arith) in
    rw (write_at-bytes_of native w buf idx inside v) (
      read_at-value_of native' w (record buf { bytes = overlay buf.bytes idx src }) idx
        (rw (length-overlay buf.bytes idx src (omega arith)) inside)
        (overlay-AreBytes buf.bytes idx src h (bytes_of-AreBytes buf.endianness w v))
      ∙ ap ok (ap (value_of buf.endianness) there ∙ value_of-bytes_of buf.endianness w v small))
