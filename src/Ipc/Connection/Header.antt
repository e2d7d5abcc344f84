-- ===== src/Ipc/Connection/Header.antt =====
-- The header of a message, written and read (tools/connection/main.cpp).
use qbind.Base.{ℕ, ◌/◌, ◌%◌, ◌^◌, ◌<◌, ◌≡◌, refl, sym, ap, ◌∙◌, arith, List, [], ◌∷◌, ◌++◌}
use qbind.Base.Tests.{◌==◌, if◌then◌else◌}
use qbind.Base.Lists.{length, take, drop}
use qbind.Base.Outcome.{ok}
use qbind.Ipc.{
  Endian, little, big, is_little, Buffer, bytes_of, bytes_le, value_of, number_le, write_at,
  read_at,
}
use qbind.Ipc.Access.{write_at-bytes_of, read_at-value_of}
use qbind.Ipc.Bytes.{AreBytes, value_of-bytes_of, bytes_of-AreBytes}
use qbind.Ipc.Connection.{gb}

-- The header of an uncompressed message, as the comment on the class describes it.
abbrev pub header_of : Endian → (msg_type msg_size : ℕ) → List ℕ
header_of e msg_type size =
    (if is_little e then 1 else 0) ∷ msg_type ∷ 0 ∷ (size / gb 4) ∷ bytes_of e 4 (size % gb 4)

pub one_byte : (e : Endian) (v : ℕ) → bytes_of e 1 v ≡ (v % 256) ∷ []
unfolding bytes_of bytes_le
one_byte little v = refl
one_byte big v = refl

four_bytes :
    (e : Endian) (v : ℕ)
    → (a : ℕ) × (b : ℕ) × (c : ℕ) × (d : ℕ) × (bytes_of e 4 v ≡ a ∷ b ∷ c ∷ d ∷ [])
unfolding bytes_of bytes_le
four_bytes little v = (_, _, _, _, refl)
four_bytes big v = (_, _, _, _, refl)

-- A write of the header's fields, one by one.
module _ (native e : Endian) (v : ℕ) (x0 x1 x2 x3 y0 y1 y2 y3 : ℕ) (rest : List ℕ) where
  pub write-first :
      write_at native 1 v (record { bytes = x0 ∷ rest; endianness = e }) 0
      ≡ ok (record { bytes = (v % 256) ∷ rest; endianness = e })
  write-first =
      write_at-bytes_of native 1 (record { bytes = x0 ∷ rest; endianness = e }) 0 (omega arith) v
      ∙ rw (one_byte e v)

  pub write-second :
      write_at native 1 v (record { bytes = x0 ∷ x1 ∷ rest; endianness = e }) 1
      ≡ ok (record { bytes = x0 ∷ (v % 256) ∷ rest; endianness = e })
  write-second =
      write_at-bytes_of native 1 (record { bytes = x0 ∷ x1 ∷ rest; endianness = e }) 1 (omega arith)
        v
      ∙ rw (one_byte e v)

  pub write-fourth :
      write_at native 1 v (record { bytes = x0 ∷ x1 ∷ x2 ∷ x3 ∷ rest; endianness = e }) 3
      ≡ ok (record { bytes = x0 ∷ x1 ∷ x2 ∷ (v % 256) ∷ rest; endianness = e })
  write-fourth =
      write_at-bytes_of native 1 (record { bytes = x0 ∷ x1 ∷ x2 ∷ x3 ∷ rest; endianness = e }) 3
        (omega arith) v
      ∙ rw (one_byte e v)

  pub write-size :
      write_at native 4 v
        (record { bytes = x0 ∷ x1 ∷ x2 ∷ x3 ∷ y0 ∷ y1 ∷ y2 ∷ y3 ∷ rest; endianness = e })
        4
      ≡ ok (record { bytes = x0 ∷ x1 ∷ x2 ∷ x3 ∷ (bytes_of e 4 v ++ rest); endianness = e })
  write-size =
      write_at-bytes_of native 4
        (record { bytes = x0 ∷ x1 ∷ x2 ∷ x3 ∷ y0 ∷ y1 ∷ y2 ∷ y3 ∷ rest; endianness = e }) 4
        (omega arith) v
      ∙ (let (a, b, c, d, eq) = four_bytes e v in rw eq)

pub append-nil : (bs : List ℕ) → bs ++ [] ≡ bs
append-nil [] = refl
append-nil (b ∷ bs) = ap (◌∷◌ b) (append-nil bs)

pub take-size :
    (e : Endian) (v : ℕ) (rest : List ℕ) → take 4 (bytes_of e 4 v ++ rest) ≡ bytes_of e 4 v
take-size e v rest = let (a, b, c, d, eq) = four_bytes e v in rw eq

drop-size : (e : Endian) (v : ℕ) (rest : List ℕ) → drop 4 (bytes_of e 4 v ++ rest) ≡ rest
drop-size e v rest = let (a, b, c, d, eq) = four_bytes e v in rw eq

-- What `recv` reads from the header of a message in the byte order of the machine.
module _ (native : Endian) (msg_type size : ℕ) (small : msg_type < 256) (fits : size < 2 ^ 40) where
  abbrev received : Buffer
  received = record { bytes = header_of native msg_type size; endianness = native }

  received-AreBytes : AreBytes received.bytes
  received-AreBytes = (
    ground arith,
    (small, (omega arith, (omega arith, bytes_of-AreBytes native 4 (size % gb 4)))),
  )

  pub length-received : length received.bytes ≡ 8
  length-received = let (a, b, c, d, eq) = four_bytes native (size % gb 4) in rw eq

  one_value : (v : ℕ) → value_of native (v ∷ []) ≡ v
  unfolding value_of number_le
  one_value v = elim native as (λ e. value_of e (v ∷ []) ≡ v) [
    | little ↦ omega arith
    | big ↦ omega arith
  ]

  pub read-excess : read_at native 1 received 3 ≡ ok (size / gb 4)
  read-excess =
      read_at-value_of native 1 received 3 (rw length-received (omega arith)) received-AreBytes
      ∙ ap ok (one_value (size / gb 4))

  pub read-residual : read_at native 4 received 4 ≡ ok (size % gb 4)
  read-residual =
      read_at-value_of native 4 received 4 (rw length-received (omega arith)) received-AreBytes
      ∙ ap ok (
          ap (value_of native) (
            ap (take 4) (sym (append-nil (bytes_of native 4 (size % gb 4))))
            ∙ take-size native (size % gb 4) [])
          ∙ value_of-bytes_of native 4 (size % gb 4) (omega arith))

pub order_of-flag : (e : Endian) → (if (if is_little e then 1 else 0) == 1 then little else big) ≡ e
order_of-flag little = refl
order_of-flag big = refl

pub take-header :
    (e : Endian) (msg_type size : ℕ) (rest : List ℕ)
    → take 8 (header_of e msg_type size ++ rest) ≡ header_of e msg_type size
take-header e msg_type size rest =
    ap (λ l. (if is_little e then 1 else 0) ∷ msg_type ∷ 0 ∷ (size / gb 4) ∷ l)
      (take-size e (size % gb 4) rest)

pub drop-header :
    (e : Endian) (msg_type size : ℕ) (rest : List ℕ)
    → drop 8 (header_of e msg_type size ++ rest) ≡ rest
drop-header e msg_type size rest = drop-size e (size % gb 4) rest
