-- ===== src/Ipc.antt =====
-- The byte order of values and the class Buffer of tools/connection/main.cpp. The byte order of
-- the machine is the parameter `native`.
pub mod Bytes
pub mod Access
pub mod Compress
pub mod Decompress
pub mod Connection
pub mod Serializer
pub mod Os
pub mod Socket
pub mod Client
use qbind.Base.{
  ℕ, zero, suc, ◌+◌, ◌*◌, ◌/◌, ◌%◌, ◌||◌, Bool, true, false, List, [], ◌∷◌, ◌++◌, reverse,
}
use qbind.Base.Tests.{ltb, ◌==◌, if◌then◌else◌}
use qbind.Base.Lists.{length, take, drop}
use qbind.Base.Outcome.{Outcome, ok, undefined, ◌>>=◌}

-- `std::endian`, less the edge cases that a `static_assert` excludes.
pub data Endian : Type 0 where
  little big : Endian

abbrev pub is_little : Endian → Bool
is_little little = true
is_little big = false

abbrev pub same_endian : Endian → Endian → Bool
same_endian little e = is_little e
same_endian big little = false
same_endian big big = true

-- The `w` bytes of a number, the lowest first, and the number of some bytes.
unfoldable pub bytes_le : ℕ → ℕ → List ℕ
bytes_le zero v = []
bytes_le (suc w) v = (v % 256) ∷ bytes_le w (v / 256)

unfoldable pub number_le : List ℕ → ℕ
number_le [] = 0
number_le (b ∷ bs) = b + 256 * number_le bs

abbrev pub in_order : Endian → List ℕ → List ℕ
in_order little bs = bs
in_order big bs = reverse bs

-- The bytes in memory of a value of `w` bytes, and the value of some bytes in memory, on a machine
-- or in a format of the given order.
unfoldable pub bytes_of : Endian → ℕ → ℕ → List ℕ
unfolding bytes_le
bytes_of e w v = in_order e (bytes_le w v)

unfoldable pub value_of : Endian → List ℕ → ℕ
unfolding number_le
value_of e bs = number_le (in_order e bs)

-- The members of `Buffer`: the bytes that `m_pointer` leads to, as many as `m_size`, and
-- `m_endianness`.
pub record Buffer : Type 0 where
  pub bytes : List ℕ
  pub endianness : Endian

-- `memcpy(m_pointer + idx, src, n)`, undefined beyond the end.
unfoldable pub copy_at : List ℕ → ℕ → List ℕ → Outcome (List ℕ)
copy_at bs idx src =
    if ltb (length bs) (idx + length src)
    then undefined
    else ok (take idx bs ++ (src ++ drop (idx + length src) bs))

module _ (native : Endian) where
  -- `to_native_endian`, for a type of `w` bytes: the bytes of the value are reversed.
  unfoldable pub to_native_endian : (w t : ℕ) → Endian → ℕ
  unfolding bytes_of value_of
  to_native_endian w t val_endian =
      if same_endian val_endian native || (w == 1)
      then t
      else value_of native (reverse (bytes_of native w t))

  -- `read_at<T>(idx)`, undefined beyond the end
  unfoldable pub read_at : (w : ℕ) → Buffer → ℕ → Outcome ℕ
  unfolding to_native_endian value_of
  read_at w buf idx =
      if ltb (length buf.bytes) (idx + w)
      then undefined
      else ok (to_native_endian w (value_of native (take w (drop idx buf.bytes))) buf.endianness)

  -- `read<T>(idx)`: the value, and the index behind it
  unfoldable pub read : (w : ℕ) → Buffer → ℕ → Outcome (ℕ × ℕ)
  unfolding read_at
  read w buf idx = do t ← read_at w buf idx; ok (t, idx + w)

  -- `write_at<T>(value, idx)`
  unfoldable pub write_at : (w v : ℕ) → Buffer → ℕ → Outcome Buffer
  unfolding to_native_endian copy_at bytes_of
  write_at w v buf idx = do
    bs ← copy_at buf.bytes idx (bytes_of native w (to_native_endian w v buf.endianness))
    ok (record buf { bytes = bs })

  -- `write<T>(value, idx)`: the buffer, and the index behind the value
  unfoldable pub write : (w v : ℕ) → Buffer → ℕ → Outcome (Buffer × ℕ)
  unfolding write_at
  write w v buf idx = do b ← write_at w v buf idx; ok (b, idx + w)
