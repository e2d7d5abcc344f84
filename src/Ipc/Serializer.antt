-- ===== src/Ipc/Serializer.antt =====
-- The class Serializer of tools/connection/main.cpp.
pub mod Layout
pub mod Format
use qbind.Base.{
  ℕ, zero, suc, ◌+◌, ◌-◌, ◌*◌, ◌%◌, ◌^◌, ◌||◌, ◌&&◌, Bool, true, false, not, List, [], ◌∷◌, ◌++◌,
}
use qbind.Base.Tests.{ltb, leb, ◌==◌, ◌!=◌, if◌then◌else◌}
use qbind.Base.Int.{pos}
use qbind.Base.Lists.{length, replicate}
use qbind.Base.Outcome.{
  Outcome, ok, throw, undefined, ◌>>=◌, ◌>>◌, throw_if, text, str, num, runtime_error,
}
use qbind.TypeCode.{QType, guid, timestamp, timespan, code, type_name, underlier, size_of}
use qbind.Ipc.{Endian, Buffer, bytes_of, copy_at, write_at, write}
use qbind.Ipc.Compress.{Garbage}

-- `==` of the enumeration.
abbrev pub same_type : QType → QType → Bool
same_type T U = code T == code U

-- `supports_type(t)`
unfoldable pub supports_type : (m_level : ℕ) → QType → Outcome (Unit {0})
supports_type m_level T =
    throw_if
      ((ltb m_level 3 && same_type T guid)
        || ((m_level == 0) && (same_type T timestamp || same_type T timespan)))
      (runtime_error (
        str "Protocol level "
        ∷ num (pos m_level)
        ∷ str " does not support "
        ∷ str (type_name (pos (code T)))
        ∷ []))

-- The bytes of the values in memory, one behind the other.
unfoldable pub memory_of : Endian → (width : ℕ) → List ℕ → List ℕ
memory_of native width [] = []
memory_of native width (v ∷ vs) = bytes_of native width v ++ memory_of native width vs

module _ (garbage : Garbage) (native : Endian) (m_level : ℕ) where
  -- `serialize<Type>(start, end)`, on the bit patterns of the values. `std::copy` writes the memory
  -- of the values behind the header.
  unfoldable pub serialize_array : QType → List ℕ → Outcome Buffer
  serialize_array T vs = do
    supports_type m_level T
    throw_if (ltb m_level 6 && ltb 2000000000 (length vs))
        (runtime_error (text "Only protocol level 6 supports arrays over 2 billion elements"))
    let width = size_of (underlier T)
    let big_array = leb (1024 * 1024 * 1024 * 4) (length vs)
    let buf_length = 2 + (if big_array then 8 else 4) + length vs * width
    let buf : Buffer = record { bytes = garbage.malloc buf_length; endianness = native }
    (b1, i1) ← write native 1 (code T) buf 0
    (b2, i2) ← write native 1 (if big_array then 128 else 0) b1 i1
    (b3, i3) ← write native (if big_array then 8 else 4) (length vs) b2 i2
    bs ← copy_at b3.bytes i3 (memory_of native width vs)
    ok (record b3 { bytes = bs })

  -- `serialize<Type>(value)`, on the bit pattern of the value. The negation of a `signed char` is
  -- an `int`, so that four bytes are written for the type.
  unfoldable pub serialize_atom : QType → ℕ → Outcome Buffer
  serialize_atom T v = do
    supports_type m_level T
    let width = size_of (underlier T)
    let buf : Buffer = record { bytes = garbage.malloc (1 + width); endianness = native }
    b1 ← write_at native 4 (2 ^ 32 - code T) buf 0
    write_at native width v b1 1
