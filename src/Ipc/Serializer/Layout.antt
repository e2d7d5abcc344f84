-- ===== src/Ipc/Serializer/Layout.antt =====
-- The messages that the class Serializer makes (tools/connection/main.cpp).
use qbind.Base.{
  ℕ, zero, suc, ◌+◌, ◌-◌, ◌*◌, ◌^◌, ◌≤◌, ◌≡◌, ◌↔◌, refl, sym, ap, ◌∙◌, arith, false, ◌&&◌, List, [],
  ◌∷◌, ◌++◌,
}
use mathlib.Core.List.{append_assoc}
use qbind.Base.Tests.{ltb, leb, ge→ltb, if◌then◌else◌}
use qbind.Base.Lists.{length, take, drop, length-append, take-append}
use qbind.Base.Outcome.{ok, undefined}
use qbind.TypeCode.{QType, guid, timestamp, timespan, code, underlier, size_of}
use qbind.Match.Inner.{code-IsCode}
use qbind.Ipc.{Endian, little, big, is_little, Buffer, bytes_of, bytes_le, copy_at, write}
use qbind.Ipc.Bytes.{length-bytes_of}
use qbind.Ipc.Access.{
  overlay, length-overlay, write_at-bytes_of, write_at-undefined, length-take_of_le,
}
use qbind.Ipc.Compress.{Garbage}
use qbind.Ipc.Serializer.{supports_type, memory_of, serialize_array, serialize_atom}

-- `supports_type` accepts a type exactly if a GUID has protocol level 3 or more, and a timestamp or
-- a timespan level 1 or more.
pub supports_type_iff :
    (m_level : ℕ) (T : QType)
    → (supports_type m_level T ≡ ok tt)
      ↔ ((T ≡ guid → 3 ≤ m_level) × (T ≡ timestamp → 1 ≤ m_level) × (T ≡ timespan → 1 ≤ m_level))
unfolding supports_type
supports_type_iff m_level T =
    (λ h. (λ e. ground arith, λ e. ground arith, λ e. ground arith), λ (h, h', h''). ground arith)

pub length-memory_of :
    (native : Endian) (width : ℕ) (vs : List ℕ)
    → length (memory_of native width vs) ≡ length vs * width
unfolding memory_of
length-memory_of native width [] = omega arith
length-memory_of native width (v ∷ vs) =
    length-append (bytes_of native width v) (memory_of native width vs)
    ∙ omega (arith, length-bytes_of native width v, length-memory_of native width vs)

drop-all : (n : ℕ) (bs : List ℕ) → length bs ≤ n → drop n bs ≡ []
drop-all zero [] h = refl
drop-all zero (b ∷ bs) h = absurd (omega arith)
drop-all (suc n) [] h = refl
drop-all (suc n) (b ∷ bs) h = drop-all n bs (omega arith)

append-nil : (bs : List ℕ) → bs ++ [] ≡ bs
append-nil [] = refl
append-nil (b ∷ bs) = ap (◌∷◌ b) (append-nil bs)

-- What stands before the end of an overlay.
take-overlay :
    (bs : List ℕ) (idx : ℕ) (src : List ℕ)
    → idx + length src ≤ length bs
    → take (idx + length src) (overlay bs idx src) ≡ take idx bs ++ src
take-overlay bs idx src h =
    let front : length (take idx bs ++ src) ≡ idx + length src =
      length-append (take idx bs) src ∙ omega (arith, length-take_of_le idx bs (omega arith)) in
    let split : overlay bs idx src ≡ (take idx bs ++ src) ++ drop (idx + length src) bs =
      sym (append_assoc (take idx bs) src (drop (idx + length src) bs)) in
    ap (take (idx + length src)) split
    ∙ ap (λ k. take k ((take idx bs ++ src) ++ drop (idx + length src) bs)) (sym front)
    ∙ take-append (take idx bs ++ src) (drop (idx + length src) bs)

overlay-end :
    (bs : List ℕ) (idx : ℕ) (src : List ℕ)
    → idx + length src ≡ length bs
    → overlay bs idx src ≡ take idx bs ++ src
overlay-end bs idx src h =
    ap (λ l. take idx bs ++ (src ++ l)) (drop-all (idx + length src) bs (omega arith))
    ∙ ap (λ l. take idx bs ++ l) (append-nil src)

-- A write in front of what is read back later keeps the length and what stands before it.
module _ (native e : Endian) (w v : ℕ) (bs : List ℕ) (idx : ℕ) (inside : idx + w ≤ length bs) where
  write-overlay :
      write native w v (record { bytes = bs; endianness = e }) idx
      ≡ ok (record { bytes = overlay bs idx (bytes_of e w v); endianness = e }, idx + w)
  unfolding write
  write-overlay =
      rw (write_at-bytes_of native w (record { bytes = bs; endianness = e }) idx inside v)

  length-write : length (overlay bs idx (bytes_of e w v)) ≡ length bs
  length-write = length-overlay bs idx (bytes_of e w v) (omega (arith, length-bytes_of e w v))

  take-write : take (idx + w) (overlay bs idx (bytes_of e w v)) ≡ take idx bs ++ bytes_of e w v
  take-write =
      ap (λ k. take (idx + k) (overlay bs idx (bytes_of e w v))) (sym (length-bytes_of e w v))
      ∙ take-overlay bs idx (bytes_of e w v) (omega (arith, length-bytes_of e w v))

copy_at-end :
    (bs : List ℕ) (idx : ℕ) (src : List ℕ)
    → idx + length src ≡ length bs
    → copy_at bs idx src ≡ ok (take idx bs ++ src)
unfolding copy_at
copy_at-end bs idx src h =
    rw (ge→ltb (length bs) (idx + length src) (omega arith)) (ap ok (overlay-end bs idx src h))

-- With allocations of the size asked for, an array of at most two billion values of a type that the
-- level supports becomes the type, a 0 for its attributes, its length in four bytes, and the memory
-- of the values.
pub serialize_array-layout :
    (g : Garbage) (native : Endian) (m_level : ℕ) (T : QType) (vs : List ℕ)
    → ((m : ℕ) → length (g.malloc m) ≡ m)
    → supports_type m_level T ≡ ok tt
    → length vs ≤ 2000000000
    → serialize_array g native m_level T vs
      ≡ ok (record {
        bytes =
            ((bytes_of native 1 (code T) ++ bytes_of native 1 0) ++ bytes_of native 4 (length vs))
            ++ memory_of native (size_of (underlier T)) vs;
        endianness = native;
      })
unfolding serialize_array
serialize_array-layout g native m_level T vs sized supported few =
    let width = size_of (underlier T) in
    let total = 2 + 4 + length vs * width in
    let allowed : (ltb m_level 6 && ltb 2000000000 (length vs)) ≡ false = ground arith in
    let short : leb (1024 * 1024 * 1024 * 4) (length vs) ≡ false = ground arith in
    let bs = g.malloc total in
    let l0 : length bs ≡ total = sized total in
    let b1 = overlay bs 0 (bytes_of native 1 (code T)) in
    let l1 : length b1 ≡ total = length-write native native 1 (code T) bs 0 (omega arith) ∙ l0 in
    let b2 = overlay b1 1 (bytes_of native 1 0) in
    let l2 : length b2 ≡ total = length-write native native 1 0 b1 1 (omega arith) ∙ l1 in
    let b3 = overlay b2 2 (bytes_of native 4 (length vs)) in
    let l3 : length b3 ≡ total = length-write native native 4 (length vs) b2 2 (omega arith) ∙ l2 in
    let values = memory_of native width vs in
    let front : take 6 b3
        ≡ (bytes_of native 1 (code T) ++ bytes_of native 1 0) ++ bytes_of native 4 (length vs) =
      take-write native native 4 (length vs) b2 2 (omega arith)
      ∙ ap (λ l. l ++ bytes_of native 4 (length vs))
          (take-write native native 1 0 b1 1 (omega arith)
            ∙ ap (λ l. l ++ bytes_of native 1 0)
                (take-write native native 1 (code T) bs 0 (omega arith))) in
    rw (
      supported,
      allowed,
      short,
      write-overlay native native 1 (code T) bs 0 (omega arith),
      write-overlay native native 1 0 b1 1 (omega arith),
      write-overlay native native 4 (length vs) b2 2 (omega arith),
      copy_at-end b3 6 values (omega (arith, length-memory_of native width vs)),
      front,
    )

-- With allocations of the size asked for, serializing an atom of one or two bytes of a type that
-- the level supports is undefined: the type is written as four bytes, beyond the end of the buffer.
pub serialize_atom-narrow :
    (g : Garbage) (native : Endian) (m_level : ℕ) (T : QType) (v : ℕ)
    → ((m : ℕ) → length (g.malloc m) ≡ m)
    → supports_type m_level T ≡ ok tt
    → size_of (underlier T) ≤ 2
    → serialize_atom g native m_level T v ≡ undefined
unfolding serialize_atom
serialize_atom-narrow g native m_level T v sized supported narrow =
    let buf : Buffer = record {
      bytes = g.malloc (1 + size_of (underlier T));
      endianness = native;
    } in
    rw (
      supported,
      write_at-undefined native 4 (2 ^ 32 - code T) buf 0
          (omega (arith, sized (1 + size_of (underlier T)))),
    )

-- The type of an atom, where the value covers all bytes that were written for it but the first.
abbrev pub atom_type_byte : Endian → QType → ℕ
atom_type_byte e T = if is_little e then 256 - code T else 255

first_byte :
    (native : Endian) (T : QType) (bs : List ℕ)
    → take 1 (overlay bs 0 (bytes_of native 4 (2 ^ 32 - code T))) ≡ atom_type_byte native T ∷ []
unfolding bytes_of bytes_le
first_byte little T bs = ap (λ b. b ∷ []) (ground (arith, code-IsCode T))
first_byte big T bs = ap (λ b. b ∷ []) (ground (arith, code-IsCode T))

-- With allocations of the size asked for, an atom of four bytes or more of a type that the level
-- supports becomes a byte for its type and its value: on a little-endian machine the byte is the
-- negated code, on a big-endian machine it is 255 for every type.
pub serialize_atom-wide :
    (g : Garbage) (native : Endian) (m_level : ℕ) (T : QType) (v : ℕ)
    → ((m : ℕ) → length (g.malloc m) ≡ m)
    → supports_type m_level T ≡ ok tt
    → 4 ≤ size_of (underlier T)
    → serialize_atom g native m_level T v
      ≡ ok (record {
        bytes = atom_type_byte native T ∷ bytes_of native (size_of (underlier T)) v;
        endianness = native;
      })
unfolding serialize_atom
serialize_atom-wide g native m_level T v sized supported wide =
    let width = size_of (underlier T) in
    let bs = g.malloc (1 + width) in
    let l0 : length bs ≡ 1 + width = sized (1 + width) in
    let src = bytes_of native 4 (2 ^ 32 - code T) in
    let b1 = overlay bs 0 src in
    let l1 : length b1 ≡ 1 + width =
      length-write native native 4 (2 ^ 32 - code T) bs 0 (omega arith) ∙ l0 in
    rw (
      supported,
      write_at-bytes_of native 4 (record { bytes = bs; endianness = native }) 0 (omega arith)
          (2 ^ 32 - code T),
      write_at-bytes_of native width (record { bytes = b1; endianness = native }) 1 (omega arith) v,
      overlay-end b1 1 (bytes_of native width v) (omega (arith, length-bytes_of native width v)),
      first_byte native T bs,
    )
