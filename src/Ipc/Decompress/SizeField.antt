-- ===== src/Ipc/Decompress/SizeField.antt =====
-- Which bytes of its input `decompress` reads (tools/connection/main.cpp).
use qbind.Base.{
  ℕ, zero, suc, ◌+◌, ◌-◌, ◌≤◌, ◌≡◌, refl, sym, ap, ◌∙◌, arith, Bool, true, false, List, [], ◌∷◌,
  ◌++◌, inl, inr,
}
use qbind.Base.Tests.{ltb, ◌==◌, if◌then◌else◌, Bool-cases}
use qbind.Base.Lists.{length, drop, length-append}
use qbind.Base.Outcome.{Outcome, ok, throw, undefined, terminated, ◌>>=◌, >>=-eq-ok}
use qbind.Ipc.{Endian, read_at}
use qbind.Ipc.Compress.{Garbage, byte_at, put, sub64}
use qbind.Ipc.Decompress.{
  Unpacker, copy_within, fill_cache, next_header, is_run, copy_run, copy_byte, after_copy,
  unpack_round, unpack, width_of, decompress, first_state,
}

drop-same :
    (xs ys rest : List ℕ) (i : ℕ)
    → length xs ≡ length ys
    → length xs ≤ i
    → drop i (xs ++ rest) ≡ drop i (ys ++ rest)
drop-same [] [] rest i h le = refl
drop-same [] (y ∷ ys) rest i h le = absurd (omega arith)
drop-same (x ∷ xs) [] rest i h le = absurd (omega arith)
drop-same (x ∷ xs) (y ∷ ys) rest zero h le = absurd (omega arith)
drop-same (x ∷ xs) (y ∷ ys) rest (suc i) h le = drop-same xs ys rest i (omega arith) (omega arith)

byte_at-same :
    (xs ys rest : List ℕ) (i : ℕ)
    → length xs ≡ length ys
    → length xs ≤ i
    → byte_at (xs ++ rest) i ≡ byte_at (ys ++ rest) i
unfolding byte_at
byte_at-same [] [] rest i h le = refl
byte_at-same [] (y ∷ ys) rest i h le = absurd (omega arith)
byte_at-same (x ∷ xs) [] rest i h le = absurd (omega arith)
byte_at-same (x ∷ xs) (y ∷ ys) rest zero h le = absurd (omega arith)
byte_at-same (x ∷ xs) (y ∷ ys) rest (suc i) h le =
    byte_at-same xs ys rest i (omega arith) (omega arith)

module _ (xs ys rest : List ℕ) (same : length xs ≡ length ys) where
  next_header-same :
      (s : Unpacker)
      → length xs ≤ s.in_idx
      → next_header (xs ++ rest) s ≡ next_header (ys ++ rest) s
  unfolding next_header
  next_header-same s le = rw (byte_at-same xs ys rest s.in_idx same le)

  copy-same :
      (s : Unpacker)
      → length xs ≤ s.in_idx
      → (copy_run (xs ++ rest) s ≡ copy_run (ys ++ rest) s)
        × (copy_byte (xs ++ rest) s ≡ copy_byte (ys ++ rest) s)
  unfolding copy_run copy_byte
  copy-same s le =
      let first = byte_at-same xs ys rest s.in_idx same le in
      let second = byte_at-same xs ys rest (s.in_idx + 1) same (omega arith) in
      (rw (first, second), rw first)

pub bind-same :
    {A B : Type 0} (m : Outcome A) (f g : A → Outcome B)
    → ((a : A) → m ≡ ok a → f a ≡ g a)
    → (m >>= f) ≡ (m >>= g)
bind-same (ok a) f g h = h a refl
bind-same (throw e) f g h = refl
bind-same undefined f g h = refl
bind-same terminated f g h = refl

next_header-le :
    (input : List ℕ) (s t : Unpacker) → next_header input s ≡ ok t → s.in_idx ≤ t.in_idx
unfolding next_header
next_header-le input s t h = elim (Bool-cases (s.block_header_mask == 0)) [
  | inl new ↦
      let (b, e, made) = >>=-eq-ok (byte_at input s.in_idx) _ (rw new at h) in ground (arith, made)
  | inr old ↦ ground arith
]

copy_run-le :
    (input : List ℕ) (s : Unpacker) (t : Unpacker × ℕ)
    → copy_run input s ≡ ok t
    → s.in_idx ≤ t.0.in_idx
unfolding copy_run
copy_run-le input s t h =
    let (x, ex, h1) = >>=-eq-ok (byte_at input s.in_idx) _ h in
    let (n, en, h2) = >>=-eq-ok (byte_at input (s.in_idx + 1)) _ h1 in
    let (o, eo, h3) = >>=-eq-ok (copy_within s.out s.out_idx (s.xor_offset_cache x) (2 + n)) _ h2 in
    ground (arith, h3)

copy_byte-le :
    (input : List ℕ) (s : Unpacker) (t : Unpacker × ℕ)
    → copy_byte input s ≡ ok t
    → s.in_idx ≤ t.0.in_idx
unfolding copy_byte
copy_byte-le input s t h =
    let (a, ea, h1) = >>=-eq-ok (byte_at input s.in_idx) _ h in
    let (o, eo, h2) = >>=-eq-ok (put s.out s.out_idx a) _ h1 in ground (arith, h2)

after_copy-le : (s : Unpacker) (n : ℕ) (t : Unpacker) → after_copy s n ≡ ok t → s.in_idx ≤ t.in_idx
unfolding after_copy
after_copy-le s n t h =
    let v = s.cache_valid_to_idx in
    let (c, ec, h1) = >>=-eq-ok (fill_cache s.out (s.out_idx - 1 - v) v s.xor_offset_cache) _ h in
    ground (arith, h1)

abbrev pub copied : Bool → List ℕ → Unpacker → Outcome (Unpacker × ℕ)
copied b input s = if b then copy_run input s else copy_byte input s

copied-le :
    (b : Bool) (input : List ℕ) (s : Unpacker) (t : Unpacker × ℕ)
    → copied b input s ≡ ok t
    → s.in_idx ≤ t.0.in_idx
copied-le true input s t h = copy_run-le input s t h
copied-le false input s t h = copy_byte-le input s t h

unpack_round-le :
    (input : List ℕ) (s t : Unpacker) → unpack_round input s ≡ ok t → s.in_idx ≤ t.in_idx
unfolding unpack_round
unpack_round-le input s t h =
    let (a, ea, h1) = >>=-eq-ok (next_header input s) _ h in
    let (b, eb, h2) = >>=-eq-ok (copied (is_run a) input a) _ h1 in
    omega (
      arith,
      next_header-le input s a ea,
      copied-le (is_run a) input a b eb,
      after_copy-le b.0 b.1 t h2,
    )

module _ (xs ys rest : List ℕ) (same : length xs ≡ length ys) where
  copied-same :
      (b : Bool) (s : Unpacker)
      → length xs ≤ s.in_idx
      → copied b (xs ++ rest) s ≡ copied b (ys ++ rest) s
  copied-same true s le = (copy-same xs ys rest same s le).0
  copied-same false s le = (copy-same xs ys rest same s le).1

  unpack_round-same :
      (s : Unpacker)
      → length xs ≤ s.in_idx
      → unpack_round (xs ++ rest) s ≡ unpack_round (ys ++ rest) s
  unfolding unpack_round
  unpack_round-same s le = rw (next_header-same xs ys rest same s le) (
      bind-same (next_header (ys ++ rest) s) _ _
        (λ t e. rw (copied-same (is_run t) t (omega (arith, next_header-le (ys ++ rest) s t e)))))

  unpack-same :
      (n fuel : ℕ) (s : Unpacker)
      → length xs ≤ s.in_idx
      → unpack (xs ++ rest) n fuel s ≡ unpack (ys ++ rest) n fuel s
  unfolding unpack
  unpack-same n zero s le = refl
  unpack-same n (suc fuel) s le = rw (unpack_round-same s le) (
      ap (λ m. if ltb s.out_idx n then m else ok s)
        (bind-same (unpack_round (ys ++ rest) s) _ _
          (λ t e. unpack-same n fuel t (omega (arith, unpack_round-le (ys ++ rest) s t e)))))

read_at-same :
    (native e : Endian) (w : ℕ) (xs ys rest : List ℕ)
    → length xs ≡ length ys
    → length xs ≤ 8
    → read_at native w (record { bytes = xs ++ rest; endianness = e }) 8
      ≡ read_at native w (record { bytes = ys ++ rest; endianness = e }) 8
unfolding read_at
read_at-same native e w xs ys rest h le =
    let long : length (xs ++ rest) ≡ length (ys ++ rest) =
      omega (arith, length-append xs rest, length-append ys rest) in
    rw (long, drop-same xs ys rest 8 h le)

width_of-le : (level : ℕ) → width_of level ≤ 8
width_of-le level = ground arith

-- The result of `decompress` does not depend on the leading 4 bytes (8 at a level other than 1) of
-- its input, where the sender puts the size of the message.
pub decompress-ignores_size :
    (g : Garbage) (native e : Endian) (level : ℕ) (xs ys rest : List ℕ)
    → length xs ≡ width_of level
    → length ys ≡ width_of level
    → decompress g native (record { bytes = xs ++ rest; endianness = e }) level
      ≡ decompress g native (record { bytes = ys ++ rest; endianness = e }) level
unfolding decompress
decompress-ignores_size g native e level xs ys rest h h' =
    let size =
      read_at-same native e (width_of level) xs ys rest (h ∙ sym h') (rw h (width_of-le level)) in
    rw size (
      bind-same (read_at native (width_of level) (record { bytes = ys ++ rest; endianness = e }) 8)
        _ _
        (λ n en.
          let l = sub64 (sub64 n 8) (width_of level) in
          rw (unpack-same xs ys rest (h ∙ sym h') l l (first_state g l level) (omega (arith, h)))))
