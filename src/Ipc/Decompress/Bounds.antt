-- ===== src/Ipc/Decompress/Bounds.antt =====
-- How much `decompress` writes, and that its loop ends (tools/connection/main.cpp).
use qbind.Base.{
  ℕ, zero, suc, ◌+◌, ◌-◌, ◌≤◌, ◌<◌, ◌≡◌, ◌≢◌, refl, sym, ap, ◌∙◌, arith, Bool, true, false, ◌||◌,
  ◌&&◌, List, [], ◌∷◌, inl, inr,
}
use qbind.Base.Tests.{ltb, ◌==◌, Bool-cases}
use qbind.Base.Lists.{length, take, drop, set, get_elem?-ge}
use qbind.Base.Outcome.{ok, >>=-eq-ok}
use qbind.Ipc.{Endian, Buffer, copy_at, read_at}
use qbind.Ipc.Access.{overlay, length-overlay, length-take_of_le, length-drop}
use qbind.Ipc.Compress.{Garbage, byte_at, put, sub64}
use qbind.Ipc.Decompress.SizeField.{copied}
use qbind.Ipc.Decompress.{
  Unpacker, copy_within, fill_cache, next_header, is_run, copy_run, copy_byte, after_copy,
  unpack_round, unpack, width_of, decompress, first_state,
}

ok-eq : {A : Type 0} {a b : A} → ok a ≡ ok b → a ≡ b
ok-eq h = cc

length-set : (bs : List ℕ) (i v : ℕ) → length (set bs i v) ≡ length bs
length-set [] i v = refl
length-set (b ∷ bs) zero v = refl
length-set (b ∷ bs) (suc i) v = ap suc (length-set bs i v)

-- A write that is defined is within bounds and changes no length.
copy_at-within :
    (bs : List ℕ) (i : ℕ) (src o : List ℕ)
    → copy_at bs i src ≡ ok o
    → (length o ≡ length bs) × (i + length src ≤ length bs)
unfolding copy_at
copy_at-within bs i src o h = elim (Bool-cases (ltb (length bs) (i + length src))) [
  | inl beyond ↦ absurd (ground arith)
  | inr within ↦
      let fits : i + length src ≤ length bs = ground arith in
      let made : ok (overlay bs i src) ≡ ok o = rw within at h in
      (ap length (sym (ok-eq made)) ∙ length-overlay bs i src fits, fits)
]

copy_within-within :
    (out : List ℕ) (to from n : ℕ) (o : List ℕ)
    → copy_within out to from n ≡ ok o
    → (length o ≡ length out) × (to + n ≤ length out)
unfolding copy_within
copy_within-within out to from n o h =
    let overlaps = ltb from (to + n) && ltb to (from + n) in
    elim (Bool-cases (ltb (length out) (from + n) || overlaps)) [
      | inl bad ↦ absurd (ground arith)
      | inr good ↦
          let there : from + n ≤ length out = ground arith in
          let moved = take n (drop from out) in
          let size : length moved ≡ n =
            length-take_of_le n (drop from out) (omega (arith, length-drop from out)) in
          let (same, fits) = copy_at-within out to moved o (rw good at h) in
          (same, omega (arith, size, fits))
    ]

put-within :
    (bs : List ℕ) (i v : ℕ) (o : List ℕ)
    → put bs i v ≡ ok o
    → (length o ≡ length bs) × (i < length bs)
unfolding put
put-within bs i v o h = elim (Bool-cases (ltb i (length bs))) [
  | inl inside ↦
      let made : ok (set bs i v) ≡ ok o = rw inside at h in
      (ap length (sym (ok-eq made)) ∙ length-set bs i v, ground arith)
  | inr beyond ↦ absurd (ground arith)
]

-- What a part of a round does to the indices: the bytes of a run come on top of what is written.
pub record IsStep (s t : Unpacker) (later : ℕ) : Type 0 where
  pub same : length t.out ≡ length s.out
  pub further : s.out_idx < t.out_idx
  pub within : t.out_idx + later ≤ length t.out

next_header-kept :
    (input : List ℕ) (s t : Unpacker)
    → next_header input s ≡ ok t
    → (t.out ≡ s.out) × (t.out_idx ≡ s.out_idx) × (t.cache_valid_to_idx ≡ s.cache_valid_to_idx)
unfolding next_header
next_header-kept input s t h = elim (Bool-cases (s.block_header_mask == 0)) [
  | inl new ↦
      let (b, e, made) = >>=-eq-ok (byte_at input s.in_idx) _ (rw new at h) in
      (ground (arith, made), ground (arith, made), ground (arith, made))
  | inr old ↦ (ground arith, ground arith, ground arith)
]

copy_run-IsStep :
    (input : List ℕ) (s : Unpacker) (t : Unpacker × ℕ) → copy_run input s ≡ ok t → IsStep s t.0 t.1
unfolding copy_run
copy_run-IsStep input s t h =
    let (x, ex, h1) = >>=-eq-ok (byte_at input s.in_idx) _ h in
    let (n, en, h2) = >>=-eq-ok (byte_at input (s.in_idx + 1)) _ h1 in
    let from = s.xor_offset_cache x in
    let (o, eo, h3) = >>=-eq-ok (copy_within s.out s.out_idx from (2 + n)) _ h2 in
    let (same, fits) = copy_within-within s.out s.out_idx from (2 + n) o eo in
    record {
      same = ground (arith, h3, same);
      further = ground (arith, h3);
      within = ground (arith, h3, same, fits);
    }

copy_byte-IsStep :
    (input : List ℕ) (s : Unpacker) (t : Unpacker × ℕ) → copy_byte input s ≡ ok t → IsStep s t.0 t.1
unfolding copy_byte
copy_byte-IsStep input s t h =
    let (a, ea, h1) = >>=-eq-ok (byte_at input s.in_idx) _ h in
    let (o, eo, h2) = >>=-eq-ok (put s.out s.out_idx a) _ h1 in
    let (same, fits) = put-within s.out s.out_idx a o eo in
    record {
      same = ground (arith, h2, same);
      further = ground (arith, h2);
      within = ground (arith, h2, same, fits);
    }

after_copy-end :
    (s : Unpacker) (n : ℕ) (t : Unpacker)
    → after_copy s n ≡ ok t
    → (t.out ≡ s.out) × (s.out_idx ≤ t.out_idx) × (t.out_idx ≤ s.out_idx + n)
unfolding after_copy
after_copy-end s n t h =
    let v = s.cache_valid_to_idx in
    let (c, ec, h1) = >>=-eq-ok (fill_cache s.out (s.out_idx - 1 - v) v s.xor_offset_cache) _ h in
    (ground (arith, h1), ground (arith, h1), ground (arith, h1))

copied-IsStep :
    (b : Bool) (input : List ℕ) (s : Unpacker) (t : Unpacker × ℕ)
    → copied b input s ≡ ok t
    → IsStep s t.0 t.1
copied-IsStep true input s t h = copy_run-IsStep input s t h
copied-IsStep false input s t h = copy_byte-IsStep input s t h

pub unpack_round-IsStep :
    (input : List ℕ) (s t : Unpacker) → unpack_round input s ≡ ok t → IsStep s t 0
unfolding unpack_round
unpack_round-IsStep input s t h =
    let (a, ea, h1) = >>=-eq-ok (next_header input s) _ h in
    let (b, eb, h2) = >>=-eq-ok (copied (is_run a) input a) _ h1 in
    let (kept, there, _) = next_header-kept input s a ea in
    let step = copied-IsStep (is_run a) input a b eb in
    let (out, low, high) = after_copy-end b.0 b.1 t h2 in
    let first : length a.out ≡ length s.out = ap length kept in
    let last : length t.out ≡ length b.0.out = ap length out in
    record {
      same = omega (arith, first, last, step.same);
      further = omega (arith, there, low, step.further);
      within = omega (arith, last, high, step.within);
    }

unpack-end :
    (input : List ℕ) (out_length fuel : ℕ) (s t : Unpacker)
    → length s.out ≡ out_length
    → s.out_idx ≤ out_length
    → unpack input out_length fuel s ≡ ok t
    → (length t.out ≡ out_length) × (t.out_idx ≡ out_length)
unfolding unpack
unpack-end input n zero s t size le h = elim (Bool-cases (ltb s.out_idx n)) [
  | inl short ↦ absurd (ground arith)
  | inr done ↦ (ground arith, ground arith)
]
unpack-end input n (suc fuel) s t size le h = elim (Bool-cases (ltb s.out_idx n)) [
  | inl short ↦
      let (u, eu, h1) = >>=-eq-ok (unpack_round input s) _ (rw short at h) in
      let step = unpack_round-IsStep input s u eu in
      unpack-end input n fuel u t (step.same ∙ size) (omega (arith, step.same, step.within)) h1
  | inr done ↦ (ground arith, ground arith)
]

-- With allocations of the size asked for, if `decompress` returns a buffer, then it has as many
-- bytes as the field that is read for the size says, less 8 and the width of that field, modulo 2 ^
-- 64, and the byte order of its input.
pub decompress-length :
    (g : Garbage) (native : Endian) (level : ℕ) (in_buff b : Buffer)
    → ((m : ℕ) → length (g.malloc m) ≡ m)
    → decompress g native in_buff level ≡ ok b
    → (size : ℕ) × (read_at native (width_of level) in_buff 8 ≡ ok size)
      × (length b.bytes ≡ sub64 (sub64 size 8) (width_of level))
      × (b.endianness ≡ in_buff.endianness)
unfolding decompress
decompress-length g native level in_buff b sized h =
    let (n, en, h1) = >>=-eq-ok (read_at native (width_of level) in_buff 8) _ h in
    let l = sub64 (sub64 n 8) (width_of level) in
    let s = first_state g l level in
    let (t, et, h2) = >>=-eq-ok (unpack in_buff.bytes l l s) _ h1 in
    let (whole, reached) = unpack-end in_buff.bytes l l s t (sized l) (omega arith) et in
    let made : record in_buff { bytes = take t.out_idx t.out } ≡ b = ok-eq h2 in
    (
      n,
      en,
      ap (λ (x : Buffer). length x.bytes) (sym made)
          ∙ length-take_of_le t.out_idx t.out (omega (arith, whole, reached))
          ∙ reached,
      ap (λ (x : Buffer). x.endianness) (sym made),
    )

-- The loop that fills the cache reads the byte behind the one that is the second of the pair.
fill_cache-past_end :
    (out : List ℕ) (v : ℕ) (c c' : ℕ → ℕ) → length out ≤ v + 2 → fill_cache out 1 v c ≢ ok c'
unfolding fill_cache byte_at
fill_cache-past_end out v c c' short h =
    let (a, ea, h1) = >>=-eq-ok (byte_at out (v + 1)) _ h in
    let (b, eb, h2) = >>=-eq-ok (byte_at out (v + 2)) _ h1 in cc (get_elem?-ge out (v + 2) short)

-- Behind a byte that was copied, another one that completes the output is undefined: the loop that
-- fills the cache reads the byte behind the output.
unpack_round-past_end :
    (input : List ℕ) (s t u : Unpacker)
    → s.cache_valid_to_idx + 1 ≡ s.out_idx
    → length s.out ≡ s.out_idx + 1
    → next_header input s ≡ ok t
    → is_run t ≡ false
    → unpack_round input s ≢ ok u
unfolding unpack_round copy_byte after_copy
unpack_round-past_end input s t u valid last header plain h =
    let (kept, there, still) = next_header-kept input s t header in
    let (b, eb, h1) = >>=-eq-ok (copy_byte input t) _ (rw (header, plain) at h) in
    let (x, ex, h2) = >>=-eq-ok (byte_at input t.in_idx) _ eb in
    let (o, eo, h3) = >>=-eq-ok (put t.out t.out_idx x) _ h2 in
    let (same, fits) = put-within t.out t.out_idx x o eo in
    let v = b.0.cache_valid_to_idx in
    let (c, ec, h4) =
      >>=-eq-ok (fill_cache b.0.out (b.0.out_idx - 1 - v) v b.0.xor_offset_cache) _ h1 in
    let made : b.0 ≡ record t { out = o; in_idx = t.in_idx + 1; out_idx = t.out_idx + 1 } =
      ap (λ (p : Unpacker × ℕ). p.0) (sym (ok-eq h3)) in
    let length_o : length b.0.out ≡ length o = ap (λ (p : Unpacker). length p.out) made in
    let end : b.0.out_idx ≡ t.out_idx + 1 = ap (λ (p : Unpacker). p.out_idx) made in
    let cached : v ≡ t.cache_valid_to_idx = ap (λ (p : Unpacker). p.cache_valid_to_idx) made in
    let long : length t.out ≡ length s.out = ap length kept in
    let once : b.0.out_idx - 1 - v ≡ 1 = omega arith in
    fill_cache-past_end b.0.out v b.0.xor_offset_cache c (omega arith) (rw once at ec)
