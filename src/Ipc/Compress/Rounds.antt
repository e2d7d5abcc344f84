-- ===== src/Ipc/Compress/Rounds.antt =====
-- One round of the loop of `compress`, tools/connection/main.cpp.
use qbind.Base.{
  ℕ, zero, suc, ◌+◌, ◌-◌, ◌*◌, ◌%◌, ◌^◌, ◌<◌, ◌≤◌, min, ◌≡◌, inl, inr, refl, ap, ◌∙◌, arith, true,
  false, List, [], ◌∷◌,
}
use Prim.Native.Nat.{bit_xor, bit_or}
use qbind.Base.Tests.{ltb, ◌==◌, ◌!=◌, lt→ltb, ltb→ge, if◌then◌else◌, Bool-cases}
use qbind.Base.Lists.{length, get_elem?-lt, set}
use qbind.Base.Outcome.{ok}
use qbind.Ipc.Compress.{
  sub64, byte_at, put, Packer, cache_set, new_block, Look, look, remember, literal, run_end, run,
  advance,
}

pub length-set : (bs : List ℕ) (i v : ℕ) → length (set bs i v) ≡ length bs
length-set [] i v = refl
length-set (b ∷ bs) zero v = refl
length-set (b ∷ bs) (suc i) v = ap suc (length-set bs i v)

byte_at-ok : (bs : List ℕ) (i : ℕ) → i < length bs → (a : ℕ) × (byte_at bs i ≡ ok a)
unfolding byte_at
byte_at-ok bs i h = let (a, e) = get_elem?-lt bs i h in (a, rw e)

pub put-ok :
    (bs : List ℕ) (i v : ℕ)
    → i < length bs
    → (bs' : List ℕ) × (put bs i v ≡ ok bs') × (length bs' ≡ length bs)
unfolding put
put-ok bs i v h = (set bs i v, rw (lt→ltb i (length bs) h), length-set bs i v)

run_end-ok :
    (input : List ℕ) (left p q : ℕ)
    → p ≤ q
    → q + left < length input
    → (q' : ℕ) × (run_end input left p q ≡ ok q') × (q ≤ q') × (q' ≤ q + left + 1)
unfolding run_end
run_end-ok input zero p q le lt =
    let (a, ea) = byte_at-ok input p (omega arith) in
    let (b, eb) = byte_at-ok input q (omega arith) in
    elim (Bool-cases (a == b)) [
      | inl same ↦ (q + 1, rw (ea, eb, same), omega arith, omega arith)
      | inr differ ↦ (q, rw (ea, eb, differ), omega arith, omega arith)
    ]
run_end-ok input (suc left) p q le lt =
    let (a, ea) = byte_at-ok input p (omega arith) in
    let (b, eb) = byte_at-ok input q (omega arith) in
    let (q', e, low, high) = run_end-ok input left (p + 1) (q + 1) (omega arith) (omega arith) in
    elim (Bool-cases (a == b)) [
      | inl same ↦ (q', rw (ea, eb, same, e), omega arith, omega arith)
      | inr differ ↦ (q, rw (ea, eb, differ), omega arith, omega arith)
    ]

-- The mask with `r` rounds of the block to go.
unfoldable pub mask_of : ℕ → ℕ
mask_of r =
    if r == 8
    then 1
    else if r == 7
    then 2
    else if r == 6
    then 4
    else if r == 5
    then 8
    else if r == 4
    then 16
    else if r == 3
    then 32
    else if r == 2
    then 64
    else if r == 1
    then 128
    else 0

mask_of-next : (r : ℕ) → r < 8 → mask_of (suc r) * 2 % 256 ≡ mask_of r
unfolding mask_of
mask_of-next r h = ground arith

pub mask_of-zero : (r : ℕ) → r ≤ 8 → (mask_of r == 0) ≡ (r == 0)
unfolding mask_of
mask_of-zero r h = ground arith

-- At the head of the loop, with `r` rounds of the block to go.
pub record Inv (input : List ℕ) (n r : ℕ) (s : Packer) : Type 0 where
  pub room : length s.out ≡ n
  pub rounds : r ≤ 8
  pub mask : s.block_header_mask ≡ mask_of r
  pub inside : s.in_idx ≤ length input
  pub prev : s.in_idx_prev ≤ s.in_idx
  pub header : s.header_idx < n
  pub free : s.out_idx + 2 * r ≤ n
  pub cached : (y : ℕ) → s.xor_offset_cache y ≤ s.in_idx

module _ (input : List ℕ) (n : ℕ) (long : 3 ≤ length input) (bounded : length input < 2 ^ 63)
    (wide : 17 ≤ n) (small : n < 2 ^ 63) where
  pub new_block-ok :
      (s : Packer)
      → Inv input n 0 s
      → ltb (sub64 n 17) s.out_idx ≡ false
      → (t : Packer) × (new_block s ≡ ok t) × Inv input n 8 t × (t.in_idx ≡ s.in_idx)
  unfolding new_block mask_of
  new_block-ok s i enough =
      let free = ltb→ge (sub64 n 17) s.out_idx enough in
      let (o, e, same) = put-ok s.out s.header_idx s.current_block_header (rw i.room i.header) in
      (
        record s {
          out = o;
          block_header_mask = 1;
          current_block_header = 0;
          header_idx = s.out_idx;
          out_idx = s.out_idx + 1;
        },
        rw e,
        record {
          room = same ∙ i.room;
          rounds = omega arith;
          mask = refl;
          inside = i.inside;
          prev = i.prev;
          header = omega arith;
          free = omega arith;
          cached = i.cached;
        },
        refl,
      )

  remember-Inv :
      (r : ℕ) (s : Packer)
      → Inv input n r s
      → Inv input n r (remember s) × ((remember s).in_idx ≡ s.in_idx)
  unfolding remember
  remember-Inv r s i = elim (Bool-cases (s.in_idx_prev == 0)) [
    | inl none_yet ↦ rw none_yet (i, refl)
    | inr pending ↦ rw pending (
      record {
        room = i.room;
        rounds = i.rounds;
        mask = i.mask;
        inside = i.inside;
        prev = omega arith;
        header = i.header;
        free = i.free;
        cached = λ y. ground (arith, i.cached y, i.prev);
      },
      refl,
    )
  ]

  look-ok :
      (r : ℕ) (s : Packer)
      → Inv input n r s
      → s.in_idx < length input
      → (l : Look) × (look input s ≡ ok l)
        × (l.invalidate_cache ≡ false → (s.in_idx + 3 ≤ length input) × (l.prev_idx ≤ s.in_idx))
  unfolding look
  look-ok r s i lt = elim (Bool-cases (ltb (sub64 (length input) 3) s.in_idx)) [
    | inl near ↦
        (record { invalidate_cache = true; offset = s.xor_offset; prev_idx = 0 }, rw near, λ h. cc)
    | inr far ↦
        let within : s.in_idx + 3 ≤ length input =
          (let ge = ltb→ge (sub64 (length input) 3) s.in_idx far in omega arith) in
        let (a, ea) = byte_at-ok input s.in_idx lt in
        let (b, eb) = byte_at-ok input (s.in_idx + 1) (omega arith) in
        let p = s.xor_offset_cache (bit_xor a b) in
        let (c, ec) = byte_at-ok input p (let le = i.cached (bit_xor a b) in omega arith) in
        elim (Bool-cases (p == 0)) [
          | inl new ↦ (
            record { invalidate_cache = true; offset = bit_xor a b; prev_idx = p },
            rw (far, ea, eb, new),
            λ h. cc,
          )
          | inr old ↦ (
            record { invalidate_cache = a != c; offset = bit_xor a b; prev_idx = p },
            rw (far, ea, eb, old, ec),
            λ h. (within, i.cached (bit_xor a b)),
          )
        ]
  ]

  -- The mask moves on at the end of a round.
  abbrev shifted : Packer → Packer
  shifted t = record t { block_header_mask = t.block_header_mask * 2 % 256 }

  literal-ok :
      (r x : ℕ) (s : Packer)
      → Inv input n (suc r) s
      → s.in_idx < length input
      → (t : Packer) × (literal input x s ≡ ok t)
        × Inv input n r (shifted t)
        × (s.in_idx < t.in_idx)
  unfolding literal
  literal-ok r x s i lt =
      let (a, ea) = byte_at-ok input s.in_idx lt in
      let (o, e, same) = put-ok s.out s.out_idx a (let free = i.free in rw i.room (omega arith)) in
      (
        record s {
          out = o;
          xor_offset = x;
          xor_offset_prev = x;
          in_idx_prev = s.in_idx;
          out_idx = s.out_idx + 1;
          in_idx = s.in_idx + 1;
        },
        rw (ea, e),
        record {
          room = same ∙ i.room;
          rounds = (let le = i.rounds in omega arith);
          mask = ap (λ m. m * 2 % 256) i.mask ∙ mask_of-next r i.rounds;
          inside = omega arith;
          prev = omega arith;
          header = i.header;
          free = (let le = i.free in omega arith);
          cached = λ y. let le = i.cached y in omega arith;
        },
        omega arith,
      )

  run-ok :
      (r x p : ℕ) (s : Packer)
      → Inv input n (suc r) s
      → s.in_idx + 3 ≤ length input
      → p ≤ s.in_idx
      → (t : Packer) × (run input x p s ≡ ok t) × Inv input n r (shifted t) × (s.in_idx < t.in_idx)
  unfolding run
  run-ok r x p s i within le =
      let start = s.in_idx + 2 in
      let until = min (start + 255) (length input) in
      let (q, eq, low, high) =
        run_end-ok input (until - (start + 1)) (p + 2) start (omega arith) (omega arith) in
      let (o, e, same) = put-ok s.out s.out_idx x (let free = i.free in rw i.room (omega arith)) in
      let (o', e', same') =
        put-ok o (s.out_idx + 1) ((q - start) % 256)
          (let free = i.free in rw (same, i.room) (omega arith)) in
      (
        record s {
          out = o';
          xor_offset = x;
          xor_offset_cache = cache_set s.xor_offset_cache x s.in_idx;
          current_block_header = bit_or s.current_block_header s.block_header_mask;
          in_idx = q;
          out_idx = s.out_idx + 2;
        },
        rw (eq, e, e'),
        record {
          room = same' ∙ same ∙ i.room;
          rounds = (let few = i.rounds in omega arith);
          mask = ap (λ m. m * 2 % 256) i.mask ∙ mask_of-next r i.rounds;
          inside = omega arith;
          prev = (let old = i.prev in omega arith);
          header = i.header;
          free = (let enough = i.free in omega arith);
          cached = λ y. let old = i.cached y in ground arith;
        },
        omega arith,
      )

  pub advance-ok :
      (r : ℕ) (s : Packer)
      → Inv input n (suc r) s
      → s.in_idx < length input
      → (t : Packer) × (advance input s ≡ ok t) × Inv input n r t × (s.in_idx < t.in_idx)
  unfolding advance
  advance-ok r s i lt =
      let (l, e, found) = look-ok (suc r) s i lt in
      let (i', same) = remember-Inv (suc r) s i in
      elim (Bool-cases l.invalidate_cache) [
        | inl new ↦
            let (t, et, it, more) = literal-ok r l.offset (remember s) i' (rw same lt) in
            (shifted t, rw (e, new, et), it, rw same at more)
        | inr old ↦
            let (within, le) = found old in
            let (t, et, it, more) =
              run-ok r l.offset l.prev_idx (remember s) i' (rw same within) (rw same le) in
            (shifted t, rw (e, old, et), it, rw same at more)
      ]
