-- ===== src/Ipc/Compress/Safety.antt =====
-- The whole loop of `compress`, tools/connection/main.cpp.
use qbind.Base.{
  ℕ, zero, suc, ◌+◌, ◌/◌, ◌^◌, ◌<◌, ◌≤◌, ◌≡◌, ◌⊎◌, inl, inr, refl, ap, ◌∙◌, arith, true, false,
  List, [], ◌∷◌,
}
use qbind.Base.Tests.{ltb, ◌==◌, ge→ltb, ltb→lt, Bool-cases}
use qbind.Base.Lists.{length, take}
use qbind.Base.Outcome.{ok}
use qbind.Ipc.{Buffer}
use qbind.Ipc.Compress.{
  sub64, Garbage, Packer, Packed, unchanged, packed, close, pack, first_state, compress,
}
use qbind.Ipc.Compress.Rounds.{put-ok, mask_of, mask_of-zero, Inv, new_block-ok, advance-ok}

-- The result is the input itself or fits in the room that was allocated.
abbrev Fits : ℕ → Packed → Type 0
Fits n unchanged = Unit
Fits n (packed bs) = length bs ≤ n

length-take_le : (m : ℕ) (bs : List ℕ) → length (take m bs) ≤ length bs
length-take_le zero bs = omega arith
length-take_le (suc m) [] = omega arith
length-take_le (suc m) (b ∷ bs) = omega (arith, length-take_le m bs)

module _ (input : List ℕ) (n : ℕ) (long : 3 ≤ length input) (bounded : length input < 2 ^ 63)
    (wide : 17 ≤ n) (small : n < 2 ^ 63) where
  close-ok : (r : ℕ) (s : Packer) → Inv input n r s → (p : Packed) × (close s ≡ ok p) × Fits n p
  unfolding close
  close-ok r s i =
      let (o, e, same) = put-ok s.out s.header_idx s.current_block_header (rw i.room i.header) in
      (packed (take s.out_idx o), rw e, omega (arith, length-take_le s.out_idx o, same, i.room))

  pub pack-ok :
      (fuel r : ℕ) (s : Packer)
      → Inv input n r s
      → length input ≤ s.in_idx + fuel
      → (p : Packed) × (pack input n fuel s ≡ ok p) × Fits n p
  unfolding pack mask_of
  pack-ok zero r s i enough = rw (ge→ltb s.in_idx (length input) (omega arith)) (close-ok r s i)
  pack-ok (suc fuel) zero s i enough = elim (Bool-cases (ltb s.in_idx (length input))) [
    | inr done ↦ rw done (close-ok zero s i)
    | inl going ↦
        let fresh : (s.block_header_mask == 0) ≡ true = ap (λ m. m == 0) i.mask in
        elim (Bool-cases (ltb (sub64 n 17) s.out_idx)) [
          | inl short ↦ (unchanged, rw (going, fresh, short), tt)
          | inr fits ↦
              let (t, et, it, same) = new_block-ok input n long bounded wide small s i fits in
              let (u, eu, iu, more) =
                advance-ok input n long bounded wide small 7 t it
                  (rw same (ltb→lt s.in_idx (length input) going)) in
              let (p, ep, fp) = pack-ok fuel 7 u iu (omega arith) in
              (p, rw (going, fresh, fits, et, eu, ep), fp)
        ]
  ]
  pack-ok (suc fuel) (suc r) s i enough = elim (Bool-cases (ltb s.in_idx (length input))) [
    | inr done ↦ rw done (close-ok (suc r) s i)
    | inl going ↦
        let within : (s.block_header_mask == 0) ≡ false =
          ap (λ m. m == 0) i.mask ∙ mask_of-zero (suc r) i.rounds ∙ ground arith in
        let (u, eu, iu, more) =
          advance-ok input n long bounded wide small r s i (ltb→lt s.in_idx (length input) going) in
        let (p, ep, fp) = pack-ok fuel r u iu (omega arith) in (p, rw (going, within, eu, ep), fp)
  ]

pub first_state-Inv :
    (g : Garbage) (input : List ℕ)
    → 26 ≤ length input
    → ((m : ℕ) → length (g.malloc m) ≡ m)
    → ((y : ℕ) → g.cache y ≡ 0)
    → Inv input ((8 + length input) / 2) 0 (first_state g ((8 + length input) / 2))
unfolding mask_of
first_state-Inv g input long sized zeros = record {
  room = sized ((8 + length input) / 2);
  rounds = omega arith;
  mask = refl;
  inside = omega arith;
  prev = omega arith;
  header = omega arith;
  free = omega arith;
  cached = λ y. omega (arith, zeros y);
}

-- On a payload of 26 bytes or more and less than 2 ^ 63, with a cache that holds only zeros and
-- allocations of the size asked for, `compress` has no undefined behaviour and ends: it returns its
-- argument, or a buffer in the same byte order of at most (8 + size) / 2 bytes.
pub compress-fits :
    (g : Garbage) (b : Buffer)
    → 26 ≤ length b.bytes
    → length b.bytes < 2 ^ 63
    → ((m : ℕ) → length (g.malloc m) ≡ m)
    → ((y : ℕ) → g.cache y ≡ 0)
    → (r : Buffer) × (compress g b ≡ ok r)
      × (r.endianness ≡ b.endianness)
      × ((r ≡ b) ⊎ (length r.bytes ≤ (8 + length b.bytes) / 2))
unfolding compress
compress-fits g b long bounded sized zeros =
    let n = (8 + length b.bytes) / 2 in
    let at_first = first_state-Inv g b.bytes long sized zeros in
    let (p, e, fits) =
      pack-ok b.bytes n (omega arith) bounded (omega arith) (omega arith) (length b.bytes) 0
        (first_state g n) at_first (omega arith) in
    result p e fits
  where
    result :
        (p : Packed)
        → pack b.bytes
            ((8 + length b.bytes) / 2)
            (length b.bytes)
            (first_state g ((8 + length b.bytes) / 2))
          ≡ ok p
        → Fits ((8 + length b.bytes) / 2) p
        → (r : Buffer) × (compress g b ≡ ok r)
          × (r.endianness ≡ b.endianness)
          × ((r ≡ b) ⊎ (length r.bytes ≤ (8 + length b.bytes) / 2))
    result unchanged e fits = (b, rw e, refl, inl refl)
    result (packed bs) e fits = (record b { bytes = bs }, rw e, refl, inr fits)
