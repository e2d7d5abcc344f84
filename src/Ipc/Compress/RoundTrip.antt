-- ===== src/Ipc/Compress/RoundTrip.antt =====
-- A payload from `compress` of tools/connection/main.cpp, in the hands of a peer that reads the
-- format.
use qbind.Base.{
  ℕ, zero, suc, ◌+◌, ◌/◌, ◌^◌, ◌<◌, ◌≤◌, ◌≡◌, ◌≢◌, ◌⊎◌, inl, inr, refl, ap, ◌∙◌, arith, true, false,
  List,
}
use qbind.Base.Tests.{ltb, ◌==◌, ltb→lt, ltb→ge, Bool-cases}
use qbind.Base.Lists.{length}
use qbind.Base.Outcome.{ok}
use qbind.Ipc.{Buffer}
use qbind.Ipc.Compress.{
  sub64, Garbage, Packer, Packed, unchanged, packed, pack, first_state, compress,
}
use qbind.Ipc.Compress.Rounds.{mask_of, mask_of-zero, Inv, new_block-ok, advance-ok}
use qbind.Ipc.Compress.Block.{Reads}
use qbind.Ipc.Compress.Safety.{pack-ok, first_state-Inv}
use qbind.Ipc.Compress.Format.{restore}
use qbind.Ipc.Compress.Written.{close-Reads, advance-Reads, new_block-Reads}

module _ (input : List ℕ) (n : ℕ) (long : 3 ≤ length input) (bounded : length input < 2 ^ 63)
    (wide : 17 ≤ n) (small : n < 2 ^ 63) where
  pack-Reads :
      (fuel k r : ℕ) (s : Packer) (bytes : List ℕ)
      → k + r ≡ 8
      → Inv input n r s
      → (r ≢ 0 → s.header_idx < s.out_idx)
      → s.current_block_header < 2 ^ k
      → pack input n fuel s ≡ ok (packed bytes)
      → Reads input bytes k s
  unfolding pack mask_of
  pack-Reads zero k r s bytes rounds i before fits e =
      elim (Bool-cases (ltb s.in_idx (length input))) [
        | inl going ↦ absurd (let bad = rw going at e in cc)
        | inr done ↦
            close-Reads input n long bounded wide small k r s bytes rounds i (ltb→ge _ _ done) fits
              (rw done at e)
      ]
  pack-Reads (suc fuel) k zero s bytes rounds i before fits e =
      elim (Bool-cases (ltb s.in_idx (length input))) [
        | inr done ↦
            close-Reads input n long bounded wide small k zero s bytes rounds i (ltb→ge _ _ done)
              fits (rw done at e)
        | inl going ↦
            let lt = ltb→lt s.in_idx (length input) going in
            let fresh : (s.block_header_mask == 0) ≡ true = ap (λ m. m == 0) i.mask in
            let last : k ≡ 8 = omega arith in
            elim (Bool-cases (ltb (sub64 n 17) s.out_idx)) [
              | inl short ↦ absurd (let bad = rw (going, fresh, short) at e in cc)
              | inr enough ↦
                  let (t, et, it, same) = new_block-ok input n long bounded wide small s i enough in
                  let (before', empty, back') =
                    new_block-Reads input n long bounded wide small s t bytes i lt (rw last at fits)
                      et in
                  let (u, eu, iu, more) =
                    advance-ok input n long bounded wide small 7 t it (rw same lt) in
                  let (before'', fits'', back'') =
                    advance-Reads input n long bounded wide small 0 7 t u bytes refl it (rw same lt)
                      before' (rw empty (omega arith)) eu in
                  let rest =
                    pack-Reads fuel 1 7 u bytes refl iu (λ ne. before'') fits''
                      (rw (going, fresh, enough, et, eu) at e) in
                  rw last (back' (back'' rest))
            ]
      ]
  pack-Reads (suc fuel) k (suc r) s bytes rounds i before fits e =
      elim (Bool-cases (ltb s.in_idx (length input))) [
        | inr done ↦
            close-Reads input n long bounded wide small k (suc r) s bytes rounds i (ltb→ge _ _ done)
              fits (rw done at e)
        | inl going ↦
            let lt = ltb→lt s.in_idx (length input) going in
            let within : (s.block_header_mask == 0) ≡ false =
              ap (λ m. m == 0) i.mask ∙ mask_of-zero (suc r) i.rounds ∙ ground arith in
            let (u, eu, iu, more) = advance-ok input n long bounded wide small r s i lt in
            let (before', fits', back) =
              advance-Reads input n long bounded wide small k r s u bytes rounds i lt
                (before (omega arith)) fits eu in
            back (
              pack-Reads fuel (k + 1) r u bytes (omega arith) iu (λ ne. before') fits'
                (rw (going, within, eu) at e))
      ]

pack-restore :
    (g : Garbage) (input bytes : List ℕ)
    → 26 ≤ length input
    → length input < 2 ^ 63
    → ((m : ℕ) → length (g.malloc m) ≡ m)
    → ((y : ℕ) → g.cache y ≡ 0)
    → (cache : ℕ → ℕ)
    → pack input ((8 + length input) / 2) (length input) (first_state g ((8 + length input) / 2))
      ≡ ok (packed bytes)
    → restore cache (length input) bytes ≡ ok input
unfolding restore
pack-restore g input bytes long bounded sized zeros cache e =
    let n = (8 + length input) / 2 in
    let reads =
      pack-Reads input n (omega arith) bounded (omega arith) (omega arith) (length input) 8 0
        (first_state g n) bytes refl (first_state-Inv g input long sized zeros)
        (λ ne. absurd (ne refl)) (omega arith) e in
    reads.restores 0 cache 0 (length input) (λ ne. absurd (ne refl)) (omega arith)
      (λ far. record {
        pending = λ ne. absurd (ne refl);
        settled = λ e'. inl refl;
        known = λ y ne. absurd (ne (zeros y));
      })
      (omega arith)

-- On a payload of 26 bytes or more and less than 2 ^ 63, with a cache that holds only zeros and
-- allocations of the size asked for, `compress` returns its argument or a buffer from whose bytes a
-- peer that reads the documented format restores the whole payload, whatever the peer's cache holds
-- at first.
pub compress-restore :
    (g : Garbage) (b : Buffer)
    → 26 ≤ length b.bytes
    → length b.bytes < 2 ^ 63
    → ((m : ℕ) → length (g.malloc m) ≡ m)
    → ((y : ℕ) → g.cache y ≡ 0)
    → (cache : ℕ → ℕ)
    → (r : Buffer) × (compress g b ≡ ok r)
      × ((r ≡ b) ⊎ (restore cache (length b.bytes) r.bytes ≡ ok b.bytes))
unfolding compress
compress-restore g b long bounded sized zeros cache =
    let n = (8 + length b.bytes) / 2 in
    let at_first = first_state-Inv g b.bytes long sized zeros in
    let (p, e, fits) =
      pack-ok b.bytes n (omega arith) bounded (omega arith) (omega arith) (length b.bytes) 0
        (first_state g n) at_first (omega arith) in
    result p e
  where
    result :
        (p : Packed)
        → pack b.bytes
            ((8 + length b.bytes) / 2)
            (length b.bytes)
            (first_state g ((8 + length b.bytes) / 2))
          ≡ ok p
        → (r : Buffer) × (compress g b ≡ ok r)
          × ((r ≡ b) ⊎ (restore cache (length b.bytes) r.bytes ≡ ok b.bytes))
    result unchanged e = (b, rw e, inl refl)
    result (packed bytes) e = (
      record b { bytes = bytes },
      rw e,
      inr (pack-restore g b.bytes bytes long bounded sized zeros cache e),
    )
