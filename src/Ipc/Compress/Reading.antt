-- ===== src/Ipc/Compress/Reading.antt =====
-- A peer that reads a compressed payload (tools/connection/main.cpp), round by round.
use qbind.Base.{ℕ, zero, suc, ◌+◌, ◌-◌, ◌<◌, ◌≤◌, ◌≡◌, refl, sym, ap, ◌∙◌, arith, true, false, List}
use Prim.Native.Nat.{bit_and, bit_xor}
use native.Mathlib.Nat.{add-zero}
use qbind.Base.Tests.{◌==◌, ◌!=◌, lt→ltb, ge→ltb}
use qbind.Base.Lists.{length, take, take-length}
use qbind.Base.Outcome.{ok}
use qbind.Ipc.Compress.{Packer}
use qbind.Ipc.Compress.Xor.{bit_xor-cancel}
use qbind.Ipc.Compress.Cells.{
  nth, gap, byte_at-nth, length-take_within, take-next, copy_from-take, filled, fill-take,
}
use qbind.Ipc.Compress.Trace.{after_literal, after_run, IsRun, recall}
use qbind.Ipc.Compress.Sync.{Sync}
use qbind.Ipc.Compress.Format.{Reader, read_header, read_run, read_byte, read_round, restore_from}

-- The reader that has read as much as the writer has written.
abbrev pub reader : List ℕ → Packer → (header : ℕ) → (cache : ℕ → ℕ) → (valid : ℕ) → Reader
reader input s header cache valid = record {
  out = take s.in_idx input;
  in_idx = s.out_idx;
  mask = s.block_header_mask;
  header = header;
  cache = cache;
  valid = valid;
}

-- A round of the reader, then the rest.
pub restore_from-suc :
    (input bytes : List ℕ) (s : Packer) (fuel : ℕ) (next : Reader) (h : ℕ) (cache : ℕ → ℕ)
    (valid : ℕ)
    → s.in_idx < length input
    → length input ≤ s.in_idx + fuel
    → read_round bytes (reader input s h cache valid) ≡ ok next
    → ((left : ℕ) → fuel ≡ suc left → restore_from bytes (length input) left next ≡ ok input)
    → restore_from bytes (length input) fuel (reader input s h cache valid) ≡ ok input
unfolding restore_from
restore_from-suc input bytes s zero next h cache valid lt enough step rest = absurd (omega arith)
restore_from-suc input bytes s (suc fuel) next h cache valid lt enough step rest =
    let seen = length-take_within input s.in_idx (omega arith) in
    rw (seen, lt→ltb s.in_idx (length input) lt, step) (rest fuel refl)

pub restore_from-done :
    (input bytes : List ℕ) (fuel : ℕ) (s : Packer) (h : ℕ) (cache : ℕ → ℕ) (valid : ℕ)
    → s.in_idx ≡ length input
    → restore_from bytes (length input) fuel (reader input s h cache valid) ≡ ok input
unfolding restore_from
restore_from-done input bytes zero s h cache valid e =
    rw (e, take-length input, ge→ltb (length input) (length input) (omega arith)) refl
restore_from-done input bytes (suc fuel) s h cache valid e =
    rw (e, take-length input, ge→ltb (length input) (length input) (omega arith)) refl

-- The bytes of a run, from the first two on.
repeats :
    (bs : List ℕ) (p i q : ℕ)
    → nth bs i ≡ nth bs p
    → gap bs p ≡ gap bs i
    → ((j : ℕ) → i + 2 + j < q → nth bs (p + 2 + j) ≡ nth bs (i + 2 + j))
    → (j : ℕ) → j < 2 + (q - (i + 2))
    → nth bs (p + j) ≡ nth bs (i + j)
repeats bs p i q first at_gap same zero lt =
    ap (nth bs) (add-zero p) ∙ sym first ∙ ap (nth bs) (sym (add-zero i))
repeats bs p i q first at_gap same (suc zero) lt =
    bit_xor-cancel (nth bs i) (nth bs (p + 1)) (nth bs (i + 1))
      (ap (λ a. bit_xor a (nth bs (p + 1))) first ∙ at_gap)
repeats bs p i q first at_gap same (suc (suc j)) lt =
    let shift : (k : ℕ) → k + suc (suc j) ≡ k + 2 + j = λ k. omega arith in
    ap (nth bs) (shift p) ∙ same j (omega arith) ∙ ap (nth bs) (sym (shift i))

-- One round of the reader, on a byte and on a run.
pub reader-literal :
    (input bytes : List ℕ) (s : Packer) (x h : ℕ) (cache : ℕ → ℕ) (valid : ℕ)
    → s.in_idx < length input
    → valid ≤ s.in_idx
    → s.out_idx < length bytes
    → nth bytes s.out_idx ≡ nth input s.in_idx
    → (s.block_header_mask == 0) ≡ false
    → (bit_and h s.block_header_mask != 0) ≡ false
    → read_round bytes (reader input s h cache valid)
      ≡ ok (
          reader input
            (after_literal input x (recall s))
            h
            (filled input (s.in_idx - valid) valid cache)
            (valid + (s.in_idx - valid)))
unfolding read_round read_header read_byte
reader-literal input bytes s x h cache valid lt le fits byte in_block clear =
    let i = s.in_idx in
    let seen : length (take i input) ≡ i = length-take_within input i (omega arith) in
    rw
      (
        in_block,
        clear,
        byte_at-nth bytes s.out_idx fits,
        byte,
        seen,
        take-next input i (i + 1) lt refl,
        fill-take input (i - valid) valid (i + 1) cache (omega arith) (omega arith),
      )
      refl

pub reader-run :
    (input bytes : List ℕ) (s : Packer) (q h : ℕ) (cache : ℕ → ℕ) (valid : ℕ)
    → IsRun input s q
    → valid ≤ s.in_idx
    → Sync input s cache valid
    → s.out_idx + 1 < length bytes
    → nth bytes s.out_idx ≡ gap input s.in_idx
    → nth bytes (s.out_idx + 1) ≡ q - (s.in_idx + 2)
    → (s.block_header_mask == 0) ≡ false
    → (bit_and h s.block_header_mask != 0) ≡ true
    → read_round bytes (reader input s h cache valid)
      ≡ ok (
          reader input
            (after_run input q (recall s))
            h
            (filled input (s.in_idx + 1 - valid) valid cache)
            q)
unfolding read_round read_header read_run
reader-run input bytes s q h cache valid is_run le sync fits at_x at_n in_block one =
    let i = s.in_idx in
    let p = s.xor_offset_cache (gap input i) in
    let far = is_run.far in
    let within = is_run.inside in
    let low = is_run.low in
    let (before, at_gap, found) = sync.known (gap input i) is_run.old in
    let seen : length (take i input) ≡ i = length-take_within input i (omega arith) in
    let copied =
      copy_from-take input (2 + (q - (i + 2))) p i q (omega arith) (omega arith) within
        (repeats input p i q is_run.first at_gap is_run.same) in
    rw
      (
        in_block,
        one,
        byte_at-nth bytes s.out_idx (omega arith),
        byte_at-nth bytes (s.out_idx + 1) fits,
        at_x,
        at_n,
        found,
        copied,
        seen,
        length-take_within input q within,
        fill-take input (i + 1 - valid) valid q cache within (omega arith),
      )
      refl

-- A reader at the end of a block takes the next header.
pub restore_from-header :
    (bytes : List ℕ) (n fuel : ℕ) (a : Reader)
    → length a.out < n
    → n ≤ length a.out + fuel
    → a.mask ≡ 0
    → a.in_idx < length bytes
    → restore_from bytes n fuel a
      ≡ restore_from bytes n fuel
          (record a { mask = 1; header = nth bytes a.in_idx; in_idx = a.in_idx + 1 })
unfolding restore_from read_round read_header
restore_from-header bytes n zero a lt enough mask inside = absurd (omega arith)
restore_from-header bytes n (suc fuel) a lt enough mask inside =
    rw (mask, byte_at-nth bytes a.in_idx inside) refl
