-- ===== src/Ipc/Compress/Block.antt =====
-- The rounds of a block that `compress` of tools/connection/main.cpp writes, and their reader.
use qbind.Base.{ℕ, ◌+◌, ◌-◌, ◌%◌, ◌^◌, ◌<◌, ◌≤◌, ◌≡◌, ◌≢◌, ap, ◌∙◌, arith, true, false, List}
use Prim.Native.Nat.{bit_and, bit_or}
use qbind.Base.Tests.{◌==◌, ◌!=◌, ne→==, ==→ne}
use qbind.Base.Lists.{length, set}
use qbind.Base.Outcome.{ok}
use qbind.Ipc.Compress.{Packer}
use qbind.Ipc.Compress.Rounds.{length-set, mask_of, mask_of-zero}
use qbind.Ipc.Compress.Xor.{bit_or-mask_of, header_clear, header_set}
use qbind.Ipc.Compress.Cells.{nth, gap, nth-set_self, nth-set_ne, filled}
use qbind.Ipc.Compress.Trace.{after_literal, after_run, IsRun, recall}
use qbind.Ipc.Compress.Sync.{Sync, Sync-literal, Sync-run}
use qbind.Ipc.Compress.Reading.{reader, restore_from-suc, reader-literal, reader-run}
use qbind.Ipc.Compress.Format.{restore_from}

-- `bytes`, the end of the work, agrees with what is written so far, `k` rounds into a block, and a
-- reader at this place restores the rest.
pub record Reads (input bytes : List ℕ) (k : ℕ) (s : Packer) : Type 0 where
  pub long : s.out_idx ≤ length bytes
  pub kept : (j : ℕ) → j < s.out_idx → j ≢ s.header_idx → nth bytes j ≡ nth s.out j
  pub header :
      s.header_idx < s.out_idx
      → (nth bytes s.header_idx < 256) × (nth bytes s.header_idx % 2 ^ k ≡ s.current_block_header)
  pub restores :
      (h : ℕ) (cache : ℕ → ℕ) (valid fuel : ℕ)
      → (s.block_header_mask ≢ 0 → h ≡ nth bytes s.header_idx)
      → valid ≤ s.in_idx
      → (s.in_idx + 3 ≤ length input → Sync input s cache valid)
      → length input ≤ s.in_idx + fuel
      → restore_from bytes (length input) fuel (reader input s h cache valid) ≡ ok input

-- `k` rounds into a block, with a round to go.
pub record InBlock (k : ℕ) (s : Packer) : Type 0 where
  pub few : k < 8
  pub mask : s.block_header_mask ≡ mask_of (8 - k)
  pub before : s.header_idx < s.out_idx
  pub small : s.current_block_header < 2 ^ k

InBlock-mask : (k : ℕ) (s : Packer) → InBlock k s → (s.block_header_mask == 0) ≡ false
InBlock-mask k s b =
    let few = b.few in
    ap (λ m. m == 0) b.mask ∙ mask_of-zero (8 - k) (omega arith) ∙ ne→== (8 - k) 0 (omega arith)

-- What holds of `bytes` after a round held before it.
pub Reads-literal :
    (input bytes : List ℕ) (k x : ℕ) (s : Packer)
    → InBlock k s
    → s.in_idx < length input
    → (s.in_idx + 3 ≤ length input → x ≡ gap input s.in_idx)
    → s.out_idx < length s.out
    → Reads input bytes (k + 1) (after_literal input x (recall s))
    → Reads input bytes k s
Reads-literal input bytes k x s b lt at_gap room after =
    let o = s.out_idx in
    let a = nth input s.in_idx in
    let before = b.before in
    let long : o + 1 ≤ length bytes = after.long in
    let (byte, at_next) = after.header (omega arith) in
    let (clear, at_k) =
      header_clear k (nth bytes s.header_idx) s.current_block_header b.few byte b.small at_next in
    let in_block = InBlock-mask k s b in
    record {
      long = omega arith;
      kept = λ j below ne. after.kept j (omega arith) ne ∙ nth-set_ne s.out o a j (omega arith);
      header = λ h. (byte, at_k);
      restores = λ h cache valid fuel same le sync enough.
          let same' = same (==→ne _ _ in_block) in
          let at_o = after.kept o (omega arith) (omega arith) ∙ nth-set_self s.out o a room in
          let at_h : (bit_and h s.block_header_mask != 0) ≡ false = rw (same', b.mask) clear in
          restore_from-suc input bytes s fuel _ h cache valid lt enough
            (reader-literal input bytes s x h cache valid lt le (omega arith) at_o in_block at_h)
            (λ left enough'.
              after.restores h (filled input (s.in_idx - valid) valid cache)
                (valid + (s.in_idx - valid)) left (λ _. same') (omega arith)
                (λ far.
                  Sync-literal input s x cache valid le (at_gap (omega arith)) (sync (omega arith)))
                (omega arith));
    }

pub Reads-run :
    (input bytes : List ℕ) (k q : ℕ) (s : Packer)
    → InBlock k s
    → IsRun input s q
    → s.out_idx + 1 < length s.out
    → Reads input bytes (k + 1) (after_run input q (recall s))
    → Reads input bytes k s
Reads-run input bytes k q s b is_run room after =
    let o = s.out_idx in
    let x = gap input s.in_idx in
    let n = q - (s.in_idx + 2) in
    let before = b.before in
    let far = is_run.far in
    let low = is_run.low in
    let long : o + 2 ≤ length bytes = after.long in
    let (byte, at_next) = after.header (omega arith) in
    let (one, at_k) = header_set k (nth bytes s.header_idx) s.current_block_header b.few byte (
      at_next
      ∙ ap (bit_or s.current_block_header) b.mask
      ∙ bit_or-mask_of k s.current_block_header b.few b.small) in
    let in_block = InBlock-mask k s b in
    record {
      long = omega arith;
      kept = λ j below ne.
          after.kept j (omega arith) ne
          ∙ nth-set_ne (set s.out o x) (o + 1) n j (omega arith)
          ∙ nth-set_ne s.out o x j (omega arith);
      header = λ h. (byte, at_k);
      restores = λ h cache valid fuel same le sync enough.
          let same' = same (==→ne _ _ in_block) in
          let at_o =
            after.kept o (omega arith) (omega arith)
            ∙ nth-set_ne (set s.out o x) (o + 1) n o (omega arith)
            ∙ nth-set_self s.out o x (omega arith) in
          let at_n =
            after.kept (o + 1) (omega arith) (omega arith)
            ∙ nth-set_self (set s.out o x) (o + 1) n (omega (arith, length-set s.out o x, room)) in
          let at_h : (bit_and h s.block_header_mask != 0) ≡ true = rw (same', b.mask) one in
          restore_from-suc input bytes s fuel _ h cache valid (omega arith) enough
            (reader-run input bytes s q h cache valid is_run le (sync far) (omega arith) at_o at_n
              in_block at_h)
            (λ left enough'.
              after.restores h (filled input (s.in_idx + 1 - valid) valid cache) q left (λ _. same')
                (omega arith) (λ _. Sync-run input s q cache valid le (omega arith) (sync far))
                (omega arith));
    }
