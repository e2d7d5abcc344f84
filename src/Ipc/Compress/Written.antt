-- ===== src/Ipc/Compress/Written.antt =====
-- How the writer's steps in `compress` of tools/connection/main.cpp carry what a reader needs back
-- over the loop.
use qbind.Base.{ℕ, suc, ◌+◌, ◌-◌, ◌^◌, ◌<◌, ◌≤◌, ◌≡◌, inl, inr, refl, sym, ap, ◌∙◌, arith, List}
use Prim.Native.Nat.{bit_or}
use native.Mathlib.Nat.{mod-eq_of_lt, two-pow-succ}
use qbind.Base.Lists.{length, set, take}
use qbind.Base.Outcome.{ok}
use qbind.Ipc.Compress.{Packer, packed, new_block, advance, close}
use qbind.Ipc.Compress.Rounds.{length-set, mask_of, Inv}
use qbind.Ipc.Compress.Xor.{pow_byte, bit_or-mask_of}
use qbind.Ipc.Compress.Cells.{nth, put-set, nth-set_self, nth-set_ne, nth-take, length-take_within}
use qbind.Ipc.Compress.Trace.{after_literal, after_run, recall, advance-cases}
use qbind.Ipc.Compress.Reading.{reader, restore_from-done, restore_from-header}
use qbind.Ipc.Compress.Block.{Reads, InBlock, Reads-literal, Reads-run}

pow_next : (k : ℕ) → 2 ^ (k + 1) ≡ 2 ^ k + 2 ^ k
pow_next k = let next : k + 1 ≡ suc k = omega arith in ap (λ j. 2 ^ j) next ∙ two-pow-succ k

module _ (input : List ℕ) (n : ℕ) (long : 3 ≤ length input) (bounded : length input < 2 ^ 63)
    (wide : 17 ≤ n) (small : n < 2 ^ 63) where
  -- Behind the loop.
  pub close-Reads :
      (k r : ℕ) (s : Packer) (bytes : List ℕ)
      → k + r ≡ 8
      → Inv input n r s
      → length input ≤ s.in_idx
      → s.current_block_header < 2 ^ k
      → close s ≡ ok (packed bytes)
      → Reads input bytes k s
  unfolding close
  close-Reads k r s bytes rounds i done fits e =
      let h = s.header_idx in
      let cur = s.current_block_header in
      let stored = set s.out h cur in
      let inside = i.inside in
      let free = i.free in
      let room : length s.out ≡ n = i.room in
      let within : s.out_idx ≤ length stored = omega (arith, length-set s.out h cur) in
      let put_cur = put-set s.out h cur (let header = i.header in omega arith) in
      let written = rw put_cur at e in
      let made : bytes ≡ take s.out_idx stored = cc in
      let at_h : (h < s.out_idx → nth (take s.out_idx stored) h ≡ cur) = (λ before.
        nth-take stored s.out_idx h before
        ∙ nth-set_self s.out h cur (let header = i.header in omega arith)) in
      rw made (record {
        long = omega (arith, length-take_within stored s.out_idx within);
        kept = λ j below ne. nth-take stored s.out_idx j below ∙ nth-set_ne s.out h cur j ne;
        header =
            λ before. rw (at_h before) (omega (arith, pow_byte k (omega arith)), mod-eq_of_lt fits);
        restores = λ hd cache valid fuel same le sync enough.
            restore_from-done input (take s.out_idx stored) fuel s hd cache valid (omega arith);
      })

  -- A round of the writer leaves a block of which the reader can tell what the round did.
  pub advance-Reads :
      (k r : ℕ) (s u : Packer) (bytes : List ℕ)
      → k + suc r ≡ 8
      → Inv input n (suc r) s
      → s.in_idx < length input
      → s.header_idx < s.out_idx
      → s.current_block_header < 2 ^ k
      → advance input s ≡ ok u
      → (u.header_idx < u.out_idx)
        × (u.current_block_header < 2 ^ (k + 1))
        × (Reads input bytes (k + 1) u → Reads input bytes k s)
  advance-Reads k r s u bytes rounds i lt before fits e =
      let free = i.free in
      let room : length s.out ≡ n = i.room in
      let to_go : suc r ≡ 8 - k = omega arith in
      let b : InBlock k s = record {
        few = omega arith;
        mask = i.mask ∙ ap mask_of to_go;
        before = before;
        small = fits;
      } in
      elim (advance-cases input n long bounded wide small r s i lt) [
        | inl (x, e', at_gap) ↦
            let same : u ≡ after_literal input x (recall s) = (let both = sym e ∙ e' in cc) in
            let small' : s.current_block_header < 2 ^ (k + 1) = omega (arith, pow_next k) in
            let before' : s.header_idx < s.out_idx + 1 = omega arith in
            rw same (before', small', Reads-literal input bytes k x s b lt at_gap (omega arith))
        | inr (q, e', is_run) ↦
            let same : u ≡ after_run input q (recall s) = (let both = sym e ∙ e' in cc) in
            let set_one : bit_or s.current_block_header s.block_header_mask
                ≡ s.current_block_header + 2 ^ k =
              (ap (bit_or s.current_block_header) b.mask
                ∙ bit_or-mask_of k s.current_block_header b.few fits) in
            let small' : bit_or s.current_block_header s.block_header_mask < 2 ^ (k + 1) =
              omega (arith, pow_next k) in
            let before' : s.header_idx < s.out_idx + 2 = omega arith in
            rw same (before', small', Reads-run input bytes k q s b is_run (omega arith))
      ]

  new_block-eq :
      (s : Packer)
      → Inv input n 0 s
      → new_block s
        ≡ ok (record s {
          out = set s.out s.header_idx s.current_block_header;
          block_header_mask = 1;
          current_block_header = 0;
          header_idx = s.out_idx;
          out_idx = s.out_idx + 1;
        })
  unfolding new_block
  new_block-eq s i =
      let header = i.header in
      rw (put-set s.out s.header_idx s.current_block_header (rw i.room header)) refl

  -- The header that a new block stores is the one of the block before.
  pub new_block-Reads :
      (s t : Packer) (bytes : List ℕ)
      → Inv input n 0 s
      → s.in_idx < length input
      → s.current_block_header < 256
      → new_block s ≡ ok t
      → (t.header_idx < t.out_idx)
        × (t.current_block_header ≡ 0)
        × (Reads input bytes 0 t → Reads input bytes 8 s)
  unfolding mask_of
  new_block-Reads s t bytes i lt fits e =
      let made = sym e ∙ new_block-eq s i in
      let same : t ≡ record s {
        out = set s.out s.header_idx s.current_block_header;
        block_header_mask = 1;
        current_block_header = 0;
        header_idx = s.out_idx;
        out_idx = s.out_idx + 1;
      } =
        cc in
      rw same (
        omega arith,
        refl,
        λ after. record {
          long = (let enough = after.long in omega arith);
          kept = λ j below ne.
              after.kept j (omega arith) (omega arith)
              ∙ nth-set_ne s.out s.header_idx s.current_block_header j ne;
          header = λ before.
              let stored =
                after.kept s.header_idx (omega arith) (omega arith)
                ∙ nth-set_self s.out s.header_idx s.current_block_header (rw i.room i.header) in
              rw stored (fits, mod-eq_of_lt fits);
          restores = λ h cache valid fuel same le sync enough.
              let seen = length-take_within input s.in_idx (omega arith) in
              let block =
                restore_from-header bytes (length input) fuel (reader input s h cache valid)
                  (omega arith) (omega arith) i.mask (let enough = after.long in omega arith) in
              block
              ∙ after.restores (nth bytes s.out_idx) cache valid fuel (λ ne. refl) le
                  (λ far. record {
                    pending = (sync far).pending;
                    settled = (sync far).settled;
                    known = (sync far).known;
                  })
                  enough;
        },
      )
