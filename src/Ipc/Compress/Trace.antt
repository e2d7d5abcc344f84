-- ===== src/Ipc/Compress/Trace.antt =====
-- What one round of the loop of `compress` writes, tools/connection/main.cpp.
use qbind.Base.{
  ℕ, zero, suc, ◌+◌, ◌-◌, ◌*◌, ◌%◌, ◌^◌, ◌<◌, ◌≤◌, min, ◌≡◌, ◌≢◌, ◌⊎◌, inl, inr, refl, sym, ap, ◌∙◌,
  arith, List,
}
use Prim.Native.Nat.{bit_or}
use qbind.Base.Tests.{ltb, ◌==◌, ◌!=◌, ltb→lt, ltb→ge, ==→eq, ==→ne, if◌then◌else◌, Bool-cases}
use qbind.Base.Lists.{length, set}
use qbind.Base.Outcome.{ok}
use qbind.Ipc.Compress.{sub64, Packer, cache_set, look, remember, literal, run_end, run, advance}
use qbind.Ipc.Compress.Rounds.{Inv, length-set}
use native.Mathlib.Nat.{add-zero}
use qbind.Ipc.Compress.Cells.{nth, gap, byte_at-nth, put-set}

-- A round that writes one byte, and one that writes a run which ends before `q`; both behind
-- `remember`.
abbrev pub after_literal : List ℕ → (x : ℕ) → Packer → Packer
after_literal input x s = record s {
  out = set s.out s.out_idx (nth input s.in_idx);
  xor_offset = x;
  xor_offset_prev = x;
  in_idx_prev = s.in_idx;
  out_idx = s.out_idx + 1;
  in_idx = s.in_idx + 1;
  block_header_mask = s.block_header_mask * 2 % 256;
}

abbrev pub after_run : List ℕ → (q : ℕ) → Packer → Packer
after_run input q s = record s {
  out = set (set s.out s.out_idx (gap input s.in_idx)) (s.out_idx + 1) (q - (s.in_idx + 2));
  xor_offset = gap input s.in_idx;
  xor_offset_cache = cache_set s.xor_offset_cache (gap input s.in_idx) s.in_idx;
  current_block_header = bit_or s.current_block_header s.block_header_mask;
  in_idx = q;
  out_idx = s.out_idx + 2;
  block_header_mask = s.block_header_mask * 2 % 256;
}

-- A run from the place in the cache, up to `q`.
pub record IsRun (input : List ℕ) (s : Packer) (q : ℕ) : Type 0 where
  pub far : s.in_idx + 3 ≤ length input
  pub old : s.xor_offset_cache (gap input s.in_idx) ≢ 0
  pub first : nth input s.in_idx ≡ nth input (s.xor_offset_cache (gap input s.in_idx))
  pub low : s.in_idx + 2 ≤ q
  pub high : q ≤ s.in_idx + 2 + 255
  pub inside : q ≤ length input
  pub same :
      (j : ℕ)
      → s.in_idx + 2 + j < q
      → nth input (s.xor_offset_cache (gap input s.in_idx) + 2 + j) ≡ nth input (s.in_idx + 2 + j)

-- What `remember` leaves.
abbrev pub recalled : Packer → ℕ → ℕ
recalled s =
    if s.in_idx_prev == 0
    then s.xor_offset_cache
    else cache_set s.xor_offset_cache s.xor_offset_prev s.in_idx_prev

abbrev pub recall : Packer → Packer
recall s = record s { xor_offset_cache = recalled s; in_idx_prev = 0 }

remember-recall : (s : Packer) → remember s ≡ recall s
unfolding remember
remember-recall s = elim (Bool-cases (s.in_idx_prev == 0)) [
  | inl none_yet ↦
      rw none_yet (ap (λ z. record s { in_idx_prev = z }) (==→eq s.in_idx_prev 0 none_yet))
  | inr pending ↦ rw pending refl
]

same-from :
    (bs : List ℕ) (p q last : ℕ)
    → nth bs p ≡ nth bs q
    → ((j : ℕ) → q + 1 + j < last → nth bs (p + 1 + j) ≡ nth bs (q + 1 + j))
    → (j : ℕ) → q + j < last
    → nth bs (p + j) ≡ nth bs (q + j)
same-from bs p q last first rest zero lt =
    ap (nth bs) (add-zero p) ∙ first ∙ ap (nth bs) (sym (add-zero q))
same-from bs p q last first rest (suc j) lt =
    let shift : (k : ℕ) → k + suc j ≡ k + 1 + j = λ k. omega arith in
    ap (nth bs) (shift p) ∙ rest j (omega arith) ∙ ap (nth bs) (sym (shift q))

-- The bytes that the search for the end of a run has compared.
run_end-same :
    (input : List ℕ) (left p q : ℕ)
    → p ≤ q
    → q + left < length input
    → (q' : ℕ) × (run_end input left p q ≡ ok q')
      × (q ≤ q')
      × (q' ≤ q + left + 1)
      × ((j : ℕ) → q + j < q' → nth input (p + j) ≡ nth input (q + j))
unfolding run_end
run_end-same input zero p q le lt =
    let ea = byte_at-nth input p (omega arith) in
    let eb = byte_at-nth input q (omega arith) in
    elim (Bool-cases (nth input p == nth input q)) [
      | inl same ↦ (
        q + 1,
        rw (ea, eb, same),
        omega arith,
        omega arith,
        same-from input p q (q + 1) (==→eq _ _ same) (λ j lt. absurd (omega arith)),
      )
      | inr differ ↦
          (q, rw (ea, eb, differ), omega arith, omega arith, λ j lt. absurd (omega arith))
    ]
run_end-same input (suc left) p q le lt =
    let ea = byte_at-nth input p (omega arith) in
    let eb = byte_at-nth input q (omega arith) in
    let (q', e, low, high, same) =
      run_end-same input left (p + 1) (q + 1) (omega arith) (omega arith) in
    elim (Bool-cases (nth input p == nth input q)) [
      | inl eq ↦ (
        q',
        rw (ea, eb, eq, e),
        omega arith,
        omega arith,
        same-from input p q q' (==→eq _ _ eq) same,
      )
      | inr differ ↦
          (q, rw (ea, eb, differ), omega arith, omega arith, λ j lt. absurd (omega arith))
    ]

module _ (input : List ℕ) (n : ℕ) (long : 3 ≤ length input) (bounded : length input < 2 ^ 63)
    (wide : 17 ≤ n) (small : n < 2 ^ 63) where
  literal-eq :
      (r x : ℕ) (s : Packer)
      → Inv input n (suc r) s
      → s.in_idx < length input
      → literal input x (recall s)
        ≡ ok (record (after_literal input x (recall s)) { block_header_mask = s.block_header_mask })
  unfolding literal
  literal-eq r x s i lt =
      rw
        (
          byte_at-nth input s.in_idx lt,
          put-set s.out s.out_idx (nth input s.in_idx) (let f = i.free in rw i.room (omega arith)),
        )
        refl

  run-eq :
      (r : ℕ) (s : Packer)
      → Inv input n (suc r) s
      → s.in_idx + 3 ≤ length input
      → s.xor_offset_cache (gap input s.in_idx) ≢ 0
      → nth input s.in_idx ≡ nth input (s.xor_offset_cache (gap input s.in_idx))
      → (q : ℕ) × (run input
            (gap input s.in_idx)
            (s.xor_offset_cache (gap input s.in_idx))
            (recall s)
          ≡ ok (record (after_run input q (recall s)) { block_header_mask = s.block_header_mask }))
        × IsRun input s q
  unfolding run
  run-eq r s i far old first =
      let x = gap input s.in_idx in
      let p = s.xor_offset_cache x in
      let start = s.in_idx + 2 in
      let until = min (start + 255) (length input) in
      let before : p ≤ s.in_idx = i.cached x in
      let (q, eq, low, high, same) =
        run_end-same input (until - (start + 1)) (p + 2) start (omega arith) (omega arith) in
      let o = set s.out s.out_idx x in
      let put_x = put-set s.out s.out_idx x (let f = i.free in rw i.room (omega arith)) in
      let put_n =
        put-set o (s.out_idx + 1) ((q - start) % 256)
          (let f = i.free in rw (length-set s.out s.out_idx x, i.room) (omega arith)) in
      let short : (q - start) % 256 ≡ q - start = omega arith in
      (
        q,
        rw (eq, put_x, put_n, short) refl,
        record {
          far = far;
          old = old;
          first = first;
          low = low;
          high = omega arith;
          inside = omega arith;
          same = same;
        },
      )

  pub advance-cases :
      (r : ℕ) (s : Packer)
      → Inv input n (suc r) s
      → s.in_idx < length input
      → ((x : ℕ) × (advance input s ≡ ok (after_literal input x (recall s)))
          × (s.in_idx + 3 ≤ length input → x ≡ gap input s.in_idx))
        ⊎ ((q : ℕ) × (advance input s ≡ ok (after_run input q (recall s))) × IsRun input s q)
  unfolding advance look
  advance-cases r s i lt = elim (Bool-cases (ltb (sub64 (length input) 3) s.in_idx)) [
    | inl near ↦
        let late = ltb→lt _ _ near in
        let e = literal-eq r s.xor_offset s i lt in
        inl (s.xor_offset, rw (near, remember-recall s, e) refl, λ far. absurd (omega arith))
    | inr far ↦
        let within : s.in_idx + 3 ≤ length input =
          (let ge = ltb→ge (sub64 (length input) 3) s.in_idx far in omega arith) in
        let x = gap input s.in_idx in
        let p = s.xor_offset_cache x in
        let ea = byte_at-nth input s.in_idx lt in
        let eb = byte_at-nth input (s.in_idx + 1) (omega arith) in
        let ec = byte_at-nth input p (let le = i.cached x in omega arith) in
        let e = literal-eq r x s i lt in
        elim (Bool-cases (p == 0)) [
          | inl new ↦ inl (x, rw (far, ea, eb, new, remember-recall s, e) refl, λ h. refl)
          | inr old ↦ elim (Bool-cases (nth input s.in_idx != nth input p)) [
            | inl differ ↦
                inl (x, rw (far, ea, eb, old, ec, differ, remember-recall s, e) refl, λ h. refl)
            | inr alike ↦
                let (q, eq, is_run) = run-eq r s i within (==→ne _ _ old) (ground (arith, alike)) in
                inr (q, rw (far, ea, eb, old, ec, alike, remember-recall s, eq) refl, is_run)
          ]
        ]
  ]
