-- ===== src/Ipc/Compress/Sync.antt =====
-- The cache that `compress` of tools/connection/main.cpp keeps, beside the cache of a reader of the
-- same bytes.
use qbind.Base.{
  ℕ, zero, suc, ◌+◌, ◌-◌, ◌≤◌, ◌<◌, ◌≡◌, ◌≢◌, ◌⊎◌, inl, inr, refl, sym, ap, ◌∙◌, arith, List,
}
use qbind.Base.Tests.{◌==◌, ==→eq, ==→ne, Bool-cases}
use qbind.Ipc.Compress.{Packer, cache_set}
use qbind.Ipc.Compress.Cells.{gap, filled}
use qbind.Ipc.Compress.Trace.{after_literal, after_run, recall, recalled}

-- What the writer has cached, the reader has, once it has seen the place behind the last byte.
pub record Sync (input : List ℕ) (s : Packer) (cache : ℕ → ℕ) (valid : ℕ) : Type 0 where
  pub pending :
      s.in_idx_prev ≢ 0
      → (s.in_idx_prev + 1 ≡ s.in_idx)
        × (valid ≡ s.in_idx_prev)
        × (s.xor_offset_prev ≡ gap input s.in_idx_prev)
  pub settled : s.in_idx_prev ≡ 0 → (valid ≡ s.in_idx) ⊎ ((s.in_idx ≡ 1) × (valid ≡ 0))
  pub known :
      (y : ℕ)
      → s.xor_offset_cache y ≢ 0
      → (s.xor_offset_cache y < valid)
        × (gap input (s.xor_offset_cache y) ≡ y)
        × (cache y ≡ s.xor_offset_cache y)

-- Two caches of the same places, all of them below `valid`.
abbrev Knows : List ℕ → (e cache : ℕ → ℕ) → (valid : ℕ) → Type 0
Knows input e cache valid =
    (y : ℕ) → e y ≢ 0 → (e y < valid) × (gap input (e y) ≡ y) × (cache y ≡ e y)

Knows-set :
    (input : List ℕ) (e cache : ℕ → ℕ) (valid i : ℕ)
    → valid ≤ i
    → Knows input e cache valid
    → Knows input (cache_set e (gap input i) i) (cache_set cache (gap input i) i) (i + 1)
Knows-set input e cache valid i le knows y = elim (Bool-cases (y == gap input i)) [
  | inl here ↦ rw here (λ ne. (omega arith, sym (==→eq _ _ here), refl))
  | inr else_ ↦ rw else_ (λ ne. let (lt, at_gap, same) = knows y ne in (omega arith, at_gap, same))
]

-- The reader fills its cache up to the place that the writer is at.
recalled-Knows :
    (input : List ℕ) (s : Packer) (cache : ℕ → ℕ) (valid : ℕ)
    → Sync input s cache valid
    → Knows input (recalled s) (filled input (s.in_idx - valid) valid cache) s.in_idx
recalled-Knows input s cache valid sync = elim (Bool-cases (s.in_idx_prev == 0)) [
  | inl none_yet ↦ elim (sync.settled (==→eq _ _ none_yet)) [
    | inl full ↦
        let none_left : s.in_idx - valid ≡ 0 = omega arith in
        rw (none_yet, none_left, sym full) sync.known
    | inr (first, none_seen) ↦
        λ y. rw none_yet (λ ne. let (lt, at_gap, same) = sync.known y ne in absurd (omega arith))
  ]
  | inr pending ↦
      let (next, last, x) = sync.pending (==→ne _ _ pending) in
      let one_left : s.in_idx - valid ≡ 1 = omega arith in
      rw (pending, one_left, last, x, sym next)
        (Knows-set input s.xor_offset_cache cache s.in_idx_prev s.in_idx_prev (omega arith)
          (rw last at sync.known))
]

filled-last :
    (bs : List ℕ) (n v m i : ℕ) (c : ℕ → ℕ)
    → m ≡ n + 1
    → v + n ≡ i
    → filled bs m v c ≡ cache_set (filled bs n v c) (gap bs i) i
filled-last bs n v zero i c e at_i = absurd (omega arith)
filled-last bs zero v (suc zero) i c e at_i = ap (λ k. cache_set c (gap bs k) k) (omega arith)
filled-last bs zero v (suc (suc m)) i c e at_i = absurd (omega arith)
filled-last bs (suc n) v (suc m) i c e at_i =
    filled-last bs n (v + 1) m i (cache_set c (gap bs v) v) (omega arith) (omega arith)

pub Sync-literal :
    (input : List ℕ) (s : Packer) (x : ℕ) (cache : ℕ → ℕ) (valid : ℕ)
    → valid ≤ s.in_idx
    → x ≡ gap input s.in_idx
    → Sync input s cache valid
    → Sync input
        (after_literal input x (recall s))
        (filled input (s.in_idx - valid) valid cache)
        (valid + (s.in_idx - valid))
Sync-literal input s x cache valid le at_gap sync =
    let full : valid + (s.in_idx - valid) ≡ s.in_idx = omega arith in
    record {
      pending = λ ne. (refl, full, at_gap);
      settled = λ e. inr (omega arith, omega arith);
      known = rw full (recalled-Knows input s cache valid sync);
    }

pub Sync-run :
    (input : List ℕ) (s : Packer) (q : ℕ) (cache : ℕ → ℕ) (valid : ℕ)
    → valid ≤ s.in_idx
    → s.in_idx < q
    → Sync input s cache valid
    → Sync input (after_run input q (recall s)) (filled input (s.in_idx + 1 - valid) valid cache) q
Sync-run input s q cache valid le lt sync =
    let i = s.in_idx in
    let knows =
      Knows-set input (recalled s) (filled input (i - valid) valid cache) i i (omega arith)
        (recalled-Knows input s cache valid sync) in
    let last =
      filled-last input (i - valid) valid (i + 1 - valid) i cache (omega arith) (omega arith) in
    record {
      pending = λ ne. absurd (ne refl);
      settled = λ e. inl refl;
      known = λ y ne.
          let (below, at_gap, same) = knows y ne in
          (omega arith, at_gap, ap (λ f. f y) last ∙ same);
    }
