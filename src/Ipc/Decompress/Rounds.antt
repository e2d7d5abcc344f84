-- ===== src/Ipc/Decompress/Rounds.antt =====
-- The loop of `decompress` without fuel (tools/connection/main.cpp), and that it ends.
use qbind.Base.{ℕ, zero, suc, ◌+◌, ◌≤◌, ◌<◌, ◌≡◌, ◌≢◌, refl, arith, false, List, inl, inr}
use qbind.Base.Tests.{ltb, Bool-cases}
use qbind.Base.Outcome.{Outcome, ok, throw, undefined, terminated, ◌>>=◌}
use qbind.Ipc.Decompress.{Unpacker, unpack_round, unpack}
use qbind.Ipc.Decompress.Bounds.{unpack_round-IsStep}

-- The loop from a state has so many whole rounds and then this outcome: it ends at the length, or
-- a round has a fault, which is its outcome.
pub data Run (input : List ℕ) (out_length : ℕ)
    : (rounds : ℕ) → Unpacker → Outcome Unpacker → Type 0 where
  ends : (s : Unpacker) → out_length ≤ s.out_idx → Run input out_length 0 s (ok s)
  fails :
      (s : Unpacker)
      → s.out_idx < out_length
      → ((t : Unpacker) → unpack_round input s ≢ ok t)
      → Run input out_length 0 s (unpack_round input s)
  goes_on :
      (rounds : ℕ) (s t : Unpacker) (r : Outcome Unpacker)
      → s.out_idx < out_length
      → unpack_round input s ≡ ok t
      → Run input out_length rounds t r
      → Run input out_length (suc rounds) s r

-- Either a call returned, or it is its own fault, whatever would follow.
data Ending (m : Outcome Unpacker) (next : Unpacker → Outcome Unpacker) : Type 0 where
  returned : (t : Unpacker) → m ≡ ok t → (m >>= next) ≡ next t → Ending m next
  faulty : ((t : Unpacker) → m ≢ ok t) → (m >>= next) ≡ m → Ending m next

ending : (m : Outcome Unpacker) (next : Unpacker → Outcome Unpacker) → Ending m next
ending (ok t) next = returned t refl refl
ending (throw e) next = faulty (λ t h. cc) refl
ending undefined next = faulty (λ t h. cc) refl
ending terminated next = faulty (λ t h. cc) refl

-- From any state, with fuel for as many rounds as there are bytes left to write, or more: the loop
-- of `decompress` without fuel has a run that ends, with at most as many whole rounds as the fuel,
-- at the length or at a round with a fault, and the loop with fuel has its outcome.
pub unpack-Run :
    (input : List ℕ) (out_length fuel : ℕ) (s : Unpacker)
    → out_length ≤ s.out_idx + fuel
    → (rounds : ℕ) × (rounds ≤ fuel)
      × Run input out_length rounds s (unpack input out_length fuel s)
unfolding unpack
unpack-Run input n zero s enough =
    let there : ltb s.out_idx n ≡ false = ground arith in
    (0, omega arith, rw there (ends s (omega (arith, enough))))
unpack-Run input n (suc fuel) s enough = elim (Bool-cases (ltb s.out_idx n)) [
  | inr there ↦ (0, omega arith, rw there (ends s (ground arith)))
  | inl short ↦ elim (ending (unpack_round input s) (λ t. unpack input n fuel t)) [
    | faulty never same ↦ (0, omega arith, rw (short, same) (fails s (ground arith) never))
    | returned t e same ↦
        let step = unpack_round-IsStep input s t e in
        let more = step.further in
        let (rounds, few, run) = unpack-Run input n fuel t (omega (arith, enough, more)) in
        (
          suc rounds,
          omega (arith, few),
          rw (short, same) (goes_on rounds s t _ (ground arith) e run),
        )
  ]
]
