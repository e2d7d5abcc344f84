-- ===== src/Tests/Ownership.antt =====
-- The class K of include/qbind/k.h over a concrete reference count, and the manager of
-- include/qbind/memory_manager.h in two threads.
use qbind.Base.{ℕ, zero, suc, ◌+◌, ◌≡◌, ◌≢◌, refl, arith, Option, none, some, inr, true, ◌<◌}
use qbind.Base.Tests.{◌==◌, leb, if◌then◌else◌}
use qbind.Ownership.{
  Ptr, nullptr, Heap, Kx, Machine, construct, copy_construct, destruct, use_count, r1_or_null,
}
use qbind.Ownership.Counting.{owners, one_if}
use qbind.Ownership.Balance.{Outside, one_less, Balanced}
use qbind.Ownership.Runs.{
  Reach, here, next, constructed, copied, destructed, use_count-Reach, freed-Reach,
}
use qbind.MemoryManager.{Threads, at_start, initialise, start, asks}
use qbind.MemoryManager.Lock.{locked, khps, m9s, managers, locked-Reach}

abbrev more : Option ℕ → Option ℕ
more none = none
more (some r) = some (r + 1)

abbrev fewer : Option ℕ → Option ℕ
fewer none = none
fewer (some zero) = none
fewer (some (suc r)) = some r

abbrev retain : Ptr → Heap → Ptr × Heap
retain p h = (p, λ q. if q == p then more (h p) else h q)

abbrev let_go : Ptr → Heap → Heap
let_go p h = λ q. if q == p then fewer (h p) else h q

module _ (p q : Ptr) (h : Heap) where
  pub retain_count :
      (r : ℕ) → h p ≡ some r → (retain p h).1 q ≡ (if q == p then some (r + 1) else h q)
  retain_count r e = ground arith

  pub let_go_count : (r : ℕ) → h p ≡ some (suc r) → let_go p h q ≡ (if q == p then some r else h q)
  let_go_count r e = ground arith

  pub let_go_last : h p ≡ some 0 → let_go p h q ≡ (if q == p then none else h q)
  let_go_last e = ground arith

unfoldable pub counting : Kx
counting = record {
  r1 = retain;
  r0 = let_go;
  r1_same = λ p h. refl;
  r1_count = retain_count;
  r0_count = let_go_count;
  r0_last = let_go_last;
}

-- One object, which someone outside owns, and two variables that hold nothing.
abbrev pub begin : Machine
begin = record { m_k = λ i. nullptr; heap = λ p. if p == 1 then some 0 else none }

abbrev pub outside : Outside
outside p = one_if 1 p

begin-Balanced : Balanced 2 begin outside
unfolding owners
begin-Balanced = record { books = λ p ne. ground arith }

-- The first variable takes the object over, and the second copies the first.
abbrev owned : Machine
owned = construct counting 0 1 begin

abbrev shared : Machine
shared = copy_construct counting 1 0 owned

run : Reach counting 2 begin outside shared (one_less 1 outside)
unfolding construct
run =
    next (next here (constructed begin outside 0 1 (omega arith) refl (inr (omega arith))))
      (copied owned (one_less 1 outside) 1 0 (omega arith) (omega arith) refl)

shared_holds : shared.m_k 1 ≡ 1
unfolding construct copy_construct r1_or_null counting
shared_holds = refl

shared_not_null : shared.m_k 1 ≢ nullptr
shared_not_null e = omega (arith, shared_holds)

use_count-Reach_example :
    use_count 1 shared
    ≡ some (owners 2 shared.m_k (shared.m_k 1) + one_less 1 outside (shared.m_k 1))
use_count-Reach_example =
    use_count-Reach counting 2 1 begin-Balanced run (omega arith) shared_not_null

abbrev ended : Machine
ended = destruct counting 1 (destruct counting 0 shared)

whole_run : Reach counting 2 begin outside ended (one_less 1 outside)
whole_run =
    next (next run (destructed shared (one_less 1 outside) 0 (omega arith)))
      (destructed (destruct counting 0 shared) (one_less 1 outside) 1 (omega arith))

all_empty : (i : ℕ) → i < 2 → ended.m_k i ≡ nullptr
unfolding destruct
all_empty i lt = ground arith

freed-Reach_example : ended.heap 1 ≡ none
freed-Reach_example =
    freed-Reach counting 2 1 begin-Balanced whole_run (λ e. omega arith) all_empty refl

-- Two threads ask for a manager.
abbrev both : Threads
both = initialise 1 (initialise 0 at_start)

locked-Reach_example :
    (both.manager.m_active_managers ≡ managers 2 both.has)
    × (locked both.manager.calls ≡ leb 2 (managers 2 both.has))
    × (khps both.manager.calls ≡ m9s both.manager.calls + managers 2 both.has)
locked-Reach_example =
    locked-Reach (omega arith) (asks 1 (omega arith) (asks 0 (omega arith) start))

locked_by_two : locked both.manager.calls ≡ true
unfolding locked initialise
locked_by_two = refl
