-- ===== src/MemoryManager/Lock.antt =====
-- The symbol lock and the number of managers (include/qbind/memory_manager.h).
use qbind.Base.{
  ℕ, zero, suc, ◌+◌, ◌^◌, ◌<◌, ◌≤◌, ◌≡◌, refl, sym, arith, Bool, true, false, List, [], ◌∷◌, inl,
  inr,
}
use qbind.Base.Tests.{leb, if◌then◌else◌, Bool-cases}
use qbind.MemoryManager.{
  Call, khp, setm, m9, Threads, mark, initialise, finish, Reach, start, asks, ends,
}

-- What the last `setm` left; the lock is off at first.
unfoldable pub locked : List Call → Bool
locked [] = false
locked (khp ∷ cs) = locked cs
locked (setm b ∷ cs) = b
locked (m9 ∷ cs) = locked cs

-- How often a call of one kind was made.
unfoldable pub khps : List Call → ℕ
khps [] = 0
khps (khp ∷ cs) = suc (khps cs)
khps (setm b ∷ cs) = khps cs
khps (m9 ∷ cs) = khps cs

unfoldable pub m9s : List Call → ℕ
m9s [] = 0
m9s (khp ∷ cs) = m9s cs
m9s (setm b ∷ cs) = m9s cs
m9s (m9 ∷ cs) = suc (m9s cs)

-- How many of the threads below `n` have a manager.
unfoldable pub managers : ℕ → (ℕ → Bool) → ℕ
managers zero has = 0
managers (suc n) has = managers n has + (if has n then 1 else 0)

abbrev bit : Bool → ℕ
bit b = if b then 1 else 0

managers-mark_of_le :
    (n : ℕ) (has : ℕ → Bool) (t : ℕ) (b : Bool) → n ≤ t → managers n (mark has t b) ≡ managers n has
unfolding managers
managers-mark_of_le zero has t b h = refl
managers-mark_of_le (suc n) has t b h = ground (arith, managers-mark_of_le n has t b)

managers-mark :
    (n : ℕ) (has : ℕ → Bool) (t : ℕ) (b : Bool)
    → t < n
    → managers n (mark has t b) + bit (has t) ≡ managers n has + bit b
unfolding managers
managers-mark zero has t b h = absurd (omega arith)
managers-mark (suc n) has t b h =
    ground (arith, managers-mark n has t b, managers-mark_of_le n has t b)

managers-le : (n : ℕ) (has : ℕ → Bool) → managers n has ≤ n
unfolding managers
managers-le zero has = omega arith
managers-le (suc n) has = ground (arith, managers-le n has)

-- The counter counts the threads that have a manager, and the lock is on from two of them on.
pub record Inv (n : ℕ) (s : Threads) : Type 0 where
  pub counted : s.manager.m_active_managers ≡ managers n s.has
  pub lock : locked s.manager.calls ≡ leb 2 s.manager.m_active_managers
  pub pools : khps s.manager.calls ≡ m9s s.manager.calls + s.manager.m_active_managers

module _ {n : ℕ} {s : Threads} (small : n < 2 ^ 64) (i : Inv n s) (t : ℕ) (lt : t < n) where
  open i use {counted, lock, pools}

  initialise-Inv : Inv n (initialise t s)
  unfolding initialise locked khps m9s
  initialise-Inv = elim (Bool-cases (s.has t)) [
    | inl old ↦ rw old i
    | inr new ↦
        let more = managers-mark n s.has t true lt in
        let bound = managers-le n (mark s.has t true) in
        rw new (record {
          counted = ground (arith, counted, more, bound);
          lock = ground (arith, counted, lock, more, bound);
          pools = ground (arith, counted, pools, more, bound);
        })
  ]

  finish-Inv : Inv n (finish t s)
  unfolding finish locked khps m9s
  finish-Inv = elim (Bool-cases (s.has t)) [
    | inl old ↦
        let fewer = managers-mark n s.has t false lt in
        let bound = managers-le n s.has in
        rw old (record {
          counted = ground (arith, counted, fewer, bound);
          lock = ground (arith, counted, lock, fewer, bound);
          pools = ground (arith, counted, pools, fewer, bound);
        })
    | inr new ↦ rw new i
  ]

managers-none : (n : ℕ) → managers n (λ t. false) ≡ 0
unfolding managers
managers-none zero = refl
managers-none (suc n) = omega (arith, managers-none n)

-- In every order of constructions and destructions.
pub Reach-Inv : {n : ℕ} {s : Threads} → n < 2 ^ 64 → Reach n s → Inv n s
unfolding locked khps m9s
Reach-Inv {n} small start = record { counted = sym (managers-none n); lock = refl; pools = refl }
Reach-Inv small (asks t lt r) = initialise-Inv small (Reach-Inv small r) t lt
Reach-Inv small (ends t lt r) = finish-Inv small (Reach-Inv small r) t lt

-- With fewer than 2 ^ 64 threads, in every order of constructions and destructions, the counter is
-- the number of threads that have a manager, the symbol lock is on exactly while there are two or
-- more, and the memory system was initialised once for each manager and released once for each that
-- is gone.
pub locked-Reach :
    {n : ℕ} {s : Threads}
    → n < 2 ^ 64
    → Reach n s
    → (s.manager.m_active_managers ≡ managers n s.has)
      × (locked s.manager.calls ≡ leb 2 (managers n s.has))
      × (khps s.manager.calls ≡ m9s s.manager.calls + managers n s.has)
locked-Reach {n} {s} small r =
    let (counted, lock, pools) = facts in (counted, ground arith, ground arith)
  where
    facts :
        (s.manager.m_active_managers ≡ managers n s.has)
        × (locked s.manager.calls ≡ leb 2 s.manager.m_active_managers)
        × (khps s.manager.calls ≡ m9s s.manager.calls + s.manager.m_active_managers)
    facts = let i = Reach-Inv small r in (i.counted, i.lock, i.pools)
