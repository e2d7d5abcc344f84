-- ===== src/MemoryManager.antt =====
-- The class MemoryManager of include/qbind/memory_manager.h: one manager for each thread that asks
-- for it, counted under a mutex, and the symbol lock that is on while there are two or more.
pub mod Lock
use qbind.Base.{
  ℕ, zero, suc, ◌+◌, ◌-◌, ◌%◌, ◌^◌, ◌<◌, Bool, true, false, Option, none, some, List, [], ◌∷◌,
}
use qbind.Base.Tests.{◌==◌, if◌then◌else◌}

-- The calls of the KX library, the latest first: `khp("", -1)`, `setm(m)` and `m9()`.
pub data Call : Type 0 where
  khp : Call
  setm : Bool → Call
  m9 : Call

-- The static members, and the calls made so far.
pub record Manager : Type 0 where
  pub m_main_thread : Option ℕ
  pub m_active_managers : ℕ
  pub calls : List Call

abbrev keep_first : Option ℕ → ℕ → Option ℕ
keep_first none t = some t
keep_first (some m) t = some m

abbrev pub call_if : Bool → Call → List Call → List Call
call_if true c cs = c ∷ cs
call_if false c cs = cs

-- The constructor, in the thread `t`; `size_t` wraps around.
unfoldable pub construct : ℕ → Manager → Manager
construct t m =
    let active = (m.m_active_managers + 1) % 2 ^ 64 in
    record {
      m_main_thread = keep_first m.m_main_thread t;
      m_active_managers = active;
      calls = call_if (active == 2) (setm true) (khp ∷ m.calls);
    }

-- The destructor.
unfoldable pub destruct : Manager → Manager
destruct m =
    let active = (m.m_active_managers + 2 ^ 64 - 1) % 2 ^ 64 in
    record m { m_active_managers = active; calls = m9 ∷ call_if (active == 1) (setm false) m.calls }

-- The manager, and which threads have constructed their `thread_local`.
pub record Threads : Type 0 where
  pub manager : Manager
  pub has : ℕ → Bool

abbrev pub mark : (ℕ → Bool) → ℕ → Bool → ℕ → Bool
mark has t b u = if u == t then b else has u

-- `initialise()` in the thread `t`: the `thread_local` is constructed by the first call only.
unfoldable pub initialise : ℕ → Threads → Threads
unfolding construct
initialise t s =
    if s.has t then s else record { manager = construct t s.manager; has = mark s.has t true }

-- The thread `t` ends, and destructs its `thread_local` if it has one.
unfoldable pub finish : ℕ → Threads → Threads
unfolding destruct
finish t s =
    if s.has t then record { manager = destruct s.manager; has = mark s.has t false } else s

-- Before any thread has asked for a manager.
abbrev pub at_start : Threads
at_start = record {
  manager = record { m_main_thread = none; m_active_managers = 0; calls = [] };
  has = λ t. false;
}

-- The threads below `n` in any order; the mutex makes each constructor and destructor one step.
pub data Reach (n : ℕ) : Threads → Type 0 where
  start : Reach n at_start
  asks : {s : Threads} (t : ℕ) → t < n → Reach n s → Reach n (initialise t s)
  ends : {s : Threads} (t : ℕ) → t < n → Reach n s → Reach n (finish t s)
