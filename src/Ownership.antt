-- ===== src/Ownership.antt =====
-- The class K of include/qbind/k.h as the owner of a KX pointer: its constructors, assignments,
-- destructor, `swap`, `use_count`, `operator bool` and `release`. The reference counting of the KX
-- library (`r0`, `r1`) is a parameter.
pub mod Counting
pub mod Balance
pub mod Runs
use qbind.Base.{ℕ, zero, suc, ◌+◌, ◌≡◌, Bool, true, false, ◌&&◌, Option, none, some}
use qbind.Base.Tests.{◌==◌, ◌!=◌, if◌then◌else◌}

abbrev pub Ptr : Type 0
Ptr = ℕ

abbrev pub nullptr : Ptr
nullptr = 0

-- The field `r` of the object at an address; `none` where no object is.
abbrev pub Heap : Type 0
Heap = Ptr → Option ℕ

-- `r1` increments the count of an object and returns the object; `r0` decrements it, and on a
-- count of 0 frees the object. Counts start at 0. The objects hold no pointers to others.
pub record Kx : Type 0 where
  pub r1 : Ptr → Heap → Ptr × Heap
  pub r0 : Ptr → Heap → Heap
  pub r1_same : (p : Ptr) (h : Heap) → (r1 p h).0 ≡ p
  pub r1_count :
      (p q : Ptr) (h : Heap) (r : ℕ)
      → h p ≡ some r
      → (r1 p h).1 q ≡ (if q == p then some (r + 1) else h q)
  pub r0_count :
      (p q : Ptr) (h : Heap) (r : ℕ)
      → h p ≡ some (suc r)
      → r0 p h q ≡ (if q == p then some r else h q)
  pub r0_last : (p q : Ptr) (h : Heap) → h p ≡ some 0 → r0 p h q ≡ (if q == p then none else h q)

-- The variables of class K by number, each with its `m_k`, and the heap. A variable that is not
-- constructed, or is destructed, holds null.
pub record Machine : Type 0 where
  pub m_k : ℕ → Ptr
  pub heap : Heap

abbrev pub update : (ℕ → Ptr) → ℕ → Ptr → ℕ → Ptr
update f i p j = if j == i then p else f j

module _ (kx : Kx) where
  -- `_r1` and `_r0`: nothing on a null pointer.
  unfoldable pub r1_or_null : Ptr → Heap → Ptr × Heap
  r1_or_null x h = if x != nullptr then kx.r1 x h else (x, h)

  unfoldable pub r0_or_null : Ptr → Heap → Heap
  r0_or_null x h = if x != nullptr then kx.r0 x h else h

  -- `K()` and `K(nullptr)`
  unfoldable pub construct_null : ℕ → Machine → Machine
  construct_null i s = record s { m_k = update s.m_k i nullptr }

  -- `explicit K(::K k)`
  unfoldable pub construct : ℕ → Ptr → Machine → Machine
  construct i k s = record s { m_k = update s.m_k i k }

  -- `make_non_owning(k)`, its result constructed in the variable `i`
  unfoldable pub make_non_owning : ℕ → Ptr → Machine → Machine
  unfolding r1_or_null
  make_non_owning i k s =
      let (k', h) = r1_or_null k s.heap in record { m_k = update s.m_k i k'; heap = h }

  -- `K(const K& other)`
  unfoldable pub copy_construct : (i other : ℕ) → Machine → Machine
  unfolding r1_or_null
  copy_construct i other s =
      let (k', h) = r1_or_null (s.m_k other) s.heap in record { m_k = update s.m_k i k'; heap = h }

  -- `K(K&& other)`
  unfoldable pub move_construct : (i other : ℕ) → Machine → Machine
  move_construct i other s = record s { m_k = update (update s.m_k i (s.m_k other)) other nullptr }

  -- `~K()`
  unfoldable pub destruct : ℕ → Machine → Machine
  unfolding r0_or_null
  destruct i s = record { m_k = update s.m_k i nullptr; heap = r0_or_null (s.m_k i) s.heap }

  -- `operator=(const K& other)`
  unfoldable pub copy_assign : (i other : ℕ) → Machine → Machine
  unfolding r0_or_null r1_or_null
  copy_assign i other s =
      if (i != other) && (s.m_k i != s.m_k other)
      then (let (k', h) = r1_or_null (s.m_k other) (r0_or_null (s.m_k i) s.heap) in
          record { m_k = update s.m_k i k'; heap = h })
      else s

  -- `operator=(K&& other)`
  unfoldable pub move_assign : (i other : ℕ) → Machine → Machine
  unfolding r0_or_null
  move_assign i other s =
      if i != other
      then record {
        m_k = update (update s.m_k i (s.m_k other)) other nullptr;
        heap = r0_or_null (s.m_k i) s.heap;
      }
      else s

  -- `swap(K& other)`
  unfoldable pub swap : (i other : ℕ) → Machine → Machine
  swap i other s =
      let tmp = s.m_k i in record s { m_k = update (update s.m_k i (s.m_k other)) other tmp }

  -- `release()`
  unfoldable pub release : ℕ → Machine → Ptr × Machine
  release i s = (s.m_k i, record s { m_k = update s.m_k i nullptr })

-- `use_count()`; reading the count of an object that is not there is undefined.
unfoldable pub use_count : ℕ → Machine → Option ℕ
use_count i s =
    if s.m_k i == nullptr
    then some 0
    else elim (s.heap (s.m_k i)) [ none ↦ none | some r ↦ some (1 + r) ]

-- `operator bool`
unfoldable pub to_bool : ℕ → Machine → Bool
to_bool i s = s.m_k i != nullptr
