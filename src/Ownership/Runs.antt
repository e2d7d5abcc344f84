-- ===== src/Ownership/Runs.antt =====
-- Programs over the class K (include/qbind/k.h): any sequence of its operations, mixed with what
-- other owners of the objects do.
use qbind.Base.{ℕ, zero, suc, ◌+◌, ◌<◌, ◌≤◌, ◌≡◌, ◌≢◌, refl, arith, none, some, ◌⊎◌}
use qbind.Ownership.{
  Ptr, nullptr, Kx, Machine, r1_or_null, r0_or_null, construct, make_non_owning, copy_construct,
  move_construct, destruct, copy_assign, move_assign, swap, release, use_count,
}
use qbind.Ownership.Counting.{owners, claims-r1, claims-r0}
use qbind.Ownership.Balance.{
  Outside, one_more, one_less, Balanced, IsLive, construct-Balanced, make_non_owning-Balanced,
  copy_construct-Balanced, move_construct-Balanced, destruct-Balanced, copy_assign-Balanced,
  move_assign-Balanced, swap-Balanced, release-Balanced, use_count-owners,
}

no_owner :
    (m : ℕ) (f : ℕ → Ptr) (p : Ptr)
    → p ≢ nullptr
    → ((i : ℕ) → i < m → f i ≡ nullptr)
    → owners m f p ≡ 0
unfolding owners
no_owner zero f p ne h = refl
no_owner (suc m) f p ne h =
    ground (arith, no_owner m f p ne (λ i lt. h i (omega arith)), h m (omega arith))

module _ (kx : Kx) (n : ℕ) where
  -- One step on the variables below `n`. A constructor needs a variable that holds nothing;
  -- `explicit K(k)` takes over a reference that someone outside owned, `make_non_owning` needs a
  -- live object, and `release` hands a reference out. Owners outside take and drop references.
  pub data Step : Machine → Outside → Machine → Outside → Type 0 where
    constructed :
        (s : Machine) (e : Outside) (i : ℕ) (k : Ptr)
        → i < n
        → s.m_k i ≡ nullptr
        → (k ≡ nullptr) ⊎ (1 ≤ e k)
        → Step s e (construct kx i k s) (one_less k e)
    viewed :
        (s : Machine) (e : Outside) (i : ℕ) (k : Ptr)
        → i < n
        → s.m_k i ≡ nullptr
        → IsLive k s.heap
        → Step s e (make_non_owning kx i k s) e
    copied :
        (s : Machine) (e : Outside) (i other : ℕ)
        → i < n
        → other < n
        → s.m_k i ≡ nullptr
        → Step s e (copy_construct kx i other s) e
    moved :
        (s : Machine) (e : Outside) (i other : ℕ)
        → i < n
        → other < n
        → i ≢ other
        → s.m_k i ≡ nullptr
        → Step s e (move_construct kx i other s) e
    destructed : (s : Machine) (e : Outside) (i : ℕ) → i < n → Step s e (destruct kx i s) e
    copy_assigned :
        (s : Machine) (e : Outside) (i other : ℕ)
        → i < n
        → other < n
        → Step s e (copy_assign kx i other s) e
    move_assigned :
        (s : Machine) (e : Outside) (i other : ℕ)
        → i < n
        → other < n
        → Step s e (move_assign kx i other s) e
    swapped :
        (s : Machine) (e : Outside) (i other : ℕ)
        → i < n
        → other < n
        → Step s e (swap kx i other s) e
    released :
        (s : Machine) (e : Outside) (i : ℕ)
        → i < n
        → Step s e (release kx i s).1 (one_more (s.m_k i) e)
    retained_outside :
        (s : Machine) (e : Outside) (k : Ptr)
        → IsLive k s.heap
        → Step s e (record s { heap = (r1_or_null kx k s.heap).1 }) (one_more k e)
    dropped_outside :
        (s : Machine) (e : Outside) (k : Ptr)
        → 1 ≤ e k
        → IsLive k s.heap
        → Step s e (record s { heap = r0_or_null kx k s.heap }) (one_less k e)

  pub data Reach (s : Machine) (e : Outside) : Machine → Outside → Type 0 where
    here : Reach s e s e
    next : {t u : Machine} {f g : Outside} → Reach s e t f → Step t f u g → Reach s e u g

  Step-Balanced : {s t : Machine} {e f : Outside} → Step s e t f → Balanced n s e → Balanced n t f
  Step-Balanced (constructed s e i k lt fresh owned) b = construct-Balanced kx b i k lt fresh owned
  Step-Balanced (viewed s e i k lt fresh live) b = make_non_owning-Balanced kx b i k lt fresh live
  Step-Balanced (copied s e i j lt lt' fresh) b = copy_construct-Balanced kx b i j lt lt' fresh
  Step-Balanced (moved s e i j lt lt' ne fresh) b = move_construct-Balanced kx b i j lt lt' ne fresh
  Step-Balanced (destructed s e i lt) b = destruct-Balanced kx b i lt
  Step-Balanced (copy_assigned s e i j lt lt') b = copy_assign-Balanced kx b i j lt lt'
  Step-Balanced (move_assigned s e i j lt lt') b = move_assign-Balanced kx b i j lt lt'
  Step-Balanced (swapped s e i j lt lt') b = swap-Balanced kx b i j lt lt'
  Step-Balanced (released s e i lt) b = release-Balanced kx b i lt
  Step-Balanced (retained_outside s e k live) b = record {
    books = λ p ne. omega (arith, b.books p ne, (claims-r1 kx k p s.heap ne live).1);
  }
  Step-Balanced (dropped_outside s e k owned live) b = record {
    books = λ p ne. ground (arith, b.books p ne, claims-r0 kx k p s.heap ne live);
  }

  -- In every state that a program over the class K reaches from balanced books, each object has as
  -- many owners as its count says.
  pub Reach-Balanced :
      {s : Machine} {e : Outside} {t : Machine} {f : Outside}
      → Balanced n s e
      → Reach s e t f
      → Balanced n t f
  Reach-Balanced b here = b
  Reach-Balanced b (next r st) = Step-Balanced st (Reach-Balanced b r)

  -- In a state that a program over the class K reaches from balanced books, `use_count` of a
  -- variable that holds no null is the number of all owners of the object, in variables and
  -- outside, so that the object is live.
  pub use_count-Reach :
      {s t : Machine} {e f : Outside} (i : ℕ)
      → Balanced n s e
      → Reach s e t f
      → i < n
      → t.m_k i ≢ nullptr
      → use_count i t ≡ some (owners n t.m_k (t.m_k i) + f (t.m_k i))
  use_count-Reach i b r lt ne = use_count-owners (Reach-Balanced b r) i lt ne

  -- In a state that a program over the class K reaches from balanced books, an object that nobody
  -- outside owns is freed once every variable is empty.
  pub freed-Reach :
      {s t : Machine} {e f : Outside} (p : Ptr)
      → Balanced n s e
      → Reach s e t f
      → p ≢ nullptr
      → ((i : ℕ) → i < n → t.m_k i ≡ nullptr)
      → f p ≡ 0
      → t.heap p ≡ none
  freed-Reach {t} p b r ne empty unowned =
      let even = (Reach-Balanced b r).books p ne in
      ground (arith, even, no_owner n t.m_k p ne empty)
