-- ===== src/Converter/Calls.antt =====
-- The references that an exported call takes and gives (include/qbind/converter.h).
use mathlib.Core.Path.{subst}
use qbind.Base.{ℕ, ◌∙◌, ◌<◌, ◌≡◌, ◌≢◌, arith}
use qbind.Ownership.{
  Ptr, nullptr, Kx, Machine, r1_or_null, make_non_owning, copy_construct, release, destruct,
}
use qbind.Ownership.Balance.{
  Outside, one_more, Balanced, IsLive, make_non_owning-Balanced, copy_construct-Balanced,
  release-Balanced, destruct-Balanced,
}
use qbind.Converter.{to_cpp, to_q}

-- What the variables hold behind each step.
module _ (kx : Kx) (s : Machine) (i j : ℕ) where
  copied_pointer : (copy_construct kx j i s).m_k j ≡ s.m_k i
  unfolding copy_construct r1_or_null
  copied_pointer = ground (arith, kx.r1_same (s.m_k i) s.heap)

  other_fresh : (arr : Ptr) → i ≢ j → s.m_k j ≡ nullptr → (to_cpp kx i arr s).m_k j ≡ nullptr
  unfolding to_cpp make_non_owning
  other_fresh arr ne h = ground arith

argument : (kx : Kx) (s : Machine) (i : ℕ) (arr : Ptr) → (to_cpp kx i arr s).m_k i ≡ arr
unfolding to_cpp make_non_owning r1_or_null
argument kx s i arr = ground (arith, kx.r1_same arr s.heap)

module _ (kx : Kx) {n : ℕ} {s : Machine} {e : Outside} (b : Balanced n s e) where
  -- An argument is taken without a change to what the caller owns.
  pub to_cpp-Balanced :
      (i : ℕ) (arr : Ptr)
      → i < n
      → s.m_k i ≡ nullptr
      → IsLive arr s.heap
      → Balanced n (to_cpp kx i arr s) e
  unfolding to_cpp
  to_cpp-Balanced i arr lt fresh live = make_non_owning-Balanced kx b i arr lt fresh live

  -- A result leaves with one reference for the caller, and both variables are empty behind it.
  pub to_q-Balanced :
      (i j : ℕ)
      → i < n
      → j < n
      → i ≢ j
      → s.m_k j ≡ nullptr
      → ((to_q kx i j s).0 ≡ s.m_k i)
        × Balanced n (to_q kx i j s).1 (one_more ((to_q kx i j s).0) e)
        × ((to_q kx i j s).1.m_k i ≡ nullptr)
        × ((to_q kx i j s).1.m_k j ≡ nullptr)
  unfolding to_q release destruct
  to_q-Balanced i j lt lt' ne fresh =
      let copied = copy_construct-Balanced kx b j i lt' lt fresh in
      let given = release-Balanced kx copied j lt' in
      let first = destruct-Balanced kx given j lt' in
      (copied_pointer kx s i j, destruct-Balanced kx first i lt, ground arith, ground arith)

-- An exported function that returns its argument, a null or live object, with two fresh variables
-- on balanced books, gives the caller one reference to it beside those that it has, and leaves the
-- books balanced and both variables empty.
to_q-to_cpp :
    (kx : Kx) {n : ℕ} {s : Machine} {e : Outside} (i j : ℕ) (arr : Ptr)
    → Balanced n s e
    → i < n
    → j < n
    → i ≢ j
    → s.m_k i ≡ nullptr
    → s.m_k j ≡ nullptr
    → IsLive arr s.heap
    → ((to_q kx i j (to_cpp kx i arr s)).0 ≡ arr)
      × Balanced n (to_q kx i j (to_cpp kx i arr s)).1 (one_more arr e)
      × ((to_q kx i j (to_cpp kx i arr s)).1.m_k i ≡ nullptr)
      × ((to_q kx i j (to_cpp kx i arr s)).1.m_k j ≡ nullptr)
to_q-to_cpp kx {n} {s} {e} i j arr b lt lt' ne fresh fresh' live =
    let taken = to_cpp-Balanced kx b i arr lt fresh live in
    let (p, books, left, left') =
      to_q-Balanced kx taken i j lt lt' ne (other_fresh kx s i j arr ne fresh') in
    let same : (to_q kx i j (to_cpp kx i arr s)).0 ≡ arr = p ∙ argument kx s i arr in
    (
      same,
      subst (λ q. Balanced n (to_q kx i j (to_cpp kx i arr s)).1 (one_more q e)) same books,
      left,
      left',
    )
