-- ===== src/Ownership/Balance.antt =====
-- The operations of the class K (include/qbind/k.h), and the owners of each object before and after.
use qbind.Base.{ℕ, ◌+◌, ◌-◌, ◌<◌, ◌≤◌, ◌≡◌, ◌≢◌, arith, some, ◌⊎◌, inl, inr, true, ◌&&◌}
use qbind.Base.Tests.{◌==◌, ◌!=◌, Bool-cases}
use qbind.Ownership.{
  Ptr, nullptr, Heap, Kx, Machine, update, r0_or_null, construct, make_non_owning, copy_construct,
  move_construct, destruct, copy_assign, move_assign, swap, release, use_count,
}
use qbind.Ownership.Counting.{
  one_if, owners, owners-update, one_if-le-owners, claims, claims-r1, claims-r0,
}

-- Who owns objects outside the variables of class K, and how often.
abbrev pub Outside : Type 0
Outside = Ptr → ℕ

abbrev pub one_more : Ptr → Outside → Outside
one_more p e q = e q + one_if p q

abbrev pub one_less : Ptr → Outside → Outside
one_less p e q = e q - one_if p q

-- The owners of each object, inside and outside, are as many as its count stands for.
pub record Balanced (n : ℕ) (s : Machine) (e : Outside) : Type 0 where
  pub books : (p : Ptr) → p ≢ nullptr → owners n s.m_k p + e p ≡ claims (s.heap p)

abbrev pub IsLive : Ptr → Heap → Type 0
IsLive p h = (p ≡ nullptr) ⊎ (1 ≤ claims (h p))

module _ {n : ℕ} {s : Machine} {e : Outside} (b : Balanced n s e) where
  open b use {books}

  -- What a variable holds is null or live.
  pub held-IsLive : (i : ℕ) → i < n → IsLive (s.m_k i) s.heap
  held-IsLive i lt = elim (Bool-cases (s.m_k i == nullptr)) [
    | inl is_null ↦ inl (ground arith)
    | inr nonnull ↦ inr (ground (arith, books (s.m_k i), one_if-le-owners n s.m_k i (s.m_k i) lt))
  ]

  pub use_count-owners :
      (i : ℕ)
      → i < n
      → s.m_k i ≢ nullptr
      → use_count i s ≡ some (owners n s.m_k (s.m_k i) + e (s.m_k i))
  unfolding use_count
  use_count-owners i lt ne =
      ground (arith, books (s.m_k i) ne, one_if-le-owners n s.m_k i (s.m_k i) lt)

module _ (kx : Kx) {n : ℕ} {s : Machine} {e : Outside} (b : Balanced n s e) where
  open b use {books}

  pub construct-Balanced :
      (i : ℕ) (k : Ptr)
      → i < n
      → s.m_k i ≡ nullptr
      → (k ≡ nullptr) ⊎ (1 ≤ e k)
      → Balanced n (construct kx i k s) (one_less k e)
  unfolding construct
  construct-Balanced i k lt fresh owned = record {
    books = λ p ne. ground (arith, books p ne, owners-update n s.m_k i k p lt);
  }

  pub make_non_owning-Balanced :
      (i : ℕ) (k : Ptr)
      → i < n
      → s.m_k i ≡ nullptr
      → IsLive k s.heap
      → Balanced n (make_non_owning kx i k s) e
  unfolding make_non_owning
  make_non_owning-Balanced i k lt fresh live = record {
    books = λ p ne.
        let (same, more) = claims-r1 kx k p s.heap ne live in
        rw same (ground (arith, books p ne, more, owners-update n s.m_k i k p lt));
  }

  pub copy_construct-Balanced :
      (i other : ℕ)
      → i < n
      → other < n
      → s.m_k i ≡ nullptr
      → Balanced n (copy_construct kx i other s) e
  unfolding copy_construct make_non_owning
  copy_construct-Balanced i other lt lt' fresh =
      make_non_owning-Balanced i (s.m_k other) lt fresh (held-IsLive b other lt')

  pub move_construct-Balanced :
      (i other : ℕ)
      → i < n
      → other < n
      → i ≢ other
      → s.m_k i ≡ nullptr
      → Balanced n (move_construct kx i other s) e
  unfolding move_construct
  move_construct-Balanced i other lt lt' ne' fresh = record {
    books = λ p ne. ground (
      arith,
      books p ne,
      owners-update n s.m_k i (s.m_k other) p lt,
      owners-update n (update s.m_k i (s.m_k other)) other nullptr p lt',
    );
  }

  pub destruct-Balanced : (i : ℕ) → i < n → Balanced n (destruct kx i s) e
  unfolding destruct
  destruct-Balanced i lt = record {
    books = λ p ne. ground (
      arith,
      books p ne,
      claims-r0 kx (s.m_k i) p s.heap ne (held-IsLive b i lt),
      owners-update n s.m_k i nullptr p lt,
    );
  }

  pub swap-Balanced : (i other : ℕ) → i < n → other < n → Balanced n (swap kx i other s) e
  unfolding swap
  swap-Balanced i other lt lt' = record {
    books = λ p ne. ground (
      arith,
      books p ne,
      owners-update n s.m_k i (s.m_k other) p lt,
      owners-update n (update s.m_k i (s.m_k other)) other (s.m_k i) p lt',
    );
  }

  pub release-Balanced : (i : ℕ) → i < n → Balanced n (release kx i s).1 (one_more (s.m_k i) e)
  unfolding release
  release-Balanced i lt = record {
    books = λ p ne. ground (arith, books p ne, owners-update n s.m_k i nullptr p lt);
  }

  pub move_assign-Balanced :
      (i other : ℕ) → i < n → other < n → Balanced n (move_assign kx i other s) e
  unfolding move_assign
  move_assign-Balanced i other lt lt' = elim (Bool-cases (i != other)) [
    | inl apart ↦ rw apart (record {
      books = λ p ne. ground (
        arith,
        books p ne,
        claims-r0 kx (s.m_k i) p s.heap ne (held-IsLive b i lt),
        owners-update n s.m_k i (s.m_k other) p lt,
        owners-update n (update s.m_k i (s.m_k other)) other nullptr p lt',
      );
    })
    | inr same ↦ rw same b
  ]

  still-IsLive :
      (i other : ℕ)
      → i < n
      → other < n
      → (s.m_k i != s.m_k other) ≡ true
      → IsLive (s.m_k other) (r0_or_null kx (s.m_k i) s.heap)
  still-IsLive i other lt lt' apart = elim (Bool-cases (s.m_k other == nullptr)) [
    | inl is_null ↦ inl (ground arith)
    | inr nonnull ↦
        let dropped =
          claims-r0 kx (s.m_k i) (s.m_k other) s.heap (ground arith) (held-IsLive b i lt) in
        inr (ground (arith, dropped, held-IsLive b other lt'))
  ]

  -- Between the `_r0` and the `_r1` of an assignment the source stays live.
  pub copy_assign-Balanced :
      (i other : ℕ) → i < n → other < n → Balanced n (copy_assign kx i other s) e
  unfolding copy_assign
  copy_assign-Balanced i other lt lt' =
      elim (Bool-cases ((i != other) && (s.m_k i != s.m_k other))) [
        | inl apart ↦ rw apart (record {
          books = λ p ne.
              let dropped = claims-r0 kx (s.m_k i) p s.heap ne (held-IsLive b i lt) in
              let (same, more) =
                claims-r1 kx (s.m_k other) p (r0_or_null kx (s.m_k i) s.heap) ne
                  (still-IsLive i other lt lt' (ground arith)) in
              rw same (
                ground
                  (arith, books p ne, dropped, more, owners-update n s.m_k i (s.m_k other) p lt));
        })
        | inr same ↦ rw same b
      ]
