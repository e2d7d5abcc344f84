-- ===== src/Ownership/Counting.antt =====
-- Counting the variables that hold a pointer, and what `r0` and `r1` do to the owners that the
-- count of an object stands for (include/qbind/k.h).
use qbind.Base.{
  ℕ, zero, suc, ◌+◌, ◌<◌, ◌≤◌, ◌≡◌, ◌≢◌, refl, arith, Option, none, some, ◌⊎◌, inl, inr,
}
use qbind.Base.Tests.{◌==◌, if◌then◌else◌}
use qbind.Ownership.{Ptr, nullptr, Heap, Kx, update, r1_or_null, r0_or_null}

-- 1 where the two pointers are equal.
abbrev pub one_if : Ptr → Ptr → ℕ
one_if p q = if p == q then 1 else 0

-- How many of the first `n` variables hold `p`.
unfoldable pub owners : ℕ → (ℕ → Ptr) → Ptr → ℕ
owners zero f p = 0
owners (suc n) f p = owners n f p + one_if (f n) p

owners-update_of_le :
    (n : ℕ) (f : ℕ → Ptr) (i : ℕ) (q p : Ptr) → n ≤ i → owners n (update f i q) p ≡ owners n f p
unfolding owners
owners-update_of_le zero f i q p h = refl
owners-update_of_le (suc n) f i q p h = ground (arith, owners-update_of_le n f i q p)

pub owners-update :
    (n : ℕ) (f : ℕ → Ptr) (i : ℕ) (q p : Ptr)
    → i < n
    → owners n (update f i q) p + one_if (f i) p ≡ owners n f p + one_if q p
unfolding owners
owners-update zero f i q p h = absurd (omega arith)
owners-update (suc n) f i q p h =
    ground (arith, owners-update n f i q p, owners-update_of_le n f i q p)

pub one_if-le-owners :
    (n : ℕ) (f : ℕ → Ptr) (i : ℕ) (p : Ptr) → i < n → one_if (f i) p ≤ owners n f p
unfolding owners
one_if-le-owners zero f i p h = absurd (omega arith)
one_if-le-owners (suc n) f i p h = ground (arith, one_if-le-owners n f i p)

-- The owners that a count stands for: `r` says how many there are beside the first.
abbrev pub claims : Option ℕ → ℕ
claims none = 0
claims (some r) = suc r

live-some : (o : Option ℕ) → 1 ≤ claims o → (r : ℕ) × (o ≡ some r)
live-some none h = absurd (omega arith)
live-some (some r) h = (r, refl)

module _ (kx : Kx) (x p : Ptr) (h : Heap) (nonnull : p ≢ nullptr) where
  r0_live : (r : ℕ) → h x ≡ some r → claims (kx.r0 x h p) + one_if x p ≡ claims (h p)
  r0_live zero e = ground (arith, kx.r0_last x p h)
  r0_live (suc r) e = ground (arith, kx.r0_count x p h r)

  -- `_r1` on null or on a live object returns its argument, and adds an owner of it.
  pub claims-r1 :
      (x ≡ nullptr) ⊎ (1 ≤ claims (h x))
      → ((r1_or_null kx x h).0 ≡ x) × (claims ((r1_or_null kx x h).1 p) ≡ claims (h p) + one_if x p)
  unfolding r1_or_null
  claims-r1 (inl e) = (ground arith, ground arith)
  claims-r1 (inr l) =
      let (r, e) = live-some (h x) l in
      (ground (arith, kx.r1_same x h), ground (arith, kx.r1_count x p h r e))

  -- `_r0` on null or on a live object takes an owner of it away.
  pub claims-r0 :
      (x ≡ nullptr) ⊎ (1 ≤ claims (h x)) → claims (r0_or_null kx x h p) + one_if x p ≡ claims (h p)
  unfolding r0_or_null
  claims-r0 (inl e) = ground arith
  claims-r0 (inr l) = let (r, e) = live-some (h x) l in ground (arith, r0_live r e)
