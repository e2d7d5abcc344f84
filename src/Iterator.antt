-- ===== src/Iterator.antt =====
-- The class Iterator of include/qbind/iterator.h: a pointer is the number of the element that it
-- leads to, and `reverse` is the template argument Reverse.
pub mod Order
use qbind.Base.{Bool, true, false, ◌+◌}
use qbind.Base.Tests.{ltb, ◌==◌, if◌then◌else◌}
use qbind.Base.Int.{ℤ, pos, negsuc, neg, eq_ℤ, ltb_ℤ, ◌+ℤ◌, ◌-ℤ◌}

module _ (reverse : Bool) where
  -- `direction`, and `direction * n`
  abbrev pub direction : ℤ
  direction = if reverse then negsuc 0 else pos 1

  abbrev pub directed : ℤ → ℤ
  directed n = if reverse then neg n else n

  -- `add(n)` and `sub(n)`, which `operator+`, `operator-`, `operator+=` and `operator-=` return
  unfoldable pub add : ℤ → ℤ → ℤ
  add m_ptr n = m_ptr +ℤ directed n

  unfoldable pub sub : ℤ → ℤ → ℤ
  sub m_ptr n = m_ptr -ℤ directed n

  -- `++it` and `--it`
  unfoldable pub inc : ℤ → ℤ
  inc p = p +ℤ direction

  unfoldable pub dec : ℤ → ℤ
  dec p = p -ℤ direction

  -- `it++` and `it--`: the result, and the iterator behind it
  unfoldable pub post_inc : ℤ → ℤ × ℤ
  post_inc p = (p, inc p)

  unfoldable pub post_dec : ℤ → ℤ × ℤ
  post_dec p = (p, dec p)

  -- The element that `it[n]` leads to
  unfoldable pub position : ℤ → ℤ → ℤ
  position m_ptr n = m_ptr +ℤ directed n

  -- `operator-(rhs)` with an iterator
  unfoldable pub distance : ℤ → ℤ → ℤ
  distance m_ptr rhs = directed (m_ptr -ℤ rhs)

  -- `operator<=>`
  unfoldable pub compare : ℤ → ℤ → ℤ
  compare m_ptr rhs =
      if eq_ℤ m_ptr rhs then pos 0 else if ltb_ℤ rhs m_ptr then direction else neg direction
