-- ===== src/Converter.antt =====
-- The class Converter of include/qbind/converter.h, by what it does to the variables of class K: an
-- argument becomes a wrapper whose `m_ptr` is the variable `i`, and a returned wrapper's variable
-- is copied by `get()`, released and destructed.
pub mod Calls
use qbind.Base.{ℕ}
use qbind.Ownership.{Ptr, Kx, Machine, make_non_owning, copy_construct, release, destruct}

module _ (kx : Kx) where
  -- `to_cpp(arr)`, into the variable `i`
  unfoldable pub to_cpp : ℕ → Ptr → Machine → Machine
  to_cpp i arr s = make_non_owning kx i arr s

  -- `to_q(value)`: `value` has the variable `i`, and the result of `get()` the variable `j`, which
  -- is destructed at the end of the expression, and `value` behind it.
  unfoldable pub to_q : (i j : ℕ) → Machine → Ptr × Machine
  to_q i j s =
      let (p, t) = release kx j (copy_construct kx j i s) in (p, destruct kx i (destruct kx j t))
