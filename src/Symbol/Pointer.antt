-- ===== src/Symbol/Pointer.antt =====
-- The class SymbolPointer of include/qbind/symbol.h: a pointer is the number of the symbol that it
-- leads to.
use qbind.Base.{◌≡◌, Bool, not, arith}
use qbind.Base.Int.{ℤ, pos, eq_ℤ, ◌+ℤ◌, ◌-ℤ◌, +ℤ_parts, -ℤ_parts, eq_of_parts}

-- `operator+(rhs)` and `operator-(rhs)` with a distance
unfoldable pub plus : ℤ → ℤ → ℤ
plus p n = p +ℤ n

unfoldable pub minus : ℤ → ℤ → ℤ
minus p n = p -ℤ n

-- `operator-(rhs)` with a pointer
unfoldable pub difference : ℤ → ℤ → ℤ
difference p q = p -ℤ q

-- `operator+=` and `operator-=`
unfoldable pub add_assign : ℤ → ℤ → ℤ
add_assign m_ptr rhs = m_ptr +ℤ rhs

unfoldable pub sub_assign : ℤ → ℤ → ℤ
sub_assign m_ptr rhs = m_ptr -ℤ rhs

-- `++p` and `--p`
unfoldable pub pre_increment : ℤ → ℤ
pre_increment m_ptr = m_ptr +ℤ pos 1

unfoldable pub pre_decrement : ℤ → ℤ
pre_decrement m_ptr = m_ptr -ℤ pos 1

-- `p++` and `p--`: the result, and the pointer behind it
unfoldable pub post_increment : ℤ → ℤ × ℤ
post_increment m_ptr = let tmp = m_ptr in (tmp, m_ptr +ℤ pos 1)

unfoldable pub post_decrement : ℤ → ℤ × ℤ
post_decrement m_ptr = let tmp = m_ptr in (tmp, m_ptr -ℤ pos 1)

-- The symbol that `operator[]` leads to
unfoldable pub symbol_at : ℤ → ℤ → ℤ
symbol_at m_ptr rhs = m_ptr +ℤ rhs

-- `operator<=>`: the difference of the pointers, as a `bool`
unfoldable pub compare : ℤ → ℤ → Bool
compare p q = not (eq_ℤ (p -ℤ q) (pos 0))

-- Steps forward and backward undo each other, and the difference is the distance that was stepped.
pub difference-plus :
    (p n : ℤ) → (difference (plus p n) p ≡ n) × (minus (plus p n) n ≡ p) × (plus (minus p n) n ≡ p)
unfolding difference plus minus
difference-plus p n = (
  eq_of_parts _ _ (omega (arith, -ℤ_parts (p +ℤ n) p, +ℤ_parts p n)),
  eq_of_parts _ _ (omega (arith, -ℤ_parts (p +ℤ n) n, +ℤ_parts p n)),
  eq_of_parts _ _ (omega (arith, +ℤ_parts (p -ℤ n) n, -ℤ_parts p n)),
)

-- The three-way comparison of two pointers says whether they differ, the same in both orders, so
-- that it orders none.
pub compare_comm : (p q : ℤ) → compare p q ≡ compare q p
unfolding compare ◌-ℤ◌
compare_comm p q = ground arith

-- A decrement undoes an increment, and an assignment with a distance is so many of them: the symbol
-- behind `n` steps is that at the index `n`.
pub pre_decrement-pre_increment :
    (p n : ℤ)
    → (pre_decrement (pre_increment p) ≡ p)
      × (difference (post_increment p).1 (post_increment p).0 ≡ pos 1)
      × (difference (post_decrement p).0 (post_decrement p).1 ≡ pos 1)
      × (symbol_at (pre_increment p) n ≡ add_assign p (pre_increment n))
      × (sub_assign (add_assign p n) n ≡ p)
unfolding pre_decrement pre_increment post_increment post_decrement difference symbol_at add_assign
    sub_assign
pre_decrement-pre_increment p n = (
  eq_of_parts _ _ (omega (arith, -ℤ_parts (p +ℤ pos 1) (pos 1), +ℤ_parts p (pos 1))),
  eq_of_parts _ _ (omega (arith, -ℤ_parts (p +ℤ pos 1) p, +ℤ_parts p (pos 1))),
  eq_of_parts _ _ (omega (arith, -ℤ_parts p (p -ℤ pos 1), -ℤ_parts p (pos 1))),
  eq_of_parts _ _ (
      omega (
        arith,
        +ℤ_parts (p +ℤ pos 1) n,
        +ℤ_parts p (pos 1),
        +ℤ_parts p (n +ℤ pos 1),
        +ℤ_parts n (pos 1),
      )),
  eq_of_parts _ _ (omega (arith, -ℤ_parts (p +ℤ n) n, +ℤ_parts p n)),
)
