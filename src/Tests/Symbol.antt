-- ===== src/Tests/Symbol.antt =====
-- The comparisons of include/qbind/symbol.h at concrete symbols.
use qbind.Base.{ℕ, ◌≡◌, arith, List, [], ◌∷◌}
use qbind.Base.Outcome.{ok}
use qbind.Symbol.{compare_symbol, compare_view}
use qbind.Symbol.Order.{compare_view-compare_symbol}

-- "ab" and "abc"
abbrev ab : List ℕ
ab = 97 ∷ 98 ∷ []

abbrev abc : List ℕ
abc = 97 ∷ 98 ∷ 99 ∷ []

compare_view-compare_symbol_example : compare_view abc ab ≡ ok (compare_symbol abc ab)
compare_view-compare_symbol_example =
    compare_view-compare_symbol abc ab (omega arith, (omega arith, tt))
