-- ===== src/Symbol/Output.antt =====
-- The output of a SymbolReference (include/qbind/symbol.h).
use qbind.Base.{ℕ, zero, suc, ◌≡◌, refl, List, Option, none}

-- `operator<<(os, s)`: the only call in its body is one of itself, since no other overload takes a
-- SymbolReference without a conversion. After so many calls the stack is full, which is `none`.
unfoldable pub output : (calls : ℕ) → (os s : List ℕ) → Option (List ℕ)
output zero os s = none
output (suc calls) os s = output calls os s

-- However large the stack, the output of a symbol never returns.
pub output_lem : (calls : ℕ) (os s : List ℕ) → output calls os s ≡ none
unfolding output
output_lem zero os s = refl
output_lem (suc calls) os s = output_lem calls os s
