-- ===== src/Symbol.antt =====
-- Symbols, include/qbind/symbol.h: the comparisons and the assignment of SymbolReference.
-- A symbol is the list of its characters, none of them 0, without the final 0.
pub mod Pointer
pub mod Order
pub mod Output
use qbind.Base.{
  ℕ, zero, suc, ◌+◌, ◌<◌, ◌≤◌, ◌≡◌, Bool, true, false, not, List, [], ◌∷◌, Option, none, some,
}
use qbind.Base.Tests.{ltb, ◌==◌, ◌!=◌, if◌then◌else◌}
use qbind.Base.Int.{ℤ, pos, negsuc, eq_ℤ}
use qbind.Base.Lists.{length, take, get_elem?}
use qbind.Base.Outcome.{Outcome, ok, undefined, ◌>>=◌}

-- The sign of a difference of two characters.
abbrev pub differ : ℕ → ℕ → ℤ
differ a b = if ltb a b then negsuc 0 else pos 1

-- `strcmp`, by its sign.
unfoldable pub strcmp : List ℕ → List ℕ → ℤ
strcmp [] [] = pos 0
strcmp [] (b ∷ ys) = negsuc 0
strcmp (a ∷ xs) [] = pos 1
strcmp (a ∷ xs) (b ∷ ys) = if a == b then strcmp xs ys else differ a b

-- `strncmp(s, chars, n)` by its sign, where `chars` are the characters of a view, with no 0 behind
-- them: undefined where the loop passes their end.
unfoldable pub strncmp : List ℕ → List ℕ → (n : ℕ) → Outcome ℤ
strncmp s chars zero = ok (pos 0)
strncmp s [] (suc n) = undefined
strncmp [] (b ∷ ys) (suc n) = ok (if 0 == b then pos 0 else negsuc 0)
strncmp (a ∷ xs) (b ∷ ys) (suc n) =
    let rest = strncmp xs ys n in if a == b then rest else ok (differ a b)

-- `m_ptr[i] != '\0'`: the final 0 stands behind the characters.
unfoldable pub has_char : List ℕ → ℕ → Outcome Bool
has_char s i = if ltb i (length s) then ok true else if i == length s then ok false else undefined

-- `operator<=>(const SymbolReference& rhs)`
unfoldable pub compare_symbol : List ℕ → List ℕ → ℤ
compare_symbol s rhs = strcmp s rhs

-- `operator<=>(const std::string_view& rhs)`
unfoldable pub compare_view : List ℕ → List ℕ → Outcome ℤ
compare_view s rhs = do
  res ← strncmp s rhs (length rhs)
  if eq_ℤ res (pos 0)
      then (has_char s (length rhs) >>= λ longer. ok (if longer then pos 1 else pos 0))
      else ok res

-- `operator=(const std::string_view& value)`, where `sn` is the KX library's
unfoldable pub assign : (sn : List ℕ → ℕ → List ℕ) → (value : List ℕ) → List ℕ
assign sn value = sn value (length value)
