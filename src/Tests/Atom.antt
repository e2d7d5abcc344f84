-- ===== src/Tests/Atom.antt =====
-- The class Atom of include/qbind/atom.h at concrete values.
use qbind.Base.{ℕ, ◌≡◌, ◌≤◌, ◌↔◌, refl, arith, true, List, [], ◌∷◌}
use qbind.Base.Lists.{replicate}
use qbind.Base.Outcome.{ok}
use qbind.TypeCode.{QType, int, underlier, size_of}
use qbind.Object.{Object, atom}
use qbind.Equal.{operator_eq}
use qbind.Atom.{from_k, reference, from_value}
use qbind.Atom.Values.{Makes, reference-from_value, from_value-equal}

-- Every atom has 16 bytes behind the union.
abbrev at_address : ℕ → QType → Object
at_address a T = atom a T 0 (replicate 16 0)

wide : size_of (underlier int) ≤ 24
unfolding size_of underlier
wide = omega arith

abbrev makes : (a : ℕ) → Makes (at_address a) int
makes a = record {
  addr = a;
  word = 0;
  g0 = replicate 16 0;
  made = refl;
  room = wide;
  stored = omega arith;
}

abbrev bytes : List ℕ → List ℕ
bytes v = v

reference-from_value_example :
    (k : Object) × (from_value bytes (at_address 1) int (1 ∷ 2 ∷ 3 ∷ 4 ∷ []) ≡ ok k)
    × (from_k int k ≡ ok k)
    × (reference int k ≡ ok (1 ∷ 2 ∷ 3 ∷ 4 ∷ []))
unfolding size_of underlier
reference-from_value_example =
    reference-from_value bytes (at_address 1) int (makes 1) (1 ∷ 2 ∷ 3 ∷ 4 ∷ []) (refl, omega arith)

from_value-equal_example :
    (k k' : Object) × (from_value bytes (at_address 1) int (1 ∷ 2 ∷ 3 ∷ 4 ∷ []) ≡ ok k)
    × (from_value bytes (at_address 2) int (1 ∷ 2 ∷ 3 ∷ 5 ∷ []) ≡ ok k')
    × ((operator_eq k k' ≡ ok true) ↔ (bytes (1 ∷ 2 ∷ 3 ∷ 4 ∷ []) ≡ bytes (1 ∷ 2 ∷ 3 ∷ 5 ∷ [])))
unfolding size_of underlier
from_value-equal_example =
    from_value-equal bytes (at_address 1) (at_address 2) int (makes 1) (makes 2)
      (1 ∷ 2 ∷ 3 ∷ 4 ∷ []) (1 ∷ 2 ∷ 3 ∷ 5 ∷ []) (refl, omega arith) (refl, omega arith) (λ h. cc)
      (λ h. cc)
