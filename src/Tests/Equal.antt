-- ===== src/Tests/Equal.antt =====
-- The comparison of include/qbind/k.h at concrete objects.
use qbind.Base.{◌≡◌, refl, [], ◌∷◌, ◌&&◌, ◌%◌, ◌^◌}
use qbind.Base.Tests.{◌==◌}
use qbind.Base.Lists.{list_eq}
use qbind.Base.Outcome.{ok}
use qbind.TypeCode.{short, code, underlier, size_of}
use qbind.Object.{atom, vector}
use qbind.Equal.{equal}
use qbind.Equal.Compare.{equal-vector, equal-atom}

-- Two vectors of two shorts that differ in the last byte.
equal-vector_example :
    equal (vector 64 short 2 (1 ∷ 0 ∷ 2 ∷ 0 ∷ [])) (vector 96 short 2 (1 ∷ 0 ∷ 2 ∷ 1 ∷ []))
    ≡ ok (
        (code short == code short) && (2 == 2) && list_eq (1 ∷ 0 ∷ 2 ∷ 0 ∷ []) (1 ∷ 0 ∷ 2 ∷ 1 ∷ []))
unfolding size_of underlier
equal-vector_example =
    equal-vector 64 96 short short 2 2 (1 ∷ 0 ∷ 2 ∷ 0 ∷ []) (1 ∷ 0 ∷ 2 ∷ 1 ∷ []) (λ e. cc) refl refl

equal-atom_example :
    equal (atom 64 short 65537 []) (atom 96 short 1 [])
    ≡ ok (
        (code short == code short)
        && (65537 % 256 ^ size_of (underlier short) == 1 % 256 ^ size_of (underlier short)))
equal-atom_example = equal-atom 64 96 short short 65537 1 [] [] (λ e. cc) (λ e. cc)
