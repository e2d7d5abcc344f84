-- ===== src/Equal.antt =====
-- `K::equal` and the operators `==` and `!=` of the class K, include/qbind/k.h.
pub mod Compare
use qbind.Base.{
  ℕ, zero, suc, ◌+◌, ◌^◌, ◌%◌, ◌||◌, ◌&&◌, ◌*◌, ◌<◌, Bool, true, false, not, List, [], ◌∷◌,
}
use qbind.Base.Tests.{ltb, ◌==◌, ◌!=◌, if◌then◌else◌}
use qbind.Base.Int.{ℤ, pos, negsuc, eq_ℤ, is_negative, abs, ltb_ℤ}
use qbind.Base.Lists.{length, take, list_eq}
use qbind.Base.Outcome.{Outcome, ok, throw, undefined, ◌>>=◌, ◌>>◌, text, logic_error, throw_if}
use qbind.TypeCode.{code}
use qbind.Object.{
  Object, Objects, null, atom, vector, list, dict, other_negative, other_positive, nil, cons, count,
  t_of, n_of, pointer_at,
}

-- The `switch` on `abs(lhs->t)`. The case of symbols and mixed lists has no `break`, and falls
-- through to the default.
unfoldable pub byte_size : ℕ → Outcome ℕ
byte_size t =
    if (t == 1) || (t == 4) || (t == 10)
    then ok 1
    else if t == 2
    then ok 16
    else if t == 5
    then ok 2
    else if (t == 6) || (t == 8) || (t == 13) || (t == 14) || (t == 17) || (t == 18) || (t == 19)
    then ok 4
    else if (t == 7) || (t == 9) || (t == 12) || (t == 15) || (t == 16)
    then ok 8
    else throw (logic_error (text "Unaccounted for type in checking K equals"))

-- `memcmp(lhs->G0, rhs->G0, len) == 0`, undefined where a buffer is shorter than `len`.
unfoldable pub memcmp_equal : List ℕ → List ℕ → ℕ → Outcome Bool
memcmp_equal g g' len =
    if ltb (length g) len || ltb (length g') len
    then undefined
    else ok (list_eq (take len g) (take len g'))

-- Two atoms of the same type, by the width of the field that is compared. A GUID atom compares
-- `n` and the addresses of the two `G0`.
unfoldable pub atom_equal : ℕ → Object → Object → Outcome Bool
atom_equal bytes (atom a T w g) (atom b U v g') =
    if bytes == 16 then ok ((w == v) && (a == b)) else ok ((w % 256 ^ bytes) == (v % 256 ^ bytes))
atom_equal bytes _ _ = undefined

unfoldable pub vector_equal : ℕ → Object → Object → Outcome Bool
unfolding memcmp_equal
vector_equal bytes (vector a T n g) (vector b U m g') = memcmp_equal g g' (bytes * n)
vector_equal bytes _ _ = undefined

-- `if (stop) return r;`
abbrev return_if : Bool → Bool → Outcome Bool → Outcome Bool
return_if true r rest = ok r
return_if false r rest = rest

-- `K::equal`, over what the loop on a nested structure returns.
unfoldable pub equal_guarded : Object → Object → Outcome Bool → Outcome Bool
unfolding t_of n_of
equal_guarded lhs rhs nested = do
  t ← t_of lhs
  u ← t_of rhs
  return_if (not (eq_ℤ t u)) false (
      return_if (eq_ℤ t (negsuc 127)) false (do
        n ← n_of lhs
        m ← n_of rhs
        return_if (not (is_negative t) && not (eq_ℤ n m)) false (do
          bytes ← byte_size (abs t)
          if is_negative t
              then atom_equal bytes lhs rhs
              else if ltb_ℤ (pos 0) t
              then vector_equal bytes lhs rhs
              else nested)))

unfoldable mutual
  pub equal : Object → Object → Outcome Bool
  equal (list a xs) rhs = equal_guarded (list a xs) rhs (equal_entries xs 0 rhs)
  equal lhs rhs = equal_guarded lhs rhs (ok true)

  -- The loop on a nested structure, from entry `idx` on.
  pub equal_entries : Objects → ℕ → Object → Outcome Bool
  equal_entries nil idx rhs = ok true
  equal_entries (cons x xs) idx rhs =
      let rest = equal_entries xs (suc idx) rhs in
      pointer_at rhs idx >>= λ y. equal x y >>= λ same. if same then rest else ok false

-- `operator==` and `operator!=`
unfoldable pub operator_eq : Object → Object → Outcome Bool
unfolding equal
operator_eq lhs rhs = equal lhs rhs

unfoldable pub operator_ne : Object → Object → Outcome Bool
unfolding equal
operator_ne lhs rhs = do same ← equal lhs rhs; ok (not same)
