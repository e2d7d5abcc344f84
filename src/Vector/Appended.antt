-- ===== src/Vector/Appended.antt =====
-- What `push_back` of include/qbind/vector.h lets pass, and what it leaves.
use mathlib.Core.Path.{subst}
use native.Mathlib.Nat.{add-mul}
use qbind.Base.{ℕ, ◌+◌, ◌*◌, ◌≡◌, refl, sym, ◌∙◌, arith, false, not, ◌||◌, List, ◌++◌}
use qbind.Base.Int.{is_negative, ℤ, pos, eq_ℤ}
use qbind.Base.Lists.{length, length-append}
use qbind.Base.Outcome.{ok-eq, ok, >>=-eq-ok, throw_if}
use qbind.TypeCode.{QType, symbol, code, underlier, size_of}
use qbind.Object.{Object, vector, is_null, t_of}
use qbind.Match.Inner.{code-IsCode}
use qbind.Append.{Joins, join_atom, join_lists}
use qbind.Vector.{push_back_value, push_back}
use qbind.Vector.Typed.{HasType, IsWhole, throw_if-false, t_of-HasType}

module _ (jk : Joins) (T : QType) where
  appended :
      (U : QType) (a n : ℕ) (g v : List ℕ)
      → length v ≡ size_of (underlier U)
      → length g ≡ n * size_of (underlier U)
      → HasType U (vector a U (n + 1) (g ++ v))
  appended U a n g v wide whole = record {
    addr = a;
    count = n + 1;
    g0 = g ++ v;
    is = refl;
    whole = omega (arith, length-append g v, add-mul n 1 (size_of (underlier U)));
  }

  abbrev by_type : QType → Object → Object → Object
  by_type U x y = elim U [ symbol ↦ x | _ ↦ y ]

  by_type-HasType :
      (U : QType) (x y : Object) → HasType T x → HasType T y → HasType T (by_type U x y)
  by_type-HasType QType.symbol x y hx hy = hx
  by_type-HasType U x y hx hy = hy

  pub push_back_value-HasType :
      (a n : ℕ) (g v : List ℕ) (r : Object)
      → length v ≡ size_of (underlier T)
      → length g ≡ n * size_of (underlier T)
      → push_back_value jk T (vector a T n g) v ≡ ok r
      → HasType T r
  unfolding push_back_value join_atom t_of
  push_back_value-HasType a n g v r wide whole h =
      let k = vector a T n g in
      let fits : not (eq_ℤ (pos (code T)) (pos (code T))) ≡ false = ground arith in
      let made : by_type T (jk.js k (jk.ss v)) (jk.ja k v) ≡ r = ok-eq (rw fits at h) in
      let js_made : HasType T (jk.js k (jk.ss v)) =
        subst (HasType T) (sym (jk.js_elements a T n g (jk.ss v)))
          (appended T (jk.js_address k (jk.ss v)) n g (jk.ss v) (jk.ss_length v ∙ wide) whole) in
      let ja_made : HasType T (jk.ja k v) =
        subst (HasType T) (sym (jk.ja_elements a T n g v))
          (appended T (jk.ja_address k v) n g v wide whole) in
      subst (HasType T) made (by_type-HasType T (jk.js k (jk.ss v)) (jk.ja k v) js_made ja_made)

  pub push_back-HasType :
      (a b n m : ℕ) (g g' : List ℕ) (r : Object)
      → length g ≡ n * size_of (underlier T)
      → length g' ≡ m * size_of (underlier T)
      → push_back jk (vector a T n g) (vector b T m g') ≡ ok r
      → HasType T r
  unfolding push_back join_lists t_of
  push_back-HasType a b n m g g' r whole whole' h = record {
    addr = jk.jv_address (vector a T n g) (vector b T m g');
    count = n + m;
    g0 = g ++ g';
    is = ground (arith, code-IsCode T, jk.jv_elements a b T n m g g');
    whole = omega (arith, length-append g g', add-mul n m (size_of (underlier T)));
  }

  -- What `join_atom` and `join_lists` let pass.
  pub join_atom_lem :
      (k r : Object) (v : List ℕ) → IsWhole k → push_back_value jk T k v ≡ ok r → HasType T k
  unfolding push_back_value join_atom
  join_atom_lem k r v whole h =
      let (_, _, h1) = >>=-eq-ok (throw_if (is_null k) _) _ h in
      let (t, et, h2) = >>=-eq-ok (t_of k) _ h1 in
      let (_, guard, _) = >>=-eq-ok (throw_if (not (eq_ℤ t (pos (code T)))) _) _ h2 in
      let passed = throw_if-false (not (eq_ℤ t (pos (code T)))) _ guard in
      t_of-HasType T k t et (ground arith) whole

  pub join_lists_lem :
      (a n : ℕ) (g : List ℕ) (vec r : Object)
      → IsWhole vec
      → push_back jk (vector a T n g) vec ≡ ok r
      → HasType T vec
  unfolding push_back join_lists t_of
  join_lists_lem a n g vec r whole h =
      let own : ℤ = pos (code T) in
      let (_, _, h1) = >>=-eq-ok (throw_if (is_null vec) _) _ h in
      let (u, eu, h2) = >>=-eq-ok (t_of vec) _ h1 in
      let (_, guard, _) = >>=-eq-ok (throw_if (not (eq_ℤ own u) || is_negative own) _) _ h2 in
      let passed = throw_if-false (not (eq_ℤ own u) || is_negative own) _ guard in
      t_of-HasType T vec u eu (ground arith) whole
