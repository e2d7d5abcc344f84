-- ===== src/Append.antt =====
-- The appending members of the class K, include/qbind/k.h: `join_atom`, `join_lists` and
-- `tuple_append`. The functions of the KX library that append are parameters.
use qbind.Base.{ℕ, not, ◌||◌, ◌≡◌, ◌+◌, List, [], ◌∷◌, ◌++◌}
use qbind.Base.Int.{pos, eq_ℤ, is_negative}
use qbind.Base.Lists.{length}
use qbind.Base.Outcome.{Outcome, ok, ◌>>=◌, ◌>>◌, throw_if, text, str, runtime_error}
use qbind.TypeCode.{QType, symbol, code, type_name}
use qbind.Object.{Object, Objects, vector, list, nil, cons, is_null, t_of}

-- The entries with one more behind them.
unfoldable pub snoc : Objects → Object → Objects
snoc nil y = cons y nil
snoc (cons x xs) y = cons x (snoc xs y)

-- `jk` appends an object to a mixed list, `ja` and `js` a value to a vector, and `jv` a vector to
-- one of its type. Each returns the list, at an address that may be new. `ss` interns a symbol:
-- from the pointer to its characters it makes a pointer.
pub record Joins : Type 0 where
  pub ja : Object → List ℕ → Object
  pub js : Object → List ℕ → Object
  pub ss : List ℕ → List ℕ
  pub jv : Object → Object → Object
  pub jk : Object → Object → Object
  pub jk_address : Object → Object → ℕ
  pub jk_entries :
      (a : ℕ) (xs : Objects) (y : Object)
      → jk (list a xs) y ≡ list (jk_address (list a xs) y) (snoc xs y)
  pub ja_address : Object → List ℕ → ℕ
  pub ja_elements :
      (a : ℕ) (T : QType) (n : ℕ) (g v : List ℕ)
      → ja (vector a T n g) v ≡ vector (ja_address (vector a T n g) v) T (n + 1) (g ++ v)
  pub js_address : Object → List ℕ → ℕ
  pub js_elements :
      (a : ℕ) (T : QType) (n : ℕ) (g v : List ℕ)
      → js (vector a T n g) v ≡ vector (js_address (vector a T n g) v) T (n + 1) (g ++ v)
  pub ss_length : (v : List ℕ) → length (ss v) ≡ length v
  pub jv_address : Object → Object → ℕ
  pub jv_elements :
      (a b : ℕ) (T : QType) (n m : ℕ) (g g' : List ℕ)
      → jv (vector a T n g) (vector b T m g')
        ≡ vector (jv_address (vector a T n g) (vector b T m g')) T (n + m) (g ++ g')

module _ (kx : Joins) where
  -- `join_atom<T>(value)`, with the bytes of the value
  unfoldable pub join_atom : QType → Object → List ℕ → Outcome Object
  unfolding t_of
  join_atom T k value = do
    throw_if (is_null k) (runtime_error (text "Cannot append to null"))
    t ← t_of k
    throw_if (not (eq_ℤ t (pos (code T))))
        (runtime_error (str "Array is not vector of " ∷ str (type_name (pos (code T))) ∷ []))
    ok (elim T [ symbol ↦ kx.js k (kx.ss value) | _ ↦ kx.ja k value ])

  -- `join_lists(k)`
  unfoldable pub join_lists : Object → Object → Outcome Object
  unfolding t_of
  join_lists m_k k = do
    throw_if (is_null m_k) (runtime_error (text "Cannot append to null"))
    throw_if (is_null k) (runtime_error (text "Cannot append null"))
    t ← t_of m_k
    u ← t_of k
    throw_if (not (eq_ℤ t u) || is_negative t)
        (runtime_error (text "Can only join list on to list"))
    ok (kx.jv m_k k)

  -- `tuple_append(k)`
  unfoldable pub tuple_append : Object → Object → Outcome Object
  unfolding t_of
  tuple_append m_k k = do
    throw_if (is_null m_k) (runtime_error (text "Cannot append to null"))
    throw_if (is_null k) (runtime_error (text "Cannot append null"))
    t ← t_of m_k
    u ← t_of k
    throw_if (not (eq_ℤ t (pos 0)) || is_negative u)
        (runtime_error (text "Can only append tuple to tuple"))
    ok (kx.jk m_k k)
