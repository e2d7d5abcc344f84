-- ===== src/Object.antt =====
-- What a KX pointer leads to (`struct k0`, vendored/kx/include/kx/k.h), as a tree, and the reads
-- that the class K of include/qbind/k.h makes of it.
use qbind.Base.{ℕ, zero, suc, ◌+◌, ◌-◌, ◌^◌, Bool, true, false, List}
use qbind.Base.Tests.{ltb, if◌then◌else◌}
use qbind.Base.Int.{ℤ, pos, negsuc}
use qbind.Base.Outcome.{Outcome, ok, undefined}
use qbind.TypeCode.{QType, code}

-- `addr` is the address of the object. An atom has the 8 bytes of the union as `word`, which `n`
-- overlaps, and the bytes from `G0` on. A vector has `n` elements in the bytes `g0`. The last two
-- are all other objects, with t = -(20 + k) (an error has k = 108, the rest are enumeration
-- atoms) and t = 20 + k (enumeration vectors, tables, functions).
mutual
  pub data Object : Type 0 where
    null : Object
    atom : (addr : ℕ) → QType → (word : ℕ) → (g0 : List ℕ) → Object
    vector : (addr : ℕ) → QType → (n : ℕ) → (g0 : List ℕ) → Object
    list : (addr : ℕ) → Objects → Object
    dict : (addr : ℕ) → (keys values : Object) → Object
    other_negative : (addr k word : ℕ) → Object
    other_positive : (addr k n : ℕ) → Object

  pub data Objects : Type 0 where
    nil : Objects
    cons : Object → Objects → Objects

-- `!m_k`
abbrev pub is_null : Object → Bool
is_null null = true
is_null _ = false

abbrev pub minus : ℕ → ℤ
minus zero = pos 0
minus (suc n) = negsuc n

-- `k->t`
unfoldable pub t_of : Object → Outcome ℤ
t_of null = undefined
t_of (atom a T w g) = ok (minus (code T))
t_of (vector a T n g) = ok (pos (code T))
t_of (list a ks) = ok (pos 0)
t_of (dict a x y) = ok (pos 99)
t_of (other_negative a k w) = ok (negsuc (19 + k))
t_of (other_positive a k n) = ok (pos (20 + k))

-- A `J` from its bit pattern.
abbrev pub signed64 : ℕ → ℤ
signed64 w = if ltb w (2 ^ 63) then pos w else negsuc (2 ^ 64 - w - 1)

abbrev pub count : Objects → ℕ
count nil = 0
count (cons x xs) = suc (count xs)

-- `k->n`; on an atom this reads the atom's value.
unfoldable pub n_of : Object → Outcome ℤ
n_of null = undefined
n_of (atom a T w g) = ok (signed64 w)
n_of (vector a T n g) = ok (pos n)
n_of (list a ks) = ok (pos (count ks))
n_of (dict a x y) = ok (pos 2)
n_of (other_negative a k w) = ok (signed64 w)
n_of (other_positive a k n) = ok (pos n)

-- `reinterpret_cast<::K *>(k->G0)[i]`: defined only where pointers are stored.
unfoldable pub nth : Objects → ℕ → Outcome Object
nth nil i = undefined
nth (cons x xs) zero = ok x
nth (cons x xs) (suc i) = nth xs i

unfoldable pub pointer_at : Object → ℕ → Outcome Object
unfolding nth
pointer_at (list a ks) i = nth ks i
pointer_at (dict a x y) zero = ok x
pointer_at (dict a x y) (suc zero) = ok y
pointer_at (dict a x y) (suc (suc i)) = undefined
pointer_at _ i = undefined

-- `K::size`
unfoldable pub size : Object → Outcome ℕ
size null = undefined
size (atom a T w g) = ok 1
size (vector a T n g) = ok n
size (list a ks) = ok (count ks)
size (dict a x y) = ok 2
size (other_negative a k w) = ok 1
size (other_positive a k n) = ok n
