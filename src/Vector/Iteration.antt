-- ===== src/Vector/Iteration.antt =====
-- The iterators of a vector: `begin()`, `end()`, `rbegin()` and `rend()` of include/qbind/vector.h,
-- and a loop from one iterator to another with the members of include/qbind/iterator.h.
use qbind.Base.{
  ℕ, zero, suc, ◌+◌, ◌≤◌, ◌<◌, ◌≡◌, refl, sym, ap, ◌∙◌, arith, Bool, true, false, List, [], ◌∷◌,
  ◌++◌, reverse, some,
}
use mathlib.Core.List.{reverse-append}
use mathlib.Core.Path.{subst}
use qbind.Base.Tests.{◌==◌, if◌then◌else◌}
use qbind.Base.Int.{ℤ, pos, negsuc, eq_ℤ, ◌+ℤ◌, ◌-ℤ◌}
use qbind.Base.Lists.{length, take, drop, get_elem?, take-length}
use qbind.Base.Outcome.{Outcome, ok, undefined, ◌>>=◌}
use qbind.Object.{Object, vector, size}
use qbind.TypeCode.{QType, underlier, size_of}
use qbind.Iterator
use qbind.Iterator.{inc}
use qbind.Vector.{element, subscript, chunks, values}
use qbind.Vector.Access.{or_undefined, subscript-values}

-- `begin()`, `end()`, `rbegin()` and `rend()`, in elements from the start of the vector on.
unfoldable pub begin : Object → Outcome ℤ
begin k = ok (pos 0)

unfoldable pub end : Object → Outcome ℤ
unfolding size
end k = do n ← size k; ok (pos n)

unfoldable pub rbegin : Object → Outcome ℤ
unfolding size
rbegin k = do n ← size k; ok (pos n -ℤ pos 1)

unfoldable pub rend : Object → Outcome ℤ
rend k = ok (pos 0 -ℤ pos 1)

-- `*it`
unfoldable pub dereference : Object → ℤ → Outcome (List ℕ)
unfolding element
dereference k (pos i) = element k i
dereference k (negsuc i) = undefined

-- Whether `it <=> last` is 0
unfoldable pub reached : (reverse : Bool) → (it last : ℤ) → Bool
unfolding Iterator.compare
reached reverse it last = eq_ℤ (Iterator.compare reverse it last) (pos 0)

-- `for (; it != last; ++it)`, with the values of `*it`, in so many rounds at most.
unfoldable pub walk :
    (reverse : Bool) → (rounds : ℕ) → Object → (it last : ℤ) → Outcome (List (List ℕ))
unfolding dereference inc reached
walk reverse zero k it last = if reached reverse it last then ok [] else undefined
walk reverse (suc rounds) k it last =
    let rest =
      dereference k it >>= λ x. walk reverse rounds k (inc reverse it) last >>= λ xs. ok (x ∷ xs) in
    if reached reverse it last then ok [] else rest

unfoldable pub forward : Object → Outcome (List (List ℕ))
unfolding size begin end walk
forward k = do n ← size k; first ← begin k; last ← end k; walk false n k first last

unfoldable pub backward : Object → Outcome (List (List ℕ))
unfolding size rbegin rend walk
backward k = do n ← size k; first ← rbegin k; last ← rend k; walk true n k first last

reached_ahead : (i n : ℕ) → reached false (pos i) (pos n) ≡ (i == n)
unfolding reached
reached_ahead i n = ground arith

reached_behind : (i : ℕ) → reached true (pos i -ℤ pos 1) (pos 0 -ℤ pos 1) ≡ (i == 0)
unfolding reached ◌-ℤ◌
reached_behind i = ground arith

inc_ahead : (i : ℕ) → inc false (pos i) ≡ pos (suc i)
unfolding inc ◌+ℤ◌
inc_ahead i = ground arith

last_before : (i : ℕ) → pos (suc i) -ℤ pos 1 ≡ pos i
unfolding ◌-ℤ◌
last_before i = ground arith

inc_behind : (i : ℕ) → inc true (pos i) ≡ pos i -ℤ pos 1
unfolding inc ◌+ℤ◌ ◌-ℤ◌
inc_behind i = ground arith

-- The value at a place, and the list around it.
record HasPlace (vs : List (List ℕ)) (i : ℕ) : Type 0 where
  x : List ℕ
  there : get_elem? vs i ≡ some x
  from : drop i vs ≡ x ∷ drop (suc i) vs
  up_to : take (suc i) vs ≡ take i vs ++ (x ∷ [])

place_of : (vs : List (List ℕ)) (i : ℕ) → i < length vs → HasPlace vs i
place_of [] i h = absurd (omega arith)
place_of (v ∷ vs) zero h = record { x = v; there = refl; from = refl; up_to = refl }
place_of (v ∷ vs) (suc i) h =
    let rest = place_of vs i (omega arith) in
    record { x = rest.x; there = rest.there; from = rest.from; up_to = ap (◌∷◌ v) rest.up_to }

drop-length : (vs : List (List ℕ)) → drop (length vs) vs ≡ []
drop-length [] = refl
drop-length (v ∷ vs) = drop-length vs

module _ (k : Object) (vs : List (List ℕ))
    (reads : (i : ℕ) → element k i ≡ or_undefined (get_elem? vs i)) where
  walk-forward :
      (rounds i : ℕ)
      → i + rounds ≡ length vs
      → walk false rounds k (pos i) (pos (length vs)) ≡ ok (drop i vs)
  unfolding walk
  walk-forward zero i h =
      let same : i ≡ length vs = omega (arith, h) in
      rw (reached_ahead i (length vs))
        (ground (arith, same, ap (λ m. drop m vs) same ∙ drop-length vs))
  walk-forward (suc rounds) i h =
      let before : (i == length vs) ≡ false = ground (arith, h) in
      let p = place_of vs i (omega (arith, h)) in
      let read : element k i ≡ ok p.x = reads i ∙ ap or_undefined p.there in
      let rest = walk-forward rounds (suc i) (omega (arith, h)) in
      rw (reached_ahead i (length vs), before, read, inc_ahead i, rest) (ap ok (sym p.from))

  walk-backward :
      (rounds : ℕ)
      → rounds ≤ length vs
      → walk true rounds k (pos rounds -ℤ pos 1) (pos 0 -ℤ pos 1) ≡ ok (reverse (take rounds vs))
  unfolding walk dereference
  walk-backward zero h = rw (reached_behind 0) refl
  walk-backward (suc rounds) h =
      let p = place_of vs rounds (omega (arith, h)) in
      let read : element k rounds ≡ ok p.x = reads rounds ∙ ap or_undefined p.there in
      let rest = walk-backward rounds (omega (arith, h)) in
      let back : reverse (take (suc rounds) vs) ≡ p.x ∷ reverse (take rounds vs) =
        ap reverse p.up_to ∙ reverse-append (take rounds vs) (p.x ∷ []) in
      let more : (suc rounds == 0) ≡ false = ground arith in
      rw (reached_behind (suc rounds), more, last_before rounds, read, inc_behind rounds, rest)
        (ap ok (sym back))

pub length-chunks : (bytes n : ℕ) (g : List ℕ) → length (chunks bytes n g) ≡ n
unfolding chunks
length-chunks bytes zero g = refl
length-chunks bytes (suc n) g = ap suc (length-chunks bytes n _)

pub length-values : (a : ℕ) (T : QType) (n : ℕ) (g : List ℕ) → length (values (vector a T n g)) ≡ n
unfolding values
length-values a T n g = length-chunks (size_of (underlier T)) n g

-- For a vector object, whose elements are the pieces of its buffer in order: the loop from
-- `begin()` to `end()` ends and reads the elements in order, that from `rbegin()` to `rend()` ends
-- and reads them in the opposite order, and `operator[]` reads the element at the position,
-- undefined where there is none.
pub forward-backward :
    (a : ℕ) (T : QType) (n : ℕ) (g : List ℕ)
    → (forward (vector a T n g) ≡ ok (values (vector a T n g)))
      × (backward (vector a T n g) ≡ ok (reverse (values (vector a T n g))))
      × ((i : ℕ)
          → subscript (vector a T n g) i ≡ or_undefined (get_elem? (values (vector a T n g)) i))
unfolding forward backward begin end rbegin rend size subscript
forward-backward a T n g =
    let k = vector a T n g in
    let vs = values k in
    let long : length vs ≡ n = length-values a T n g in
    let reads = subscript-values a T n g in
    (
      subst (λ m. walk false m k (pos 0) (pos m) ≡ ok vs) long
          (walk-forward k vs reads (length vs) 0 (omega arith)),
      subst (λ m. walk true m k (pos m -ℤ pos 1) (pos 0 -ℤ pos 1) ≡ ok (reverse vs)) long
          (walk-backward k vs reads (length vs) (omega arith)
            ∙ ap (λ ys. ok (reverse ys)) (take-length vs)),
      reads,
    )
