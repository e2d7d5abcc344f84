-- ===== src/Ipc/Compress/Cells.antt =====
-- The cells of the byte arrays that `compress` of tools/connection/main.cpp reads and writes.
use qbind.Base.{
  ℕ, zero, suc, ◌+◌, ◌≤◌, ◌<◌, ◌≡◌, ◌≢◌, refl, sym, ap, ◌∙◌, arith, List, [], ◌∷◌, ◌++◌,
}
use Prim.Native.Nat.{bit_xor}
use native.Mathlib.Nat.{add-zero}
use qbind.Base.Tests.{lt→ltb}
use qbind.Base.Lists.{length, set, take}
use qbind.Base.Outcome.{ok}
use qbind.Ipc.Compress.{byte_at, put, cache_set}
use qbind.Ipc.Compress.Format.{copy_from, fill}

abbrev pub nth : List ℕ → ℕ → ℕ
nth [] i = 0
nth (b ∷ bs) zero = b
nth (b ∷ bs) (suc i) = nth bs i

-- The exclusive or of neighbours.
abbrev pub gap : List ℕ → ℕ → ℕ
gap bs i = bit_xor (nth bs i) (nth bs (i + 1))

pub byte_at-nth : (bs : List ℕ) (i : ℕ) → i < length bs → byte_at bs i ≡ ok (nth bs i)
unfolding byte_at
byte_at-nth [] i h = absurd (omega arith)
byte_at-nth (b ∷ bs) zero h = refl
byte_at-nth (b ∷ bs) (suc i) h = byte_at-nth bs i (omega arith)

pub put-set : (bs : List ℕ) (i v : ℕ) → i < length bs → put bs i v ≡ ok (set bs i v)
unfolding put
put-set bs i v h = rw (lt→ltb i (length bs) h) refl

pub nth-set_self : (bs : List ℕ) (i v : ℕ) → i < length bs → nth (set bs i v) i ≡ v
nth-set_self [] i v h = absurd (omega arith)
nth-set_self (b ∷ bs) zero v h = refl
nth-set_self (b ∷ bs) (suc i) v h = nth-set_self bs i v (omega arith)

pub nth-set_ne : (bs : List ℕ) (i v j : ℕ) → j ≢ i → nth (set bs i v) j ≡ nth bs j
nth-set_ne [] i v j h = refl
nth-set_ne (b ∷ bs) zero v zero h = absurd (h refl)
nth-set_ne (b ∷ bs) zero v (suc j) h = refl
nth-set_ne (b ∷ bs) (suc i) v zero h = refl
nth-set_ne (b ∷ bs) (suc i) v (suc j) h = nth-set_ne bs i v j (λ e. h (ap suc e))

pub nth-take : (bs : List ℕ) (n i : ℕ) → i < n → nth (take n bs) i ≡ nth bs i
nth-take bs zero i h = absurd (omega arith)
nth-take [] (suc n) i h = refl
nth-take (b ∷ bs) (suc n) zero h = refl
nth-take (b ∷ bs) (suc n) (suc i) h = nth-take bs n i (omega arith)

pub length-take_within : (bs : List ℕ) (n : ℕ) → n ≤ length bs → length (take n bs) ≡ n
length-take_within bs zero h = refl
length-take_within [] (suc n) h = absurd (omega arith)
length-take_within (b ∷ bs) (suc n) h = ap suc (length-take_within bs n (omega arith))

pub take-next :
    (bs : List ℕ) (n m : ℕ) → n < length bs → m ≡ n + 1 → take n bs ++ (nth bs n ∷ []) ≡ take m bs
take-next bs n zero h e = absurd (omega arith)
take-next [] n (suc m) h e = absurd (omega arith)
take-next (b ∷ bs) zero (suc zero) h e = refl
take-next (b ∷ bs) zero (suc (suc m)) h e = absurd (omega arith)
take-next (b ∷ bs) (suc n) (suc m) h e = ap (◌∷◌ b) (take-next bs n m (omega arith) (omega arith))

pub byte_at-take :
    (bs : List ℕ) (n i : ℕ) → n ≤ length bs → i < n → byte_at (take n bs) i ≡ ok (nth bs i)
byte_at-take bs n i within lt =
    byte_at-nth (take n bs) i (omega (arith, length-take_within bs n within))
    ∙ ap ok (nth-take bs n i lt)

-- A copy that repeats what follows in the payload.
pub copy_from-take :
    (bs : List ℕ) (n from i m : ℕ)
    → from < i
    → m ≡ i + n
    → m ≤ length bs
    → ((j : ℕ) → j < n → nth bs (from + j) ≡ nth bs (i + j))
    → copy_from (take i bs) from n ≡ ok (take m bs)
unfolding copy_from
copy_from-take bs zero from i m before e within same = ap (λ k. ok (take k bs)) (omega arith)
copy_from-take bs (suc n) from i m before e within same =
    let first : nth bs from ≡ nth bs i =
      ap (nth bs) (sym (add-zero from)) ∙ same 0 (omega arith) ∙ ap (nth bs) (add-zero i) in
    let shift : (k j : ℕ) → (k + 1) + j ≡ k + suc j = λ k j. omega arith in
    let rest = copy_from-take bs n (from + 1) (i + 1) m (omega arith) (omega arith) within (λ j lt.
      ap (nth bs) (shift from j) ∙ same (suc j) (omega arith) ∙ ap (nth bs) (sym (shift i j))) in
    rw
      (
        byte_at-take bs i from (omega arith) before,
        first,
        take-next bs i (i + 1) (omega arith) refl,
      )
      rest

-- The cache after the places from `v` on, `n` of them.
abbrev pub filled : List ℕ → (n v : ℕ) → (ℕ → ℕ) → ℕ → ℕ
filled bs zero v c = c
filled bs (suc n) v c = filled bs n (v + 1) (cache_set c (gap bs v) v)

pub fill-take :
    (bs : List ℕ) (n v i : ℕ) (c : ℕ → ℕ)
    → i ≤ length bs
    → v + n < i
    → fill (take i bs) n v c ≡ ok (filled bs n v c)
unfolding fill
fill-take bs zero v i c within lt = refl
fill-take bs (suc n) v i c within lt =
    rw (byte_at-take bs i v within (omega arith), byte_at-take bs i (v + 1) within (omega arith))
      (fill-take bs n (v + 1) i (cache_set c (gap bs v) v) within (omega arith))
