-- ===== src/Iterator/Order.antt =====
-- Random access with an iterator of either direction (include/qbind/iterator.h).
use qbind.Base.{Bool, true, false, ◌≡◌, arith}
use qbind.Base.Tests.{if◌then◌else◌}
use qbind.Base.Int.{ℤ, pos, negsuc, is_negative, eq_ℤ, ◌+ℤ◌, ◌-ℤ◌}
use qbind.Iterator.{add, sub, inc, dec, distance, compare}

-- -1, 0 or 1
abbrev pub sign : ℤ → ℤ
sign n = if eq_ℤ n (pos 0) then pos 0 else if is_negative n then negsuc 0 else pos 1

-- The three-way comparison of two iterators, forward or reverse, is the sign of their distance.
pub compare-distance :
    (reverse : Bool) (p q : ℤ) → compare reverse p q ≡ sign (distance reverse p q)
unfolding compare distance ◌-ℤ◌
compare-distance true p q = ground arith
compare-distance false p q = ground arith

-- Steps of `n` are `n` apart, lead where `it[n]` leads, and are undone by steps back.
pub distance-add :
    (reverse : Bool) (p n : ℤ)
    → (distance reverse (add reverse p n) p ≡ n)
      × (sub reverse (add reverse p n) n ≡ p)
      × (dec reverse (inc reverse p) ≡ p)
      × (inc reverse p ≡ add reverse p (pos 1))
unfolding distance add sub inc dec ◌-ℤ◌ ◌+ℤ◌
distance-add true p n = (ground arith, ground arith, ground arith, ground arith)
distance-add false p n = (ground arith, ground arith, ground arith, ground arith)
