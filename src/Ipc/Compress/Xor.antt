-- ===== src/Ipc/Compress/Xor.antt =====
-- The byte operations of `compress`, tools/connection/main.cpp: `^` on neighbouring bytes, `|=` on
-- the header of a block, and the tests of its bits.
use native.Mathlib.Nat.{mod-lt, pow-le-pow_right, one-le-pow}
use Prim.Native.Nat.{bit_xor, bit_or, bit_and, digits, differ, bit_xor-bitwise}
use qbind.Base.{
  ℕ, zero, suc, ◌+◌, ◌*◌, ◌/◌, ◌%◌, ◌^◌, ◌-◌, ◌≤◌, ◌<◌, ◌≡◌, refl, sym, ap, ◌∙◌, arith, Bool, true,
  false, inl, inr,
}
use qbind.Ipc.Compress.Rounds.{mask_of}
use qbind.Base.Tests.{◌==◌, ◌!=◌, ltb, lt→ltb, ==→eq, Bool-cases, if◌then◌else◌}

digits-fuel :
    (f : ℕ → ℕ → ℕ) (n m a b : ℕ)
    → a ≤ n
    → a ≤ m
    → digits (λ y. y) f n a b ≡ digits (λ y. y) f m a b
digits-fuel f zero zero a b le le' = refl
digits-fuel f zero (suc m) zero b le le' = refl
digits-fuel f zero (suc m) (suc a) b le le' = absurd (omega arith)
digits-fuel f (suc n) zero zero b le le' = refl
digits-fuel f (suc n) zero (suc a) b le le' = absurd (omega arith)
digits-fuel f (suc n) (suc m) zero b le le' = refl
digits-fuel f (suc n) (suc m) (suc a) b le le' =
    ap (λ d. d * 2 + f (suc a % 2) (b % 2))
      (digits-fuel f n m (suc a / 2) (b / 2) (omega arith) (omega arith))

-- The lowest digit of an exclusive or.
bit_xor-digit : (a b : ℕ) → bit_xor a b ≡ bit_xor (a / 2) (b / 2) * 2 + differ (a % 2) (b % 2)
bit_xor-digit zero b = simp bit_xor-bitwise (omega arith)
bit_xor-digit (suc a) b = simp bit_xor-bitwise (
    ap (λ d. d * 2 + differ (suc a % 2) (b % 2))
      (digits-fuel differ a (suc a / 2) (suc a / 2) (b / 2) (omega arith) (omega arith)))

differ-cancel : (p q r : ℕ) → p < 2 → q < 2 → r < 2 → differ p q ≡ differ p r → q ≡ r
differ-cancel zero q r hp hq hr e = e
differ-cancel (suc zero) zero zero hp hq hr e = refl
differ-cancel (suc zero) zero (suc r) hp hq hr e = omega arith
differ-cancel (suc zero) (suc q) zero hp hq hr e = omega arith
differ-cancel (suc zero) (suc q) (suc r) hp hq hr e = ap suc e
differ-cancel (suc (suc p)) q r hp hq hr e = absurd (omega arith)

differ-bit : (p q : ℕ) → p < 2 → q < 2 → differ p q < 2
differ-bit zero q hp hq = hq
differ-bit (suc zero) zero hp hq = omega arith
differ-bit (suc zero) (suc q) hp hq = omega arith
differ-bit (suc (suc p)) q hp hq = absurd (omega arith)

bit_xor-cancel_below : (n a b c : ℕ) → a ≤ n → bit_xor a b ≡ bit_xor a c → b ≡ c
bit_xor-cancel_below n zero b c le e = simp bit_xor-bitwise at e
bit_xor-cancel_below zero (suc a) b c le e = absurd (omega arith)
bit_xor-cancel_below (suc n) (suc a) b c le e =
    let low = differ-bit (suc a % 2) (b % 2) (omega arith) (omega arith) in
    let low' = differ-bit (suc a % 2) (c % 2) (omega arith) (omega arith) in
    let digits_b = bit_xor-digit (suc a) b in
    let digits_c = bit_xor-digit (suc a) c in
    let high : b / 2 ≡ c / 2 =
      bit_xor-cancel_below n (suc a / 2) (b / 2) (c / 2) (omega arith) (omega arith) in
    let last : b % 2 ≡ c % 2 =
      differ-cancel (suc a % 2) (b % 2) (c % 2) (omega arith) (omega arith) (omega arith)
        (omega arith) in
    omega arith

pub bit_xor-cancel : (a b c : ℕ) → bit_xor a b ≡ bit_xor a c → b ≡ c
bit_xor-cancel a b c e = bit_xor-cancel_below a a b c (omega arith) e

-- A test on all numbers below a bound, by evaluation.
all_below : (ℕ → Bool) → ℕ → Bool
all_below f zero = true
all_below f (suc n) = if f n then all_below f n else false

all_below→true : (f : ℕ → Bool) (n i : ℕ) → all_below f n ≡ true → i < n → f i ≡ true
unfolding all_below
all_below→true f zero i e lt = absurd (omega arith)
all_below→true f (suc n) i e lt = ground (arith, all_below→true f n i)

-- `cur |= mask` with `k` rounds of the block done.
abbrev set_bit : (k cur : ℕ) → Bool
set_bit k cur = if ltb cur (2 ^ k) then bit_or cur (mask_of (8 - k)) == cur + 2 ^ k else true

-- The bit of round `k` in a header, and the bits below it.
abbrev test_bit : (k h : ℕ) → Bool
test_bit k h =
    if bit_and h (mask_of (8 - k)) != 0
    then h % 2 ^ (k + 1) == h % 2 ^ k + 2 ^ k
    else h % 2 ^ (k + 1) == h % 2 ^ k

-- For every header in every round.
every : (ℕ → ℕ → Bool) → Bool
every f = all_below (λ i. f (i / 256) (i % 256)) 2048

every→true : (f : ℕ → ℕ → Bool) (k h : ℕ) → every f ≡ true → k < 8 → h < 256 → f k h ≡ true
unfolding every
every→true f k h e few byte =
    let at_index = all_below→true (λ i. f (i / 256) (i % 256)) 2048 (k * 256 + h) e (omega arith) in
    let quotient : (k * 256 + h) / 256 ≡ k = omega arith in
    let rest : (k * 256 + h) % 256 ≡ h = omega arith in rw (quotient, rest) at at_index

set_bit-every : every set_bit ≡ true
unfolding every all_below mask_of
set_bit-every = refl

test_bit-every : every test_bit ≡ true
unfolding every all_below mask_of
test_bit-every = refl

pub pow_byte : (k : ℕ) → k ≤ 8 → 2 ^ k ≤ 256
pow_byte k few = pow-le-pow_right (omega arith) few

pub bit_or-mask_of : (k cur : ℕ) → k < 8 → cur < 2 ^ k → bit_or cur (mask_of (8 - k)) ≡ cur + 2 ^ k
bit_or-mask_of k cur few lt =
    let byte : cur < 256 = omega (arith, pow_byte k (omega arith)) in
    let at_k = every→true set_bit k cur set_bit-every few byte in
    ==→eq _ _ (rw (lt→ltb cur (2 ^ k) lt) at at_k)

-- What the header says of round `k`, from the bits up to that one.
pub header_clear :
    (k h cur : ℕ)
    → k < 8
    → h < 256
    → cur < 2 ^ k
    → h % 2 ^ (k + 1) ≡ cur
    → ((bit_and h (mask_of (8 - k)) != 0) ≡ false) × (h % 2 ^ k ≡ cur)
header_clear k h cur few byte lt e =
    let at_k = every→true test_bit k h test_bit-every few byte in
    elim (Bool-cases (bit_and h (mask_of (8 - k)) != 0)) [
      | inl one ↦ absurd (let sum = ==→eq _ _ (rw one at at_k) in omega arith)
      | inr none ↦ (none, sym (==→eq _ _ (rw none at at_k)) ∙ e)
    ]

pub header_set :
    (k h cur : ℕ)
    → k < 8
    → h < 256
    → h % 2 ^ (k + 1) ≡ cur + 2 ^ k
    → ((bit_and h (mask_of (8 - k)) != 0) ≡ true) × (h % 2 ^ k ≡ cur)
header_set k h cur few byte e =
    let at_k = every→true test_bit k h test_bit-every few byte in
    elim (Bool-cases (bit_and h (mask_of (8 - k)) != 0)) [
      | inl one ↦ (one, (let sum = ==→eq _ _ (rw one at at_k) in omega arith))
      | inr none ↦ absurd (
          let same = ==→eq _ _ (rw none at at_k) in
          omega (arith, mod-lt h {m = 2 ^ k} (one-le-pow k 2 (omega arith))))
    ]
