-- ===== src/Ipc/Socket/Errno.antt =====
-- When `throw_errno` of tools/connection/main.cpp ends.
use qbind.Base.{
  ℕ, zero, suc, ◌*◌, ◌%◌, ◌^◌, ◌<◌, ◌≤◌, ◌≡◌, refl, sym, ap, ◌∙◌, arith, inl, inr, List, [], ◌∷◌,
  ◌++◌,
}
use native.Mathlib.Nat.{mul_assoc, le-mul_of_pos_right, one-le-pow, pow-succ', mod-eq_of_lt}
use qbind.Base.Tests.{leb, Bool-cases}
use qbind.Base.Int.{pos}
use qbind.Base.Outcome.{throw, Message, chars, system_error}
use qbind.Ipc.Os.{Os, erange, retry, throw_errno}

module _ {W : Type 0} (os : Os W) {A : Type 0} (place : Message) (w : W) (s : List ℕ)
    (part : ℕ → List ℕ) (need : ℕ)
    (enough : (size : ℕ) → need ≤ size → os.strerror_r (os.errno w) size w ≡ ((pos 0, s), w))
    (short : (size : ℕ)
      → size < need
      → os.strerror_r (os.errno w) size w ≡ ((pos erange, part size), w)) where
  retry-told :
      (j fuel size : ℕ)
      → j < fuel
      → need ≤ size * 2 ^ j
      → size * 2 ^ j < 2 ^ 64
      → retry os {A = A} fuel (os.errno w) place size (os.strerror_r (os.errno w) size w)
        ≡ (throw (system_error (pos (os.errno w)) (place ++ (chars s ∷ []))), w)
  unfolding retry
  retry-told j zero size lt fits small = absurd (omega arith)
  retry-told zero (suc fuel) size lt fits small = rw (enough size (omega arith)) refl
  retry-told (suc j) (suc fuel) size lt fits small = elim (Bool-cases (leb need size)) [
    | inl told ↦ rw (enough size (ground arith)) refl
    | inr untold ↦
        let more : size * 2 ^ suc j ≡ size * 2 * 2 ^ j =
          ap (λ z. size * z) (pow-succ' 2 j) ∙ sym (mul_assoc size 2 (2 ^ j)) in
        let room : size * 2 ≤ size * 2 * 2 ^ j =
          le-mul_of_pos_right (size * 2) (one-le-pow j 2 (omega arith)) in
        let same : size * 2 % 2 ^ 64 ≡ size * 2 = mod-eq_of_lt (omega arith) in
        rw (short size (ground arith), same)
          (retry-told j fuel (size * 2) (omega arith) (rw more at fits) (rw more at small))
  ]

-- Where `strerror_r` changes nothing and gives the text of the error into a buffer of some size of
-- at most 2 ^ 60 bytes and into any larger one, and ERANGE into a smaller one, `throw_errno` ends
-- and throws the error with its text.
pub throw_errno-told :
    {W : Type 0} (os : Os W) {A : Type 0} (place : Message) (w : W) (s : List ℕ) (part : ℕ → List ℕ)
    (need : ℕ)
    → ((size : ℕ) → need ≤ size → os.strerror_r (os.errno w) size w ≡ ((pos 0, s), w))
    → ((size : ℕ) → size < need → os.strerror_r (os.errno w) size w ≡ ((pos erange, part size), w))
    → need ≤ 2 ^ 60
    → throw_errno os {A = A} place w
      ≡ (throw (system_error (pos (os.errno w)) (place ++ (chars s ∷ []))), w)
unfolding throw_errno
throw_errno-told os {A} place w s part need enough short bounded =
    retry-told os place w s part need enough short 50 64 1024 (omega arith) bounded (omega arith)
