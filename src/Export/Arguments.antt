-- ===== src/Export/Arguments.antt =====
-- The arguments of an exported function (`QBIND_ARGUMENTS` of include/qbind/function.h): what their
-- construction and their end do to the variables of class K.
use qbind.Base.{
  ℕ, ◌<◌, ◌≤◌, ◌≡◌, ◌≢◌, refl, sym, arith, ◌⊎◌, inl, inr, Option, none, some, List, [], ◌∷◌, ◌∙◌,
}
use qbind.Base.Tests.{◌==◌, Bool-cases}
use qbind.Base.Outcome.{Exception}
use qbind.Ownership.{Ptr, nullptr, Kx, Machine, make_non_owning, destruct}
use qbind.Ownership.Balance.{Outside, Balanced, IsLive, destruct-Balanced}
use qbind.Converter.{to_cpp}
use qbind.Converter.Calls.{to_cpp-Balanced}
use qbind.Export.{Fn, one_argument, arguments, destruct_all}

pub Option-cases : {A : Type 0} (o : Option A) → (o ≡ none) ⊎ ((x : A) × (o ≡ some x))
Option-cases none = inl refl
Option-cases (some x) = inr (x, refl)

pub no_none : {A : Type 0} {x : A} → ¬ (none ≡ some x)
no_none h = cc

abbrev pub Apart : ℕ → List ℕ → Type 0
Apart i [] = Unit
Apart i (j ∷ order) = (i ≢ j) × Apart i order

-- Different numbers below `nargs`.
abbrev pub IsOrder : ℕ → List ℕ → Type 0
IsOrder nargs [] = Unit
IsOrder nargs (i ∷ order) = (i < nargs) × Apart i order × IsOrder nargs order

-- The variables hold null.
abbrev pub IsEmpty : List ℕ → (ℕ → Ptr) → Type 0
IsEmpty [] m_k = Unit
IsEmpty (i ∷ order) m_k = (m_k i ≡ nullptr) × IsEmpty order m_k

-- The other variables hold what they held.
abbrev pub IsUntouched : List ℕ → Machine → Machine → Type 0
IsUntouched order s t = (j : ℕ) → Apart j order → t.m_k j ≡ s.m_k j

-- An argument is null, or q owns it.
abbrev pub IsOwned : Outside → Ptr → Type 0
IsOwned e p = (p ≡ nullptr) ⊎ (1 ≤ e p)

pub above-Apart : (nargs j : ℕ) (order : List ℕ) → IsOrder nargs order → nargs ≤ j → Apart j order
above-Apart nargs j [] o le = tt
above-Apart nargs j (i ∷ order) (lt, apart, o) le =
    (λ e. omega arith, above-Apart nargs j order o le)

pub IsEmpty-kept :
    (i : ℕ) (order : List ℕ) (s t : Machine)
    → Apart i order
    → ((j : ℕ) → i ≢ j → t.m_k j ≡ s.m_k j)
    → IsEmpty order s.m_k
    → IsEmpty order t.m_k
IsEmpty-kept i [] s t apart same empty = tt
IsEmpty-kept i (j ∷ order) s t (ne, apart) same (first, empty) =
    (same j ne ∙ first, IsEmpty-kept i order s t apart same empty)

module _ (kx : Kx) where
  pub destruct_other : (i j : ℕ) (s : Machine) → i ≢ j → (destruct kx i s).m_k j ≡ s.m_k j
  unfolding destruct
  destruct_other i j s ne = ground arith

  pub destruct_null : (i : ℕ) (s : Machine) → (destruct kx i s).m_k i ≡ nullptr
  unfolding destruct
  destruct_null i s = ground arith

  to_cpp_other : (i j : ℕ) (arr : Ptr) (s : Machine) → i ≢ j → (to_cpp kx i arr s).m_k j ≡ s.m_k j
  unfolding to_cpp make_non_owning
  to_cpp_other i j arr s ne = ground arith

  -- Destructing the variables leaves the books balanced, them empty and the others untouched.
  pub destruct_all-Balanced :
      {n nargs : ℕ} {e : Outside} (order : List ℕ) (s : Machine)
      → nargs ≤ n
      → IsOrder nargs order
      → Balanced n s e
      → Balanced n (destruct_all kx order s) e
        × IsEmpty order (destruct_all kx order s).m_k
        × IsUntouched order s (destruct_all kx order s)
  unfolding destruct_all
  destruct_all-Balanced [] s le o b = (b, tt, λ j apart. refl)
  destruct_all-Balanced {n} {nargs} (i ∷ order) s le (lt, apart, o) b =
      let (books, empty, same) = destruct_all-Balanced order s le o b in
      let t = destruct_all kx order s in
      (
        destruct-Balanced kx books i (omega arith),
        (
          destruct_null i t,
          IsEmpty-kept i order t (destruct kx i t) apart (λ j ne. destruct_other i j t ne) empty,
        ),
        λ j both. destruct_other i j t (λ h. both.0 (sym h)) ∙ same j both.1,
      )

  module _ {n nargs : ℕ} (fn : Fn n nargs) (karr : ℕ → Ptr) where
    pub owned-IsLive :
        {s : Machine} {e : Outside} (p : Ptr) → Balanced n s e → IsOwned e p → IsLive p s.heap
    owned-IsLive p b (inl h) = inl h
    owned-IsLive p b (inr h) = elim (Bool-cases (p == nullptr)) [
      | inl is_null ↦ inl (ground arith)
      | inr nonnull ↦ inr (ground (arith, b.books p))
    ]

    one_argument-Balanced :
        {e : Outside} (i : ℕ) (s : Machine)
        → i < n
        → s.m_k i ≡ nullptr
        → IsOwned e (karr i)
        → Balanced n s e
        → Balanced n (one_argument kx fn karr i s).1 e
          × ((j : ℕ) → i ≢ j → (one_argument kx fn karr i s).1.m_k j ≡ s.m_k j)
          × ((x : Exception)
              → (one_argument kx fn karr i s).0 ≡ some x
              → (one_argument kx fn karr i s).1.m_k i ≡ nullptr)
    unfolding one_argument
    one_argument-Balanced i s lt fresh owned b =
        let taken = to_cpp-Balanced kx b i (karr i) lt fresh (owned-IsLive (karr i) b owned) in
        let t = to_cpp kx i (karr i) s in
        elim (Option-cases (fn.check i (karr i))) [
          | inl accepted ↦
              rw (one_argument, accepted)
                (taken, λ j ne. to_cpp_other i j (karr i) s ne, λ x h. absurd (no_none h))
          | inr (x, refused) ↦
              rw (one_argument, refused)
                (
                  destruct-Balanced kx taken i lt,
                  λ j ne. destruct_other i j t ne ∙ to_cpp_other i j (karr i) s ne,
                  λ y h. destruct_null i t,
                )
        ]

    -- Where no argument is refused, the variables of the arguments alone change; where one is, they
    -- are empty again. The books are balanced in either case.
    pub arguments-Balanced :
        {e : Outside} (order : List ℕ) (s : Machine)
        → nargs ≤ n
        → IsOrder nargs order
        → IsEmpty order s.m_k
        → ((i : ℕ) → IsOwned e (karr i))
        → Balanced n s e
        → Balanced n (arguments kx fn karr order s).1 e
          × IsUntouched order s (arguments kx fn karr order s).1
          × ((x : Exception)
              → (arguments kx fn karr order s).0 ≡ some x
              → IsEmpty order (arguments kx fn karr order s).1.m_k)
    unfolding arguments
    arguments-Balanced [] s le o empty owned b = (b, λ j apart. refl, λ x h. tt)
    arguments-Balanced (i ∷ order) s le (lt, apart, o) (fresh, empty) owned b =
        let (first, others, gone) = one_argument-Balanced i s (omega arith) fresh (owned i) b in
        let t = (one_argument kx fn karr i s).1 in
        let still = IsEmpty-kept i order s t apart others empty in
        let (books, same, none_left) = arguments-Balanced order t le o still owned first in
        let u = (arguments kx fn karr order t).1 in
        elim (Option-cases (one_argument kx fn karr i s).0) [
          | inr (x, refused) ↦
              rw (arguments, refused)
                (first, λ j both. others j (λ h. both.0 (sym h)), λ y h. (gone x refused, still))
          | inl accepted ↦ elim (Option-cases (arguments kx fn karr order t).0) [
            | inr (x, refused) ↦
                rw (arguments, accepted, refused)
                  (
                    destruct-Balanced kx books i (omega arith),
                    λ j both.
                        destruct_other i j u (λ h. both.0 (sym h))
                        ∙ same j both.1
                        ∙ others j (λ h. both.0 (sym h)),
                    λ y h. (
                      destruct_null i u,
                      IsEmpty-kept i order u (destruct kx i u) apart
                          (λ j ne. destruct_other i j u ne) (none_left x refused),
                    ),
                  )
            | inl all ↦
                rw (arguments, accepted, all)
                  (
                    books,
                    λ j both. same j both.1 ∙ others j (λ h. both.0 (sym h)),
                    λ y h. absurd (no_none (sym all ∙ h)),
                  )
          ]
        ]
