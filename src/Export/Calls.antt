-- ===== src/Export/Calls.antt =====
-- The exported functions (QBIND_FN_EXPORT of include/qbind/function.h): their references and errors.
use qbind.Base.{
  ℕ, suc, ◌<◌, ◌≡◌, refl, sym, ap, arith, Bool, Option, none, some, List, [], ◌∷◌, ◌++◌, ◌∙◌, inl,
  inr,
}
use qbind.Base.Tests.{Bool-cases}
use qbind.Base.Int.{ℤ}
use qbind.Base.Outcome.{Message, Exception}
use qbind.Ownership.{Ptr, nullptr, Kx, Machine, destruct}
use qbind.Ownership.Balance.{Outside, one_more, Balanced, destruct-Balanced}
use qbind.Converter.{to_q}
use qbind.Converter.Calls.{to_q-Balanced}
use qbind.Export.{
  Kq, Fn, Left, threw, gave, ended, standard, other, Exit, returned, unhandled, Session, what,
  destruct_all, one_argument, arguments, called, generic_null, handle, after_try, exported,
}
use qbind.Export.Arguments.{
  IsOrder, IsEmpty, IsOwned, above-Apart, Option-cases, destruct_other, destruct_null,
  destruct_all-Balanced, arguments-Balanced,
}

-- The references that are on their way to q, and those that q has got.
abbrev given : Left → Outside → Outside
given (gave p) e = one_more p e
given (threw x) e = e
given ended e = e

abbrev pub handed : Exit → Outside → Outside
handed (returned p) e = one_more p e
handed unhandled e = e

module _ (kq : Kq) {n : ℕ} (e : Outside) (vars : List ℕ) where
  generic_null-Balanced :
      (s : Session)
      → Balanced n s.machine e
      → IsEmpty vars s.machine.m_k
      → Balanced n (generic_null kq s).1.machine (handed (generic_null kq s).0 e)
        × IsEmpty vars (generic_null kq s).1.machine.m_k
  unfolding generic_null
  generic_null-Balanced s b empty = elim (kq.knk_made s.machine.heap) [
    | inl (failed, same) ↦ (record { books = λ p ne. ground (arith, b.books p ne, same p) }, empty)
    | inr (free, more) ↦ (record { books = λ p ne. ground (arith, b.books p ne, more p) }, empty)
  ]

  handle-Balanced :
      (code_text : ℤ → Message) (x : Exception) (s : Session)
      → Balanced n s.machine e
      → IsEmpty vars s.machine.m_k
      → Balanced n (handle kq code_text x s).1.machine (handed (handle kq code_text x s).0 e)
        × IsEmpty vars (handle kq code_text x s).1.machine.m_k
  unfolding handle
  handle-Balanced code_text x s b empty =
      let h = s.machine.heap in
      let m = what code_text x in
      (
        record {
          books = λ p ne. ground (arith, b.books p ne, kq.krr_null m h, kq.krr_counts m h p);
        },
        empty,
      )

  after_try-Balanced :
      (code_text : ℤ → Message) (left : Left) (t : Machine) (s : Session)
      → Balanced n t (given left e)
      → IsEmpty vars t.m_k
      → Balanced n
          (after_try kq code_text (left, t) s).1.machine
          (handed (after_try kq code_text (left, t) s).0 e)
        × IsEmpty vars (after_try kq code_text (left, t) s).1.machine.m_k
  unfolding after_try
  after_try-Balanced code_text (threw (standard x)) t s b empty =
      handle-Balanced code_text x (record s { machine = t }) b empty
  after_try-Balanced code_text (threw other) t s b empty = (b, empty)
  after_try-Balanced code_text (gave p) t s b empty = (b, empty)
  after_try-Balanced code_text ended t s b empty =
      generic_null-Balanced (record s { machine = t }) b empty

module _ (kx : Kx) {n nargs : ℕ} (fn : Fn n nargs) (order : List ℕ) where
  -- The end of the arguments, with the two variables of the result empty before it.
  ended-Balanced :
      {e : Outside} (s : Machine)
      → suc nargs < n
      → IsOrder nargs order
      → s.m_k nargs ≡ nullptr
      → s.m_k (suc nargs) ≡ nullptr
      → Balanced n s e
      → Balanced n (destruct_all kx order s) e
        × IsEmpty (nargs ∷ suc nargs ∷ order) (destruct_all kx order s).m_k
  ended-Balanced s lt o first second b =
      let (books, empty, same) = destruct_all-Balanced kx order s (omega arith) o b in
      (
        books,
        (
          same nargs (above-Apart nargs nargs order o (omega arith)) ∙ first,
          (same (suc nargs) (above-Apart nargs (suc nargs) order o (omega arith)) ∙ second, empty),
        ),
      )

  called-Balanced :
      (kq : Kq) {e : Outside} (returns : Bool) (s : Machine)
      → suc nargs < n
      → IsOrder nargs order
      → s.m_k nargs ≡ nullptr
      → s.m_k (suc nargs) ≡ nullptr
      → Balanced n s e
      → Balanced n (called kx kq fn returns order s).1 (given (called kx kq fn returns order s).0 e)
        × IsEmpty (nargs ∷ suc nargs ∷ order) (called kx kq fn returns order s).1.m_k
  unfolding called
  called-Balanced kq returns s lt o first second b =
      let books = fn.call_books first b in
      let done = (fn.call s).1 in
      let copy = fn.call_copy s ∙ second in
      elim (Option-cases (fn.call s).0) [
        | inr (x, thrown) ↦
            rw (called, thrown)
              (ended-Balanced done lt o (fn.call_thrown s x thrown ∙ first) copy books)
        | inl over ↦ elim (Bool-cases returns) [
          | inl on ↦
              rw (called, over, on)
                (let (_, given_to_q, left, left') =
                    to_q-Balanced kx books nargs (suc nargs) (omega arith) lt (λ h. omega arith)
                      copy in
                  ended-Balanced (to_q kx nargs (suc nargs) done).1 lt o left left' given_to_q)
          | inr off ↦
              rw (called, over, off)
                (ended-Balanced (destruct kx nargs done) lt o (destruct_null kx nargs done)
                  (destruct_other kx nargs (suc nargs) done (λ h. omega arith) ∙ copy)
                  (destruct-Balanced kx books nargs (omega arith)))
        ]
      ]

  -- An exported function that q calls with balanced books, with arguments that are null or that q
  -- owns, whichever way it ends (an argument is refused, the C++ function throws, it returns a
  -- result, or none), leaves the books balanced, with one more reference for q to the pointer that
  -- it returns if it returns, and leaves the variables of its arguments and of its result empty, if
  -- they were, the program has them, and the arguments have different variables below `nargs`.
  pub exported-Balanced :
      (kq : Kq) (code_text : ℤ → Message) {e : Outside} (returns : Bool) (karr : ℕ → Ptr)
      (s : Session)
      → suc nargs < n
      → IsOrder nargs order
      → IsEmpty (nargs ∷ suc nargs ∷ order) s.machine.m_k
      → ((i : ℕ) → IsOwned e (karr i))
      → Balanced n s.machine e
      → Balanced n
          (exported kx kq code_text fn returns order karr s).1.machine
          (handed (exported kx kq code_text fn returns order karr s).0 e)
        × IsEmpty
            (nargs ∷ suc nargs ∷ order)
            (exported kx kq code_text fn returns order karr s).1.machine.m_k
  unfolding exported
  exported-Balanced kq code_text {e} returns karr s lt o (first, (second, empty)) owned b =
      let (books, same, gone) =
        arguments-Balanced kx fn karr order s.machine (omega arith) o empty owned b in
      let t = (arguments kx fn karr order s.machine).1 in
      let first' = same nargs (above-Apart nargs nargs order o (omega arith)) ∙ first in
      let second' =
        same (suc nargs) (above-Apart nargs (suc nargs) order o (omega arith)) ∙ second in
      elim (Option-cases (arguments kx fn karr order s.machine).0) [
        | inr (x, refused) ↦
            rw (exported, refused)
              (after_try-Balanced kq e (nargs ∷ suc nargs ∷ order) code_text (threw (standard x)) t
                s books (first', (second', gone x refused)))
        | inl accepted ↦
            rw (exported, accepted)
              (let r = called kx kq fn returns order t in
                let (books', empty') = called-Balanced kq returns t lt o first' second' books in
                after_try-Balanced kq e (nargs ∷ suc nargs ∷ order) code_text r.0 r.1 s books'
                  empty')
      ]

-- What the first parameter that refuses its object throws.
abbrev pub first_refusal : {n nargs : ℕ} → Fn n nargs → (karr : ℕ → Ptr) → List ℕ → Option Exception
first_refusal fn karr [] = none
first_refusal fn karr (i ∷ order) =
    let later = first_refusal fn karr order in
    elim (fn.check i (karr i)) [ some x ↦ some x | none ↦ later ]

module _ (kx : Kx) {n nargs : ℕ} (fn : Fn n nargs) (karr : ℕ → Ptr) where
  one_argument-check : (i : ℕ) (s : Machine) → (one_argument kx fn karr i s).0 ≡ fn.check i (karr i)
  unfolding one_argument
  one_argument-check i s = elim (Option-cases (fn.check i (karr i))) [
    | inr (x, refused) ↦ rw (one_argument, refused) refl
    | inl accepted ↦ rw (one_argument, accepted) refl
  ]

  arguments-first_refusal :
      (order : List ℕ) (s : Machine)
      → (arguments kx fn karr order s).0 ≡ first_refusal fn karr order
  unfolding arguments
  arguments-first_refusal [] s = refl
  arguments-first_refusal (i ∷ order) s =
      let t = (one_argument kx fn karr i s).1 in
      let rest = arguments-first_refusal order t in
      elim (Option-cases (fn.check i (karr i))) [
        | inr (x, refused) ↦
            rw (arguments, first_refusal, one_argument-check i s, refused)
              (one_argument-check i s ∙ refused)
        | inl accepted ↦ elim (Option-cases (arguments kx fn karr order t).0) [
          | inr (x, refused) ↦
              rw (arguments, first_refusal, one_argument-check i s, accepted, refused)
                (sym refused ∙ rest)
          | inl all ↦ rw (arguments, first_refusal, one_argument-check i s, accepted, all) rest
        ]
      ]

  -- Where a parameter refuses its object, an exported function returns null, and the message of the
  -- first exception in the order of evaluation is written to `std::cerr` and is the error that q is
  -- to signal.
  pub exported-refused :
      (kq : Kq) (code_text : ℤ → Message) (returns : Bool) (order : List ℕ) (s : Session)
      (x : Exception)
      → first_refusal fn karr order ≡ some x
      → ((exported kx kq code_text fn returns order karr s).0 ≡ returned nullptr)
        × ((exported kx kq code_text fn returns order karr s).1.signal ≡ some (what code_text x))
        × ((exported kx kq code_text fn returns order karr s).1.cerr
            ≡ s.cerr ++ (what code_text x ∷ []))
  unfolding exported after_try handle
  exported-refused kq code_text returns order s x h =
      let t = (arguments kx fn karr order s.machine).1 in
      rw (exported, arguments-first_refusal order s.machine ∙ h)
        (ap returned (kq.krr_null (what code_text x) t.heap), refl, refl)
