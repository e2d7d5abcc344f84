-- ===== src/Tests/Export.antt =====
-- An exported function (include/qbind/function.h) that returns its argument, over a concrete
-- reference count.
use qbind.Base.{ℕ, ◌≡◌, refl, arith, Option, none, some, inl, inr, true, false, [], ◌∷◌, ◌++◌, Bool}
use qbind.Base.Tests.{◌==◌, if◌then◌else◌, Bool-cases}
use qbind.Base.Int.{ℤ}
use qbind.Base.Outcome.{Message, text, runtime_error}
use qbind.Ownership.{Ptr, nullptr, Heap, Machine, copy_construct}
use qbind.Ownership.Counting.{owners}
use qbind.Ownership.Balance.{Balanced, copy_construct-Balanced}
use qbind.Export.{Kq, Fn, Session, returned, what, exported}
use qbind.Export.Arguments.{IsEmpty}
use qbind.Export.Calls.{handed, exported-Balanced, exported-refused}
use qbind.Tests.Ownership.{counting, begin, outside}

-- `knk` takes the address 2 where it is free.
abbrev is_free : Option ℕ → Bool
is_free none = true
is_free (some r) = false

free-none : (o : Option ℕ) → is_free o ≡ true → o ≡ none
free-none none h = refl
free-none (some r) h = cc

abbrev make : Heap → Ptr × Heap
make h = if is_free (h 2) then (2, λ q. if q == 2 then some 0 else h q) else (nullptr, h)

abbrev session : Kq
session = record {
  krr = λ m h. (nullptr, h);
  knk = make;
  krr_null = λ m h. refl;
  krr_counts = λ m h q. refl;
  knk_made = λ h. elim (Bool-cases (is_free (h 2))) [
    | inl free ↦ rw free (inr (free-none (h 2) free, λ q. refl))
    | inr taken ↦ rw taken (inl (refl, λ q. refl))
  ];
}

copied_other : (s : Machine) → (copy_construct counting 1 0 s).m_k 2 ≡ s.m_k 2
unfolding copy_construct
copied_other s = refl

not_some : {A : Type 0} {x : A} → ¬ (none ≡ some x)
not_some h = cc

-- The parameter refuses null.
abbrev same : Fn 3 1
same = record {
  check = λ i p. if p == nullptr then some (runtime_error (text "type")) else none;
  call = λ s. (none, copy_construct counting 1 0 s);
  call_books =
      λ {s} {e} empty b. copy_construct-Balanced counting b 1 0 (omega arith) (omega arith) empty;
  call_copy = λ s. copied_other s;
  call_thrown = λ s x h. absurd (not_some h);
}

abbrev code_text : ℤ → Message
code_text c = []

abbrev at_first : Session
at_first = record { machine = begin; cerr = []; signal = none }

begin-Balanced : Balanced 3 begin outside
unfolding owners
begin-Balanced = record { books = λ p ne. ground arith }

exported-Balanced_example :
    Balanced 3
      (exported counting session code_text same true (0 ∷ []) (λ i. 1) at_first).1.machine
      (handed (exported counting session code_text same true (0 ∷ []) (λ i. 1) at_first).0 outside)
    × IsEmpty
        (1 ∷ 2 ∷ 0 ∷ [])
        (exported counting session code_text same true (0 ∷ []) (λ i. 1) at_first).1.machine.m_k
exported-Balanced_example =
    exported-Balanced counting same (0 ∷ []) session code_text true (λ i. 1) at_first (omega arith)
      (omega arith, tt, tt) (refl, (refl, (refl, tt))) (λ i. inr (omega arith)) begin-Balanced

exported-refused_example :
    ((exported counting session code_text same true (0 ∷ []) (λ i. nullptr) at_first).0
      ≡ returned nullptr)
    × ((exported counting session code_text same true (0 ∷ []) (λ i. nullptr) at_first).1.signal
        ≡ some (what code_text (runtime_error (text "type"))))
    × ((exported counting session code_text same true (0 ∷ []) (λ i. nullptr) at_first).1.cerr
        ≡ [] ++ (what code_text (runtime_error (text "type")) ∷ []))
exported-refused_example =
    exported-refused counting same (λ i. nullptr) session code_text true (0 ∷ []) at_first
      (runtime_error (text "type")) refl
