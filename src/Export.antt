-- ===== src/Export.antt =====
-- The functions that QBIND_FN_EXPORT of include/qbind/function.h generates, by what they do to the
-- variables of class K (Ownership). Argument `i` is the variable `i`, the value that the C++
-- function returns is the variable `nargs`, and the result of its `get()` is `suc nargs`. The C++
-- function, the checks of its parameters' constructors and the functions `krr` and `knk` of the KX
-- library are parameters.

pub mod Arguments
pub mod Calls
pub mod Macros
pub mod Check
use qbind.Base.{
  ℕ, suc, ◌+◌, ◌≡◌, ◌≢◌, Bool, true, false, Option, none, some, List, [], ◌∷◌, ◌++◌, ◌⊎◌,
}
use qbind.Base.Tests.{◌==◌, if◌then◌else◌}
use qbind.Base.Int.{ℤ}
use qbind.Base.Outcome.{
  Message, text, Exception, runtime_error, logic_error, out_of_range, domain_error, system_error,
  bad_alloc, str,
}
use qbind.Ownership.{Ptr, nullptr, Heap, Kx, Machine, destruct}
use qbind.Ownership.Balance.{Outside, Balanced}
use qbind.Converter.{to_cpp, to_q}

-- What a C++ function may throw: a standard exception, or a value of another type.
pub data Thrown : Type 0 where
  standard : Exception → Thrown
  other : Thrown

-- `krr(message)` has the q session signal the message, and returns null. `knk(0)` makes an
-- object, where there is room for one.
pub record Kq : Type 0 where
  pub krr : Message → Heap → Ptr × Heap
  pub knk : Heap → Ptr × Heap
  pub krr_null : (m : Message) (h : Heap) → (krr m h).0 ≡ nullptr
  pub krr_counts : (m : Message) (h : Heap) (q : Ptr) → (krr m h).1 q ≡ h q
  pub knk_made :
      (h : Heap)
      → (((knk h).0 ≡ nullptr) × ((q : Ptr) → (knk h).1 q ≡ h q))
        ⊎ ((h (knk h).0 ≡ none)
            × ((q : Ptr) → (knk h).1 q ≡ (if q == (knk h).0 then some 0 else h q)))

-- The C++ function `fn` of `nargs` parameters, in a program of `n` variables. `check i` is what the
-- constructor of the `i`-th parameter's type throws on an object. `fn` handles objects by the class
-- K only and finds the variable of its result empty. When it throws it has left that variable so,
-- and it never uses the variable behind it.
pub record Fn (n nargs : ℕ) : Type 0 where
  pub check : ℕ → Ptr → Option Exception
  pub call : Machine → Option Thrown × Machine
  pub call_books :
      {s : Machine} {e : Outside} → s.m_k nargs ≡ nullptr → Balanced n s e → Balanced n (call s).1 e
  pub call_copy : (s : Machine) → (call s).1.m_k (suc nargs) ≡ s.m_k (suc nargs)
  pub call_thrown :
      (s : Machine) (x : Thrown) → (call s).0 ≡ some x → (call s).1.m_k nargs ≡ s.m_k nargs

-- `e.what()`; that of a `std::system_error` ends in a text of its error code, `code_text`.
unfoldable pub what : (code_text : ℤ → Message) → Exception → Message
what code_text (runtime_error m) = m
what code_text (logic_error m) = m
what code_text (out_of_range m) = m
what code_text (domain_error m) = m
what code_text (system_error code m) = m ++ (str ": " ∷ code_text code)
what code_text bad_alloc = text "std::bad_alloc"

-- How the `try` is left: by an exception, by its `return`, or at its end.
pub data Left : Type 0 where
  threw : Thrown → Left
  gave : Ptr → Left
  ended : Left

-- How an exported function is left: it returns, or lets an exception through.
pub data Exit : Type 0 where
  returned : Ptr → Exit
  unhandled : Exit

-- The variables and the heap, what is written to `std::cerr`, and the error that q is to signal.
pub record Session : Type 0 where
  pub machine : Machine
  pub cerr : List Message
  pub signal : Option Message

module _ (kx : Kx) where
  -- The constructed arguments are destructed, the last constructed first.
  unfoldable pub destruct_all : List ℕ → Machine → Machine
  destruct_all [] s = s
  destruct_all (i ∷ order) s = destruct kx i (destruct_all order s)

  module _ {n nargs : ℕ} (fn : Fn n nargs) (karr : ℕ → Ptr) where
    -- One argument: `to_cpp` on the object, and the constructor's check. Where that throws, the K
    -- is destructed again.
    unfoldable pub one_argument : ℕ → Machine → Option Exception × Machine
    one_argument i s =
        let t = to_cpp kx i (karr i) s in
        elim (fn.check i (karr i)) [ none ↦ (none, t) | some e ↦ (some e, destruct kx i t) ]

    -- The arguments in the order in which the compiler evaluates them. Where one throws, those that
    -- are constructed are destructed.
    unfoldable pub arguments : List ℕ → Machine → Option Exception × Machine
    unfolding one_argument
    arguments [] s = (none, s)
    arguments (i ∷ order) s =
        let first = one_argument i s in
        let rest = arguments order first.1 in
        elim first.0 [
          | some e ↦ first
          | none ↦ elim rest.0 [ some e ↦ (some e, destruct kx i rest.1) | none ↦ rest ]
        ]

-- Behind the arguments in the `try`: the call, the conversion of its result or, where `returns` is
-- 0, its end, and the end of the arguments.
unfoldable pub called :
    (kx : Kx) (kq : Kq) {n nargs : ℕ}
    → Fn n nargs
    → (returns : Bool) → List ℕ
    → Machine
    → Left × Machine
unfolding destruct_all
called kx kq {n} {nargs} fn returns order s =
    let done = fn.call s in
    let (p, converted) = to_q kx nargs (suc nargs) done.1 in
    elim done.0 [
      | some x ↦ (threw x, destruct_all kx order done.1)
      | none ↦
          if returns
          then (gave p, destruct_all kx order converted)
          else (ended, destruct_all kx order (destruct kx nargs done.1))
    ]

-- `return knk(0)`
unfoldable pub generic_null : Kq → Session → Exit × Session
generic_null kq s =
    let (p, h) = kq.knk s.machine.heap in
    (returned p, record s { machine = record { m_k = s.machine.m_k; heap = h } })

module _ (kq : Kq) (code_text : ℤ → Message) where
  -- The `catch (const std::exception& e)`
  unfoldable pub handle : Exception → Session → Exit × Session
  unfolding what
  handle e s =
      let errmsg = what code_text e in
      let (p, h) = kq.krr errmsg s.machine.heap in
      (
        returned p,
        record {
          machine = record { m_k = s.machine.m_k; heap = h };
          cerr = s.cerr ++ (errmsg ∷ []);
          signal = some errmsg;
        },
      )

  -- The end of the exported function, by how the `try` is left
  unfoldable pub after_try : Left × Machine → Session → Exit × Session
  unfolding generic_null handle
  after_try (threw (standard e), t) s = handle e (record s { machine = t })
  after_try (threw other, t) s = (unhandled, record s { machine = t })
  after_try (gave p, t) s = (returned p, record s { machine = t })
  after_try (ended, t) s = generic_null kq (record s { machine = t })

-- The exported function; `order` is the order in which the compiler evaluates the arguments.
unfoldable pub exported :
    (kx : Kx) (kq : Kq) (code_text : ℤ → Message) {n nargs : ℕ}
    → Fn n nargs
    → (returns : Bool) (order : List ℕ) (karr : ℕ → Ptr) → Session
    → Exit × Session
unfolding arguments called after_try
exported kx kq code_text fn returns order karr s =
    let (refused, t) = arguments kx fn karr order s.machine in
    elim refused [
      | some e ↦ after_try kq code_text (threw (standard e), t) s
      | none ↦ after_try kq code_text (called kx kq fn returns order t) s
    ]
