-- ===== src/Base/Outcome.antt =====
-- The outcome of a C++ call, and the text of its exceptions.
use mathlib.Core.Path.{◌≡◌, refl}
use mathlib.Core.Bool.{Bool, true, false}
use mathlib.Core.List.{List, [], ◌∷◌}
use Prim.Native.String.{String}
use Prim.Native.Nat.{ℕ}
use qbind.Base.Int.{ℤ}

-- A message is what the source streams or concatenates, piece by piece; a number stands for its
-- decimal text, and text that is known at run time only is its characters.
pub data Piece : Type 0 where
  str : String → Piece
  num : ℤ → Piece
  chars : List ℕ → Piece

abbrev pub Message : Type 0
Message = List Piece

abbrev pub text : String → Message
text s = str s ∷ []

-- The standard exceptions that the code throws.
pub data Exception : Type 0 where
  runtime_error : Message → Exception
  logic_error : Message → Exception
  out_of_range : Message → Exception
  domain_error : Message → Exception
  system_error : (code : ℤ) → Message → Exception
  bad_alloc : Exception

-- `undefined` is undefined behaviour: a null dereference, an access out of bounds, a missing
-- `return`. `terminated` is `std::terminate`: an exception that leaves a `noexcept` function.
pub data Outcome {ℓ} (A : Type ℓ) : Type ℓ where
  ok : A → Outcome A
  throw : Exception → Outcome A
  undefined : Outcome A
  terminated : Outcome A

infixl 5 ◌>>=◌ ◌>>◌
abbrev pub ◌>>=◌ {ℓ κ} : {A : Type ℓ} {B : Type κ} → Outcome A → (A → Outcome B) → Outcome B
terminated >>= next = terminated
undefined >>= next = undefined
throw e >>= next = throw e
ok result >>= next = next result

abbrev pub ◌>>◌ {κ} : {B : Type κ} → Outcome (Unit {0}) → Outcome B → Outcome B
call >> next = call >>= λ done. next

-- `if (bad) throw e;`
abbrev pub throw_if : Bool → Exception → Outcome (Unit {0})
throw_if true e = throw e
throw_if false e = ok tt

-- The body of a `noexcept` function.
abbrev pub noexcept {ℓ} : {A : Type ℓ} → Outcome A → Outcome A
noexcept (ok a) = ok a
noexcept (throw e) = terminated
noexcept undefined = undefined
noexcept terminated = terminated

-- A call that returned in sequence: what its first part returned.
pub >>=-eq-ok {κ ℓ} :
    {B : Type κ} {A : Type ℓ} (call : Outcome A) (next : A → Outcome B) {r : B}
    → (call >>= next) ≡ ok r
    → (x : A) × (call ≡ ok x) × (next x ≡ ok r)
>>=-eq-ok terminated next returns = cc
>>=-eq-ok undefined next returns = cc
>>=-eq-ok (throw e) next returns = cc
>>=-eq-ok (ok x) next returns = (x, refl, returns)

pub ok-eq {ℓ} : {A : Type ℓ} {a b : A} → ok a ≡ ok b → a ≡ b
ok-eq h = cc
