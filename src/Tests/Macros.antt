-- ===== src/Tests/Macros.antt =====
-- The macros of include/qbind/function.h for a function of two parameters.
use qbind.Base.{ℕ, zero, suc, ◌-◌, ◌≡◌, refl, arith, [], ◌∷◌, ◌++◌}
use qbind.Export.Macros.{
  Tokens, word, karr, number, comma, opening, closing, semicolon, Preprocessor, parameter, argument,
  fn_signature, call_signature, separated, fn_signature-call_signature,
}

abbrev if_not_zero_of : ℕ → Tokens → Tokens → Tokens
if_not_zero_of zero t e = e
if_not_zero_of (suc n) t e = t

abbrev repeated : ℕ → (ℕ → Tokens) → Tokens
repeated zero fold = []
repeated (suc n) fold = repeated n fold ++ fold n

abbrev boost : Preprocessor
boost = record {
  limit = 256;
  if_not_zero = if_not_zero_of;
  sub = λ n m. n - m;
  repeat = repeated;
  if_not_zero_zero = λ t e. refl;
  if_not_zero_suc = λ n t e h. refl;
  sub_suc = λ n h. omega arith;
  repeat_zero = λ fold. refl;
  repeat_suc = λ n fold h. refl;
}

abbrev to_cpp_call : ℕ → Tokens
to_cpp_call n =
    word "qbind::Converter::to_cpp<qbind::ArgType<decltype"
    ∷ opening
    ∷ word "add"
    ∷ closing
    ∷ comma
    ∷ number n
    ∷ word ">>"
    ∷ opening
    ∷ karr n
    ∷ closing
    ∷ []

fn_signature-call_signature_example :
    (fn_signature boost "q_add" 2
      ≡ word "K"
        ∷ word "q_add"
        ∷ opening
        ∷ word "K"
        ∷ karr 0
        ∷ comma
        ∷ word "K"
        ∷ karr 1
        ∷ closing
        ∷ [])
    × (call_signature boost 0 "add" 2
        ≡ opening ∷ word "add" ∷ opening ∷ to_cpp_call 0
          ++ (comma ∷ to_cpp_call 1)
          ++ (closing ∷ closing ∷ semicolon ∷ []))
unfolding separated parameter argument
fn_signature-call_signature_example =
    fn_signature-call_signature boost "q_add" "add" 2 0 (omega arith) (omega arith)
