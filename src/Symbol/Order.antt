-- ===== src/Symbol/Order.antt =====
-- The order of symbols (include/qbind/symbol.h).
use qbind.Base.{ℕ, suc, ◌≤◌, ◌≡◌, ◌↔◌, refl, ap, ◌∙◌, arith, true, false, List, [], ◌∷◌, inl, inr}
use qbind.Base.Tests.{ltb, ◌==◌, Bool-cases}
use qbind.Base.Int.{pos, neg, eq_ℤ}
use qbind.Base.Lists.{length, take, take-length, All}
use qbind.Base.Outcome.{ok}
use qbind.Symbol.{differ, strcmp, strncmp, has_char, compare_symbol, compare_view, assign}

-- No character is 0.
abbrev pub NoZero : List ℕ → Type 0
NoZero s = All (λ c. 1 ≤ c) s

strcmp_refl : (s : List ℕ) → strcmp s s ≡ pos 0
unfolding strcmp
strcmp_refl [] = refl
strcmp_refl (a ∷ xs) = ground (arith, strcmp_refl xs)

strcmp-swap : (s t : List ℕ) → strcmp t s ≡ neg (strcmp s t)
unfolding strcmp
strcmp-swap [] [] = refl
strcmp-swap [] (b ∷ ys) = refl
strcmp-swap (a ∷ xs) [] = refl
strcmp-swap (a ∷ xs) (b ∷ ys) = elim (Bool-cases (a == b)) [
  | inl same ↦ let back : (b == a) ≡ true = ground arith in rw (same, back) (strcmp-swap xs ys)
  | inr apart ↦ let back : (b == a) ≡ false = ground arith in rw (apart, back) (ground arith)
]

strcmp_eq : (s t : List ℕ) → strcmp s t ≡ pos 0 → s ≡ t
unfolding strcmp
strcmp_eq [] [] h = refl
strcmp_eq [] (b ∷ ys) h = cc
strcmp_eq (a ∷ xs) [] h = cc
strcmp_eq (a ∷ xs) (b ∷ ys) h = elim (Bool-cases (a == b)) [
  | inl same ↦
      let heads : a ≡ b = ground arith in let tails : xs ≡ ys = strcmp_eq xs ys (rw same at h) in cc
  | inr apart ↦ absurd (ground arith)
]

-- Two symbols compare as equal exactly if their characters are the same, and swapping them negates
-- the result.
pub compare_symbol_lem :
    (s t : List ℕ)
    → ((compare_symbol s t ≡ pos 0) ↔ (s ≡ t)) × (compare_symbol t s ≡ neg (compare_symbol s t))
unfolding compare_symbol
compare_symbol_lem s t = ((strcmp_eq s t, λ e. rw (← e) (strcmp_refl s)), strcmp-swap s t)

has_char-suc : (a : ℕ) (xs : List ℕ) (i : ℕ) → has_char (a ∷ xs) (suc i) ≡ has_char xs i
unfolding has_char
has_char-suc a xs i = ground arith

has_char-zero : (xs : List ℕ) → has_char xs 0 ≡ ok (ltb 0 (length xs))
unfolding has_char
has_char-zero [] = refl
has_char-zero (a ∷ xs) = ground arith

differ-nonzero : (a b : ℕ) → eq_ℤ (differ a b) (pos 0) ≡ false
differ-nonzero a b = ground arith

-- A comparison of a symbol with the view of some characters, none of them 0, is the comparison with
-- the symbol of these characters.
pub compare_view-compare_symbol :
    (s view : List ℕ) → NoZero view → compare_view s view ≡ ok (compare_symbol s view)
unfolding compare_view compare_symbol strncmp strcmp
compare_view-compare_symbol [] [] h = rw (has_char-zero [])
compare_view-compare_symbol [] (b ∷ ys) h = let positive = h.0 in ground arith
compare_view-compare_symbol (a ∷ xs) [] h = rw (has_char-zero (a ∷ xs)) (ground arith)
compare_view-compare_symbol (a ∷ xs) (b ∷ ys) h = elim (Bool-cases (a == b)) [
  | inl same ↦ rw (same, has_char-suc a xs (length ys)) (compare_view-compare_symbol xs ys h.1)
  | inr apart ↦ rw (apart, differ-nonzero a b)
]

-- After an assignment of characters, none of them 0, a symbol compares as equal with their view,
-- where `sn` makes a symbol of the characters that it is given.
pub compare_view-assign :
    (sn : List ℕ → ℕ → List ℕ) (value : List ℕ)
    → ((v : List ℕ) (n : ℕ) → NoZero v → sn v n ≡ take n v)
    → NoZero value
    → compare_view (assign sn value) value ≡ ok (pos 0)
unfolding assign
compare_view-assign sn value interned h =
    compare_view-compare_symbol (sn value (length value)) value h
    ∙ ap ok ((compare_symbol_lem _ value).0.1 (interned value (length value) h ∙ take-length value))
