-- ===== src/Tests/Made.antt =====
-- A vector of characters (include/qbind/vector.h) that is made of a text and grows.
use qbind.Base.{◌++◌, ℕ, zero, suc, ◌*◌, ◌≡◌, refl, ap, true, [], ◌∷◌, List, arith}
use qbind.Base.Int.{abs}
use qbind.Base.Lists.{length, take, length-append}
use qbind.Base.Outcome.{ok}
use qbind.TypeCode.{char, underlier, size_of, vector_structure}
use qbind.Object.{Object, vector, t_of}
use qbind.Match.{is_simple}
use qbind.Append.{join_atom, join_lists}
use qbind.Vector
use qbind.Vector.{Creation, of_chars}
use qbind.Vector.Filled.{length-take-drop}
use qbind.Vector.Typed.{HasType, Creates}
use qbind.Vector.Made.{Made, with_value, with_vector, Made-HasType}
use qbind.Tests.Containers.{in_place}

abbrev zeros : ℕ → List ℕ
zeros zero = []
zeros (suc n) = 0 ∷ zeros n

length-zeros : (n : ℕ) → length (zeros n) ≡ n
length-zeros zero = refl
length-zeros (suc n) = ap suc (length-zeros n)

abbrev made_at_64 : Creation
made_at_64 = record {
  ktn = λ T n. vector 64 T (abs n) (zeros (abs n * size_of (underlier T)));
  kp = λ s. vector 64 char (length s) s;
  kpn = λ s n. vector 64 char (abs n) (take (abs n) (s ++ (0 ∷ [])));
}

made_at_64-Creates : Creates made_at_64 char
unfolding size_of underlier
made_at_64-Creates = record {
  ktn_made = λ n. record {
    addr = 64;
    count = n;
    g0 = zeros (n * 1);
    is = refl;
    whole = length-zeros (n * 1);
  };
  kp_made = λ h s. record { addr = 64; count = length s; g0 = s; is = refl; whole = ground arith };
  kpn_made = λ h s n within. record {
    addr = 64;
    count = n;
    g0 = take n (s ++ (0 ∷ []));
    is = refl;
    whole = ground (
      arith,
      length-take-drop n 0 (s ++ (0 ∷ [])) (omega (arith, within, length-append s (0 ∷ []))),
    );
  };
}

abbrev byte_of : ℕ → List ℕ
byte_of x = x ∷ []

-- `hi`, `!` and the same text again.
abbrev text_bytes : List ℕ
text_bytes = 104 ∷ 105 ∷ []

abbrev grown : Object
grown = vector 64 char 5 (104 ∷ 105 ∷ 33 ∷ 104 ∷ 105 ∷ [])

grown-Made : Made made_at_64 in_place byte_of char grown
unfolding of_chars Vector.push_back_value Vector.push_back join_atom join_lists t_of size_of
    underlier
grown-Made =
    with_vector (vector 64 char 3 (104 ∷ 105 ∷ 33 ∷ [])) (vector 64 char 2 text_bytes) grown
      (with_value (vector 64 char 2 text_bytes) (vector 64 char 3 (104 ∷ 105 ∷ 33 ∷ [])) 33 refl
        refl)
      refl refl

sized : (x : ℕ) → length (byte_of x) ≡ size_of (underlier char)
unfolding size_of underlier
sized x = refl

Made-HasType_example : HasType char grown × (is_simple vector_structure char grown ≡ ok true)
Made-HasType_example =
    Made-HasType made_at_64 in_place byte_of char made_at_64-Creates sized grown grown-Made
