-- ===== src/Dictionary/Parts.antt =====
-- The keys and values of an accepted dictionary (include/qbind/dictionary.h).
use qbind.Base.{ℕ, String, ◌≡◌, refl, sym, ap, ◌∙◌, arith, true, false, none, some}
use qbind.Base.Outcome.{
  ok-eq, Outcome, ok, throw, undefined, terminated, noexcept, ◌>>=◌, throw_if, text, runtime_error,
}
use qbind.TypeCode.{
  QType, code, Structure, atom_structure, vector_structure, nested_vector_structure,
}
use qbind.Object.{
  Object, null, atom, vector, list, dict, other_negative, other_positive, is_null, size, t_of,
}
use qbind.Match.{InnerType, inner_is, inner_error, inner_type, inner_type_impl, is_simple}
use qbind.Match.Inner.{
  IsCode, inner_type-IsCode, is_simple_iff, is_simple_with_info_iff, structure_index-injective,
}
use qbind.Match.Wrapper.{
  Wrapper, Wrappers, atom_of, vector_of, nested_of, tuple_of, dictionary_of, match_part,
  part_verdict, dictionary_part, tuple_type_match, is_with_info, match_dictionary,
  dictionary_type_match, label, combine, throw_value, tuple_impl, Verdict,
}
use qbind.Atom
use qbind.Vector
use qbind.NestedVector
use qbind.Tuple
use qbind.Dictionary.{Dictionary, from_k, wrapped}

part_verdict-none_of :
    (k_or_v : String) (S : Structure) (Q : QType) (m : Outcome InnerType)
    → ((s : Structure) (t : ℕ) → m ≡ ok (inner_is s t) → IsCode t)
    → (m >>= λ res. part_verdict k_or_v S Q res) ≡ ok none
    → m ≡ ok (inner_is S (code Q))
part_verdict-none_of k_or_v S Q (ok (inner_is s t)) h e =
    let (positive, _, _) = h s t refl in ground (arith, structure_index-injective s S)
part_verdict-none_of k_or_v S Q (ok (inner_error m)) h e = cc
part_verdict-none_of k_or_v S Q (throw x) h e = cc
part_verdict-none_of k_or_v S Q undefined h e = cc
part_verdict-none_of k_or_v S Q terminated h e = cc

match_part-is_simple :
    (k_or_v : String) (S : Structure) (Q : QType) (k : Object)
    → match_part k_or_v S Q k ≡ ok none
    → is_simple S Q k ≡ ok true
unfolding match_part
match_part-is_simple k_or_v S Q k h =
    (is_simple_iff S Q k).1 (part_verdict-none_of k_or_v S Q _ (inner_type-IsCode k) h)

label-none : (k_or_v : String) (m : Outcome Verdict) → label k_or_v m ≡ ok none → m ≡ ok none
label-none k_or_v (ok none) h = refl
label-none k_or_v (ok (some e)) h = cc
label-none k_or_v (throw x) h = cc
label-none k_or_v undefined h = cc
label-none k_or_v terminated h = cc

-- The wrapper is no dictionary.
abbrev pub IsPart : Wrapper → Type 0
IsPart (dictionary_of wk wv) = ⊥
IsPart _ = Unit {0}

is_simple-null :
    (S : Structure) (Q : QType) (k : Object) → is_simple S Q k ≡ ok true → is_null k ≡ false
unfolding is_simple inner_type inner_type_impl
is_simple-null S Q null h = cc
is_simple-null S Q (atom a T w g) h = refl
is_simple-null S Q (vector a T n g) h = refl
is_simple-null S Q (list a xs) h = refl
is_simple-null S Q (dict a x y) h = refl
is_simple-null S Q (other_negative a k w) h = refl
is_simple-null S Q (other_positive a k n) h = refl

tuple_type_match-null :
    (ws : Wrappers) (k : Object) → tuple_type_match 0 0 ws k ≡ ok none → is_null k ≡ false
unfolding tuple_type_match
tuple_type_match-null ws null h = cc
tuple_type_match-null ws (atom a T w g) h = refl
tuple_type_match-null ws (vector a T n g) h = refl
tuple_type_match-null ws (list a xs) h = refl
tuple_type_match-null ws (dict a x y) h = refl
tuple_type_match-null ws (other_negative a k w) h = refl
tuple_type_match-null ws (other_positive a k n) h = refl

tuple_type_match-wrapped :
    (ws : Wrappers) (k : Object)
    → tuple_type_match 0 0 ws k ≡ ok none
    → wrapped (tuple_of ws) k ≡ ok k
unfolding wrapped Tuple.from_k is_with_info tuple_type_match
tuple_type_match-wrapped ws k h =
    let refused = runtime_error (text "K is empty") in
    ap (λ m. throw_if (is_null k) refused >>= λ _. (m >>= λ res. throw_value res) >>= λ _. ok k) h
    ∙ ap (λ b. throw_if b refused >>= λ _. ok k) (tuple_type_match-null ws k h)

pub dictionary_part-wrapped :
    (w : Wrapper) (k_or_v : String) (k : Object)
    → IsPart w
    → dictionary_part k_or_v w k ≡ ok none
    → wrapped w k ≡ ok k
unfolding tuple_impl tuple_type_match wrapped Atom.from_k Vector.from_k NestedVector.from_k
    Tuple.from_k
dictionary_part-wrapped (atom_of T) k_or_v k p h =
    let simple = match_part-is_simple k_or_v atom_structure T k h in
    rw
      (
        is_simple-null atom_structure T k simple,
        (is_simple_with_info_iff atom_structure T k).1 simple,
      )
      refl
dictionary_part-wrapped (vector_of T) k_or_v k p h =
    let simple = match_part-is_simple k_or_v vector_structure T k h in
    rw
      (
        is_simple-null vector_structure T k simple,
        (is_simple_with_info_iff vector_structure T k).1 simple,
      )
      refl
dictionary_part-wrapped (nested_of T) k_or_v k p h =
    let simple = match_part-is_simple k_or_v nested_vector_structure T k h in
    rw
      (
        is_simple-null nested_vector_structure T k simple,
        (is_simple_with_info_iff nested_vector_structure T k).1 simple,
      )
      refl
dictionary_part-wrapped (tuple_of ws) k_or_v k p h =
    tuple_type_match-wrapped ws k (label-none k_or_v _ h)
dictionary_part-wrapped (dictionary_of wk wv) k_or_v k p h = absurd p

both-none :
    (m m' : Outcome Verdict)
    → noexcept ((m >>= λ kres. m' >>= λ vres. ok (combine kres vres)) >>= λ res. throw_value res)
      ≡ ok tt
    → (m ≡ ok none) × (m' ≡ ok none)
both-none (ok none) (ok none) h = (refl, refl)
both-none (ok none) (ok (some e)) h = cc
both-none (ok none) (throw x) h = cc
both-none (ok none) undefined h = cc
both-none (ok none) terminated h = cc
both-none (ok (some e)) (ok none) h = cc
both-none (ok (some e)) (ok (some e')) h = cc
both-none (ok (some e)) (throw x) h = cc
both-none (ok (some e)) undefined h = cc
both-none (ok (some e)) terminated h = cc
both-none (throw x) m' h = cc
both-none undefined m' h = cc
both-none terminated m' h = cc

opened :
    (m : Outcome (Unit {0})) (s : Outcome ℕ) (f : ℕ → Dictionary) (d : Dictionary)
    → (m >>= λ _. s >>= λ n. ok (f n)) ≡ ok d
    → (n : ℕ) × (m ≡ ok tt) × (s ≡ ok n) × (d ≡ f n)
opened (ok tt) (ok n) f d h = (n, refl, refl, sym (ok-eq h))
opened (ok tt) (throw x) f d h = absurd (ground arith)
opened (ok tt) undefined f d h = absurd (ground arith)
opened (ok tt) terminated f d h = absurd (ground arith)
opened (throw x) s f d h = absurd (ground arith)
opened undefined s f d h = absurd (ground arith)
opened terminated s f d h = absurd (ground arith)

module _ (K V : Wrapper) where
  pub from_k-dict :
      (d : Dictionary) (k : Object)
      → from_k K V k ≡ ok d
      → (a : ℕ) × (x : Object) × (y : Object) × (n : ℕ) × (k ≡ dict a x y)
        × (size x ≡ ok n)
        × (d ≡ record { key_type = K; value_type = V; m_ptr = dict a x y; m_length = n })
        × (dictionary_part "keys" K x ≡ ok none)
        × (dictionary_part "values" V y ≡ ok none)
  unfolding from_k is_with_info dictionary_type_match match_dictionary t_of
  from_k-dict d null h = absurd (ground arith)
  from_k-dict d (atom a T w g) h = absurd (ground arith)
  from_k-dict d (vector a T n g) h = absurd (ground arith)
  from_k-dict d (list a xs) h = absurd (ground arith)
  from_k-dict d (dict a x y) h =
      let made : ℕ → Dictionary =
        λ n. record { key_type = K; value_type = V; m_ptr = dict a x y; m_length = n } in
      let (n, checked, sized, same) = opened _ (size x) made d h in
      let (keys, vals) =
        both-none (dictionary_part "keys" K x) (dictionary_part "values" V y) checked in
      (a, x, y, n, refl, sized, same, keys, vals)
  from_k-dict d (other_negative a k w) h = absurd (ground arith)
  from_k-dict d (other_positive a k n) h = absurd (ground arith)
