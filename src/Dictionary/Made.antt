-- ===== src/Dictionary/Made.antt =====
-- The members of a dictionary on what its constructors make (include/qbind/dictionary.h).
use qbind.Base.{ℕ, ◌≡◌, sym, ap, ◌∙◌}
use mathlib.Core.Path.{subst}
use qbind.Base.Outcome.{ok}
use qbind.Object.{Object, dict, size, pointer_at}
use qbind.Match.Wrapper.{Wrapper}
use qbind.Dictionary.{Dictionary, from_k, length_of, wrapped, keys_of, values_of}
use qbind.Dictionary.Parts.{IsPart, dictionary_part-wrapped, from_k-dict}

-- What the members of a dictionary say of the parts of its object.
pub record HasParts (d : Dictionary) : Type 0 where
  pub ks : Object
  pub vs : Object
  pub keys_found : keys_of d ≡ ok ks
  pub values_found : values_of d ≡ ok vs
  pub keys_length : size ks ≡ ok (length_of d)

dict-HasParts :
    (K V : Wrapper) (a n : ℕ) (x y : Object)
    → size x ≡ ok n
    → wrapped K x ≡ ok x
    → wrapped V y ≡ ok y
    → HasParts (record { key_type = K; value_type = V; m_ptr = dict a x y; m_length = n })
unfolding keys_of values_of pointer_at length_of
dict-HasParts K V a n x y sized keys vals = record {
  ks = x;
  vs = y;
  keys_found = keys;
  values_found = vals;
  keys_length = sized;
}

-- Where keys and values are any types but dictionaries: a dictionary that the constructor from an
-- object returned holds that object, `keys()` and `values()` return objects, which the constructors
-- of their types accept, and `size()` is the length of the keys.
pub from_k-HasParts :
    (K V : Wrapper) (k : Object) (d : Dictionary)
    → IsPart K
    → IsPart V
    → from_k K V k ≡ ok d
    → HasParts d × (d.m_ptr ≡ k)
from_k-HasParts K V k d p q h =
    let (a, x, y, n, kept, sized, same, keys, vals) = from_k-dict K V d k h in
    (
      subst HasParts (sym same) (
          dict-HasParts K V a n x y sized (dictionary_part-wrapped K "keys" x p keys)
            (dictionary_part-wrapped V "values" y q vals)),
      ap (λ (d' : Dictionary). d'.m_ptr) same ∙ sym kept,
    )
