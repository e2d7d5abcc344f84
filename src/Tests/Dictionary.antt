-- ===== src/Tests/Dictionary.antt =====
-- A dictionary of a vector and a tuple (include/qbind/dictionary.h) that is made of an object.
use qbind.Base.{◌≡◌, refl, [], ◌∷◌}
use qbind.Base.Outcome.{ok}
use qbind.TypeCode.{byte}
use qbind.Object.{Object, vector, list, dict, nil, cons, size, pointer_at, t_of, n_of}
use qbind.Match.{inner_type, inner_type_impl}
use qbind.Match.Wrapper.{
  Wrapper, vector_of, tuple_of, end, and_then, is_with_info, dictionary_type_match,
  match_dictionary, match_part, tuple_type_match, match_guarded, tuple_impl, match_simple,
}
use qbind.Dictionary.{Dictionary, from_k}
use qbind.Dictionary.Made.{HasParts, from_k-HasParts}

abbrev two_bytes : Object
two_bytes = vector 64 byte 2 (10 ∷ 20 ∷ [])

abbrev two_vectors : Object
two_vectors = list 96 (cons two_bytes (cons (vector 128 byte 1 (7 ∷ [])) nil))

abbrev vectors : Wrapper
vectors = tuple_of (and_then (vector_of byte) (and_then (vector_of byte) end))

abbrev bytes_to_vectors : Dictionary
bytes_to_vectors = record {
  key_type = vector_of byte;
  value_type = vectors;
  m_ptr = dict 160 two_bytes two_vectors;
  m_length = 2;
}

bytes_to_vectors-from_k :
    from_k (vector_of byte) vectors (dict 160 two_bytes two_vectors) ≡ ok bytes_to_vectors
unfolding from_k is_with_info dictionary_type_match match_dictionary match_part tuple_type_match
    match_guarded tuple_impl match_simple inner_type inner_type_impl t_of n_of pointer_at size
bytes_to_vectors-from_k = refl

from_k-HasParts_example :
    HasParts bytes_to_vectors × (bytes_to_vectors.m_ptr ≡ dict 160 two_bytes two_vectors)
from_k-HasParts_example =
    from_k-HasParts (vector_of byte) vectors (dict 160 two_bytes two_vectors) bytes_to_vectors tt tt
      bytes_to_vectors-from_k
