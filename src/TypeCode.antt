-- ===== src/TypeCode.antt =====
-- include/qbind/type.h: the codes and names of q's types, the structures, and the C++ type that
-- stands under each (`c_type`). The codes KB .. KT are macros of vendored/kx/include/kx/k.h.
use qbind.Base.{◌≡◌, refl, sym, ap, ◌∙◌, ℕ, String, Option, none, some, List, [], ◌∷◌}
use qbind.Base.Tests.{◌==◌, ltb, if◌then◌else◌}
use qbind.Base.Lists.{get_elem?}
use qbind.Base.Int.{ℤ, pos, ◌-ℤ◌, is_negative, abs}

-- `enum class Type`.
pub data QType : Type 0 where
  boolean guid byte short int long real float char symbol : QType
  timestamp month date datetime timespan minute second time : QType

-- The enumerators' values.
abbrev pub code : QType → ℕ
code boolean = 1
code guid = 2
code byte = 4
code short = 5
code int = 6
code long = 7
code real = 8
code float = 9
code char = 10
code symbol = 11
code timestamp = 12
code month = 13
code date = 14
code datetime = 15
code timespan = 16
code minute = 17
code second = 18
code time = 19

-- `type_txt`
abbrev pub type_txt : List String
type_txt =
    "Boolean" ∷ "GUID" ∷ "UNKNOWN" ∷ "Byte" ∷ "Short" ∷ "Int" ∷ "Long" ∷ "Real" ∷ "Float" ∷ "Char"
    ∷ "Symbol" ∷ "Timestamp" ∷ "Month" ∷ "Date" ∷ "Datetime" ∷ "Timespan" ∷ "Minute" ∷ "Second"
    ∷ "Time" ∷ []

abbrev name_or_unknown : Option String → String
name_or_unknown none = "UNKNOWN"
name_or_unknown (some s) = s

-- `operator<<(std::ostream&, const Type&)`, on any value that was cast to `Type`.
unfoldable pub type_name : ℤ → String
unfolding ◌-ℤ◌
type_name t =
    let idx = t -ℤ pos 1 in
    if is_negative idx
    then "UNKNOWN"
    else if ltb 18 (abs idx)
    then "UNKNOWN"
    else name_or_unknown (get_elem? type_txt (abs idx))

-- `enum class Structure`
pub data Structure : Type 0 where
  error_structure atom_structure tuple_structure vector_structure : Structure
  nested_vector_structure table_structure dictionary_structure keyed_table_structure : Structure

-- `operator<<(std::ostream&, const Structure&)`
unfoldable pub structure_name : Structure → String
structure_name error_structure = "ERROR"
structure_name atom_structure = "Atom"
structure_name tuple_structure = "Tuple"
structure_name vector_structure = "Vector"
structure_name nested_vector_structure = "Nested Vector"
structure_name table_structure = "Table"
structure_name dictionary_structure = "Dictionary"
structure_name keyed_table_structure = "Keyed Table"

-- `==` of the enumeration, by the position of an enumerator.
abbrev pub structure_index : Structure → ℕ
structure_index error_structure = 0
structure_index atom_structure = 1
structure_index tuple_structure = 2
structure_index vector_structure = 3
structure_index nested_vector_structure = 4
structure_index table_structure = 5
structure_index dictionary_structure = 6
structure_index keyed_table_structure = 7

-- The types that `c_type` names.
pub data CType : Type 0 where
  c_bool c_guid c_uint8 c_int16 c_int32 c_int64 c_float c_double c_char c_char_ptr : CType

-- `c_type<T>::underlier`
unfoldable pub underlier : QType → CType
underlier boolean = c_bool
underlier guid = c_guid
underlier byte = c_uint8
underlier short = c_int16
underlier int = c_int32
underlier long = c_int64
underlier real = c_float
underlier float = c_double
underlier char = c_char
underlier symbol = c_char_ptr
underlier timestamp = c_int64
underlier month = c_int32
underlier date = c_int32
underlier datetime = c_double
underlier timespan = c_int64
underlier minute = c_int32
underlier second = c_int32
underlier time = c_int32

-- `sizeof` on the platforms of the vendored objects (LP64).
unfoldable pub size_of : CType → ℕ
size_of c_bool = 1
size_of c_guid = 16
size_of c_uint8 = 1
size_of c_int16 = 2
size_of c_int32 = 4
size_of c_int64 = 8
size_of c_float = 4
size_of c_double = 8
size_of c_char = 1
size_of c_char_ptr = 8

-- The position of an enumerator among the codes, and the way back.
abbrev pub of_code : ℕ → Option QType
of_code t =
    if t == 1
    then some boolean
    else if t == 2
    then some guid
    else if t == 4
    then some byte
    else if t == 5
    then some short
    else if t == 6
    then some int
    else if t == 7
    then some long
    else if t == 8
    then some real
    else if t == 9
    then some float
    else if t == 10
    then some char
    else if t == 11
    then some symbol
    else if t == 12
    then some timestamp
    else if t == 13
    then some month
    else if t == 14
    then some date
    else if t == 15
    then some datetime
    else if t == 16
    then some timespan
    else if t == 17
    then some minute
    else if t == 18
    then some second
    else if t == 19
    then some time
    else none

pub of_code-code : (T : QType) → of_code (code T) ≡ some T
of_code-code boolean = refl
of_code-code guid = refl
of_code-code byte = refl
of_code-code short = refl
of_code-code int = refl
of_code-code long = refl
of_code-code real = refl
of_code-code float = refl
of_code-code char = refl
of_code-code symbol = refl
of_code-code timestamp = refl
of_code-code month = refl
of_code-code date = refl
of_code-code datetime = refl
of_code-code timespan = refl
of_code-code minute = refl
of_code-code second = refl
of_code-code time = refl

pub code-injective : (T U : QType) → code T ≡ code U → T ≡ U
code-injective T U h =
    let same : some T ≡ some U = sym (of_code-code T) ∙ ap of_code h ∙ of_code-code U in cc
