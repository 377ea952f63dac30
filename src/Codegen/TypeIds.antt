-- ===== src/Codegen/TypeIds.antt =====
-- The type ids of roslibrust_codegen/src/ros2_hashing.rs.
pub mod Totality
use roslibrust.Base.{
  ℕ, Option, none, some, List, [], ◌∷◌, ◌++◌, map, Text, String, codes, text_eq, Map, get,
  if◌then◌else◌, Result, ok, err,
}
use roslibrust.Codegen.Types.{ArrayType, not_array, fixed_length, bounded, unbounded, FieldType}

-- The `Err` of the conversion, and the `None` of the functions on a graph.
pub data NotFound : Type 0 where
  not_found : NotFound

abbrev pub field_type_name_to_id : Map ℕ
field_type_name_to_id =
    map (λ (p : String × ℕ). (codes p.0, p.1))
      (("FIELD_TYPE_NOT_SET", 0)
        ∷ ("FIELD_TYPE_NESTED_TYPE", 1)
        ∷ ("FIELD_TYPE_INT8", 2)
        ∷ ("FIELD_TYPE_UINT8", 3)
        ∷ ("FIELD_TYPE_INT16", 4)
        ∷ ("FIELD_TYPE_UINT16", 5)
        ∷ ("FIELD_TYPE_INT32", 6)
        ∷ ("FIELD_TYPE_UINT32", 7)
        ∷ ("FIELD_TYPE_INT64", 8)
        ∷ ("FIELD_TYPE_UINT64", 9)
        ∷ ("FIELD_TYPE_FLOAT", 10)
        ∷ ("FIELD_TYPE_DOUBLE", 11)
        ∷ ("FIELD_TYPE_LONG_DOUBLE", 12)
        ∷ ("FIELD_TYPE_CHAR", 13)
        ∷ ("FIELD_TYPE_WCHAR", 14)
        ∷ ("FIELD_TYPE_BOOLEAN", 15)
        ∷ ("FIELD_TYPE_BYTE", 16)
        ∷ ("FIELD_TYPE_STRING", 17)
        ∷ ("FIELD_TYPE_WSTRING", 18)
        ∷ ("FIELD_TYPE_FIXED_STRING", 19)
        ∷ ("FIELD_TYPE_FIXED_WSTRING", 20)
        ∷ ("FIELD_TYPE_BOUNDED_STRING", 21)
        ∷ ("FIELD_TYPE_BOUNDED_WSTRING", 22)
        ∷ ("FIELD_TYPE_NESTED_TYPE_ARRAY", 49)
        ∷ ("FIELD_TYPE_INT8_ARRAY", 50)
        ∷ ("FIELD_TYPE_UINT8_ARRAY", 51)
        ∷ ("FIELD_TYPE_INT16_ARRAY", 52)
        ∷ ("FIELD_TYPE_UINT16_ARRAY", 53)
        ∷ ("FIELD_TYPE_INT32_ARRAY", 54)
        ∷ ("FIELD_TYPE_UINT32_ARRAY", 55)
        ∷ ("FIELD_TYPE_INT64_ARRAY", 56)
        ∷ ("FIELD_TYPE_UINT64_ARRAY", 57)
        ∷ ("FIELD_TYPE_FLOAT_ARRAY", 58)
        ∷ ("FIELD_TYPE_DOUBLE_ARRAY", 59)
        ∷ ("FIELD_TYPE_LONG_DOUBLE_ARRAY", 60)
        ∷ ("FIELD_TYPE_CHAR_ARRAY", 61)
        ∷ ("FIELD_TYPE_WCHAR_ARRAY", 62)
        ∷ ("FIELD_TYPE_BOOLEAN_ARRAY", 63)
        ∷ ("FIELD_TYPE_BYTE_ARRAY", 64)
        ∷ ("FIELD_TYPE_STRING_ARRAY", 65)
        ∷ ("FIELD_TYPE_WSTRING_ARRAY", 66)
        ∷ ("FIELD_TYPE_FIXED_STRING_ARRAY", 67)
        ∷ ("FIELD_TYPE_FIXED_WSTRING_ARRAY", 68)
        ∷ ("FIELD_TYPE_BOUNDED_STRING_ARRAY", 69)
        ∷ ("FIELD_TYPE_BOUNDED_WSTRING_ARRAY", 70)
        ∷ ("FIELD_TYPE_NESTED_TYPE_BOUNDED_SEQUENCE", 97)
        ∷ ("FIELD_TYPE_INT8_BOUNDED_SEQUENCE", 98)
        ∷ ("FIELD_TYPE_UINT8_BOUNDED_SEQUENCE", 99)
        ∷ ("FIELD_TYPE_INT16_BOUNDED_SEQUENCE", 100)
        ∷ ("FIELD_TYPE_UINT16_BOUNDED_SEQUENCE", 101)
        ∷ ("FIELD_TYPE_INT32_BOUNDED_SEQUENCE", 102)
        ∷ ("FIELD_TYPE_UINT32_BOUNDED_SEQUENCE", 103)
        ∷ ("FIELD_TYPE_INT64_BOUNDED_SEQUENCE", 104)
        ∷ ("FIELD_TYPE_UINT64_BOUNDED_SEQUENCE", 105)
        ∷ ("FIELD_TYPE_FLOAT_BOUNDED_SEQUENCE", 106)
        ∷ ("FIELD_TYPE_DOUBLE_BOUNDED_SEQUENCE", 107)
        ∷ ("FIELD_TYPE_LONG_DOUBLE_BOUNDED_SEQUENCE", 108)
        ∷ ("FIELD_TYPE_CHAR_BOUNDED_SEQUENCE", 109)
        ∷ ("FIELD_TYPE_WCHAR_BOUNDED_SEQUENCE", 110)
        ∷ ("FIELD_TYPE_BOOLEAN_BOUNDED_SEQUENCE", 111)
        ∷ ("FIELD_TYPE_BYTE_BOUNDED_SEQUENCE", 112)
        ∷ ("FIELD_TYPE_STRING_BOUNDED_SEQUENCE", 113)
        ∷ ("FIELD_TYPE_WSTRING_BOUNDED_SEQUENCE", 114)
        ∷ ("FIELD_TYPE_FIXED_STRING_BOUNDED_SEQUENCE", 115)
        ∷ ("FIELD_TYPE_FIXED_WSTRING_BOUNDED_SEQUENCE", 116)
        ∷ ("FIELD_TYPE_BOUNDED_STRING_BOUNDED_SEQUENCE", 117)
        ∷ ("FIELD_TYPE_BOUNDED_WSTRING_BOUNDED_SEQUENCE", 118)
        ∷ ("FIELD_TYPE_NESTED_TYPE_UNBOUNDED_SEQUENCE", 145)
        ∷ ("FIELD_TYPE_INT8_UNBOUNDED_SEQUENCE", 146)
        ∷ ("FIELD_TYPE_UINT8_UNBOUNDED_SEQUENCE", 147)
        ∷ ("FIELD_TYPE_INT16_UNBOUNDED_SEQUENCE", 148)
        ∷ ("FIELD_TYPE_UINT16_UNBOUNDED_SEQUENCE", 149)
        ∷ ("FIELD_TYPE_INT32_UNBOUNDED_SEQUENCE", 150)
        ∷ ("FIELD_TYPE_UINT32_UNBOUNDED_SEQUENCE", 151)
        ∷ ("FIELD_TYPE_INT64_UNBOUNDED_SEQUENCE", 152)
        ∷ ("FIELD_TYPE_UINT64_UNBOUNDED_SEQUENCE", 153)
        ∷ ("FIELD_TYPE_FLOAT_UNBOUNDED_SEQUENCE", 154)
        ∷ ("FIELD_TYPE_DOUBLE_UNBOUNDED_SEQUENCE", 155)
        ∷ ("FIELD_TYPE_LONG_DOUBLE_UNBOUNDED_SEQUENCE", 156)
        ∷ ("FIELD_TYPE_CHAR_UNBOUNDED_SEQUENCE", 157)
        ∷ ("FIELD_TYPE_WCHAR_UNBOUNDED_SEQUENCE", 158)
        ∷ ("FIELD_TYPE_BOOLEAN_UNBOUNDED_SEQUENCE", 159)
        ∷ ("FIELD_TYPE_BYTE_UNBOUNDED_SEQUENCE", 160)
        ∷ ("FIELD_TYPE_STRING_UNBOUNDED_SEQUENCE", 161)
        ∷ ("FIELD_TYPE_WSTRING_UNBOUNDED_SEQUENCE", 162)
        ∷ ("FIELD_TYPE_FIXED_STRING_UNBOUNDED_SEQUENCE", 163)
        ∷ ("FIELD_TYPE_FIXED_WSTRING_UNBOUNDED_SEQUENCE", 164)
        ∷ ("FIELD_TYPE_BOUNDED_STRING_UNBOUNDED_SEQUENCE", 165)
        ∷ ("FIELD_TYPE_BOUNDED_WSTRING_UNBOUNDED_SEQUENCE", 166)
        ∷ [])

abbrev pub field_value_type_names : Map Text
field_value_type_names =
    map (λ (p : String × String). (codes p.0, codes p.1))
      (("nested_type", "NESTED_TYPE")
        ∷ ("int8", "INT8")
        ∷ ("uint8", "UINT8")
        ∷ ("int16", "INT16")
        ∷ ("uint16", "UINT16")
        ∷ ("int32", "INT32")
        ∷ ("uint32", "UINT32")
        ∷ ("int64", "INT64")
        ∷ ("uint64", "UINT64")
        ∷ ("float32", "FLOAT")
        ∷ ("float64", "DOUBLE")
        ∷ ("long", "LONG_DOUBLE")
        ∷ ("char", "CHAR")
        ∷ ("wchar", "WCHAR")
        ∷ ("bool", "BOOLEAN")
        ∷ ("octet", "BYTE")
        ∷ ("string", "STRING")
        ∷ ("wstring", "WSTRING")
        ∷ ("bounded_string", "BOUNDED_STRING")
        ∷ ("bounded_wstring", "BOUNDED_WSTRING")
        ∷ [])

abbrev pub core_name : Text → Text
core_name temp_field_type = elim (get temp_field_type field_value_type_names) [
  | some name ↦ name
  | none ↦ codes "NESTED_TYPE"
]

abbrev pub string_prefix : Option ℕ → Text
string_prefix (some n) = codes "BOUNDED_"
string_prefix none = []

abbrev pub array_suffix_name : ArrayType → Text
array_suffix_name (fixed_length n) = codes "_ARRAY"
array_suffix_name unbounded = codes "_UNBOUNDED_SEQUENCE"
array_suffix_name (bounded n) = codes "_BOUNDED_SEQUENCE"
array_suffix_name not_array = []

unfoldable pub get_field_type_string : FieldType → Text
get_field_type_string field_type =
    let temp_field_type =
      if text_eq field_type.field_type (codes "char")
      then codes "uint8"
      else field_type.field_type in
    codes "FIELD_TYPE_"
    ++ (string_prefix field_type.string_capacity
        ++ (core_name temp_field_type ++ array_suffix_name field_type.array_info))

unfoldable pub get_field_type_id : FieldType → Result NotFound ℕ
get_field_type_id field_type = elim (get (get_field_type_string field_type) field_type_name_to_id) [
  | some id ↦ ok id
  | none ↦ err not_found
]
