-- ===== src/Codegen/Parse.antt =====
-- roslibrust_codegen/src/parse/mod.rs and parse/msg.rs. An error is known by the place that gives it.
pub mod Display
pub mod RoundTrip
pub mod Fields
pub mod Files
pub mod Actions
pub mod ActionParts
pub mod Trimming
pub mod FieldLines
pub mod WholeFiles
pub mod Panics
pub mod Comments
use roslibrust.Base.{
  ℕ, zero, suc, ◌+◌, ◌-◌, ◌≡◌, Bool, true, false, not, ◌&&◌, ◌||◌, Option, none, some, List, [],
  ◌∷◌, ◌++◌, map, Text, String, codes, text_eq, member, starts_with, find, take, drop, length, ltb,
  ◌==◌, if◌then◌else◌, Result, ok, err, panic, diverge, ◌>>=◌, is_some,
}
use roslibrust.Codegen.Strs.{
  is_whitespace, is_empty, trim_start, trim, split, has, strip_prefix, parse_usize, lines,
}
use roslibrust.Codegen.Types.{
  RosVersion, ros1, ros2, ArrayType, not_array, fixed_length, bounded, unbounded, FieldType,
  FieldInfo, ConstantInfo, Package, ParsedMessageFile,
}

pub data ParseError : Type 0 where
  no_field_type no_field_name no_separator no_equal bad_capacity bad_size malformed_type
        invalid_line no_delimiter :
      ParseError

-- `o.ok_or(e)`
abbrev pub ok_or {ℓ} : {A : Type ℓ} → Option A → ParseError → Result ParseError A
ok_or none e = err e
ok_or (some a) e = ok a

abbrev pub primitive_types : List Text
primitive_types = map codes (
    "bool" ∷ "int8" ∷ "uint8" ∷ "byte" ∷ "char" ∷ "int16" ∷ "uint16" ∷ "int32" ∷ "uint32" ∷ "int64"
    ∷ "uint64" ∷ "float32" ∷ "float64" ∷ "string" ∷ "wstring" ∷ "time" ∷ "duration" ∷ [])

-- The keys of `ROS_TYPE_TO_RUST_TYPE_MAP`.
abbrev pub ros1_types : List Text
ros1_types = map codes (
    "bool" ∷ "int8" ∷ "uint8" ∷ "byte" ∷ "char" ∷ "int16" ∷ "uint16" ∷ "int32" ∷ "uint32" ∷ "int64"
    ∷ "uint64" ∷ "float32" ∷ "float64" ∷ "string" ∷ "time" ∷ "duration" ∷ [])

unfoldable pub is_intrinsic_type : RosVersion → Text → Bool
is_intrinsic_type ros1 ros_type = member ros_type ros1_types
is_intrinsic_type ros2 ros_type = member ros_type primitive_types

-- The capacity of a bounded string, and the type without it.
unfoldable pub parse_bounded_string : Text → Result ParseError (Text × Option ℕ)
parse_bounded_string type_str = elim (strip_prefix (codes "string<=") type_str) [
  | some stripped ↦ (do
    capacity ← ok_or (parse_usize stripped) bad_capacity
    ok (codes "string", some capacity))
  | none ↦ ok (type_str, none)
]

abbrev pub version_or_ros1 : Option RosVersion → RosVersion
version_or_ros1 none = ros1
version_or_ros1 (some v) = v

-- The package that a type without one belongs to.
abbrev pub local_package : Text → Text → Package → Option Text
local_package type_str field_type pkg =
    if is_intrinsic_type (version_or_ros1 pkg.version) field_type
    then none
    else if text_eq type_str (codes "Header")
    then some (codes "std_msgs")
    else some pkg.name

parse_items : Text → List Text → ArrayType → Package → Result ParseError FieldType
parse_items type_str (a ∷ []) array_info pkg = do
  (field_type, string_capacity) ← parse_bounded_string a
  ok (record {
    package_name = local_package type_str field_type pkg;
    source_package = pkg.name;
    field_type = field_type;
    array_info = array_info;
    string_capacity = string_capacity;
  })
parse_items type_str (a ∷ b ∷ _) array_info pkg = ok (record {
  package_name = some a;
  source_package = pkg.name;
  field_type = b;
  array_info = array_info;
  string_capacity = none;
})
parse_items type_str [] array_info pkg = panic

unfoldable pub parse_field_type : Text → ArrayType → Package → Result ParseError FieldType
unfolding parse_items split
parse_field_type type_str array_info pkg = parse_items type_str (split b'/' type_str) array_info pkg

-- What stands between the brackets, where that is not nothing.
unfoldable pub parse_array_size : Text → Result ParseError ArrayType
parse_array_size fixed_size_str =
    if starts_with (codes "<=") fixed_size_str
    then (do n ← ok_or (parse_usize (drop 2 fixed_size_str)) bad_size; ok (bounded n))
    else (do n ← ok_or (parse_usize fixed_size_str) bad_size; ok (fixed_length n))

-- A type with a bracket of each kind, at `o` and `c`. `c - o` on `usize`, or else the slice from
-- `o + 1` to `c`, panics where the closing bracket stands first.
parse_array_type : Text → ℕ → ℕ → Package → Result ParseError FieldType
parse_array_type type_str o c pkg =
    if ltb c o
    then panic
    else if c - o == 1
    then parse_field_type (take o type_str) unbounded pkg
    else (do
      array_info ← parse_array_size (drop (o + 1) (take c type_str))
      parse_field_type (take o type_str) array_info pkg)

parse_brackets : Text → Option ℕ → Option ℕ → Package → Result ParseError FieldType
parse_brackets type_str (some o) (some c) pkg = parse_array_type type_str o c pkg
parse_brackets type_str none none pkg = parse_field_type type_str not_array pkg
parse_brackets type_str _ _ pkg = err malformed_type

unfoldable pub parse_type : Text → Package → Result ParseError FieldType
unfolding parse_brackets parse_array_type
parse_type type_str pkg =
    parse_brackets type_str (find (λ c. c == b'[') type_str) (find (λ c. c == b']') type_str) pkg
