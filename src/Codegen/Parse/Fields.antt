-- ===== src/Codegen/Parse/Fields.antt =====
-- roslibrust_codegen/src/parse/mod.rs: the lines of an interface file.
use roslibrust.Base.{
  ℕ, ◌+◌, Bool, false, ◌&&◌, ◌||◌, Option, none, some, Text, codes, text_eq, starts_with, find,
  take, drop, ◌==◌, if◌then◌else◌, Result, ok, ◌>>=◌,
}
use roslibrust.Codegen.Strs.{is_whitespace, is_empty, trim_start, trim, has}
use roslibrust.Codegen.Types.{RosVersion, ros1, ros2, FieldInfo, ConstantInfo, Package}
use roslibrust.Codegen.Parse.{
  ParseError, no_field_type, no_field_name, no_separator, no_equal, ok_or, parse_type,
}

abbrev type_and_rest : Text → ℕ → Option (Text × Text)
type_and_rest line type_end =
    let remainder = trim_start (drop type_end line) in
    if is_empty remainder then none else some (take type_end line, remainder)

unfoldable pub split_type_from_line : Text → Option (Text × Text)
unfolding trim_start
split_type_from_line line = elim (find is_whitespace line) [
  | some type_end ↦ type_and_rest line type_end
  | none ↦ none
]

unfoldable pub parse_field_name_and_default : Text → Option (Text × Option Text)
parse_field_name_and_default remainder = elim (find is_whitespace remainder) [
  | some name_end ↦
      let default = trim (drop name_end remainder) in
      if is_empty default
      then some (take name_end remainder, none)
      else some (take name_end remainder, some default)
  | none ↦ some (remainder, none)
]

-- A default is kept for ROS 2 only.
abbrev pub default_for : Option RosVersion → Option Text → Option Text
default_for (some ros2) default = default
default_for (some ros1) default = none
default_for none default = none

unfoldable pub parse_field : Text → Package → Result ParseError FieldInfo
parse_field line pkg = do
  (field_type, remainder) ← ok_or (split_type_from_line line) no_field_type
  field_type ← parse_type field_type pkg
  (field_name, default) ← ok_or (parse_field_name_and_default remainder) no_field_name
  ok (record {
    field_type = field_type;
    field_name = field_name;
    default = default_for pkg.version default;
  })

unfoldable pub parse_constant_field : Text → Package → Result ParseError ConstantInfo
parse_constant_field line pkg = do
  (constant_type, remainder) ← ok_or (split_type_from_line line) no_separator
  equal ← ok_or (find (λ c. c == b'=') remainder) no_equal
  parsed ← parse_type constant_type pkg
  ok (record {
    constant_type = parsed.field_type;
    constant_name = trim (take equal remainder);
    constant_value = trim (drop (equal + 1) remainder);
  })

unfoldable pub strip_comments : Text → Text
strip_comments line = elim (find (λ c. c == b'#') line) [
  | some token ↦ take token line
  | none ↦ line
]

abbrev pub names_string : Text → Bool
names_string type_name =
    text_eq type_name (codes "string")
    || (text_eq type_name (codes "wstring")
        || (starts_with (codes "string<=") type_name || starts_with (codes "wstring<=") type_name))

unfoldable pub is_string_constant_line : Text → Bool
is_string_constant_line line = elim (split_type_from_line line) [
  | some (type_name, remainder) ↦ names_string type_name && has b'=' remainder
  | none ↦ false
]

unfoldable pub strip_comments_respecting_string_constants : Text → Text
unfolding is_string_constant_line strip_comments
strip_comments_respecting_string_constants line =
    if is_string_constant_line (trim_start line) then line else strip_comments line
