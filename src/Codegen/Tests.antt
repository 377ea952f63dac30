-- ===== src/Codegen/Tests.antt =====
-- The interface file parser at concrete inputs.
use roslibrust.Base.{
  ◌≡◌, refl, true, false, not, none, some, List, [], ◌∷◌, ◌++◌, map, Text, codes, ok, panic, ◌>>=◌,
  all, ◌==◌, arith,
}
use roslibrust.Codegen.Strs.{is_whitespace, is_empty, split, parse_usize}
use roslibrust.Codegen.Types.{ros1, ArrayType, fixed_length, bounded, unbounded, FieldType, Package}
use roslibrust.Codegen.Lacks.{Lacks-of}
use roslibrust.Codegen.Parse.{
  parse_type, parse_field_type, parse_array_size, parse_bounded_string, is_intrinsic_type,
  local_package,
}
use roslibrust.Codegen.Parse.Display.{display}
use roslibrust.Codegen.Parse.RoundTrip.{parse_type-display, IsPlain}
use roslibrust.Codegen.Parse.Panics.{parse_type_panics_iff, ClosesFirst}
use roslibrust.Codegen.Parse.Files.{parse_ros_message_file, join_lines}
use roslibrust.Codegen.Parse.Trimming.{IsWord}
use roslibrust.Codegen.Parse.FieldLines.{FieldLine, IsFieldLine, written}
use roslibrust.Codegen.Parse.WholeFiles.{fields_of, parse_ros_message_file-written}

abbrev test_pkg : Package
test_pkg = record { path_parent = some (codes "msg"); name = codes "test_pkg"; version = some ros1 }

abbrev int32_array : ArrayType → FieldType
int32_array a = record {
  package_name = none;
  source_package = codes "test_pkg";
  field_type = codes "int32";
  array_info = a;
  string_capacity = none;
}

fixed_size : parse_type (codes "int32[9]") test_pkg ≡ ok (int32_array (fixed_length 9))
unfolding parse_type parse_field_type parse_array_size parse_bounded_string is_intrinsic_type
    parse_usize split
fixed_size = refl

bounded_size : parse_type (codes "int32[<=9]") test_pkg ≡ ok (int32_array (bounded 9))
unfolding parse_type parse_field_type parse_array_size parse_bounded_string is_intrinsic_type
    parse_usize split
bounded_size = refl

unbounded_size : parse_type (codes "int32[]") test_pkg ≡ ok (int32_array unbounded)
unfolding parse_type parse_field_type parse_bounded_string is_intrinsic_type split
unbounded_size = refl

abbrev point : FieldType
point = record {
  package_name = none;
  source_package = codes "nav";
  field_type = codes "Point";
  array_info = bounded 12;
  string_capacity = some 3;
}

point-IsPlain : IsPlain (codes "Point")
point-IsPlain = record {
  no_open = Lacks-of (λ c. c == b'[') (codes "Point") refl;
  no_close = Lacks-of (λ c. c == b']') (codes "Point") refl;
  no_slash = Lacks-of (λ c. c == b'/') (codes "Point") refl;
}

geometry-IsPlain : IsPlain (codes "geometry_msgs")
geometry-IsPlain = record {
  no_open = Lacks-of (λ c. c == b'[') (codes "geometry_msgs") refl;
  no_close = Lacks-of (λ c. c == b']') (codes "geometry_msgs") refl;
  no_slash = Lacks-of (λ c. c == b'/') (codes "geometry_msgs") refl;
}

parse_type-display_example :
    (parse_type (display point) test_pkg
      ≡ ok (record point {
        package_name = local_package (codes "Point") (codes "Point") test_pkg;
        source_package = codes "test_pkg";
        string_capacity = none;
      }))
    × (parse_type (codes "geometry_msgs" ++ (b'/' ∷ display point)) test_pkg
        ≡ ok (record point {
          package_name = some (codes "geometry_msgs");
          source_package = codes "test_pkg";
          string_capacity = none;
        }))
parse_type-display_example =
    parse_type-display point (codes "geometry_msgs") test_pkg point-IsPlain geometry-IsPlain refl
      (omega arith)

parse_type_panics_iff_example :
    (parse_type (codes "a]b[") test_pkg ≡ panic → ClosesFirst (codes "a]b["))
    × (ClosesFirst (codes "a]b[") → parse_type (codes "a]b[") test_pkg ≡ panic)
parse_type_panics_iff_example = parse_type_panics_iff (codes "a]b[") test_pkg

abbrev word : (s : Text) → is_empty s ≡ false → all (λ c. not (is_whitespace c)) s ≡ true → IsWord s
word s h h' = record { not_empty = h; no_space = Lacks-of is_whitespace s h' }

name-IsWord : IsWord (codes "name")
unfolding is_whitespace
name-IsWord = word (codes "name") refl refl

value-IsWord : IsWord (codes "42")
unfolding is_whitespace
value-IsWord = word (codes "42") refl refl

abbrev first_line : FieldLine
first_line = record {
  indent = [];
  type_str = codes "int32[9]";
  separator = b' ';
  gap = b' ' ∷ [];
  name = codes "cells";
  trailing = b' ' ∷ [];
  comment = codes "# nine = 9";
}

abbrev second_line : FieldLine
second_line = record {
  indent = b' ' ∷ [];
  type_str = codes "string";
  separator = b' ';
  gap = [];
  name = codes "name";
  trailing = [];
  comment = [];
}

first_line-IsFieldLine : IsFieldLine first_line
unfolding is_whitespace
first_line-IsFieldLine = record {
  indented = tt;
  typed = word (codes "int32[9]") refl refl;
  type_hash = Lacks-of (λ c. c == b'#') (codes "int32[9]") refl;
  separated = (refl, (refl, tt));
  named = word (codes "cells") refl refl;
  name_hash = Lacks-of (λ c. c == b'#') (codes "cells") refl;
  name_equal = Lacks-of (λ c. c == b'=') (codes "cells") refl;
  trailed = (refl, tt);
  commented = refl;
  not_constant = refl;
}

second_line-IsFieldLine : IsFieldLine second_line
unfolding is_whitespace
second_line-IsFieldLine = record {
  indented = (refl, tt);
  typed = word (codes "string") refl refl;
  type_hash = Lacks-of (λ c. c == b'#') (codes "string") refl;
  separated = (refl, tt);
  named = word (codes "name") refl refl;
  name_hash = Lacks-of (λ c. c == b'#') (codes "name") refl;
  name_equal = Lacks-of (λ c. c == b'=') (codes "name") refl;
  trailed = tt;
  commented = tt;
  not_constant = refl;
}

abbrev test_lines : List FieldLine
test_lines = first_line ∷ (second_line ∷ [])

parse_ros_message_file-written_example :
    parse_ros_message_file (join_lines (map written test_lines)) (codes "Cells") test_pkg ≡ (do
      fields ← fields_of test_pkg test_lines
      ok (record {
        name = codes "Cells";
        package_name = codes "test_pkg";
        fields = fields;
        constants = [];
        version = some ros1;
        source = join_lines (map written test_lines);
        path_parent = some (codes "msg");
      }))
parse_ros_message_file-written_example =
    parse_ros_message_file-written test_lines (codes "Cells") test_pkg
      (first_line-IsFieldLine, (second_line-IsFieldLine, tt))
      (
        (Lacks-of (λ c. c == 10) (written first_line) refl, refl),
        ((Lacks-of (λ c. c == 10) (written second_line) refl, refl), tt),
      )

abbrev request_lines : List Text
request_lines = codes "int64 a # --- no" ∷ (codes "int64 b" ∷ [])

abbrev response_lines : List Text
response_lines = codes "int64 sum" ∷ []

abbrev feedback_lines : List Text
feedback_lines = codes "float32 part" ∷ []
