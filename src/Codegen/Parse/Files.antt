-- ===== src/Codegen/Parse/Files.antt =====
-- roslibrust_codegen/src/parse/msg.rs and parse/srv.rs.
use roslibrust.Base.{
  ℕ, suc, ◌+◌, Bool, true, false, Option, none, some, List, [], ◌∷◌, ◌++◌, Text, codes, find, take,
  drop, ltb, ◌==◌, if◌then◌else◌, Result, ok, ◌>>=◌,
}
use roslibrust.Codegen.Strs.{is_empty, trim, has, find_str, lines}
use roslibrust.Codegen.Types.{
  FieldInfo, ConstantInfo, Package, ParsedMessageFile, ParsedServiceFile,
}
use roslibrust.Codegen.Parse.{ParseError, invalid_line, no_delimiter, ok_or}
use roslibrust.Codegen.Parse.Fields.{
  split_type_from_line, parse_field, parse_constant_field,
  strip_comments_respecting_string_constants,
}

-- One line, with the fields and the constants so far.
unfoldable pub parse_line :
    Package
    → Text
    → List FieldInfo
    → List ConstantInfo
    → Result ParseError (List FieldInfo × List ConstantInfo)
parse_line pkg raw fields constants =
    let line = trim (strip_comments_respecting_string_constants raw) in
    if is_empty line then ok (fields, constants) else (do
      (_, remainder) ← ok_or (split_type_from_line line) invalid_line
      if has b'=' remainder
          then (do
            constant ← parse_constant_field line pkg
            ok (fields, constants ++ (constant ∷ [])))
          else (do field ← parse_field line pkg; ok (fields ++ (field ∷ []), constants)))

unfoldable pub parse_lines :
    Package
    → List Text
    → List FieldInfo
    → List ConstantInfo
    → Result ParseError (List FieldInfo × List ConstantInfo)
parse_lines pkg [] fields constants = ok (fields, constants)
parse_lines pkg (line ∷ rest) fields constants = do
  (fields, constants) ← parse_line pkg line fields constants
  parse_lines pkg rest fields constants

unfoldable pub parse_ros_message_file : Text → Text → Package → Result ParseError ParsedMessageFile
parse_ros_message_file data_text name pkg = do
  (fields, constants) ← parse_lines pkg (lines data_text) [] []
  ok (record {
    name = name;
    package_name = pkg.name;
    fields = fields;
    constants = constants;
    version = pkg.version;
    source = data_text;
    path_parent = pkg.path_parent;
  })

-- Whether a line has the delimiter in front of any comment.
unfoldable pub is_delimiter : Text → Bool
is_delimiter line = elim (find_str (codes "---") line) [
  | some dash_idx ↦ elim (find (λ c. c == b'#') line) [
    | some cmt_idx ↦ ltb dash_idx cmt_idx
    | none ↦ true
  ]
  | none ↦ false
]

unfoldable pub dash_line_number : List Text → ℕ → Option ℕ
dash_line_number [] line_num = none
dash_line_number (line ∷ rest) line_num =
    let found = dash_line_number rest (suc line_num) in
    if is_delimiter line then some line_num else found

-- The fold with `str_accumulator`.
unfoldable pub join_lines : List Text → Text
join_lines [] = []
join_lines (line ∷ rest) = line ++ (10 ∷ join_lines rest)

unfoldable pub parse_ros_service_file : Text → Text → Package → Result ParseError ParsedServiceFile
parse_ros_service_file data_text name pkg = do
  dash ← ok_or (dash_line_number (lines data_text) 0) no_delimiter
  request_type ←
      parse_ros_message_file (join_lines (take dash (lines data_text))) (name ++ codes "Request")
        pkg
  response_type ←
      parse_ros_message_file (join_lines (drop (dash + 1) (lines data_text)))
        (name ++ codes "Response") pkg
  ok (record {
    name = name;
    package_name = pkg.name;
    request_type = request_type;
    response_type = response_type;
    source = data_text;
    path_parent = pkg.path_parent;
  })
