-- ===== src/Codegen/Parse/WholeFiles.antt =====
-- Message files made of field lines, and service files made of two lists of lines.
use roslibrust.Base.{
  ℕ, suc, ◌+◌, ◌≡◌, refl, ap, sym, ◌∙◌, true, false, some, List, [], ◌∷◌, ◌++◌, append_assoc,
  append-nil, map, Text, All, length, take, take-append, drop-past, drop, ok, arith, Result, ◌>>=◌,
  bind_assoc, bind_ext, ◌==◌, codes,
}
use roslibrust.Codegen.Strs.{strip_cr, lines_from, lines}
use roslibrust.Codegen.Types.{FieldInfo, ConstantInfo, Package}
use roslibrust.Codegen.Lacks.{Lacks}
use roslibrust.Codegen.Parse.{ParseError}
use roslibrust.Codegen.Parse.Files.{
  parse_lines, parse_ros_message_file, parse_ros_service_file, join_lines, is_delimiter,
  dash_line_number,
}
use roslibrust.Codegen.Parse.FieldLines.{
  FieldLine, IsFieldLine, written, field_of, parse_line-written,
}

-- A text that can be one line of a file: no line feed, and no carriage return at its end.
abbrev pub IsLine : Text → Type 0
IsLine s = Lacks (λ c. c == 10) s × (strip_cr s ≡ s)

lines_from-line :
    (current s rest : Text)
    → Lacks (λ c. c == 10) s
    → lines_from current (s ++ (10 ∷ rest)) ≡ strip_cr (current ++ s) ∷ lines_from [] rest
unfolding lines_from
lines_from-line current [] rest h =
    ap (λ t. strip_cr t ∷ lines_from [] rest) (sym (append-nil current))
lines_from-line current (x ∷ xs) rest h =
    rw (h.0, lines_from)
      (lines_from-line (current ++ (x ∷ [])) xs rest h.1
        ∙ ap (λ t. strip_cr t ∷ lines_from [] rest) (append_assoc current (x ∷ []) xs))

pub lines-join_lines : (ls : List Text) → All IsLine ls → lines (join_lines ls) ≡ ls
unfolding lines lines_from join_lines
lines-join_lines [] h = refl
lines-join_lines (l ∷ ls) h =
    lines_from-line [] l (join_lines ls) h.0.0 ∙ rw (h.0.1, lines-join_lines ls h.1) refl

-- The fields of some lines, or the first error.
abbrev pub fields_of : Package → List FieldLine → Result ParseError (List FieldInfo)
fields_of pkg [] = ok []
fields_of pkg (l ∷ ls) = do field ← field_of pkg l; fields ← fields_of pkg ls; ok (field ∷ fields)

parse_lines-written :
    (pkg : Package) (ls : List FieldLine) (fields : List FieldInfo) (constants : List ConstantInfo)
    → All IsFieldLine ls
    → parse_lines pkg (map written ls) fields constants
      ≡ (do more ← fields_of pkg ls; ok (fields ++ more, constants))
unfolding parse_lines
parse_lines-written pkg [] fields constants h =
    ap (λ t. ok (t, constants)) (sym (append-nil fields))
parse_lines-written pkg (l ∷ ls) fields constants h =
    rw (parse_line-written pkg l fields constants h.0) (
      bind_assoc (field_of pkg l) _ _
      ∙ bind_ext (field_of pkg l) (λ field.
        parse_lines-written pkg ls (fields ++ (field ∷ [])) constants h.1
        ∙ bind_ext (fields_of pkg ls)
            (λ more. ap (λ t. ok (t, constants)) (append_assoc fields (field ∷ []) more))
        ∙ sym (bind_assoc (fields_of pkg ls) _ _))
      ∙ sym (bind_assoc (field_of pkg l) _ _))

-- A message file of field lines is parsed to the fields of its lines in order, whatever space and
-- comments are around them, and to the first error of a type if there is one.
pub parse_ros_message_file-written :
    (ls : List FieldLine) (name : Text) (pkg : Package)
    → All IsFieldLine ls
    → All IsLine (map written ls)
    → parse_ros_message_file (join_lines (map written ls)) name pkg ≡ (do
      fields ← fields_of pkg ls
      ok (record {
        name = name;
        package_name = pkg.name;
        fields = fields;
        constants = [];
        version = pkg.version;
        source = join_lines (map written ls);
        path_parent = pkg.path_parent;
      }))
unfolding parse_ros_message_file
parse_ros_message_file-written ls name pkg h hl =
    rw (lines-join_lines (map written ls) hl)
      (rw (parse_lines-written pkg ls [] [] h) (bind_assoc (fields_of pkg ls) _ _))

dash_line_number-found :
    (request : List Text) (dash : Text) (response : List Text) (n : ℕ)
    → All (λ l. is_delimiter l ≡ false) request
    → is_delimiter dash ≡ true
    → dash_line_number (request ++ (dash ∷ response)) n ≡ some (length request + n)
unfolding dash_line_number
dash_line_number-found [] dash response n h hd = rw hd (ap some (omega arith))
dash_line_number-found (l ∷ ls) dash response n h hd =
    rw (h.0) (dash_line_number-found ls dash response (suc n) h.1 hd ∙ ap some (omega arith))

-- A service file is cut at its first delimiter line, and its two parts are parsed as message files.
pub parse_ros_service_file-cut :
    (request : List Text) (dash : Text) (response : List Text) (name : Text) (pkg : Package)
    → All IsLine (request ++ (dash ∷ response))
    → All (λ l. is_delimiter l ≡ false) request
    → is_delimiter dash ≡ true
    → parse_ros_service_file (join_lines (request ++ (dash ∷ response))) name pkg ≡ (do
      request_type ← parse_ros_message_file (join_lines request) (name ++ codes "Request") pkg
      response_type ← parse_ros_message_file (join_lines response) (name ++ codes "Response") pkg
      ok (record {
        name = name;
        package_name = pkg.name;
        request_type = request_type;
        response_type = response_type;
        source = join_lines (request ++ (dash ∷ response));
        path_parent = pkg.path_parent;
      }))
unfolding parse_ros_service_file
parse_ros_service_file-cut request dash response name pkg hl h hd =
    rw (lines-join_lines (request ++ (dash ∷ response)) hl)
      (rw (dash_line_number-found request dash response 0 h hd) (rw (take_front, drop_behind) refl))
  where
    n : length request + 0 ≡ length request
    n = omega arith

    take_front : take (length request + 0) (request ++ (dash ∷ response)) ≡ request
    take_front = ap (λ k. take k (request ++ (dash ∷ response))) n ∙ take-append request _

    n' : length request + 0 + 1 ≡ suc (length request)
    n' = omega arith

    drop_behind : drop (length request + 0 + 1) (request ++ (dash ∷ response)) ≡ response
    drop_behind =
        ap (λ k. drop k (request ++ (dash ∷ response))) n' ∙ drop-past request dash response
