-- ===== src/Codegen/Messages.antt =====
-- `MessageFile` of roslibrust_codegen/src/lib.rs: what is computed of a message from the messages
-- that its fields refer to. The recursion through the fields runs on fuel.
-- MD5 is a parameter: the hexadecimal digest of a string.
pub mod Depth
pub mod Described
pub mod Results
use roslibrust.Base.{
  ℕ, zero, suc, ◌+◌, Bool, true, false, not, ◌&&◌, ◌||◌, Option, none, some, List, [], ◌∷◌, ◌++◌,
  Text, String, codes, text_eq, Map, get, contains_key, member, if◌then◌else◌, ltb, ◌==◌, Result,
  ok, err, panic, diverge, ◌>>=◌,
}
use roslibrust.Codegen.Strs.{trim, trim_end}
use roslibrust.Codegen.Types.{
  RosVersion, ArrayType, not_array, fixed_length, bounded, unbounded, FieldType, FieldInfo,
  ConstantInfo, ParsedMessageFile, ParsedServiceFile,
}
use roslibrust.Codegen.Parse.{primitive_types, is_intrinsic_type, version_or_ros1}
use roslibrust.Codegen.Parse.Display.{display}
pub use roslibrust.Codegen.TypeIds.{NotFound, not_found}
pub use roslibrust.Codegen.MessageGraph.{
  MessageFile, Graph, is_primitive, in_package, or_source, get_full_type_name, get_full_name,
  or_not_found,
}
use roslibrust.Codegen.Ros2Hashing.{calculate_ros2_hash}

-- The loop of `determine_if_fixed_length` over the fields, with the call for a message.
abbrev pub is_dynamic_array : ArrayType → Bool
is_dynamic_array unbounded = true
is_dynamic_array (bounded n) = true
is_dynamic_array _ = false

abbrev pub is_fixed_field :
    (ParsedMessageFile → Result NotFound Bool) → FieldInfo → Graph → Result NotFound Bool
is_fixed_field sub f g =
    if is_dynamic_array f.field_type.array_info then ok false else elim f.field_type.package_name [
      | none ↦ ok (not (text_eq f.field_type.field_type (codes "string")))
      | some pkg ↦ (do
        field_msg ← or_not_found (get (get_full_type_name f) g)
        sub field_msg.parsed)
    ]

unfoldable pub are_fixed_fields :
    (ParsedMessageFile → Result NotFound Bool) → List FieldInfo → Graph → Result NotFound Bool
are_fixed_fields sub [] g = ok true
are_fixed_fields sub (f ∷ fields) g = do
  is_fixed ← is_fixed_field sub f g
  if is_fixed then are_fixed_fields sub fields g else ok false

unfoldable pub determine_if_fixed_length : ℕ → ParsedMessageFile → Graph → Result NotFound Bool
determine_if_fixed_length zero parsed g = diverge
determine_if_fixed_length (suc n) parsed g =
    are_fixed_fields (λ p. determine_if_fixed_length n p g) parsed.fields g

-- The strings of a `BTreeSet`, in their order.
abbrev pub text_less : Text → Text → Bool
text_less [] [] = false
text_less [] (y ∷ ys) = true
text_less (x ∷ xs) [] = false
text_less (x ∷ xs) (y ∷ ys) = ltb x y || (x == y && text_less xs ys)

abbrev pub set_insert : Text → List Text → List Text
set_insert s [] = s ∷ []
set_insert s (t ∷ ts) =
    let rest = set_insert s ts in
    if text_eq t s then t ∷ ts else if text_less s t then s ∷ (t ∷ ts) else t ∷ rest

abbrev pub set_append : List Text → List Text → List Text
set_append [] set = set
set_append (s ∷ ss) set = set_append ss (set_insert s set)

unfoldable pub unique_field_types :
    (ParsedMessageFile → Result NotFound (List Text))
    → RosVersion
    → List FieldInfo
    → Graph
    → List Text
    → Result NotFound (List Text)
unique_field_types sub version [] g set = ok set
unique_field_types sub version (f ∷ fields) g set = do
  set ← if is_intrinsic_type version f.field_type.field_type then ok set else (do
    sub_message ← or_not_found (get (get_full_type_name f) g)
    sub_deps ← sub sub_message.parsed
    ok (set_append sub_deps (set_insert (get_full_type_name f) set)))
  unique_field_types sub version fields g set

unfoldable pub get_unique_field_types : ℕ → ParsedMessageFile → Graph → Result NotFound (List Text)
get_unique_field_types zero parsed g = diverge
get_unique_field_types (suc n) parsed g =
    unique_field_types (λ p. get_unique_field_types n p g) (version_or_ros1 parsed.version)
      parsed.fields g []

abbrev newline : Text
newline = codes "\n"

abbrev separator : Text
separator =
    codes "================================================================================\n"

unfoldable pub definitions_of : List Text → Graph → Text → Result NotFound Text
definitions_of [] g content = ok content
definitions_of (name ∷ names) g content = do
  sub_message ← or_not_found (get name g)
  definitions_of names g (
      content
      ++ (separator
          ++ (codes "MSG: "
              ++ (get_full_name sub_message.parsed
                  ++ (newline ++ (trim sub_message.definition ++ newline))))))

-- `String::pop`
abbrev pop : Text → Text
pop [] = []
pop (c ∷ []) = []
pop (c ∷ s) = c ∷ pop s

unfoldable pub compute_full_definition : ℕ → ParsedMessageFile → Graph → Result NotFound Text
compute_full_definition fuel parsed g = do
  names ← get_unique_field_types fuel parsed g
  content ← definitions_of names g (trim parsed.source ++ newline)
  ok (pop content)

abbrev pub constant_lines : List ConstantInfo → Text
constant_lines [] = []
constant_lines (c ∷ cs) =
    c.constant_type
    ++ (codes " "
        ++ (c.constant_name ++ (codes "=" ++ (c.constant_value ++ (newline ++ constant_lines cs)))))

module _ (md5 : Text → Text) where
  abbrev pub md5_field :
      (ParsedMessageFile → Result NotFound Text)
      → RosVersion
      → FieldInfo
      → Graph
      → Result NotFound Text
  md5_field sub version f g =
      if is_intrinsic_type version f.field_type.field_type
      then ok (display f.field_type ++ (codes " " ++ (f.field_name ++ newline)))
      else elim f.field_type.package_name [
        | none ↦ panic
        | some pkg ↦ (do
          sub_message ← or_not_found (get (in_package pkg f.field_type.field_type) g)
          content ← sub sub_message.parsed
          ok (md5 (trim_end content) ++ (codes " " ++ (f.field_name ++ newline))))
      ]

  unfoldable pub md5_fields :
      (ParsedMessageFile → Result NotFound Text)
      → RosVersion
      → List FieldInfo
      → Graph
      → Result NotFound Text
  md5_fields sub version [] g = ok []
  md5_fields sub version (f ∷ fields) g = do
    line ← md5_field sub version f g
    rest ← md5_fields sub version fields g
    ok (line ++ rest)

  -- `_compute_md5sum`
  unfoldable pub md5sum_content : ℕ → ParsedMessageFile → Graph → Result NotFound Text
  md5sum_content zero parsed g = diverge
  md5sum_content (suc n) parsed g = do
    fields ← md5_fields (λ p. md5sum_content n p g) (version_or_ros1 parsed.version) parsed.fields g
    ok (constant_lines parsed.constants ++ fields)

  unfoldable pub compute_md5sum : ℕ → ParsedMessageFile → Graph → Result NotFound Text
  compute_md5sum fuel parsed g = do
    content ← md5sum_content fuel parsed g
    ok (md5 (trim_end content))

  -- `MessageFile::resolve`
  unfoldable pub resolve : ℕ → ParsedMessageFile → Graph → Result NotFound MessageFile
  resolve fuel parsed g = do
    md5sum ← compute_md5sum fuel parsed g
    ros2_hash ← calculate_ros2_hash fuel parsed g
    definition ← compute_full_definition fuel parsed g
    is_fixed_length ← determine_if_fixed_length fuel parsed g
    ok (record {
      parsed = parsed;
      md5sum = md5sum;
      ros2_hash = ros2_hash;
      definition = definition;
      is_fixed_encoding_length = is_fixed_length;
    })
