-- ===== src/Codegen/Ros2Hashing.antt =====
-- roslibrust_codegen/src/ros2_hashing.rs: the descriptions of messages and services that are hashed
-- for ROS 2. The recursion through the fields runs on fuel.
use roslibrust.Base.{
  ℕ, zero, suc, ◌%◌, ◌^◌, Bool, true, false, Option, none, some, List, [], ◌∷◌, ◌++◌, any, length,
  drop, Text, codes, text_eq, Map, get, insert, if◌then◌else◌, ◌-◌, ltb, Result, ok, err, panic,
  diverge, ◌>>=◌,
}
use roslibrust.Codegen.Types.{
  ros2, ArrayType, not_array, fixed_length, bounded, FieldInfo, ParsedMessageFile,
  ParsedServiceFile,
}
use roslibrust.Codegen.TypeIds.{NotFound, get_field_type_id}
use roslibrust.Codegen.MessageGraph.{
  Field, TypeDescription, TypeDescriptionMsg, MessageFile, Graph, is_primitive, in_package,
  or_source, get_full_type_name, or_not_found,
}

-- `ParsedMessageFile::get_ros2_full_name`, whose `expect`s panic without the name of a folder.
unfoldable pub get_ros2_full_name : ParsedMessageFile → Result NotFound Text
get_ros2_full_name m = elim m.path_parent [
  | none ↦ panic
  | some parent ↦ ok (in_package m.package_name (in_package parent m.name))
]

-- `FieldInfo::get_ros2_full_type_name`
abbrev pub get_ros2_full_type_name : FieldInfo → Text
get_ros2_full_type_name f =
    in_package (or_source f.field_type.source_package f.field_type.package_name)
      (in_package (codes "msg") f.field_type.field_type)

abbrev ends_with : Text → Text → Bool
ends_with suffix s =
    if ltb (length s) (length suffix)
    then false
    else text_eq (drop (length s - length suffix) s) suffix

abbrev special_suffix : List Text
special_suffix = codes "_Request" ∷ codes "_Response" ∷ codes "_Event" ∷ []

abbrev pub nested_type_name_of : Bool → FieldInfo → Text
nested_type_name_of service_naming f =
    if is_primitive f.field_type
    then []
    else if service_naming
    then (if any (λ s. ends_with s f.field_type.field_type) special_suffix
        then in_package f.field_type.source_package
            (in_package (codes "srv") f.field_type.field_type)
        else get_ros2_full_type_name f)
    else get_ros2_full_type_name f

-- The casts to `u32`.
abbrev pub capacity_of : ArrayType → ℕ
capacity_of (bounded size) = size % 2 ^ 32
capacity_of (fixed_length size) = size % 2 ^ 32
capacity_of _ = 0

abbrev string_capacity_of : Option ℕ → ℕ
string_capacity_of none = 0
string_capacity_of (some n) = n % 2 ^ 32

-- An insert into a `BTreeMap`, whose entries are in the order of their names.
abbrev pub before : Text → Text → Bool
before [] [] = false
before [] (y ∷ ys) = true
before (x ∷ xs) [] = false
before (x ∷ xs) (y ∷ ys) = if ltb x y then true else if ltb y x then false else before xs ys

abbrev pub insert_description : TypeDescription → Map TypeDescription → Map TypeDescription
insert_description d [] = (d.type_name, d) ∷ []
insert_description d ((name, e) ∷ m) =
    let rest = insert_description d m in
    if text_eq name d.type_name
    then (name, d) ∷ m
    else if before d.type_name name
    then (d.type_name, d) ∷ ((name, e) ∷ m)
    else (name, e) ∷ rest

abbrev pub insert_descriptions : Map TypeDescription → Map TypeDescription → Map TypeDescription
insert_descriptions [] m = m
insert_descriptions ((name, d) ∷ ds) m = insert_descriptions ds (insert_description d m)

-- The loop over the fields, with the call for a message.
unfoldable pub describe_fields :
    (ParsedMessageFile → Result NotFound TypeDescriptionMsg)
    → Bool
    → List FieldInfo
    → Graph
    → List Field
    → Map TypeDescription
    → Result NotFound (List Field × Map TypeDescription)
describe_fields sub service_naming [] g fields referenced = ok (fields, referenced)
describe_fields sub service_naming (f ∷ rest) g fields referenced = do
  type_id ← get_field_type_id f.field_type
  referenced ← if is_primitive f.field_type then ok referenced else (do
    sub_message ← or_not_found (get (get_full_type_name f) g)
    description ← sub sub_message.parsed
    ok (
        insert_description description.type_description
          (insert_descriptions description.referenced_type_descriptions referenced)))
  describe_fields sub service_naming rest g
      (fields
        ++ (record {
          name = f.field_name;
          field_type = record {
            type_id = type_id;
            capacity = capacity_of f.field_type.array_info;
            string_capacity = string_capacity_of f.field_type.string_capacity;
            nested_type_name = nested_type_name_of service_naming f;
          };
        }
            ∷ []))
      referenced

-- What a message without fields has.
abbrev pub first_fields : List FieldInfo → List Field
first_fields [] =
    record {
      name = codes "structure_needs_at_least_one_member";
      field_type = record { type_id = 3; capacity = 0; string_capacity = 0; nested_type_name = [] };
    }
    ∷ []
first_fields (f ∷ fields) = []

unfoldable pub convert_to_type_description :
    ℕ → ParsedMessageFile → Graph → Bool → Result NotFound TypeDescriptionMsg
convert_to_type_description zero parsed g service_naming = diverge
convert_to_type_description (suc n) parsed g service_naming = do
  (fields, referenced) ←
      describe_fields (λ p. convert_to_type_description n p g true) service_naming parsed.fields g
        (first_fields parsed.fields) []
  type_name ← get_ros2_full_name parsed
  ok (record {
    type_description = record { type_name = type_name; fields = fields };
    referenced_type_descriptions = referenced;
  })

abbrev pub described : {A : Type 0} → Result NotFound A → Result NotFound A
described (ok a) = ok a
described (err e) = panic
described panic = panic
described diverge = diverge

unfoldable pub calculate_ros2_hash :
    ℕ → ParsedMessageFile → Graph → Result NotFound TypeDescriptionMsg
calculate_ros2_hash fuel parsed g = described (convert_to_type_description fuel parsed g false)

abbrev virtual_field : Text → Text → Text → ArrayType → FieldInfo
virtual_field name pkg ty array_info = record {
  field_type = record {
    package_name = some pkg;
    source_package = pkg;
    field_type = ty;
    array_info = array_info;
    string_capacity = none;
  };
  field_name = name;
  default = none;
}

-- The entries for the service's own types, with dummies.
abbrev virtual_file : ParsedMessageFile → MessageFile
virtual_file parsed = record {
  parsed = parsed;
  md5sum = [];
  ros2_hash = record {
    type_description = record { type_name = []; fields = [] };
    referenced_type_descriptions = [];
  };
  definition = [];
  is_fixed_encoding_length = true;
}

abbrev pub virtual_message : ParsedServiceFile → Text → List FieldInfo → ParsedMessageFile
virtual_message parsed name fields = record {
  name = name;
  package_name = parsed.package_name;
  fields = fields;
  constants = [];
  version = some ros2;
  source = [];
  path_parent = parsed.path_parent;
}

-- The service refers to its event, and that to the request and the response: three levels more than
-- a message of the graph.
unfoldable pub calculate_ros2_srv_hash :
    ℕ → ParsedServiceFile → Graph → Result NotFound TypeDescriptionMsg
calculate_ros2_srv_hash fuel parsed g =
    let request_type = parsed.name ++ codes "_Request" in
    let response_type = parsed.name ++ codes "_Response" in
    let event_type = parsed.name ++ codes "_Event" in
    let full_name = in_package parsed.package_name parsed.name in
    let event = virtual_message parsed event_type (
      virtual_field (codes "info") (codes "service_msgs") (codes "ServiceEventInfo") not_array
      ∷ (virtual_field (codes "request") parsed.package_name request_type (bounded 1)
          ∷ (virtual_field (codes "response") parsed.package_name response_type (bounded 1)
              ∷ []))) in
    let total = virtual_message parsed parsed.name (
      virtual_field (codes "request_message") parsed.package_name request_type not_array
      ∷ (virtual_field (codes "response_message") parsed.package_name response_type not_array
          ∷ (virtual_field (codes "event_message") parsed.package_name event_type not_array
              ∷ []))) in
    let graph_copy =
      insert (full_name ++ codes "_Response")
        (virtual_file (record parsed.response_type { name = response_type }))
        (insert (full_name ++ codes "_Request")
          (virtual_file (record parsed.request_type { name = request_type }))
          (insert (full_name ++ codes "_Event") (virtual_file event) g)) in
    described (convert_to_type_description (suc (suc (suc fuel))) total graph_copy true)
