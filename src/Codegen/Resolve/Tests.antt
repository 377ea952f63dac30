-- ===== src/Codegen/Resolve/Tests.antt =====
-- The resolution of concrete messages.
use roslibrust.Base.{
  map, ◌>>=◌, ℕ, ◌≡◌, refl, none, some, List, [], ◌∷◌, All, Text, codes, text_eq, get, insert, ok,
  diverge, panic, panic, arith, inl, inr, if◌then◌else◌,
}
use roslibrust.Codegen.Strs.{trim, trim_end}
use roslibrust.Codegen.Types.{not_array, FieldInfo, ParsedMessageFile}
use roslibrust.Codegen.Parse.{is_intrinsic_type}
use roslibrust.Codegen.TypeIds.{get_field_type_id, get_field_type_string}
use roslibrust.Codegen.Ros2Hashing.{
  calculate_ros2_hash, convert_to_type_description, describe_fields, get_ros2_full_name,
}
use roslibrust.Codegen.Messages.{
  Graph, resolve, md5sum_content, md5_fields, compute_md5sum, compute_full_definition,
  get_unique_field_types, unique_field_types, definitions_of, determine_if_fixed_length,
  are_fixed_fields,
}
use roslibrust.Codegen.Resolve.{
  in_order, sort_services, resolve_services, resolve_dependency_graph, unresolved, visit,
  resolve_messages, resolve_all,
}
use roslibrust.Codegen.Resolve.Growth.{Extends, IsClosed}
use roslibrust.Codegen.Resolve.Rounds.{Ready, IsIn}
use roslibrust.Codegen.Resolve.Outcome.{GivesOrLimit, resolve_all-ends}
use roslibrust.Codegen.Resolve.WholeGraph.{AreRanked, resolve_dependency_graph-completes}

abbrev digest : Text → Text
digest s = codes "00"

abbrev local_field : Text → Text → FieldInfo
local_field ty name = record {
  field_type = record {
    package_name = none;
    source_package = codes "pkg";
    field_type = ty;
    array_info = not_array;
    string_capacity = none;
  };
  field_name = name;
  default = none;
}

abbrev message_field : Text → Text → FieldInfo
message_field ty name = record {
  field_type = record {
    package_name = some (codes "pkg");
    source_package = codes "pkg";
    field_type = ty;
    array_info = not_array;
    string_capacity = none;
  };
  field_name = name;
  default = none;
}

abbrev with_fields : Text → List FieldInfo → ParsedMessageFile
with_fields name fields = record {
  name = name;
  package_name = codes "pkg";
  fields = fields;
  constants = [];
  version = none;
  source = [];
  path_parent = some (codes "msg");
}

-- A message before the one that its field refers to.
abbrev pair : List ParsedMessageFile
pair =
    with_fields (codes "B") (message_field (codes "A") (codes "a") ∷ [])
    ∷ with_fields (codes "A") (local_field (codes "int32") (codes "n") ∷ [])
    ∷ []

pair-Ready : Ready (unresolved pair) []
unfolding get is_intrinsic_type
pair-Ready = record {
  distinct = (refl, (refl, tt));
  fresh = (refl, (refl, tt));
  proper = (
    ((codes "msg", refl), (inr (codes "pkg", (refl, refl, refl, inl refl)), tt)),
    (((codes "msg", refl), (inl (refl, refl, refl, inl refl), tt)), tt),
  );
  closed = λ name m e. absurd (ground (arith, e));
}

resolve_all-ends_example :
    GivesOrLimit
      (λ g. Extends [] g × IsClosed g × All (IsIn g) (unresolved pair))
      (resolve_all digest pair [])
resolve_all-ends_example = resolve_all-ends digest pair [] pair-Ready

abbrev pair_rank : Text → ℕ
pair_rank name = if text_eq name (codes "pkg/B") then 1 else 0

pair-AreRanked : AreRanked pair_rank pair
unfolding is_intrinsic_type
pair-AreRanked = record {
  distinct = (refl, (refl, tt));
  unshipped = (refl, (refl, tt));
  proper = (
    ((codes "msg", refl), (inr (codes "pkg", (refl, refl, refl, inl refl)), tt)),
    (((codes "msg", refl), (inl (refl, refl, refl, inl refl), tt)), tt),
  );
  ranked =
      ((omega arith, (inr (inr (refl, omega arith)), tt)), ((omega arith, (inl refl, tt)), tt));
}

resolve_dependency_graph-completes_example :
    (g : Graph) × (resolve_dependency_graph digest pair [] ≡ (do
      resolved ← resolve_services digest [] g
      ok (map (λ (k, m). m) (in_order g), sort_services resolved)))
    × All (IsIn g) (unresolved pair)
resolve_dependency_graph-completes_example =
    resolve_dependency_graph-completes digest pair_rank pair [] pair-AreRanked

-- A second message of a name that others refer to can make the computations go in a circle.
duplicate_diverges :
    resolve_all digest
      (with_fields (codes "A") []
        ∷ with_fields (codes "B") (message_field (codes "A") (codes "a") ∷ [])
        ∷ with_fields (codes "A") (message_field (codes "B") (codes "b") ∷ [])
        ∷ with_fields (codes "C") (message_field (codes "A") (codes "a") ∷ [])
        ∷ [])
      []
    ≡ diverge
unfolding resolve_all resolve_messages visit resolve compute_md5sum md5sum_content md5_fields
    compute_full_definition get_unique_field_types unique_field_types definitions_of
    determine_if_fixed_length are_fixed_fields get insert is_intrinsic_type trim trim_end
    calculate_ros2_hash convert_to_type_description describe_fields get_ros2_full_name
    get_field_type_id get_field_type_string
duplicate_diverges = refl

-- A message whose path has no folder with a name makes the loop panic.
no_folder_panics :
    resolve_all digest (record (with_fields (codes "A") []) { path_parent = none } ∷ []) [] ≡ panic
unfolding resolve_all resolve_messages visit resolve compute_md5sum md5sum_content md5_fields
    calculate_ros2_hash convert_to_type_description describe_fields get_ros2_full_name trim_end
no_folder_panics = refl
