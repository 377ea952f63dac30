-- ===== src/Codegen/MessageGraph.antt =====
-- The graph of resolved messages of roslibrust_codegen/src/lib.rs, and the descriptions of their types
-- in roslibrust_codegen/src/ros2_hashing.rs.
use roslibrust.Base.{
  ℕ, Bool, Option, none, some, List, ◌∷◌, ◌++◌, Text, Map, member, Result, ok, err,
}
use roslibrust.Codegen.Types.{FieldType, FieldInfo, ParsedMessageFile}
use roslibrust.Codegen.Parse.{primitive_types}
use roslibrust.Codegen.TypeIds.{NotFound, not_found}

-- The `FieldType` of ros2_hashing.rs.
pub record Ros2FieldType : Type 0 where
  pub type_id : ℕ
  pub capacity : ℕ
  pub string_capacity : ℕ
  pub nested_type_name : Text

pub record Field : Type 0 where
  pub name : Text
  pub field_type : Ros2FieldType

pub record TypeDescription : Type 0 where
  pub type_name : Text
  pub fields : List Field

-- The referenced types are the entries of the map, in the order of their names.
pub record TypeDescriptionMsg : Type 0 where
  pub type_description : TypeDescription
  pub referenced_type_descriptions : Map TypeDescription

-- `ros2_hash` is what is hashed: its JSON and the SHA-256 of that are left out, and so is the copy
-- of a description in `ros2_type_description`.
pub record MessageFile : Type 0 where
  pub parsed : ParsedMessageFile
  pub md5sum : Text
  pub ros2_hash : TypeDescriptionMsg
  pub definition : Text
  pub is_fixed_encoding_length : Bool

abbrev pub Graph : Type 0
Graph = Map MessageFile

abbrev pub is_primitive : FieldType → Bool
is_primitive ft = member ft.field_type primitive_types

abbrev pub in_package : Text → Text → Text
in_package pkg name = pkg ++ (b'/' ∷ name)

abbrev pub or_source : Text → Option Text → Text
or_source source none = source
or_source source (some pkg) = pkg

-- `FieldInfo::get_full_type_name`
abbrev pub get_full_type_name : FieldInfo → Text
get_full_type_name f =
    in_package (or_source f.field_type.source_package f.field_type.package_name)
      f.field_type.field_type

-- `ParsedMessageFile::get_full_name`
abbrev pub get_full_name : ParsedMessageFile → Text
get_full_name m = in_package m.package_name m.name

abbrev pub or_not_found : {A : Type 0} → Option A → Result NotFound A
or_not_found none = err not_found
or_not_found (some a) = ok a
