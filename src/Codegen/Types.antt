-- ===== src/Codegen/Types.antt =====
-- The data types of roslibrust_codegen/src/lib.rs, utils.rs and parse/msg.rs.
use roslibrust.Base.{ℕ, Option, List, Text}

pub data RosVersion : Type 0 where
  ros1 ros2 : RosVersion

pub data ArrayType : Type 0 where
  not_array : ArrayType
  fixed_length : ℕ → ArrayType
  bounded : ℕ → ArrayType
  unbounded : ArrayType

pub record FieldType : Type 0 where
  pub package_name : Option Text
  pub source_package : Text
  pub field_type : Text
  pub array_info : ArrayType
  pub string_capacity : Option ℕ

pub record FieldInfo : Type 0 where
  pub field_type : FieldType
  pub field_name : Text
  pub default : Option Text

pub record ConstantInfo : Type 0 where
  pub constant_type : Text
  pub constant_name : Text
  pub constant_value : Text

-- `Package`, with what the model has of the path of the file that is parsed, which the source passes
-- beside it: the name of the folder, `none` where there is none or it is not unicode.
pub record Package : Type 0 where
  pub path_parent : Option Text
  pub name : Text
  pub version : Option RosVersion

-- `ParsedMessageFile`, with the name of the folder in its path.
pub record ParsedMessageFile : Type 0 where
  pub name : Text
  pub package_name : Text
  pub fields : List FieldInfo
  pub constants : List ConstantInfo
  pub version : Option RosVersion
  pub source : Text
  pub path_parent : Option Text

-- `ParsedServiceFile`, with the name of the folder in its path.
pub record ParsedServiceFile : Type 0 where
  pub name : Text
  pub package_name : Text
  pub request_type : ParsedMessageFile
  pub response_type : ParsedMessageFile
  pub source : Text
  pub path_parent : Option Text
