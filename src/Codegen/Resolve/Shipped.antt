-- ===== src/Codegen/Resolve/Shipped.antt =====
-- The shipped messages parse and resolve, and `resolve_dependency_graph` starts from them.
use roslibrust.Base.{
  suc, ap, sym, subst, arith, inl, inr, get, insert, keys, length, ◌≡◌, refl, true, Option, none,
  some, List, [], ◌∷◌, Text, String, codes, split, is_whitespace, ok,
}
use roslibrust.Codegen.Strs.{
  trim, trim_start, trim_end, find_str, lines, lines_from, parse_usize, parse_digits,
}
use roslibrust.Codegen.Types.{
  ros2, not_array, fixed_length, ArrayType, FieldInfo, ConstantInfo, ParsedMessageFile,
}
use roslibrust.Codegen.Messages.{MessageFile, Graph, get_full_name, resolve}
use roslibrust.Codegen.Messages.Depth.{Within}
use roslibrust.Codegen.Messages.Results.{resolve-Gives, Gives-value}
use roslibrust.Codegen.Resolve.{fully_resolved}
use roslibrust.Codegen.Resolve.Growth.{IsClosed, IsProper, fully_resolved-Within, insert-IsClosed}
use roslibrust.Codegen.Parse.{
  is_intrinsic_type, parse_bounded_string, parse_field_type, parse_array_size, parse_type,
}
use roslibrust.Codegen.Parse.Fields.{
  strip_comments_respecting_string_constants, split_type_from_line, parse_field,
  parse_field_name_and_default, parse_constant_field, is_string_constant_line, strip_comments,
}
use roslibrust.Codegen.Parse.Files.{parse_ros_message_file, parse_lines, parse_line}
use roslibrust.Codegen.Builtin.{
  ship, get_builtin_interfaces, time_msg, duration_msg, service_event_info, shipped,
}

abbrev shipped_field : Option Text → Text → Text → ArrayType → Text → FieldInfo
shipped_field package_name ty name array_info source = record {
  field_type = record {
    package_name = package_name;
    source_package = source;
    field_type = ty;
    array_info = array_info;
    string_capacity = none;
  };
  field_name = name;
  default = none;
}

abbrev file_of : Text → Text → Text → List FieldInfo → List ConstantInfo → ParsedMessageFile
file_of contents name pkg_name fields constants = record {
  name = name;
  package_name = pkg_name;
  fields = fields;
  constants = constants;
  version = some ros2;
  source = contents;
  path_parent = some (codes "msg");
}

abbrev seconds : List FieldInfo
seconds =
    shipped_field none (codes "int32") (codes "sec") not_array (codes "builtin_interfaces")
    ∷ shipped_field none (codes "uint32") (codes "nanosec") not_array (codes "builtin_interfaces")
    ∷ []

abbrev event_fields : List FieldInfo
event_fields =
    shipped_field none (codes "uint8") (codes "event_type") not_array (codes "service_msgs")
    ∷ shipped_field (some (codes "builtin_interfaces")) (codes "Time") (codes "stamp") not_array
        (codes "service_msgs")
    ∷ shipped_field none (codes "char") (codes "client_gid") (fixed_length 16)
        (codes "service_msgs")
    ∷ shipped_field none (codes "int64") (codes "sequence_number") not_array (codes "service_msgs")
    ∷ []

abbrev event_constant : String → String → ConstantInfo
event_constant name value = record {
  constant_type = codes "uint8";
  constant_name = codes name;
  constant_value = codes value;
}

abbrev event_constants : List ConstantInfo
event_constants =
    event_constant "REQUEST_SENT" "0"
    ∷ event_constant "REQUEST_RECEIVED" "1"
    ∷ event_constant "RESPONSE_SENT" "2"
    ∷ event_constant "RESPONSE_RECEIVED" "3"
    ∷ []

abbrev time_file : ParsedMessageFile
time_file = file_of time_msg (codes "Time") (codes "builtin_interfaces") seconds []

abbrev duration_file : ParsedMessageFile
duration_file = file_of duration_msg (codes "Duration") (codes "builtin_interfaces") seconds []

abbrev event_file : ParsedMessageFile
event_file =
    file_of service_event_info (codes "ServiceEventInfo") (codes "service_msgs") event_fields
      event_constants

shipped-parsed :
    (parse_ros_message_file time_msg (codes "Time") (shipped (codes "builtin_interfaces"))
      ≡ ok time_file)
    × (parse_ros_message_file duration_msg (codes "Duration") (shipped (codes "builtin_interfaces"))
        ≡ ok duration_file)
    × (parse_ros_message_file service_event_info
          (codes "ServiceEventInfo")
          (shipped (codes "service_msgs"))
        ≡ ok event_file)
unfolding parse_ros_message_file parse_lines parse_line trim trim_start trim_end lines lines_from
    parse_type parse_field_type parse_array_size parse_bounded_string is_intrinsic_type split
    is_whitespace find_str strip_comments_respecting_string_constants split_type_from_line
    parse_field parse_field_name_and_default parse_usize parse_digits parse_constant_field
    is_string_constant_line strip_comments
shipped-parsed = (refl, refl, refl)

-- The names of the shipped messages.
abbrev pub shipped_names : List Text
shipped_names =
    codes "builtin_interfaces/Time"
    ∷ codes "builtin_interfaces/Duration"
    ∷ codes "service_msgs/ServiceEventInfo"
    ∷ []

module _ (md5 : Text → Text) (F : Type 0) where
  ship-IsClosed :
      (contents name pkg_name : Text) (p : ParsedMessageFile) (g : Graph)
      → parse_ros_message_file contents name (shipped pkg_name) ≡ ok p
      → IsProper p
      → fully_resolved g p.fields ≡ true
      → get (get_full_name p) g ≡ none
      → IsClosed g
      → (m : MessageFile) × (ship md5 F contents name pkg_name g
          ≡ ok (insert (get_full_name p) m g))
        × IsClosed (insert (get_full_name p) m g)
  unfolding ship
  ship-IsClosed contents name pkg_name p g e proper h fresh c =
      let w = fully_resolved-Within g p c h proper in
      let (m, r, q) =
        Gives-value _ (resolve md5 (suc (length g)) p g)
          (resolve-Gives g md5 (suc (length g)) p w) in
      (
        m,
        rw e (rw r (ap (λ x. ok (insert (get_full_name x) m g)) q)),
        insert-IsClosed g (get_full_name p) m fresh c
            (subst (λ x. Within (suc (length g)) g x) (sym q) w),
      )

  pub get_builtin_interfaces-IsClosed :
      (g : Graph) × (get_builtin_interfaces md5 F ≡ ok g) × IsClosed g × (keys g ≡ shipped_names)
  unfolding get_builtin_interfaces get insert keys is_intrinsic_type
  get_builtin_interfaces-IsClosed =
      let (m1, e1, c1) =
        ship-IsClosed time_msg (codes "Time") (codes "builtin_interfaces") time_file []
          shipped-parsed.0
          (
            (codes "msg", refl),
            (inl (refl, refl, refl, inl refl), (inl (refl, refl, refl, inl refl), tt)),
          )
          refl refl (λ name m e. absurd (ground (arith, e))) in
      let (m2, e2, c2) =
        ship-IsClosed duration_msg (codes "Duration") (codes "builtin_interfaces") duration_file
          (insert (get_full_name time_file) m1 []) shipped-parsed.1
          (
            (codes "msg", refl),
            (inl (refl, refl, refl, inl refl), (inl (refl, refl, refl, inl refl), tt)),
          )
          refl refl c1 in
      let (m3, e3, c3) =
        ship-IsClosed service_event_info (codes "ServiceEventInfo") (codes "service_msgs")
          event_file
          (insert (get_full_name duration_file) m2 (insert (get_full_name time_file) m1 []))
          shipped-parsed.2
          (
            (codes "msg", refl),
            (
              inl (refl, refl, refl, inl refl),
              (
                inr (codes "builtin_interfaces", (refl, refl, refl, inl refl)),
                (inl (refl, refl, refl, inl refl), (inl (refl, refl, refl, inl refl), tt)),
              ),
            ),
          )
          refl refl c2 in
      (
        insert (get_full_name event_file) m3
            (insert (get_full_name duration_file) m2 (insert (get_full_name time_file) m1 [])),
        rw e1 (rw e2 e3),
        c3,
        refl,
      )
