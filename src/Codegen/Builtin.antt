-- ===== src/Codegen/Builtin.antt =====
-- The messages that the crate ships: roslibrust_codegen/src/ros2_builtin_interfaces.rs. The texts
-- stand line by line. What `expect` refuses is a panic.
use roslibrust.Base.{
  suc, some, List, [], ◌∷◌, ◌++◌, Text, String, codes, insert, length, Result, ok, err, panic,
  diverge, ◌>>=◌,
}
use roslibrust.Codegen.Types.{ros2, Package}
use roslibrust.Codegen.Parse.Files.{parse_ros_message_file}
use roslibrust.Codegen.Messages.{Graph, get_full_name, resolve}

abbrev joined : List String → Text
joined [] = []
joined (s ∷ ss) = codes s ++ joined ss

abbrev pub service_event_info : Text
service_event_info = joined (
    "\n" ∷ "uint8 REQUEST_SENT = 0\n" ∷ "uint8 REQUEST_RECEIVED = 1\n" ∷ "uint8 RESPONSE_SENT = 2\n"
    ∷ "uint8 RESPONSE_RECEIVED = 3\n" ∷ "\n" ∷ "# The type of event this message represents\n"
    ∷ "uint8 event_type\n" ∷ "\n"
    ∷ "# Timestamp for when the event occurred (sent or received time)\n"
    ∷ "builtin_interfaces/Time stamp\n" ∷ "\n"
    ∷ "# Unique identifier for the client that sent the service request\n"
    ∷ "# Note, this is only unique for the current session.\n"
    ∷ "# The size here has to match the size of rmw_dds_common/msg/Gid,\n"
    ∷ "# but unfortunately we cannot use that message directly due to a\n"
    ∷ "# circular dependency.\n" ∷ "char[16] client_gid\n" ∷ "\n"
    ∷ "# Sequence number for the request\n"
    ∷ "# Combined with the client ID, this creates a unique ID for the service transaction\n"
    ∷ "int64 sequence_number\n" ∷ [])

abbrev pub time_msg : Text
time_msg = joined (
    "\n" ∷ "# This message communicates ROS Time defined here:\n"
    ∷ "# https://design.ros2.org/articles/clock_and_time.html\n" ∷ "\n"
    ∷ "# The seconds component, valid over all int32 values.\n" ∷ "int32 sec\n" ∷ "\n"
    ∷ "# The nanoseconds component, valid in the range [0, 1e9), to be added to the seconds component. \n"
    ∷ "# e.g.\n" ∷ "# The time -1.7 seconds is represented as {sec: -2, nanosec: 3e8}\n"
    ∷ "# The time 1.7 seconds is represented as {sec: 1, nanosec: 7e8}\n" ∷ "uint32 nanosec\n" ∷ [])

abbrev pub duration_msg : Text
duration_msg = joined (
    "\n" ∷ "# Duration defines a period between two time points.\n"
    ∷ "# Messages of this datatype are of ROS Time following this design:\n"
    ∷ "# https://design.ros2.org/articles/clock_and_time.html\n" ∷ "\n"
    ∷ "# The seconds component, valid over all int32 values.\n" ∷ "int32 sec\n" ∷ "\n"
    ∷ "# The nanoseconds component, valid in the range [0, 1e9), to be added to the seconds component. \n"
    ∷ "# e.g.\n" ∷ "# The duration -1.7 seconds is represented as {sec: -2, nanosec: 3e8}\n"
    ∷ "# The duration 1.7 seconds is represented as {sec: 1, nanosec: 7e8}\n" ∷ "uint32 nanosec\n"
    ∷ [])

abbrev pub expect : {E F A : Type 0} → Result E A → Result F A
expect (ok a) = ok a
expect (err e) = panic
expect panic = panic
expect diverge = diverge

abbrev pub shipped : Text → Package
shipped name = record { path_parent = some (codes "msg"); name = name; version = some ros2 }

module _ (md5 : Text → Text) (F : Type 0) where
  -- A text is parsed, resolved and entered under its name.
  unfoldable pub ship : Text → Text → Text → Graph → Result F Graph
  ship contents name pkg_name g = do
    parsed ← expect (parse_ros_message_file contents name (shipped pkg_name))
    msg ← expect (resolve md5 (suc (length g)) parsed g)
    ok (insert (get_full_name msg.parsed) msg g)

  unfoldable pub get_builtin_interfaces : Result F Graph
  get_builtin_interfaces = do
    g ← ship time_msg (codes "Time") (codes "builtin_interfaces") []
    g ← ship duration_msg (codes "Duration") (codes "builtin_interfaces") g
    ship service_event_info (codes "ServiceEventInfo") (codes "service_msgs") g
