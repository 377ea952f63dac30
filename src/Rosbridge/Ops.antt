-- ===== src/Rosbridge/Ops.antt =====
-- The operation names of roslibrust_rosbridge/src/comm.rs.
pub mod Naming
mod Tests
use roslibrust.Base.{
  List, [], ◌∷◌, Text, String, codes, text_eq, if◌then◌else◌, Result, ok, err, panic, diverge,
}

pub data Op : Type 0 where
  status set_level fragment auth advertise unadvertise publish subscribe unsubscribe call_service
        service_response advertise_service unadvertise_service :
      Op

-- The errors of the backend. `unrecognized_op` has the text that is no operation.
pub data BridgeError : Type 0 where
  unrecognized_op : Text → BridgeError
  disconnected io_error duplicate_publisher duplicate_service connection_reset call_timed_out
        serialization closed :
      BridgeError
  server_error : Text → BridgeError

-- `From<&Ops> for &str`; four operations are `unimplemented!()`.
abbrev pub op_name : Op → Result BridgeError Text
op_name status = panic
op_name set_level = panic
op_name fragment = panic
op_name auth = panic
op_name advertise = ok (codes "advertise")
op_name unadvertise = ok (codes "unadvertise")
op_name publish = ok (codes "publish")
op_name subscribe = ok (codes "subscribe")
op_name unsubscribe = ok (codes "unsubscribe")
op_name call_service = ok (codes "call_service")
op_name service_response = ok (codes "service_response")
op_name advertise_service = ok (codes "advertise_service")
op_name unadvertise_service = ok (codes "unadvertise_service")

-- `FromStr for Ops`
unfoldable pub from_str : Text → Result BridgeError Op
from_str s =
    if text_eq s (codes "advertise")
    then ok advertise
    else if text_eq s (codes "unadvertise")
    then ok unadvertise
    else if text_eq s (codes "publish")
    then ok publish
    else if text_eq s (codes "subscribe")
    then ok subscribe
    else if text_eq s (codes "unsubscribe")
    then ok unsubscribe
    else if text_eq s (codes "call_service")
    then ok call_service
    else if text_eq s (codes "service_response")
    then ok service_response
    else if text_eq s (codes "advertise_service")
    then ok advertise_service
    else if text_eq s (codes "unadvertise_service")
    then ok unadvertise_service
    else err (unrecognized_op s)
