-- ===== src/Rosbridge/Comm.antt =====
-- `RosBridgeComm` of roslibrust_rosbridge/src/comm.rs. A writer has the messages that its
-- connection took, the latest first, and the number of those that it will take before it breaks.
use roslibrust.Base.{
  ℕ, zero, suc, Bool, Option, none, some, List, ◌∷◌, Text, String, codes, Result, ok, err, ◌>>=◌,
}
use roslibrust.Rosbridge.Json.{Json, string, boolean, null, object, Members, end, field}
use roslibrust.Rosbridge.Ops
use roslibrust.Rosbridge.Ops.{Op, BridgeError, io_error, op_name}

pub record Writer : Type 0 where
  pub capacity : ℕ
  pub sent : List Json

abbrev take_in : ℕ → Json → List Json → Result BridgeError Writer
take_in zero msg sent = err io_error
take_in (suc n) msg sent = ok (record { capacity = n; sent = msg ∷ sent })

-- `self.send(msg)`
abbrev pub send : Json → Writer → Result BridgeError Writer
send msg w = take_in w.capacity msg w.sent

abbrev str_field : String → Text → Members → Members
str_field k s rest = field (codes k) (string s) rest

abbrev send_op : Op → Members → Writer → Result BridgeError Writer
send_op op members w = do name ← op_name op; send (object (str_field "op" name members)) w

abbrev pub subscribe : Text → Text → Writer → Result BridgeError Writer
subscribe topic msg_type =
    send_op Ops.subscribe (str_field "topic" topic (str_field "type" msg_type end))

abbrev pub unsubscribe : Text → Writer → Result BridgeError Writer
unsubscribe topic = send_op Ops.unsubscribe (str_field "topic" topic end)

abbrev pub publish : Text → Text → Json → Writer → Result BridgeError Writer
publish topic type_name msg =
    send_op Ops.publish
      (str_field "topic" topic (str_field "type" type_name (field (codes "msg") msg end)))

abbrev pub advertise_str : Text → Text → Writer → Result BridgeError Writer
advertise_str topic topic_type =
    send_op Ops.advertise (str_field "topic" topic (str_field "type" topic_type end))

abbrev pub call_service : Text → Text → Json → Writer → Result BridgeError Writer
call_service service id req =
    send_op Ops.call_service
      (str_field "service" service (str_field "id" id (field (codes "args") req end)))

abbrev pub unadvertise : Text → Writer → Result BridgeError Writer
unadvertise topic = send_op Ops.unadvertise (str_field "topic" topic end)

abbrev pub advertise_service : Text → Text → Writer → Result BridgeError Writer
advertise_service srv_name srv_type =
    send_op Ops.advertise_service (str_field "type" srv_type (str_field "service" srv_name end))

abbrev pub unadvertise_service : Text → Writer → Result BridgeError Writer
unadvertise_service topic = send_op Ops.unadvertise_service (str_field "service" topic end)

abbrev optional : Option Text → Json
optional none = null
optional (some s) = string s

abbrev pub service_response : Text → Option Text → Bool → Json → Writer → Result BridgeError Writer
service_response topic id is_success response = send_op Ops.service_response (
    str_field "service" topic (
      field (codes "id") (optional id)
        (field (codes "result") (boolean is_success) (field (codes "values") response end))))
