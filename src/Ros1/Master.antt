-- ===== src/Ros1/Master.antt =====
-- The calls of roslibrust_ros1/src/master_client.rs (`MasterClient`, `SyncMasterClient`) that change
-- the ROS master, and what the master knows of this node by the calls that it accepted.
pub mod Client
pub mod State
mod Tests
use roslibrust.Base.{
  Bool, true, false, Option, none, some, List, [], ◌∷◌, Text, text_eq, if◌then◌else◌,
}

pub data Call : Type 0 where
  register_subscriber : Text → Text → Call
  unregister_subscriber : Text → Call
  register_publisher : Text → Text → Call
  unregister_publisher : Text → Call
  register_service : Text → Text → Call
  unregister_service : Text → Text → Call

-- The calls, the latest first, each with whether the master accepted it.
abbrev pub Log : Type 0
Log = List (Call × Bool)

-- Does the master list this node as a publisher of `topic`?
unfoldable pub published : Text → Log → Bool
published topic [] = false
published topic ((register_publisher t ty, true) ∷ log) =
    if text_eq t topic then true else published topic log
published topic ((unregister_publisher t, true) ∷ log) =
    if text_eq t topic then false else published topic log
published topic (_ ∷ log) = published topic log

-- Does the master list this node as a subscriber of `topic`?
unfoldable pub subscribed : Text → Log → Bool
subscribed topic [] = false
subscribed topic ((register_subscriber t ty, true) ∷ log) =
    if text_eq t topic then true else subscribed topic log
subscribed topic ((unregister_subscriber t, true) ∷ log) =
    if text_eq t topic then false else subscribed topic log
subscribed topic (_ ∷ log) = subscribed topic log

-- The address under which the master lists the service. `unregisterService` takes effect only
-- where its address is the one listed.
unfoldable pub provided : Text → Log → Option Text
provided name [] = none
provided name ((register_service n uri, true) ∷ log) =
    if text_eq n name then some uri else provided name log
provided name ((unregister_service n uri, true) ∷ log) =
    let old = provided name log in
    if text_eq n name
    then (elim old [ none ↦ none | some u ↦ if text_eq u uri then none else some u ])
    else old
provided name (_ ∷ log) = provided name log
