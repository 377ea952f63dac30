-- ===== src/Ros1/Node.antt =====
-- roslibrust_ros1/src/node/actor.rs: `Node`, its maps, and its calls of the ROS master. What the
-- operating system and the master answer is an argument of each operation; the calls made to the
-- master are kept in a log, the latest first, with whether the master accepted them.
pub mod Tracking
pub mod History
pub mod Shutdown
pub mod Failures
pub mod Sharing
pub mod XmlRpc
mod Tests
use roslibrust.Ros1.Master
use roslibrust.Ros1.Master.{Call, Log}
use roslibrust.Base.{
  ℕ, ◌+◌, ◌-◌, Bool, true, false, not, ◌||◌, none, some, List, [], ◌∷◌, ◌++◌, Text, codes, text_eq,
  if◌then◌else◌, Result, ok, err, panic, diverge, member, map, Map, get, insert, remove, keys,
  contains_key, decimal, ◌==◌,
}

-- `NodeError::IoError` with its kind, or an error of the `MasterClient`.
pub data NodeError : Type 0 where
  addr_in_use connection_aborted invalid_data bind_failed ros_master_error : NodeError

-- `Publication`: its type, its port, and the strong handles of its shutdown channel.
pub record Publication : Type 0 where
  pub topic_type : Text
  pub listener_port : ℕ
  pub shutdown_senders : ℕ

-- `Subscription`: its type, the URIs of its publisher connections, and `receiver_count()` of its
-- channel, its own receiver included.
pub record Subscription : Type 0 where
  pub topic_type : Text
  pub connections : List Text
  pub receiver_count : ℕ

pub record ServiceServerLink : Type 0 where
  pub port : ℕ
  pub service_name : Text

pub record Node : Type 0 where
  pub publishers : Map Publication
  pub subscriptions : Map Subscription
  pub service_servers : Map ServiceServerLink
  pub hostname : Text
  pub is_alive : Bool
  pub shutdown_token : Bool
  pub log : Log

abbrev pub new : Text → Node
new hostname = record {
  publishers = [];
  subscriptions = [];
  service_servers = [];
  hostname = hostname;
  is_alive = true;
  shutdown_token = false;
  log = [];
}

abbrev is_ok {ℓ} : {A : Type ℓ} → Result NodeError A → Bool
is_ok (ok a) = true
is_ok _ = false

-- A call of the master: it is logged with its outcome.
abbrev pub call {ℓ} : {A : Type ℓ} → Call → Result NodeError A → Node → Node
call c answer node = record node { log = (c, is_ok answer) ∷ node.log }

abbrev pub Op : Type 0 → Type 0
Op A = Node → Result NodeError A × Node

-- `Subscription::add_publisher_source`: one connection for each URI.
unfoldable pub add_publisher_source : Text → List Text → List Text
add_publisher_source uri connections =
    if member uri connections then connections else uri ∷ connections

unfoldable pub add_publisher_sources : List Text → List Text → List Text
unfolding add_publisher_source
add_publisher_sources [] connections = connections
add_publisher_sources (uri ∷ uris) connections =
    add_publisher_sources uris (add_publisher_source uri connections)

-- `Subscription::new` with the publishers that the master named, and a receiver for the caller.
abbrev subscribed_to : Text → List Text → Subscription
subscribed_to topic_type publishers = record {
  topic_type = topic_type;
  connections = add_publisher_sources publishers [];
  receiver_count = 2;
}

-- The part of `register_subscriber` behind the call of the master.
subscribe_after : Text → Text → Result NodeError (List Text) → Op (Unit {0})
subscribe_after topic topic_type (ok publishers) node = (
  ok tt,
  record node {
    subscriptions = insert topic (subscribed_to topic_type publishers) node.subscriptions;
  },
)
subscribe_after topic topic_type (err e) node = (err e, node)
subscribe_after topic topic_type panic node = (panic, node)
subscribe_after topic topic_type diverge node = (diverge, node)

-- `answer` is the master's list of publishers.
pub register_subscriber : Text → Text → Result NodeError (List Text) → Op (Unit {0})
unfolding subscribe_after
register_subscriber topic topic_type answer node = elim (get topic node.subscriptions) [
  | some s ↦ (
    ok tt,
    record node {
      subscriptions =
          insert topic (record s { receiver_count = s.receiver_count + 1 }) node.subscriptions;
    },
  )
  | none ↦
      subscribe_after topic topic_type answer
        (call (Master.register_subscriber topic topic_type) answer node)
]

-- `subscriber_count`: the receivers but the subscription's own.
abbrev pub subscriber_count : Subscription → ℕ
subscriber_count s = s.receiver_count - 1

-- A `Subscriber` releases its receiver before it asks for the clean-up.
pub drop_subscriber : Text → Node → Node
drop_subscriber topic node = elim (get topic node.subscriptions) [
  | some s ↦ record node {
    subscriptions =
        insert topic (record s { receiver_count = s.receiver_count - 1 }) node.subscriptions;
  }
  | none ↦ node
]

abbrev map_err_to : Result NodeError (Unit {0}) → NodeError → Result NodeError (Unit {0})
map_err_to (ok a) e = ok a
map_err_to (err _) e = err e
map_err_to panic e = panic
map_err_to diverge e = diverge

pub unregister_subscriber : Text → Result NodeError (Unit {0}) → Op (Unit {0})
unregister_subscriber topic answer node = elim (get topic node.subscriptions) [
  | none ↦ (ok tt, node)
  | some s ↦ if not (subscriber_count s == 0) then (ok tt, node) else (
    map_err_to answer connection_aborted,
    call (Master.unregister_subscriber topic) answer
        (record node { subscriptions = remove topic node.subscriptions }),
  )
]

-- `register_publisher` behind the test for an existing entry. When the master refuses, the entry
-- stays, and the caller's end of its shutdown channel is dropped.
new_publication : Text → Text → Result NodeError ℕ → Result NodeError (Unit {0}) → Op (Unit {0})
new_publication topic topic_type (ok port) answer node =
    let handles : ℕ = if is_ok answer then 1 else 0 in
    let publication : Publication = record {
      topic_type = topic_type;
      listener_port = port;
      shutdown_senders = handles;
    } in
    (
      answer,
      call (Master.register_publisher topic topic_type) answer
          (record node { publishers = insert topic publication node.publishers }),
    )
new_publication topic topic_type (err e) answer node = (err e, node)
new_publication topic topic_type panic answer node = (panic, node)
new_publication topic topic_type diverge answer node = (diverge, node)

-- `bound` is the port of the new listener. An entry with another type, or whose shutdown channel
-- is closed, is an error; any other is shared.
pub register_publisher :
    Text → Text → Result NodeError ℕ → Result NodeError (Unit {0}) → Op (Unit {0})
unfolding new_publication
register_publisher topic topic_type bound answer node = elim (get topic node.publishers) [
  | some p ↦
      if not (text_eq p.topic_type topic_type)
      then (err addr_in_use, node)
      else if p.shutdown_senders == 0
      then (err addr_in_use, node)
      else (
        ok tt,
        record node {
          publishers =
              insert topic (record p { shutdown_senders = p.shutdown_senders + 1 }) node.publishers;
        },
      )
  | none ↦ new_publication topic topic_type bound answer node
]

-- A `Publisher` is dropped. The accept task asks for the clean-up when the last one is gone.
pub drop_publisher : Text → Node → Node
drop_publisher topic node = elim (get topic node.publishers) [
  | some p ↦ record node {
    publishers =
        insert topic (record p { shutdown_senders = p.shutdown_senders - 1 }) node.publishers;
  }
  | none ↦ node
]

pub unregister_publisher : Text → Result NodeError (Unit {0}) → Op (Unit {0})
unregister_publisher topic answer node =
    let known = contains_key topic node.publishers in
    (
      (if not (is_ok answer) || not known then err addr_in_use else ok tt),
      record (call (Master.unregister_publisher topic) answer node) {
        publishers = remove topic node.publishers;
      },
    )

-- The address under which the master finds a service of this node.
pub service_uri : Text → ℕ → Text
service_uri hostname port = codes "rosrpc://" ++ (hostname ++ (codes ":" ++ decimal port))

-- `register_service_server` behind the new `ServiceServerLink`. The map is asked for the
-- service's type, and written under the service's name.
new_service_server : Text → Text → Result NodeError ℕ → Result NodeError (Unit {0}) → Op (Unit {0})
new_service_server service service_type (ok port) answer node =
    let link : ServiceServerLink = record { port = port; service_name = service } in
    if contains_key service_type node.service_servers
    then (ok tt, record node { service_servers = insert service_type link node.service_servers })
    else (
      answer,
      call (Master.register_service service (service_uri node.hostname port)) answer
          (record node { service_servers = insert service link node.service_servers }),
    )
new_service_server service service_type (err e) answer node = (err e, node)
new_service_server service service_type panic answer node = (panic, node)
new_service_server service service_type diverge answer node = (diverge, node)

pub register_service_server :
    Text → Text → Result NodeError ℕ → Result NodeError (Unit {0}) → Op (Unit {0})
unfolding new_service_server
register_service_server service service_type bound answer node =
    new_service_server service service_type bound answer node

pub unregister_service_server : Text → Result NodeError (Unit {0}) → Op (Unit {0})
unregister_service_server service_name answer node = elim (get service_name node.service_servers) [
  | some link ↦ (
    answer,
    call (Master.unregister_service service_name (service_uri node.hostname link.port)) answer
        (record node { service_servers = remove service_name node.service_servers }),
  )
  | none ↦ (err invalid_data, node)
]

-- The loops of `shutdown`: each call is made whatever the ones before it gave.
unfoldable pub call_all : (Call → Bool) → List Call → Log → Log
call_all accepts [] log = log
call_all accepts (c ∷ cs) log = call_all accepts cs ((c, accepts c) ∷ log)

pub unregister_services : Text → Map ServiceServerLink → List Call
unregister_services hostname [] = []
unregister_services hostname ((name, link) ∷ rest) =
    Master.unregister_service name (service_uri hostname link.port)
    ∷ unregister_services hostname rest

-- `accepts` tells what the master answers to each call.
pub shutdown : (Call → Bool) → Node → Node
shutdown accepts node = record node {
  is_alive = false;
  shutdown_token = true;
  log = call_all accepts (unregister_services node.hostname node.service_servers) (
      call_all accepts (map Master.unregister_publisher (keys node.publishers))
        (call_all accepts (map Master.unregister_subscriber (keys node.subscriptions)) node.log));
}
