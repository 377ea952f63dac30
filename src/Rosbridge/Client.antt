-- ===== src/Rosbridge/Client.antt =====
-- `ClientHandle` and `Client` of roslibrust_rosbridge/src/client.rs. What runs under the locks of
-- the client is one step. The ids that `uuid` draws are arguments.
pub mod Dispatch
pub mod Table
pub mod Reads
pub mod Reconnect
pub mod Retry
pub mod Calls
pub mod Delivery
mod Tests
pub mod Histories
use roslibrust.Base.{
  ℕ, zero, suc, Bool, true, false, Option, none, some, List, [], ◌∷◌, ◌++◌, Text, Map, get, insert,
  remove, contains_key, member, if◌then◌else◌, text_eq, Result, ok, err, panic, diverge, ◌>>=◌,
}
use roslibrust.Rosbridge.Json.{Json, as_str}
use roslibrust.Rosbridge.Ops.{
  BridgeError, disconnected, duplicate_publisher, duplicate_service, connection_reset,
  call_timed_out, serialization, server_error,
}
use roslibrust.Rosbridge.Comm
use roslibrust.Rosbridge.Comm.{Writer}

-- The ids of the subscribers, and the type of the first one.
pub record Subscription : Type 0 where
  pub handles : List Text
  pub topic_type : Text

-- A service's callback: the text of the request to a response or the text of an error.
abbrev pub ServiceCallback : Type 0
ServiceCallback = Text → Result Text Json

-- `deliveries` has the messages passed to subscribers, by their ids, and `answers` the responses
-- passed to callers, both the latest first.
pub record Client : Type 0 where
  pub writer : Writer
  pub publishers : Map Text
  pub subscriptions : Map Subscription
  pub services : Map ServiceCallback
  pub service_calls : List Text
  pub is_disconnected : Bool
  pub deliveries : List (Text × Text)
  pub answers : List (Text × Json)

-- `Client::new` on a connection.
abbrev pub new : ℕ → Client
new capacity = record {
  writer = record { capacity = capacity; sent = [] };
  publishers = [];
  subscriptions = [];
  services = [];
  service_calls = [];
  is_disconnected = false;
  deliveries = [];
  answers = [];
}

-- The client behind a write, and the result of the operation.
abbrev pub wrote :
    {A : Type 0} → A → Client → Result BridgeError Writer → Client × Result BridgeError A
wrote a c (ok w) = (record c { writer = w }, ok a)
wrote a c (err e) = (c, err e)
wrote a c panic = (c, panic)
wrote a c diverge = (c, diverge)

-- `entry(topic).or_insert(…)`
abbrev pub or_insert : Text → Text → Map Subscription → Map Subscription
or_insert topic topic_type m = elim (get topic m) [
  | none ↦ insert topic (record { handles = []; topic_type = topic_type }) m
  | some s ↦ m
]

abbrev pub add_handle : Text → Text → Map Subscription → Map Subscription
add_handle topic id m = elim (get topic m) [
  | none ↦ m
  | some s ↦ insert topic (record s { handles = id ∷ s.handles }) m
]

abbrev track_handle :
    Text → Text → Client × Result BridgeError Text → Client × Result BridgeError Text
track_handle topic id (c, ok i) =
    (record c { subscriptions = add_handle topic id c.subscriptions }, ok i)
track_handle topic id (c, r) = (c, r)

-- `subscribe`, with the id that the new subscriber gets.
unfoldable pub subscribe : Text → Text → Text → Client → Client × Result BridgeError Text
subscribe topic topic_type id c =
    if c.is_disconnected
    then (c, err disconnected)
    else track_handle topic id (
        wrote id (record c { subscriptions = or_insert topic topic_type c.subscriptions })
          (Comm.subscribe topic topic_type c.writer))

pub publish : Text → Text → Json → Client → Client × Result BridgeError (Unit {0})
publish topic type_name msg c =
    if c.is_disconnected
    then (c, err disconnected)
    else wrote tt c (Comm.publish topic type_name msg c.writer)

unfoldable pub advertise : Text → Text → Client → Client × Result BridgeError (Unit {0})
advertise topic topic_type c =
    if c.is_disconnected
    then (c, err disconnected)
    else if contains_key topic c.publishers
    then (c, err duplicate_publisher)
    else wrote tt (record c { publishers = insert topic topic_type c.publishers })
        (Comm.advertise_str topic topic_type c.writer)

abbrev pub without : Text → List Text → List Text
without id [] = []
without id (i ∷ ids) = let rest = without id ids in if text_eq i id then rest else i ∷ rest

abbrev untrack_call :
    Text → Client × Result BridgeError (Unit {0}) → Client × Result BridgeError (Unit {0})
untrack_call id (c, err e) = (record c { service_calls = without id c.service_calls }, err e)
untrack_call id r = r

-- `call_service` up to the wait for the response.
unfoldable pub start_call : Text → Text → Json → Client → Client × Result BridgeError (Unit {0})
start_call service id req c =
    if c.is_disconnected
    then (c, err disconnected)
    else untrack_call id (
        wrote tt (record c { service_calls = id ∷ c.service_calls })
          (Comm.call_service service id req c.writer))

-- The wait of `call_service` that ends by its timeout.
unfoldable pub time_out_call : Text → Client → Client × Result BridgeError (Unit {0})
time_out_call id c = (record c { service_calls = without id c.service_calls }, err call_timed_out)

-- The end of `call_service` for a response that was passed on; `value` and `text` are what serde
-- makes of it as a response and as a string.
abbrev from_response : {A : Type 0} → Option A → Option Text → Result BridgeError A
from_response (some a) text = ok a
from_response none (some text) = err (server_error text)
from_response none none = err serialization

-- The end of the wait of `call_service`: none while the call is tracked and has no response; a call
-- that is neither tracked nor answered has lost its sender.
abbrev pub await_call :
    {A : Type 0} → (Json → Option A) → Text → Client → Option (Result BridgeError A)
await_call from_value id c = elim (get id c.answers) [
  | some msg ↦ some (from_response (from_value msg) (as_str msg))
  | none ↦ if member id c.service_calls then none else some (err connection_reset)
]

-- `advertise_service`; the type erasure is the caller's.
pub advertise_service :
    Text → Text → ServiceCallback → Client → Client × Result BridgeError (Unit {0})
advertise_service topic srv_type server c =
    if c.is_disconnected
    then (c, err disconnected)
    else if contains_key topic c.services
    then (c, err duplicate_service)
    else wrote tt (record c { services = insert topic server c.services })
        (Comm.advertise_service topic srv_type c.writer)

-- `unadvertise_service`, the task of a dropped `ServiceHandle`.
pub unadvertise_service : Text → Client → Client
unadvertise_service topic c =
    (wrote tt (record c { services = remove topic c.services })
      (Comm.unadvertise_service topic c.writer)).0

-- `unadvertise`, the task of a dropped `Publisher`.
pub unadvertise : Text → Client → Client
unadvertise topic c =
    (wrote tt (record c { publishers = remove topic c.publishers })
      (Comm.unadvertise topic c.writer)).0

abbrev pub drop_handle : Text → Text → Subscription → Client → Client
drop_handle topic id s c =
    let left = without id s.handles in
    let c' = record c {
      subscriptions = insert topic (record s { handles = left }) c.subscriptions;
    } in
    elim left [ [] ↦ (wrote tt c' (Comm.unsubscribe topic c.writer)).0 | i ∷ ids ↦ c' ]

-- `unsubscribe`, the task of a dropped `Subscriber`.
unfoldable pub unsubscribe : Text → Text → Client → Client
unsubscribe topic id c = elim (get topic c.subscriptions) [
  | none ↦ c
  | some s ↦ if member id s.handles then drop_handle topic id s c else c
]

-- The loops of `reconnect`.
unfoldable pub advertise_all : Map Text → Writer → Result BridgeError Writer
advertise_all [] w = ok w
advertise_all ((topic, topic_type) ∷ rest) w = do
  w ← Comm.advertise_str topic topic_type w
  advertise_all rest w

unfoldable pub subscribe_all : Map Subscription → Writer → Result BridgeError Writer
subscribe_all [] w = ok w
subscribe_all ((topic, s) ∷ rest) w = do
  w ← Comm.subscribe topic s.topic_type w
  subscribe_all rest w

abbrev pub broken : Writer
broken = record { capacity = 0; sent = [] }

abbrev pub reconnected : Client → Result BridgeError Writer → Client × Result BridgeError (Unit {0})
reconnected c (ok w) = (record c { writer = w }, ok tt)
reconnected c (err e) = (record c { writer = broken }, err e)
reconnected c panic = (c, panic)
reconnected c diverge = (c, diverge)

-- `reconnect`, to a connection that takes so many messages. What a failed attempt has sent is
-- forgotten with its connection.
unfoldable pub reconnect : ℕ → Client → Client × Result BridgeError (Unit {0})
unfolding advertise_all subscribe_all
reconnect capacity c =
    reconnected (record c { service_calls = [] })
      (do
        w ← advertise_all c.publishers (record { capacity = capacity; sent = [] })
        subscribe_all c.subscriptions w)

-- The inner loop of `stubborn_spin`, over the connections that its attempts get.
unfoldable pub retry_reconnect : List ℕ → Client → Client
retry_reconnect [] c = c
retry_reconnect (capacity ∷ rest) c =
    let (c', result) = reconnect capacity c in
    elim result [
      | ok _ ↦ record c' { is_disconnected = false }
      | err e ↦ retry_reconnect rest c'
      | _ ↦ c'
    ]

-- `stubborn_spin` behind a failed spin, before its attempts.
abbrev pub spin_failed : Client → Client
spin_failed c = record c { is_disconnected = true; service_calls = [] }
