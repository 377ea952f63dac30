-- ===== src/Mock.antt =====
-- roslibrust_mock/src/lib.rs: topics and services of `MockRos`. A channel is its number; bincode is
-- a parameter.
pub mod Sharing
mod Tests
use roslibrust.Base.{
  ℕ, zero, suc, ◌+◌, Bool, true, false, Option, none, some, List, [], ◌∷◌, Text, text_eq, Map, get,
  insert, if◌then◌else◌, Result, ok, err, panic, diverge, ◌>>=◌,
}

pub data MockError : Type 0 where
  wrong_type no_server serialization disconnected : MockError

pub record TopicEntry : Type 0 where
  pub channel : ℕ
  pub type_name : Text

-- The callback with its type erased: bytes to bytes.
pub record ServiceEntry : Type 0 where
  pub callback : List ℕ → Result MockError (List ℕ)
  pub type_name : Text

pub record MockRos : Type 0 where
  pub topics : Map TopicEntry
  pub services : Map ServiceEntry
  pub channels : ℕ

pub record MockPublisher : Type 0 where
  pub sender : ℕ

pub record MockSubscriber : Type 0 where
  pub receiver : ℕ

abbrev pub new : MockRos
new = record { topics = []; services = []; channels = 0 }

-- Under the read lock: the channel of the topic, if it has one.
unfoldable pub look_up : Text → Text → MockRos → Result MockError (Option ℕ)
look_up topic type_name ros = elim (get topic ros.topics) [
  | none ↦ ok none
  | some entry ↦
      if text_eq entry.type_name type_name then ok (some entry.channel) else err wrong_type
]

-- Under the write lock: a new channel for the topic.
unfoldable pub create : Text → Text → MockRos → MockRos
create topic type_name ros = record ros {
  topics = insert topic (record { channel = ros.channels; type_name = type_name }) ros.topics;
  channels = ros.channels + 1;
}

abbrev advertise_found : Text → Text → MockRos → Option ℕ → MockRos × MockPublisher
advertise_found topic type_name ros (some channel) = (ros, record { sender = channel })
advertise_found topic type_name ros none =
    (create topic type_name ros, record { sender = ros.channels })

unfoldable pub advertise : Text → Text → MockRos → Result MockError (MockRos × MockPublisher)
unfolding look_up create
advertise topic type_name ros = do
  found ← look_up topic type_name ros
  ok (advertise_found topic type_name ros found)

abbrev subscribe_found : Text → Text → MockRos → Option ℕ → MockRos × MockSubscriber
subscribe_found topic type_name ros (some channel) = (ros, record { receiver = channel })
subscribe_found topic type_name ros none =
    (create topic type_name ros, record { receiver = ros.channels })

unfoldable pub subscribe : Text → Text → MockRos → Result MockError (MockRos × MockSubscriber)
unfolding look_up create
subscribe topic type_name ros = do
  found ← look_up topic type_name ros
  ok (subscribe_found topic type_name ros found)

abbrev or_serialization : {A : Type 0} → Option A → Result MockError A
or_serialization none = err serialization
or_serialization (some a) = ok a

-- An error of the callback, and a panic of the blocking task that runs it.
abbrev finished : Result MockError (List ℕ) → Result MockError (List ℕ)
finished (ok bytes) = ok bytes
finished (err e) = err serialization
finished panic = err disconnected
finished diverge = diverge

-- `bincode` for the request and the response of a service.
module _ {Request Response : Type 0} (serialize_request : Request → Option (List ℕ))
    (deserialize_request : List ℕ → Option Request)
    (serialize_response : Response → Option (List ℕ))
    (deserialize_response : List ℕ → Option Response) where
  abbrev pub erased_closure :
      (Request → Result MockError Response) → List ℕ → Result MockError (List ℕ)
  erased_closure server message = do
    request ← or_serialization (deserialize_request message)
    response ← server request
    or_serialization (serialize_response response)

  abbrev pub put_service : Text → Text → (Request → Result MockError Response) → MockRos → MockRos
  put_service service type_name server ros = record ros {
    services =
        insert service (record { callback = erased_closure server; type_name = type_name })
          ros.services;
  }

  -- A service of the same type is replaced.
  unfoldable pub advertise_service :
      Text → Text → (Request → Result MockError Response) → MockRos → Result MockError MockRos
  advertise_service service type_name server ros = elim (get service ros.services) [
    | none ↦ ok (put_service service type_name server ros)
    | some existing ↦
        if text_eq existing.type_name type_name
        then ok (put_service service type_name server ros)
        else err wrong_type
  ]

  -- `MockServiceClient::call` while the store lives.
  unfoldable pub call : Text → Request → MockRos → Result MockError Response
  call service request ros = elim (get service ros.services) [
    | none ↦ err no_server
    | some entry ↦ (do
      message ← or_serialization (serialize_request request)
      response ← finished (entry.callback message)
      or_serialization (deserialize_response response))
  ]
