-- ===== src/Rosbridge/Client/Dispatch.antt =====
-- `spin_once` and `handle_message` of roslibrust_rosbridge/src/client.rs. serde_json's conversions
-- and the text of a task's panic are parameters.
use roslibrust.Base.{
  true, false, Option, none, some, List, [], ◌∷◌, Text, codes, get, member, if◌then◌else◌, Result,
  ok, err, panic, diverge,
}
use roslibrust.Rosbridge.Json.{Json, null, string, get_field, get_str}
use roslibrust.Rosbridge.Ops
use roslibrust.Rosbridge.Ops.{Op, BridgeError, closed, io_error, from_str}
use roslibrust.Rosbridge.Comm
use roslibrust.Rosbridge.Client.{Client, ServiceCallback, wrote, without}

pub data Message : Type 0 where
  text : Text → Message
  close ping pong other : Message

-- What `stream.next()` gives: a message, an error, or the end of the stream.
pub data Read : Type 0 where
  message : Message → Read
  read_error end_of_stream : Read

-- The loop over the callbacks.
abbrev pub deliver : Text → List Text → List (Text × Text) → List (Text × Text)
deliver msg [] log = log
deliver msg (id ∷ ids) log = deliver msg ids ((id, msg) ∷ log)

abbrev or_null : Option Json → Json
or_null none = null
or_null (some v) = v

module _ (from_text : Text → Option Json) (to_string : Json → Option Text) (to_text : Json → Text)
    (panic_text : Text) where
  abbrev pub publish_to : List Text → Option Json → Client → Client
  publish_to handles none c = c
  publish_to handles (some v) c = elim (to_string v) [
    | none ↦ c
    | some msg ↦ record c { deliveries = deliver msg handles c.deliveries }
  ]

  unfoldable pub handle_publish : Json → Client → Client
  handle_publish v c = elim (get_str (codes "topic") v) [
    | none ↦ c
    | some topic ↦ elim (get topic c.subscriptions) [
      | none ↦ c
      | some s ↦ publish_to s.handles (get_field (codes "msg") v) c
    ]
  ]

  unfoldable pub handle_response : Json → Client → Client
  handle_response v c = elim (get_str (codes "id") v) [
    | none ↦ c
    | some id ↦
        if member id c.service_calls
        then record c {
          service_calls = without id c.service_calls;
          answers = (id, or_null (get_field (codes "values") v)) ∷ c.answers;
        }
        else c
  ]

  abbrev pub respond : Text → Option Text → Result Text Json → Client → Client
  respond topic id (ok res) c = (wrote tt c (Comm.service_response topic id true res c.writer)).0
  respond topic id (err e) c =
      (wrote tt c (Comm.service_response topic id false (string e) c.writer)).0
  respond topic id panic c =
      (wrote tt c (Comm.service_response topic id false (string panic_text) c.writer)).0
  respond topic id diverge c = c

  abbrev pub serve : Text → Option Text → ServiceCallback → Option Json → Client → Client
  serve topic id callback none c = c
  serve topic id callback (some args) c = respond topic id (callback (to_text args)) c

  unfoldable pub handle_service : Json → Client → Client
  handle_service v c = elim (get_str (codes "service") v) [
    | none ↦ c
    | some topic ↦ elim (get topic c.services) [
      | none ↦ c
      | some callback ↦ serve topic (get_str (codes "id") v) callback (get_field (codes "args") v) c
    ]
  ]

  abbrev pub by_op : Result BridgeError Op → Json → Client → Client
  by_op (ok Ops.publish) v c = handle_publish v c
  by_op (ok Ops.service_response) v c = handle_response v c
  by_op (ok Ops.call_service) v c = handle_service v c
  by_op _ v c = c

  abbrev pub handle_value : Json → Client → Client
  handle_value v c = elim (get_str (codes "op") v) [ none ↦ c | some op ↦ by_op (from_str op) v c ]

  unfoldable pub handle_message : Message → Client → Client × Result BridgeError (Unit {0})
  unfolding handle_publish handle_response handle_service
  handle_message (text s) c = elim (from_text s) [
    | none ↦ (c, ok tt)
    | some v ↦ (handle_value v c, ok tt)
  ]
  handle_message close c = (c, err closed)
  handle_message _ c = (c, ok tt)

  unfoldable pub spin_once : Read → Client → Client × Result BridgeError (Unit {0})
  unfolding handle_message
  spin_once (message msg) c = handle_message msg c
  spin_once read_error c = (c, err io_error)
  spin_once end_of_stream c = (c, err closed)
