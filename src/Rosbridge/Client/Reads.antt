-- ===== src/Rosbridge/Client/Reads.antt =====
-- What a client reads leaves its tables and what the server keeps as they agree.
use roslibrust.Base.{
  Bool, true, false, Option, none, some, List, Text, codes, get, member, Result, ok, err, panic,
  diverge, arith, Option-cases, Bool-cases, inl, inr,
}
use roslibrust.Rosbridge.Json.{Json, string, get_str, get_field}
use roslibrust.Rosbridge.Ops
use roslibrust.Rosbridge.Ops.{Op, BridgeError, from_str}
use roslibrust.Rosbridge.Comm
use roslibrust.Rosbridge.Comm.{Writer}
use roslibrust.Rosbridge.Client.{Client, ServiceCallback, wrote}
use roslibrust.Rosbridge.Client.Dispatch.{
  Message, text, close, ping, pong, other, Read, message, read_error, end_of_stream, handle_message,
  handle_publish, handle_response, handle_service, spin_once, respond, serve, by_op, handle_value,
  publish_to,
}
use roslibrust.Rosbridge.Client.Table.{listed, Agrees}

module _ (first : Bool) (name : Text) (from_text : Text → Option Json)
    (to_string : Json → Option Text) (to_text : Json → Text) (panic_text : Text) where
  abbrev Keeps : (Client → Client) → Type 0
  Keeps f = (c : Client) → Agrees first name c → Agrees first name (f c)

  response-Agrees :
      (topic : Text) (id : Option Text) (is_success : Bool) (response : Json)
      → Keeps
          (λ c. (wrote (tt {0}) c (Comm.service_response topic id is_success response c.writer)).0)
  unfolding listed
  response-Agrees topic id is_success response c a = record {
    publishers = ground (arith, a.publishers);
    listeners = ground (arith, a.listeners);
    exact = ground (arith, a.exact);
  }

  respond-Agrees :
      (topic : Text) (id : Option Text) (r : Result Text Json)
      → Keeps (respond from_text to_string to_text panic_text topic id r)
  respond-Agrees topic id (ok res) c a = response-Agrees topic id true res c a
  respond-Agrees topic id (err e) c a = response-Agrees topic id false (string e) c a
  respond-Agrees topic id panic c a = response-Agrees topic id false (string panic_text) c a
  respond-Agrees topic id diverge c a = a

  serve-Agrees :
      (topic : Text) (id : Option Text) (callback : ServiceCallback) (args : Option Json)
      → Keeps (serve from_text to_string to_text panic_text topic id callback args)
  serve-Agrees topic id callback none c a = a
  serve-Agrees topic id callback (some args) c a =
      respond-Agrees topic id (callback (to_text args)) c a

  handle_service-Agrees :
      (v : Json) → Keeps (handle_service from_text to_string to_text panic_text v)
  unfolding handle_service
  handle_service-Agrees v c a = elim (Option-cases (get_str (codes "service") v)) [
    | inl e ↦ rw (e, handle_service) a
    | inr (topic, e) ↦
        rw (e, handle_service)
          (elim (Option-cases (get topic c.services)) [
            | inl h ↦ rw h a
            | inr (callback, h) ↦ rw h (
                serve-Agrees topic (get_str (codes "id") v) callback (get_field (codes "args") v) c
                  a)
          ])
  ]

  publish_to-Agrees :
      (handles : List Text) (v : Option Json)
      → Keeps (publish_to from_text to_string to_text panic_text handles v)
  publish_to-Agrees handles none c a = a
  publish_to-Agrees handles (some v) c a = elim (Option-cases (to_string v)) [
    | inl e ↦ rw (e, publish_to) a
    | inr (msg, e) ↦
        rw (e, publish_to)
          (record { publishers = a.publishers; listeners = a.listeners; exact = a.exact })
  ]

  handle_publish-Agrees :
      (v : Json) → Keeps (handle_publish from_text to_string to_text panic_text v)
  unfolding handle_publish
  handle_publish-Agrees v c a = elim (Option-cases (get_str (codes "topic") v)) [
    | inl e ↦ rw (e, handle_publish) a
    | inr (topic, e) ↦
        rw (e, handle_publish)
          (elim (Option-cases (get topic c.subscriptions)) [
            | inl h ↦ rw h a
            | inr (s, h) ↦ rw h (publish_to-Agrees s.handles (get_field (codes "msg") v) c a)
          ])
  ]

  handle_response-Agrees :
      (v : Json) → Keeps (handle_response from_text to_string to_text panic_text v)
  unfolding handle_response
  handle_response-Agrees v c a = elim (Option-cases (get_str (codes "id") v)) [
    | inl e ↦ rw (e, handle_response) a
    | inr (id, e) ↦
        rw (e, handle_response)
          (elim (Bool-cases (member id c.service_calls)) [
            | inl h ↦
                rw h
                  (record { publishers = a.publishers; listeners = a.listeners; exact = a.exact })
            | inr h ↦ rw h a
          ])
  ]

  by_op-Agrees :
      (op : Result BridgeError Op) (v : Json)
      → Keeps (by_op from_text to_string to_text panic_text op v)
  by_op-Agrees (ok Ops.publish) v c a = handle_publish-Agrees v c a
  by_op-Agrees (ok Ops.service_response) v c a = handle_response-Agrees v c a
  by_op-Agrees (ok Ops.call_service) v c a = handle_service-Agrees v c a
  by_op-Agrees _ v c a = a

  handle_value-Agrees : (v : Json) → Keeps (handle_value from_text to_string to_text panic_text v)
  handle_value-Agrees v c a = elim (Option-cases (get_str (codes "op") v)) [
    | inl e ↦ rw (e, handle_value) a
    | inr (op, e) ↦ rw (e, handle_value) (by_op-Agrees (from_str op) v c a)
  ]

  handle_message-Agrees :
      (msg : Message) → Keeps (λ c. (handle_message from_text to_string to_text panic_text msg c).0)
  unfolding handle_message
  handle_message-Agrees (text s) c a = elim (Option-cases (from_text s)) [
    | inl e ↦ rw (e, handle_message) a
    | inr (v, e) ↦ rw (e, handle_message) (handle_value-Agrees v c a)
  ]
  handle_message-Agrees close c a = a
  handle_message-Agrees ping c a = a
  handle_message-Agrees pong c a = a
  handle_message-Agrees other c a = a

  pub spin_once-Agrees :
      (r : Read) → Keeps (λ c. (spin_once from_text to_string to_text panic_text r c).0)
  unfolding spin_once
  spin_once-Agrees (message msg) c a = handle_message-Agrees msg c a
  spin_once-Agrees read_error c a = a
  spin_once-Agrees end_of_stream c a = a
