-- ===== src/Rosbridge/Client/Tests.antt =====
-- The client on concrete histories and messages.
use roslibrust.Base.{
  ◌≡◌, refl, true, false, not, ◌||◌, Option, none, some, [], ◌∷◌, Text, codes, text_eq,
  if◌then◌else◌, get, insert, contains_key, ok, err, arith,
}
use roslibrust.Rosbridge.Json.{Json, string, null, object, field, end, as_str}
use roslibrust.Rosbridge.Ops.{connection_reset, call_timed_out}
use roslibrust.Rosbridge.Client.{
  Client, new, advertise, subscribe, unsubscribe, reconnect, retry_reconnect, start_call,
  advertise_all, subscribe_all, time_out_call, await_call, spin_failed,
}
use roslibrust.Rosbridge.Client.Dispatch.{text, message, spin_once}
use roslibrust.Rosbridge.Client.Table.{advertised, subscribed, served, has_handle, listed}
use roslibrust.Rosbridge.Client.Histories
use roslibrust.Rosbridge.Client.Histories.{Step, Reach, Reach-advertised, Reach-served}
use roslibrust.Rosbridge.Client.Retry.{retry_reconnect-connected}
use roslibrust.Rosbridge.Client.Calls.{response-await_call, late_response-ignored}
use roslibrust.Rosbridge.Client.Delivery.{publish-received, received}

abbrev chatter : Text
chatter = codes "/chatter"

abbrev string_type : Text
string_type = codes "std_msgs/String"

abbrev reply : Json
reply = object (
    field (codes "op") (string (codes "service_response"))
      (field (codes "id") (string (codes "c1")) (field (codes "values") (string (codes "42")) end)))

abbrev news : Json
news = object (
    field (codes "op") (string (codes "publish"))
      (field (codes "topic") (string chatter) (field (codes "msg") (string (codes "hi")) end)))

abbrev parse : Text → Option Json
parse s =
    if text_eq s (codes "reply")
    then some reply
    else if text_eq s (codes "news")
    then some news
    else none

abbrev print : Json → Text
print v = codes "hi"

-- A publisher and a subscriber on a connection that takes eight messages.
abbrev talking : Client
talking = (subscribe chatter string_type (codes "s1") (advertise chatter string_type (new 8)).0).0

talking-Reach : Reach parse as_str print (codes "panic") true talking
talking-Reach =
    Histories.acts
      (Histories.acts (Histories.start 8) (Histories.advertises chatter string_type (new 8)))
      (Histories.subscribes chatter string_type (codes "s1")
        (advertise chatter string_type (new 8)).0)

Reach-advertised_example :
    (advertised chatter (reconnect 4 (spin_failed talking)).0.writer.sent
      ≡ contains_key chatter (reconnect 4 (spin_failed talking)).0.publishers)
    × ((not (has_handle chatter (reconnect 4 (spin_failed talking)).0.subscriptions)
          || subscribed chatter (reconnect 4 (spin_failed talking)).0.writer.sent)
        ≡ true)
unfolding subscribe advertise reconnect advertise_all subscribe_all get insert
Reach-advertised_example =
    Reach-advertised parse as_str print (codes "panic") chatter
      (Histories.reconnects 4 (Histories.acts talking-Reach (Histories.loses talking)) refl)
      (omega arith)

Reach-served_example :
    (subscribed chatter talking.writer.sent ≡ has_handle chatter talking.subscriptions)
    × (served chatter talking.writer.sent ≡ contains_key chatter talking.services)
unfolding subscribe advertise get insert
Reach-served_example =
    Reach-served parse as_str print (codes "panic") chatter talking-Reach (omega arith)

-- The last subscriber of a topic was dropped.
abbrev quiet : Client
quiet = unsubscribe chatter (codes "s1") talking

-- A topic whose last subscriber was dropped is subscribed again by a reconnection.
quiet-subscribed :
    (has_handle chatter quiet.subscriptions ≡ false)
    × (subscribed chatter quiet.writer.sent ≡ false)
    × (subscribed chatter (reconnect 4 quiet).0.writer.sent ≡ true)
unfolding subscribe advertise unsubscribe reconnect advertise_all subscribe_all get insert listed
quiet-subscribed = (refl, refl, refl)

retry_reconnect-connected_example :
    (retry_reconnect (0 ∷ 1 ∷ 2 ∷ 9 ∷ []) (spin_failed talking)).is_disconnected ≡ false
unfolding subscribe advertise get insert
retry_reconnect-connected_example =
    retry_reconnect-connected (0 ∷ 1 ∷ []) 2 (9 ∷ []) (spin_failed talking) (omega arith)

abbrev calling : Client
calling =
    (start_call (codes "add") (codes "c2") null
      (start_call (codes "add") (codes "c1") null talking).0).0

response-await_call_example :
    (await_call as_str
        (codes "c1")
        (spin_once parse as_str print (codes "panic") (message (text (codes "reply"))) calling).0
      ≡ some (ok (codes "42")))
    × (await_call as_str
          (codes "c2")
          (spin_once parse as_str print (codes "panic") (message (text (codes "reply"))) calling).0
        ≡ await_call as_str (codes "c2") calling)
    × ((spin_once parse as_str print
          (codes "panic")
          (message (text (codes "reply")))
          (spin_once parse as_str print
            (codes "panic")
            (message (text (codes "reply")))
            calling).0).0
        ≡ (spin_once parse as_str print (codes "panic") (message (text (codes "reply"))) calling).0)
unfolding subscribe advertise start_call get insert
response-await_call_example =
    response-await_call parse as_str print (codes "panic") as_str (codes "reply") (codes "c1") reply
      (string (codes "42")) calling (codes "c2")
      (record { parsed = refl; op = refl; for_id = refl; has_values = refl }) refl refl

late_response-ignored_example :
    ((time_out_call (codes "c1") calling).1 ≡ err call_timed_out)
    × ((spin_once parse as_str print
          (codes "panic")
          (message (text (codes "reply")))
          (time_out_call (codes "c1") calling).0).0
        ≡ (time_out_call (codes "c1") calling).0)
    × (await_call as_str (codes "c1") (spin_failed calling) ≡ some (err connection_reset))
    × ((spin_once parse as_str print
          (codes "panic")
          (message (text (codes "reply")))
          (spin_failed calling)).0
        ≡ spin_failed calling)
unfolding subscribe advertise start_call get insert
late_response-ignored_example =
    late_response-ignored parse as_str print (codes "panic") as_str (codes "reply") (codes "c1")
      reply (string (codes "42")) calling
      (record { parsed = refl; op = refl; for_id = refl; has_values = refl }) refl

publish-received_example :
    (received
        (codes "s1")
        (spin_once parse as_str print
          (codes "panic")
          (message (text (codes "news")))
          talking).0.deliveries
      ≡ codes "hi" ∷ [])
    × (record (spin_once parse as_str print
          (codes "panic")
          (message (text (codes "news")))
          talking).0 { deliveries = talking.deliveries }
        ≡ talking)
unfolding subscribe advertise get insert
publish-received_example =
    publish-received parse as_str print (codes "panic") (codes "news") chatter (codes "hi") news
      (string (codes "hi")) talking (codes "s1")
      (record { parsed = refl; op = refl; on_topic = refl; has_msg = refl; prints = refl })
