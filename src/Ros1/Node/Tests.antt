-- ===== src/Ros1/Node/Tests.antt =====
-- Runs of the node, and the theorems at concrete inputs.
use roslibrust.Base.{◌≡◌, refl, true, some, [], ◌∷◌, Text, codes, ok, err, get, arith, insert}
use roslibrust.Ros1.Master.{published}
use roslibrust.Ros1.Node.{
  Node, new, add_publisher_sources, addr_in_use, ros_master_error, Publication, Subscription,
  register_publisher, register_subscriber, register_service_server, shutdown, unregister_publisher,
}
use roslibrust.Ros1.Node.History.{here, next, registers_publisher, registers_service}
use roslibrust.Ros1.Node.Shutdown.{IsForgotten, shutdown_leaves_nothing}
use roslibrust.Ros1.Node.Failures.{unregister_publisher_forgets}
use roslibrust.Ros1.Node.Sharing.{subscribes, drops, run, run-StaysHeld}

abbrev chatter : Text
chatter = codes "/chatter"

abbrev string_type : Text
string_type = codes "std_msgs/String"

-- A node with one publisher.
abbrev talker : Node
talker = (register_publisher chatter string_type (ok 40001) (ok tt) (new (codes "host"))).1

-- A node with one service.
abbrev adder : Node
adder =
    (register_service_server (codes "/add") (codes "std_srvs/Trigger") (ok 40002) (ok tt)
      (new (codes "host"))).1

-- A node with one subscriber.
abbrev listener : Node
listener = (register_subscriber chatter string_type (ok []) (new (codes "host"))).1

publisher_is_listed : published chatter talker.log ≡ true
unfolding register_publisher published get
publisher_is_listed = refl

other_type_is_refused :
    (register_publisher chatter (codes "std_msgs/Int8") (ok 40003) (ok tt) talker).0
    ≡ err addr_in_use
unfolding register_publisher get insert
other_type_is_refused = refl

-- A publisher that the master refuses leaves an entry with a closed channel.
refused_publisher_blocks_its_topic :
    let after =
      (register_publisher chatter string_type (ok 40001) (err ros_master_error) (new [])).1 in
    (register_publisher chatter string_type (ok 40003) (ok tt) after).0 ≡ err addr_in_use
unfolding register_publisher get insert
refused_publisher_blocks_its_topic = refl

shutdown_leaves_nothing_example :
    IsForgotten
      (shutdown
        (λ c. true)
        (register_service_server
          (codes "/add")
          (codes "std_srvs/Trigger")
          (ok 40002)
          (ok tt)
          talker).1).log
unfolding get register_publisher
shutdown_leaves_nothing_example =
    shutdown_leaves_nothing (codes "host") (λ c. true)
      (next (next here (registers_publisher chatter string_type (ok 40001) (ok tt)))
        (registers_service (codes "/add") (codes "std_srvs/Trigger") (ok 40002) refl))
      (λ c. refl)

unregister_publisher_forgets_example :
    published chatter
      (shutdown (λ c. true) (unregister_publisher chatter (err ros_master_error) talker).1).log
    ≡ true
unfolding register_publisher published get
unregister_publisher_forgets_example =
    unregister_publisher_forgets talker chatter ros_master_error (λ c. true) refl (λ c. refl)

abbrev one_handle : Publication
one_handle = record { topic_type = string_type; listener_port = 40001; shutdown_senders = 1 }

abbrev one_reader : Subscription
one_reader = record { topic_type = string_type; connections = []; receiver_count = 2 }

run-StaysHeld_example :
    ((run chatter string_type (subscribes ∷ drops ∷ subscribes ∷ []) listener).log ≡ listener.log)
    × (get chatter
          (run chatter string_type (subscribes ∷ drops ∷ subscribes ∷ []) listener).subscriptions
        ≡ some (record one_reader { receiver_count = 3 }))
unfolding register_subscriber get insert add_publisher_sources
run-StaysHeld_example =
    run-StaysHeld chatter string_type (subscribes ∷ drops ∷ subscribes ∷ []) 1 listener one_reader
      refl refl (omega arith)
