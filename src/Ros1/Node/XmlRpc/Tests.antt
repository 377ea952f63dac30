-- ===== src/Ros1/Node/XmlRpc/Tests.antt =====
-- A node that is asked for its topics.
use roslibrust.Base.{some, ◌≡◌, refl, true, List, [], ◌∷◌, ◌++◌, Text, codes, decimal, get, ok}
use roslibrust.Ros1.Node.{new, register_publisher}
use roslibrust.Ros1.Node.XmlRpc.{request_topic, success, protocol_params, respond_inner}
use roslibrust.Ros1.Node.XmlRpc.Topics.{request_topic-register_publisher}

abbrev protocols : List (List Text)
protocols = (codes "UDPROS" ∷ []) ∷ (codes "TCPROS" ∷ []) ∷ []

request_topic-register_publisher_example :
    respond_inner
      (codes "http://m")
      7
      (λ c. true)
      (request_topic (some (codes "/l", codes "/chatter", protocols)))
      (register_publisher
        (codes "/chatter")
        (codes "std_msgs/String")
        (ok 40000)
        (ok tt)
        (new (codes "robot"))).1
    ≡ ok (
      success
          (codes "ready on " ++ (codes "robot" ++ (codes ":" ++ decimal 40000)))
          (protocol_params (codes "TCPROS") (codes "robot") 40000),
      (register_publisher
          (codes "/chatter")
          (codes "std_msgs/String")
          (ok 40000)
          (ok tt)
          (new (codes "robot"))).1,
    )
unfolding get
request_topic-register_publisher_example =
    request_topic-register_publisher (codes "http://m") (codes "/l") (codes "/chatter")
      (codes "std_msgs/String") 7 40000 (λ c. true) protocols (ok tt) (new (codes "robot")) refl
      refl
