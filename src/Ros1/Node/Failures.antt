-- ===== src/Ros1/Node/Failures.antt =====
-- Where the node's maps and the master part ways.
use roslibrust.Base.{◌≡◌, ◌∙◌, Bool, true, arith, Text, text_eq_iff, err, get-remove}
use roslibrust.Ros1.Master.{Call, published}
use roslibrust.Ros1.Node.{Node, NodeError, unregister_publisher, shutdown}
use roslibrust.Ros1.Node.Shutdown.{published-shutdown}

-- A publisher whose removal the master refuses is forgotten by the node all the same, so that a
-- later `shutdown` leaves it at the master, even if that accepts every call.
pub unregister_publisher_forgets :
    (node : Node) (topic : Text) (e : NodeError) (accepts : Call → Bool)
    → published topic node.log ≡ true
    → ((c : Call) → accepts c ≡ true)
    → published topic (shutdown accepts (unregister_publisher topic (err e) node).1).log ≡ true
unregister_publisher_forgets node topic e accepts listed all_accepted =
    published-shutdown accepts all_accepted _ topic
    ∙ unfold unregister_publisher published in
      rw (get-remove topic topic node.publishers) (ground (arith, text_eq_iff topic topic))
