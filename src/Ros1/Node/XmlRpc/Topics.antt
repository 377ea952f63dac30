-- ===== src/Ros1/Node/XmlRpc/Topics.antt =====
-- What a node answers to those who want to connect to its topics.
use roslibrust.Base.{
  ℕ, ◌≡◌, refl, ap, sym, subst, ◌∙◌, Bool, true, none, some, List, ◌++◌, any, Text, codes, text_eq,
  text_eq_refl, decimal, get, get-insert, if◌then◌else◌, Result, ok,
}
use roslibrust.Ros1.Master.{Call}
use roslibrust.Ros1.Node.{is_ok, NodeError, new_publication, Publication, Node, register_publisher}
use roslibrust.Ros1.Node.XmlRpc.{
  request_topic, success, protocol_params, flatten, answer_request_topic, respond_inner,
}

-- A topic that the node publishes is told with its port.
answer_request_topic-published :
    (topic : Text) (protocols : List (List Text)) (node : Node) (publication : Publication)
    → get topic node.publishers ≡ some publication
    → any (λ proto. text_eq proto (codes "TCPROS")) (flatten protocols) ≡ true
    → answer_request_topic topic protocols node
      ≡ success
          (codes "ready on " ++ (node.hostname ++ (codes ":" ++ decimal publication.listener_port)))
          (protocol_params (codes "TCPROS") node.hostname publication.listener_port)
unfolding answer_request_topic
answer_request_topic-published topic protocols node publication there tcpros =
    rw (tcpros, there, answer_request_topic) refl

-- A node that has just registered a publisher of a new topic tells all who ask for the topic over
-- TCPROS the port that its listener got, and stays as it is.
pub request_topic-register_publisher :
    (master_uri caller topic topic_type : Text) (pid port : ℕ) (accepts : Call → Bool)
    (protocols : List (List Text)) (answer : Result NodeError (Unit {0})) (node : Node)
    → get topic node.publishers ≡ none
    → any (λ proto. text_eq proto (codes "TCPROS")) (flatten protocols) ≡ true
    → respond_inner master_uri pid accepts
        (request_topic (some (caller, topic, protocols)))
        (register_publisher topic topic_type (ok port) answer node).1
      ≡ ok (
        success
            (codes "ready on " ++ (node.hostname ++ (codes ":" ++ decimal port)))
            (protocol_params (codes "TCPROS") node.hostname port),
        (register_publisher topic topic_type (ok port) answer node).1,
      )
unfolding respond_inner register_publisher new_publication
request_topic-register_publisher master_uri caller topic topic_type pid port accepts protocols
      answer node new tcpros =
    let node1 = (new_publication topic topic_type (ok port) answer node).1 in
    let step : (register_publisher topic topic_type (ok port) answer node).1 ≡ node1 =
      rw (new, register_publisher) refl in
    subst
      (λ n.
        respond_inner master_uri pid accepts (request_topic (some (caller, topic, protocols))) n
        ≡ ok (
          success (codes "ready on " ++ (node.hostname ++ (codes ":" ++ decimal port)))
              (protocol_params (codes "TCPROS") node.hostname port),
          n,
        ))
      (sym step)
      (ap (λ r. ok (r, node1))
        (answer_request_topic-published topic protocols node1
          (record {
            topic_type = topic_type;
            listener_port = port;
            shutdown_senders = if is_ok answer then 1 else 0;
          })
          (get-insert topic topic _ node.publishers ∙ rw (text_eq_refl topic) refl) tcpros))
