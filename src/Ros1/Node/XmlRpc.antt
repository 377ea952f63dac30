-- ===== src/Ros1/Node/XmlRpc.antt =====
-- `XmlRpcServer::respond_inner` of roslibrust_ros1/src/node/xmlrpc.rs, behind the parsing of the
-- request: what the node answers to the methods that other nodes call.
pub mod Topics
mod Tests
use roslibrust.Base.{
  ℕ, Bool, true, false, Option, none, some, List, [], ◌∷◌, ◌++◌, any, Text, codes, text_eq, decimal,
  Map, get, insert, member, if◌then◌else◌, Result, ok, err, panic, ltb, ◌^◌,
}
use roslibrust.Ros1.Master.{Call}
use roslibrust.Ros1.Node.{Publication, Subscription, Node, add_publisher_sources, shutdown}

-- A method with its arguments, which are `none` where they are not of the types that it wants.
pub data Request : Type 0 where
  get_master_uri get_pid get_subscriptions get_publications param_update : Request
  publisher_update : Option (Text × Text × List Text) → Request
  request_topic : Option (Text × Text × List (List Text)) → Request
  shut_down : Option (Text × Text) → Request
  unknown : Text → Request

pub data StatusCode : Type 0 where
  bad_request not_found internal_server_error not_implemented : StatusCode

-- The values that the node sends.
pub data Value : Type 0 where
  text : Text → Value
  number : ℕ → Value
  pairs : List (Text × Text) → Value
  protocol_params : Text → Text → ℕ → Value

-- An answer with its status message, or a status code.
pub data Response : Type 0 where
  success : Text → Value → Response
  failure : StatusCode → Response

-- `topic_type()` of each entry, with its name.
unfoldable pub types_of {ℓ} : {V : Type ℓ} → (V → Text) → Map V → List (Text × Text)
types_of topic_type [] = []
types_of topic_type ((name, entry) ∷ rest) = (name, topic_type entry) ∷ types_of topic_type rest

-- `protocols.iter().flatten()`
abbrev pub flatten : List (List Text) → List Text
flatten [] = []
flatten (protocol ∷ protocols) = protocol ++ flatten protocols

unfoldable pub answer_request_topic : Text → List (List Text) → Node → Response
answer_request_topic topic protocols node =
    if any (λ proto. text_eq proto (codes "TCPROS")) (flatten protocols)
    then elim (get topic node.publishers) [
      | some publication ↦
          success
            (codes "ready on "
              ++ (node.hostname ++ (codes ":" ++ decimal publication.listener_port)))
            (protocol_params (codes "TCPROS") node.hostname publication.listener_port)
      | none ↦ failure not_found
    ]
    else failure bad_request

-- `remove_stale_publishers`: the URIs that are still named.
unfoldable pub named : List Text → List Text → List Text
named publishers [] = []
named publishers (uri ∷ uris) =
    let rest = named publishers uris in if member uri publishers then uri ∷ rest else rest

unfoldable pub update_publishers : Text → List Text → Node → Node
update_publishers topic publishers node = elim (get topic node.subscriptions) [
  | none ↦ node
  | some s ↦ record node {
    subscriptions =
        insert topic
          (record s {
            connections = add_publisher_sources publishers (named publishers s.connections);
          })
          node.subscriptions;
  }
]

-- `pid` is the operating system's, and `accepts` what the master answers to the calls of a shutdown,
-- whose task runs behind the answer.
unfoldable pub respond_inner :
    Text → ℕ → (Call → Bool) → Request → Node → Result StatusCode (Response × Node)
unfolding types_of answer_request_topic update_publishers
respond_inner master_uri pid accepts get_master_uri node = ok (success [] (text master_uri), node)
respond_inner master_uri pid accepts get_pid node =
    ok ((if ltb pid (2 ^ 31) then success [] (number pid) else failure internal_server_error), node)
respond_inner master_uri pid accepts get_subscriptions node =
    ok (success [] (pairs (types_of (λ (s : Subscription). s.topic_type) node.subscriptions)), node)
respond_inner master_uri pid accepts get_publications node =
    ok (success [] (pairs (types_of (λ (p : Publication). p.topic_type) node.publishers)), node)
respond_inner master_uri pid accepts param_update node = panic
respond_inner master_uri pid accepts (publisher_update none) node = ok (failure bad_request, node)
respond_inner master_uri pid accepts (publisher_update (some (caller, topic, publishers))) node =
    ok (success [] (number 0), update_publishers topic publishers node)
respond_inner master_uri pid accepts (request_topic none) node = ok (failure bad_request, node)
respond_inner master_uri pid accepts (request_topic (some (caller, topic, protocols))) node =
    ok (answer_request_topic topic protocols node, node)
respond_inner master_uri pid accepts (shut_down none) node = ok (failure bad_request, node)
respond_inner master_uri pid accepts (shut_down (some (caller, msg))) node =
    ok (success [] (number 0), shutdown accepts node)
respond_inner master_uri pid accepts (unknown method_name) node = ok (failure not_implemented, node)
