-- ===== src/Ros1/Node/History.antt =====
-- The histories of a node: what its operations can lead to, and that the tracking survives.
use roslibrust.Base.{ℕ, ◌≡◌, refl, false, List, Text, Result, ok, contains_key}
use roslibrust.Ros1.Master.{published, subscribed, provided}
use roslibrust.Ros1.Node.{
  Node, NodeError, new, register_subscriber, drop_subscriber, unregister_subscriber,
  register_publisher, drop_publisher, unregister_publisher, register_service_server,
  unregister_service_server,
}
use roslibrust.Ros1.Node.Tracking.{
  IsTracked, register_publisher-IsTracked, register_subscriber-IsTracked,
  register_service_server-IsTracked, drop_subscriber-IsTracked, drop_publisher-IsTracked,
  unregister_publisher-IsTracked, unregister_subscriber-IsTracked,
  unregister_service_server-IsTracked,
}

-- One operation of the node. Registrations may fail in any way, but for those of services;
-- clean-up calls are accepted; no service's type is the name of another service of the node.
pub data Step : Node → Node → Type 0 where
  registers_publisher :
      {node : Node} (topic topic_type : Text) (bound : Result NodeError ℕ)
      (answer : Result NodeError (Unit {0}))
      → Step node (register_publisher topic topic_type bound answer node).1
  registers_subscriber :
      {node : Node} (topic topic_type : Text) (answer : Result NodeError (List Text))
      → Step node (register_subscriber topic topic_type answer node).1
  registers_service :
      {node : Node} (service service_type : Text) (bound : Result NodeError ℕ)
      → contains_key service_type node.service_servers ≡ false
      → Step node (register_service_server service service_type bound (ok tt) node).1
  drops_publisher : {node : Node} (topic : Text) → Step node (drop_publisher topic node)
  drops_subscriber : {node : Node} (topic : Text) → Step node (drop_subscriber topic node)
  unregisters_publisher :
      {node : Node} (topic : Text) → Step node (unregister_publisher topic (ok tt) node).1
  unregisters_subscriber :
      {node : Node} (topic : Text) → Step node (unregister_subscriber topic (ok tt) node).1
  unregisters_service :
      {node : Node} (name : Text) → Step node (unregister_service_server name (ok tt) node).1

pub data Reach (start : Node) : Node → Type 0 where
  here : Reach start start
  next : {a b : Node} → Reach start a → Step a b → Reach start b

Step-IsTracked : {a b : Node} → Step a b → IsTracked a → IsTracked b
Step-IsTracked (registers_publisher {node = n} t ty bound answer) k =
    register_publisher-IsTracked n t ty k bound answer
Step-IsTracked (registers_subscriber {node = n} t ty answer) k =
    register_subscriber-IsTracked n t ty k answer
Step-IsTracked (registers_service {node = n} s ty bound free) k =
    register_service_server-IsTracked n s ty k bound (ok tt) free refl
Step-IsTracked (drops_publisher {node = n} t) k = drop_publisher-IsTracked n t k
Step-IsTracked (drops_subscriber {node = n} t) k = drop_subscriber-IsTracked n t k
Step-IsTracked (unregisters_publisher {node = n} t) k = unregister_publisher-IsTracked n t k
Step-IsTracked (unregisters_subscriber {node = n} t) k = unregister_subscriber-IsTracked n t k
Step-IsTracked (unregisters_service {node = n} s) k = unregister_service_server-IsTracked n s k

pub new-IsTracked : (hostname : Text) → IsTracked (new hostname)
unfolding published subscribed provided
new-IsTracked hostname = record {
  publishers = λ t h. cc;
  subscriptions = λ t h. cc;
  services = λ n u h. cc;
}

pub Reach-IsTracked : {a b : Node} → IsTracked a → Reach a b → IsTracked b
Reach-IsTracked k here = k
Reach-IsTracked k (next r s) = Step-IsTracked s (Reach-IsTracked k r)
