-- ===== src/Ros1/Node/Tracking.antt =====
-- What the master lists of this node is in the node's maps, as long as the master accepts the
-- node's clean-up calls.
use roslibrust.Base.{
  ℕ, ◌≡◌, true, false, Option, none, some, List, arith, Text, text_eq_iff, Result, ok, get,
  contains_key, get-insert, get-remove,
}
use roslibrust.Ros1.Master.{published, subscribed, provided}
use roslibrust.Ros1.Node.{
  Node, NodeError, ServiceServerLink, service_uri, register_subscriber, drop_subscriber,
  unregister_subscriber, register_publisher, drop_publisher, unregister_publisher,
  register_service_server, unregister_service_server,
}

abbrev pub uri_of : Text → Option ServiceServerLink → Option Text
uri_of hostname none = none
uri_of hostname (some link) = some (service_uri hostname link.port)

-- The address of a service of the node.
unfoldable pub listed_uri : Node → Text → Option Text
listed_uri node name = uri_of node.hostname (get name node.service_servers)

pub record IsTracked (node : Node) : Type 0 where
  pub publishers : (t : Text) → published t node.log ≡ true → contains_key t node.publishers ≡ true
  pub subscriptions :
      (t : Text) → subscribed t node.log ≡ true → contains_key t node.subscriptions ≡ true
  pub services : (n u : Text) → provided n node.log ≡ some u → listed_uri node n ≡ some u

module _ (node : Node) (topic topic_type : Text) (k : IsTracked node) where
  pub register_publisher-IsTracked :
      (bound : Result NodeError ℕ) (answer : Result NodeError (Unit {0}))
      → IsTracked (register_publisher topic topic_type bound answer node).1
  unfolding register_publisher published subscribed provided listed_uri
  register_publisher-IsTracked bound answer = record {
    publishers = λ t h. grind (arith, get-insert, k.publishers t);
    subscriptions = λ t h. ground (arith, k.subscriptions t);
    services = λ n u h. ground (arith, k.services n u);
  }

  pub register_subscriber-IsTracked :
      (answer : Result NodeError (List Text))
      → IsTracked (register_subscriber topic topic_type answer node).1
  unfolding register_subscriber published subscribed provided listed_uri
  register_subscriber-IsTracked answer = record {
    publishers = λ t h. ground (arith, k.publishers t);
    subscriptions = λ t h. grind (arith, get-insert, k.subscriptions t);
    services = λ n u h. ground (arith, k.services n u);
  }

  -- `service_type` is no key: the branch that finds an entry under the type is not taken.
  pub register_service_server-IsTracked :
      (bound : Result NodeError ℕ) (answer : Result NodeError (Unit {0}))
      → contains_key topic_type node.service_servers ≡ false
      → answer ≡ ok tt
      → IsTracked (register_service_server topic topic_type bound answer node).1
  unfolding register_service_server published subscribed provided listed_uri
  register_service_server-IsTracked bound answer free accepted = record {
    publishers = λ t h. ground (arith, k.publishers t);
    subscriptions = λ t h. ground (arith, k.subscriptions t);
    services = λ n u h. grind (arith, get-insert, k.services n u);
  }

module _ (node : Node) (topic : Text) (k : IsTracked node) where
  pub drop_subscriber-IsTracked : IsTracked (drop_subscriber topic node)
  unfolding drop_subscriber listed_uri
  drop_subscriber-IsTracked = record {
    publishers = λ t h. ground (arith, k.publishers t);
    subscriptions = λ t h. grind (arith, get-insert, k.subscriptions t);
    services = λ n u h. ground (arith, k.services n u);
  }

  pub drop_publisher-IsTracked : IsTracked (drop_publisher topic node)
  unfolding drop_publisher listed_uri
  drop_publisher-IsTracked = record {
    publishers = λ t h. grind (arith, get-insert, k.publishers t);
    subscriptions = λ t h. ground (arith, k.subscriptions t);
    services = λ n u h. ground (arith, k.services n u);
  }

  pub unregister_publisher-IsTracked : IsTracked (unregister_publisher topic (ok tt) node).1
  unfolding unregister_publisher published subscribed provided listed_uri
  unregister_publisher-IsTracked = record {
    publishers = λ t h. grind (arith, get-remove, k.publishers t);
    subscriptions = λ t h. ground (arith, k.subscriptions t);
    services = λ n u h. ground (arith, k.services n u);
  }

  pub unregister_subscriber-IsTracked : IsTracked (unregister_subscriber topic (ok tt) node).1
  unfolding unregister_subscriber published subscribed provided listed_uri
  unregister_subscriber-IsTracked = record {
    publishers = λ t h. ground (arith, k.publishers t);
    subscriptions = λ t h. grind (arith, get-remove, k.subscriptions t);
    services = λ n u h. ground (arith, k.services n u);
  }

  pub unregister_service_server-IsTracked :
      IsTracked (unregister_service_server topic (ok tt) node).1
  unfolding unregister_service_server published subscribed provided listed_uri
  unregister_service_server-IsTracked = record {
    publishers = λ t h. ground (arith, k.publishers t);
    subscriptions = λ t h. ground (arith, k.subscriptions t);
    services = λ n u h. grind (arith, get-remove, k.services n u, k.services topic, text_eq_iff);
  }
