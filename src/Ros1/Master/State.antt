-- ===== src/Ros1/Master/State.antt =====
-- The state of the system as the master tells it.
use roslibrust.Base.{
  ◌≡◌, refl, ap, Bool, false, none, some, List, [], ◌∷◌, Text, codes, text_eq, get, member, keys,
  arith, ok, any, map,
}
use roslibrust.Ros1.Master.Client.{
  MasterClient, Table, Transport, SystemState, StateEntry, find_entry, has_node, is_publishing,
  is_subscribed, is_service_provider, service_names, post, entries, system_state, get_system_state,
}

-- Does the table of the master name the node at the topic?
unfoldable pub listed : Text → Text → Table → Bool
listed topic node table = elim (get topic table) [ none ↦ false | some nodes ↦ member node nodes ]

any-member :
    (node : Text) (nodes : List Text) → any (λ name. text_eq name node) nodes ≡ member node nodes
any-member node [] = refl
any-member node (n ∷ nodes) = ground (arith, any-member node nodes)

has_node-entries :
    (topic node : Text) (table : Table)
    → has_node topic node (entries table) ≡ listed topic node table
unfolding has_node find_entry entries listed get
has_node-entries topic node [] = refl
has_node-entries topic node ((t, nodes) ∷ table) =
    ground (arith, any-member node nodes, has_node-entries topic node table)

topics-entries :
    (table : Table) → map (λ (entry : StateEntry). entry.topic) (entries table) ≡ keys table
unfolding entries keys
topics-entries [] = refl
topics-entries ((t, nodes) ∷ table) = ap (λ ts. t ∷ ts) (topics-entries table)

-- If the master answers a request for its state with the tables of the publishers, subscribers and
-- services, in this order, the client gets a state that tells of each node and topic what the
-- tables do, and the services by their names.
pub get_system_state-tables :
    (send : Transport (List Table)) (client : MasterClient) (msg : Text)
    (publishers subscribers services : Table)
    → send (record { method_name = codes "getSystemState"; args = client.id ∷ [] })
      ≡ ok (1, msg, publishers ∷ subscribers ∷ services ∷ [])
    → (state : SystemState) × (get_system_state send client ≡ ok state)
      × ((topic node : Text)
          → (is_publishing topic node state ≡ listed topic node publishers)
            × (is_subscribed topic node state ≡ listed topic node subscribers)
            × (is_service_provider topic node state ≡ listed topic node services))
      × (service_names state ≡ keys services)
unfolding get_system_state post system_state is_publishing is_subscribed is_service_provider
    service_names
get_system_state-tables send client msg publishers subscribers services answer = (
  _,
  rw (answer) refl,
  λ topic node. (
    has_node-entries topic node publishers,
    has_node-entries topic node subscribers,
    has_node-entries topic node services,
  ),
  topics-entries services,
)
