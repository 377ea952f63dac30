-- ===== src/Ros1/Master/Client.antt =====
-- `MasterClient` of roslibrust_ros1/src/master_client.rs: the requests that it sends to the ROS
-- master and what it makes of the answers.
use roslibrust.Base.{
  ℕ, ◌==◌, Bool, false, Option, none, some, List, [], ◌∷◌, map, any, Text, codes, text_eq,
  if◌then◌else◌, Result, ok, err, ◌>>=◌,
}

pub data RosMasterError : Type 0 where
  invalid_xml_rpc_header invalid_xml_rpc_message server_communication_failure : RosMasterError
  master_error : Text → RosMasterError
  host_io_error host_ip_resolution_failure : RosMasterError

-- The identifiers that go with each request; the address of the master is the transport's.
pub record MasterClient : Type 0 where
  pub client_uri : Text
  pub id : Text

pub record Request : Type 0 where
  pub method_name : Text
  pub args : List Text

-- What XML-RPC over HTTP makes of a request: the status code, as the byte of the `i8`, the message
-- and the data of the answer, or an error, also where the request or the answer does not fit.
abbrev pub Transport {ℓ} : Type ℓ → Type ℓ
Transport T = Request → Result RosMasterError (ℕ × Text × T)

pub record StateEntry : Type 0 where
  pub topic : Text
  pub nodes : List Text

pub record SystemState : Type 0 where
  pub publishers : List StateEntry
  pub subscribers : List StateEntry
  pub service_providers : List StateEntry

unfoldable pub find_entry : Text → List StateEntry → Option StateEntry
find_entry topic [] = none
find_entry topic (entry ∷ entries) =
    if text_eq entry.topic topic then some entry else find_entry topic entries

-- The test that `is_publishing`, `is_subscribed` and `is_service_provider` make of their lists.
unfoldable pub has_node : Text → Text → List StateEntry → Bool
has_node topic node entries = elim (find_entry topic entries) [
  | none ↦ false
  | some entry ↦ any (λ name. text_eq name node) entry.nodes
]

unfoldable pub is_publishing : Text → Text → SystemState → Bool
is_publishing topic node state = has_node topic node state.publishers

unfoldable pub is_subscribed : Text → Text → SystemState → Bool
is_subscribed topic node state = has_node topic node state.subscribers

unfoldable pub is_service_provider : Text → Text → SystemState → Bool
is_service_provider topic node state = has_node topic node state.service_providers

unfoldable pub service_names : SystemState → List Text
service_names state = map (λ (entry : StateEntry). entry.topic) state.service_providers

unfoldable pub post {ℓ} : {T : Type ℓ} → Transport T → Request → Result RosMasterError T
post send request =
    send request >>= λ answer. if answer.0 == 1 then ok answer.2 else err (master_error answer.1)

unfoldable pub get_uri : Transport Text → MasterClient → Result RosMasterError Text
get_uri send client = post send (record { method_name = codes "getUri"; args = client.id ∷ [] })

unfoldable pub new : Transport Text → Text → Text → Result RosMasterError MasterClient
new send client_uri id =
    let client : MasterClient = record { client_uri = client_uri; id = id } in
    get_uri send client >>= λ uri. ok client

unfoldable pub register_subscriber :
    Transport (List Text) → Text → Text → MasterClient → Result RosMasterError (List Text)
register_subscriber send topic topic_type client = post send (record {
  method_name = codes "registerSubscriber";
  args = client.id ∷ topic ∷ topic_type ∷ client.client_uri ∷ [];
})

unfoldable pub unregister_subscriber :
    Transport ℕ → Text → MasterClient → Result RosMasterError Bool
unregister_subscriber send topic client =
    post send (record {
      method_name = codes "unregisterSubscriber";
      args = client.id ∷ topic ∷ client.client_uri ∷ [];
    })
    >>= λ x. ok (x == 1)

unfoldable pub register_publisher :
    Transport (List Text) → Text → Text → MasterClient → Result RosMasterError (List Text)
register_publisher send topic topic_type client = post send (record {
  method_name = codes "registerPublisher";
  args = client.id ∷ topic ∷ topic_type ∷ client.client_uri ∷ [];
})

unfoldable pub unregister_publisher : Transport ℕ → Text → MasterClient → Result RosMasterError Bool
unregister_publisher send topic client =
    post send (record {
      method_name = codes "unregisterPublisher";
      args = client.id ∷ topic ∷ client.client_uri ∷ [];
    })
    >>= λ x. ok (x == 1)

unfoldable pub register_service :
    Transport ℕ → Text → Text → MasterClient → Result RosMasterError (Unit {0})
register_service send service service_uri client =
    post send (record {
      method_name = codes "registerService";
      args = client.id ∷ service ∷ service_uri ∷ client.client_uri ∷ [];
    })
    >>= λ x. ok tt

unfoldable pub unregister_service :
    Transport ℕ → Text → Text → MasterClient → Result RosMasterError Bool
unregister_service send service service_uri client =
    post send (record {
      method_name = codes "unregisterService";
      args = client.id ∷ service ∷ service_uri ∷ [];
    })
    >>= λ x. ok (x == 1)

unfoldable pub lookup_service : Transport Text → Text → MasterClient → Result RosMasterError Text
lookup_service send service_name client =
    post send (record { method_name = codes "lookupService"; args = client.id ∷ service_name ∷ [] })

abbrev pub Table : Type 0
Table = List (Text × List Text)

unfoldable pub entries : Table → List StateEntry
entries [] = []
entries ((topic, nodes) ∷ table) = record { topic = topic; nodes = nodes } ∷ entries table

-- The three `pop`s take the list from its end.
unfoldable pub system_state : List Table → Result RosMasterError SystemState
system_state (publishers ∷ subscribers ∷ service_providers ∷ []) = ok (record {
  publishers = entries publishers;
  subscribers = entries subscribers;
  service_providers = entries service_providers;
})
system_state _ = err invalid_xml_rpc_header

unfoldable pub get_system_state :
    Transport (List Table) → MasterClient → Result RosMasterError SystemState
get_system_state send client =
    post send (record { method_name = codes "getSystemState"; args = client.id ∷ [] })
    >>= system_state
