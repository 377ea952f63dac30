-- ===== src/Ros1/Master/Tests.antt =====
-- A client whose master answers with one publisher and two services.
use roslibrust.Base.{◌≡◌, refl, List, [], ◌∷◌, Text, codes, keys, ok}
use roslibrust.Ros1.Master.Client.{
  MasterClient, Table, Transport, SystemState, is_publishing, is_subscribed, is_service_provider,
  service_names, get_system_state,
}
use roslibrust.Ros1.Master.State.{listed, get_system_state-tables}

abbrev talker : MasterClient
talker = record { client_uri = codes "http://h:4000"; id = codes "/talker" }

abbrev publishing : Table
publishing = (codes "/chatter", codes "/talker" ∷ []) ∷ []

abbrev serving : Table
serving = (codes "/add", codes "/adder" ∷ []) ∷ (codes "/mul", codes "/adder" ∷ []) ∷ []

abbrev answers : Transport (List Table)
answers request = ok (1, codes "ok", publishing ∷ [] ∷ serving ∷ [])

get_system_state-tables_example :
    (state : SystemState) × (get_system_state answers talker ≡ ok state)
    × ((topic node : Text)
        → (is_publishing topic node state ≡ listed topic node publishing)
          × (is_subscribed topic node state ≡ listed topic node [])
          × (is_service_provider topic node state ≡ listed topic node serving))
    × (service_names state ≡ keys serving)
get_system_state-tables_example =
    get_system_state-tables answers talker (codes "ok") publishing [] serving refl
