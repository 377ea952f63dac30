-- ===== src/Rosbridge/Client/Table.antt =====
-- What a rosbridge server keeps for a connection, read off the messages that the connection took,
-- and its agreement with the tables of the client.
use roslibrust.Base.{
  ◌<◌, ◌≡◌, Bool, true, false, ◌&&◌, Option, none, some, List, [], ◌∷◌, Text, String, codes,
  text_eq, text_eq_iff, Map, get, insert, contains_key, get-insert, get-remove, member,
  if◌then◌else◌, arith, Option-cases, Bool-cases, inl, inr, text_eq_refl,
}
use roslibrust.Rosbridge.Json.{Json, get_str}
use roslibrust.Rosbridge.Client.{
  Client, Subscription, ServiceCallback, subscribe, publish, advertise, start_call,
  advertise_service, unadvertise_service, unadvertise, unsubscribe, without, or_insert, add_handle,
  drop_handle,
}

abbrev is_text : Text → Option Text → Bool
is_text s none = false
is_text s (some t) = text_eq t s

-- A message with the operation and, under the key, the name.
abbrev mentions : String → String → Text → Json → Bool
mentions op key name v =
    is_text (codes op) (get_str (codes "op") v) && is_text name (get_str (codes key) v)

-- The latest message about the name adds it.
unfoldable pub listed : String → String → String → Text → List Json → Bool
listed adds removes key name [] = false
listed adds removes key name (v ∷ earlier) =
    let rest = listed adds removes key name earlier in
    if mentions adds key name v then true else if mentions removes key name v then false else rest

abbrev pub advertised : Text → List Json → Bool
advertised = listed "advertise" "unadvertise" "topic"

abbrev pub subscribed : Text → List Json → Bool
subscribed = listed "subscribe" "unsubscribe" "topic"

abbrev pub served : Text → List Json → Bool
served = listed "advertise_service" "unadvertise_service" "service"

abbrev has_some : Option Subscription → Bool
has_some none = false
has_some (some s) = elim s.handles [ [] ↦ false | i ∷ ids ↦ true ]

-- A topic has a subscriber.
abbrev pub has_handle : Text → Map Subscription → Bool
has_handle topic m = has_some (get topic m)

-- The agreement about one name while the connection takes messages: the server has the publishers of
-- the client and at least the topics with subscribers, and on the first connection these exactly,
-- and the services.
pub record Agrees (first : Bool) (name : Text) (c : Client) : Type 0 where
  pub publishers :
      0 < c.writer.capacity → advertised name c.writer.sent ≡ contains_key name c.publishers
  pub listeners :
      0 < c.writer.capacity
      → has_handle name c.subscriptions ≡ true
      → subscribed name c.writer.sent ≡ true
  pub exact :
      0 < c.writer.capacity
      → first ≡ true
      → (subscribed name c.writer.sent ≡ has_handle name c.subscriptions)
        × (served name c.writer.sent ≡ contains_key name c.services)

has_handle-added :
    (topic name topic_type id : Text) (m : Map Subscription)
    → has_handle name (add_handle topic id (or_insert topic topic_type m))
      ≡ (if text_eq topic name then true else has_handle name m)
has_handle-added topic name topic_type id m = elim (Option-cases (get topic m)) [
  | inl e ↦ ground (
    arith,
    e,
    get-insert topic topic (record { handles = []; topic_type = topic_type }) m,
    get-insert topic name (record { handles = []; topic_type = topic_type }) m,
    get-insert topic name (record { handles = id ∷ []; topic_type = topic_type })
        (insert topic (record { handles = []; topic_type = topic_type }) m),
    text_eq_refl topic,
  )
  | inr (s, e) ↦ ground (arith, e, get-insert topic name (record s { handles = id ∷ s.handles }) m)
]

module _ (first : Bool) (name : Text) where
  pub advertise-Agrees :
      (topic topic_type : Text) (c : Client)
      → Agrees first name c
      → Agrees first name (advertise topic topic_type c).0
  unfolding advertise listed
  advertise-Agrees topic topic_type c a = record {
    publishers = ground (arith, get-insert topic name topic_type c.publishers, a.publishers);
    listeners = ground (arith, a.listeners);
    exact = ground (arith, a.exact);
  }

  pub unadvertise-Agrees :
      (topic : Text) (c : Client) → Agrees first name c → Agrees first name (unadvertise topic c)
  unfolding unadvertise listed
  unadvertise-Agrees topic c a = record {
    publishers = ground (arith, get-remove topic name c.publishers, a.publishers);
    listeners = ground (arith, a.listeners);
    exact = ground (arith, a.exact);
  }

  pub subscribe-Agrees :
      (topic topic_type id : Text) (c : Client)
      → Agrees first name c
      → Agrees first name (subscribe topic topic_type id c).0
  unfolding subscribe listed
  subscribe-Agrees topic topic_type id c a = record {
    publishers = ground (arith, a.publishers);
    listeners =
        ground (arith, has_handle-added topic name topic_type id c.subscriptions, a.listeners);
    exact = ground (arith, has_handle-added topic name topic_type id c.subscriptions, a.exact);
  }

  pub publish-Agrees :
      (topic type_name : Text) (msg : Json) (c : Client)
      → Agrees first name c
      → Agrees first name (publish topic type_name msg c).0
  unfolding publish listed
  publish-Agrees topic type_name msg c a = record {
    publishers = ground (arith, a.publishers);
    listeners = ground (arith, a.listeners);
    exact = ground (arith, a.exact);
  }

  pub start_call-Agrees :
      (service id : Text) (req : Json) (c : Client)
      → Agrees first name c
      → Agrees first name (start_call service id req c).0
  unfolding start_call listed
  start_call-Agrees service id req c a = record {
    publishers = ground (arith, a.publishers);
    listeners = ground (arith, a.listeners);
    exact = ground (arith, a.exact);
  }

  pub advertise_service-Agrees :
      (topic srv_type : Text) (server : ServiceCallback) (c : Client)
      → Agrees first name c
      → Agrees first name (advertise_service topic srv_type server c).0
  unfolding advertise_service listed
  advertise_service-Agrees topic srv_type server c a = record {
    publishers = ground (arith, a.publishers);
    listeners = ground (arith, a.listeners);
    exact = ground (arith, get-insert topic name server c.services, a.exact);
  }

  pub unadvertise_service-Agrees :
      (topic : Text) (c : Client)
      → Agrees first name c
      → Agrees first name (unadvertise_service topic c)
  unfolding unadvertise_service listed
  unadvertise_service-Agrees topic c a = record {
    publishers = ground (arith, a.publishers);
    listeners = ground (arith, a.listeners);
    exact = ground (arith, get-remove topic name c.services, a.exact);
  }

  drop_handle-Agrees :
      (topic id : Text) (s : Subscription) (c : Client)
      → get topic c.subscriptions ≡ some s
      → member id s.handles ≡ true
      → Agrees first name c
      → Agrees first name (drop_handle topic id s c)
  unfolding listed
  drop_handle-Agrees topic id s c e h a = record {
    publishers = ground (arith, a.publishers);
    listeners = ground (
      arith,
      e,
      h,
      a.listeners,
      text_eq_iff topic name,
      get-insert topic name (record s { handles = without id s.handles }) c.subscriptions,
    );
    exact = ground (
      arith,
      e,
      h,
      a.exact,
      text_eq_iff topic name,
      get-insert topic name (record s { handles = without id s.handles }) c.subscriptions,
    );
  }

  pub unsubscribe-Agrees :
      (topic id : Text) (c : Client)
      → Agrees first name c
      → Agrees first name (unsubscribe topic id c)
  unfolding unsubscribe
  unsubscribe-Agrees topic id c a = elim (Option-cases (get topic c.subscriptions)) [
    | inl e ↦ rw (e, unsubscribe) a
    | inr (s, e) ↦ elim (Bool-cases (member id s.handles)) [
      | inl h ↦ rw (e, unsubscribe) (rw h (drop_handle-Agrees topic id s c e h a))
      | inr h ↦ rw (e, unsubscribe) (rw h a)
    ]
  ]
