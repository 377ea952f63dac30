-- ===== src/Rosbridge/Client/Histories.antt =====
-- The histories of a client: its operations, what it reads, and the loss of its connections. The
-- attempts of `stubborn_spin` are steps of their own, since the client is unlocked between them.
use roslibrust.Base.{
  ℕ, ◌<◌, ◌≡◌, refl, Bool, not, ◌||◌, true, false, Option, Text, get, contains_key, arith,
}
use roslibrust.Rosbridge.Json.{Json}
use roslibrust.Rosbridge.Client.{
  Client, ServiceCallback, new, subscribe, publish, advertise, start_call, time_out_call,
  advertise_service, unadvertise_service, unadvertise, unsubscribe, reconnect, spin_failed,
}
use roslibrust.Rosbridge.Client.Dispatch.{Read, spin_once}
use roslibrust.Rosbridge.Client.Table.{
  listed, advertised, subscribed, served, has_handle, Agrees, advertise-Agrees, unadvertise-Agrees,
  subscribe-Agrees, publish-Agrees, start_call-Agrees, advertise_service-Agrees,
  unadvertise_service-Agrees, unsubscribe-Agrees,
}
use roslibrust.Rosbridge.Client.Reads.{spin_once-Agrees}
use roslibrust.Rosbridge.Client.Reconnect.{Agrees-later, reconnect-Agrees}

-- A step on a connection. The flag of a lost connection is set by `loses` and cleared by `resumes`,
-- which here may come at any time.
pub data Step (from_text : Text → Option Json) (to_string : Json → Option Text)
    (to_text : Json → Text) (panic_text : Text) : Client → Client → Type 0 where
  subscribes :
      (topic topic_type id : Text) (c : Client)
      → Step from_text to_string to_text panic_text c (subscribe topic topic_type id c).0
  unsubscribes :
      (topic id : Text) (c : Client)
      → Step from_text to_string to_text panic_text c (unsubscribe topic id c)
  publishes :
      (topic type_name : Text) (msg : Json) (c : Client)
      → Step from_text to_string to_text panic_text c (publish topic type_name msg c).0
  advertises :
      (topic topic_type : Text) (c : Client)
      → Step from_text to_string to_text panic_text c (advertise topic topic_type c).0
  unadvertises :
      (topic : Text) (c : Client)
      → Step from_text to_string to_text panic_text c (unadvertise topic c)
  calls :
      (service id : Text) (req : Json) (c : Client)
      → Step from_text to_string to_text panic_text c (start_call service id req c).0
  times_out :
      (id : Text) (c : Client)
      → Step from_text to_string to_text panic_text c (time_out_call id c).0
  advertises_service :
      (topic srv_type : Text) (server : ServiceCallback) (c : Client)
      → Step from_text to_string to_text panic_text c (advertise_service topic srv_type server c).0
  unadvertises_service :
      (topic : Text) (c : Client)
      → Step from_text to_string to_text panic_text c (unadvertise_service topic c)
  reads :
      (r : Read) (c : Client)
      → Step from_text to_string to_text panic_text c
          (spin_once from_text to_string to_text panic_text r c).0
  loses : (c : Client) → Step from_text to_string to_text panic_text c (spin_failed c)
  resumes :
      (c : Client)
      → Step from_text to_string to_text panic_text c (record c { is_disconnected = false })

-- What a client can become, on its first connection or on a later one.
pub data Reach (from_text : Text → Option Json) (to_string : Json → Option Text)
    (to_text : Json → Text) (panic_text : Text) : Bool → Client → Type 0 where
  start : (capacity : ℕ) → Reach from_text to_string to_text panic_text true (new capacity)
  acts :
      {first : Bool} {c d : Client}
      → Reach from_text to_string to_text panic_text first c
      → Step from_text to_string to_text panic_text c d
      → Reach from_text to_string to_text panic_text first d
  reconnects :
      {first : Bool} {c : Client} (capacity : ℕ)
      → Reach from_text to_string to_text panic_text first c
      → c.is_disconnected ≡ true
      → Reach from_text to_string to_text panic_text false (reconnect capacity c).0

module _ (from_text : Text → Option Json) (to_string : Json → Option Text) (to_text : Json → Text)
    (panic_text : Text) where
  Step-Agrees :
      {first : Bool} (name : Text) {c d : Client}
      → Step from_text to_string to_text panic_text c d
      → Agrees first name c
      → Agrees first name d
  unfolding time_out_call
  Step-Agrees {first} name (subscribes topic ty id c) a =
      subscribe-Agrees first name topic ty id c a
  Step-Agrees {first} name (unsubscribes topic id c) a = unsubscribe-Agrees first name topic id c a
  Step-Agrees {first} name (publishes topic ty msg c) a = publish-Agrees first name topic ty msg c a
  Step-Agrees {first} name (advertises topic ty c) a = advertise-Agrees first name topic ty c a
  Step-Agrees {first} name (unadvertises topic c) a = unadvertise-Agrees first name topic c a
  Step-Agrees {first} name (calls service id req c) a =
      start_call-Agrees first name service id req c a
  Step-Agrees name (times_out id c) a = record {
    publishers = a.publishers;
    listeners = a.listeners;
    exact = a.exact;
  }
  Step-Agrees {first} name (advertises_service topic ty server c) a =
      advertise_service-Agrees first name topic ty server c a
  Step-Agrees {first} name (unadvertises_service topic c) a =
      unadvertise_service-Agrees first name topic c a
  Step-Agrees {first} name (reads r c) a =
      spin_once-Agrees first name from_text to_string to_text panic_text r c a
  Step-Agrees name (loses c) a = record {
    publishers = a.publishers;
    listeners = a.listeners;
    exact = a.exact;
  }
  Step-Agrees name (resumes c) a = record {
    publishers = a.publishers;
    listeners = a.listeners;
    exact = a.exact;
  }

  Reach-Agrees :
      {first : Bool} {c : Client} (name : Text)
      → Reach from_text to_string to_text panic_text first c
      → Agrees first name c
  unfolding listed get
  Reach-Agrees name (start capacity) = record {
    publishers = λ h. refl;
    listeners = ground arith;
    exact = λ h e. (refl, refl);
  }
  Reach-Agrees name (acts r s) = Step-Agrees name s (Reach-Agrees name r)
  Reach-Agrees name (reconnects {first} {c} capacity r h) =
      reconnect-Agrees name capacity c (Agrees-later name first c (Reach-Agrees name r))

  -- After any history, connections that were lost and made again included, on a connection that
  -- still takes messages, the server lists a topic as advertised exactly if the client's table of
  -- publishers has it, and a topic that has a subscriber at the client is subscribed.
  pub Reach-advertised :
      {first : Bool} {c : Client} (name : Text)
      → Reach from_text to_string to_text panic_text first c
      → 0 < c.writer.capacity
      → (advertised name c.writer.sent ≡ contains_key name c.publishers)
        × ((not (has_handle name c.subscriptions) || subscribed name c.writer.sent) ≡ true)
  Reach-advertised name r h =
      ((Reach-Agrees name r).publishers h, ground (arith, (Reach-Agrees name r).listeners h))

  -- After any history without a new connection, while the connection takes messages, the server has a
  -- topic subscribed exactly if it has a subscriber at the client, and serves exactly the services in
  -- the client's table.
  pub Reach-served :
      {c : Client} (name : Text)
      → Reach from_text to_string to_text panic_text true c
      → 0 < c.writer.capacity
      → (subscribed name c.writer.sent ≡ has_handle name c.subscriptions)
        × (served name c.writer.sent ≡ contains_key name c.services)
  Reach-served name r h = (Reach-Agrees name r).exact h refl
