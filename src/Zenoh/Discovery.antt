-- ===== src/Zenoh/Discovery.antt =====
-- From a node's declaration to another node's list of topics.
use roslibrust.Base.{
  ℕ, ◌≡◌, ap, ◌∙◌, Bool, true, Bool-cases, Option, none, some, List, [], ◌∷◌, ◌++◌, Text, text_eq,
  Map, get, ok, inl, inr,
}
use roslibrust.Tcpros.Bytes.{is_utf8}
use roslibrust.Common.TopicName.{is_match}
use roslibrust.Zenoh.{DiscoveryClass, DiscoveryFact, make_discovery_key}
use roslibrust.Zenoh.Keys.{IsSegment}
use roslibrust.Zenoh.Names.{discovered-declared}
use roslibrust.Zenoh.Monitor.{started, Event, sample, run}
use roslibrust.Zenoh.Monitor.Expiry.{seen, shown, run-seen, seen-append, sampled-shown}
use roslibrust.Zenoh.Listing.Told.{list_topics-IsTold}
use roslibrust.Zenoh.Listing.{is_topic, list_topics, IsTold}

-- `graph.values()`
unfoldable pub values {ℓ} : {V : Type ℓ} → Map V → List V
values [] = []
values ((key, value) ∷ m) = value ∷ values m

-- What a graph holds is told by its values.
get-IsTold :
    (wanted : DiscoveryClass → Bool) (graph : Map DiscoveryFact) (key : Text) (fact : DiscoveryFact)
    → get key graph ≡ some fact
    → wanted fact.class ≡ true
    → IsTold wanted (values graph) fact.name fact.type_name
unfolding get values IsTold
get-IsTold wanted [] key fact e on = cc e
get-IsTold wanted ((k, f) ∷ graph) key fact e on = elim (Bool-cases (text_eq k key)) [
  | inl same ↦
      let here : f ≡ fact = cc (rw same at e) in
      inl (ap (λ g. wanted g.class) here ∙ on, ap (λ g. g.name) here, ap (λ g. g.type_name) here)
  | inr other ↦ inr (get-IsTold wanted graph key fact (rw other at e) on)
]

module _ (encode : List ℕ → Text) (decode : Text → Option (List ℕ))
    (decode-encode : (bytes : List ℕ) → decode (encode bytes) ≡ some bytes)
    (encode-IsSegment : (bytes : List ℕ) → IsSegment (encode bytes)) where
  -- Whatever was discovered before, once a node's declaration of a topic has come, a list of topics
  -- has the topic with its type.
  pub declared-listed :
      (class : DiscoveryClass) (name type_name md5sum : Text) (events : List Event) (now : ℕ)
      (m : Map Text)
      → is_topic class ≡ true
      → is_match name ≡ true
      → is_utf8 type_name ≡ true
      → IsSegment md5sum
      → list_topics (
          values
            (run decode
              (events ++ (sample (make_discovery_key encode class name type_name md5sum) now ∷ []))
              started).graph)
        ≡ ok m
      → get name m ≡ some type_name
  declared-listed class name type_name md5sum events now m topic global utf8 h listed =
      let key = make_discovery_key encode class name type_name md5sum in
      let later = events ++ (sample key now ∷ []) in
      let read =
        discovered-declared encode decode decode-encode encode-IsSegment class name type_name md5sum
          global utf8 h in
      let fact : DiscoveryFact = record {
        class = class;
        name = name;
        type_name = type_name;
        md5sum = md5sum;
      } in
      let held =
        (run-seen decode key later).1
        ∙ ap (shown decode key) (seen-append decode key events (sample key now) none)
        ∙ sampled-shown decode key now (seen decode key events none) fact read in
      (list_topics-IsTold (values (run decode later started).graph) m name type_name listed).1
        (get-IsTold is_topic (run decode later started).graph key fact held topic)
