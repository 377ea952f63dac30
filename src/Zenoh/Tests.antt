-- ===== src/Zenoh/Tests.antt =====
-- Discovery at concrete inputs. For the crate hex stands an encoding of each number by as many
-- letters `a`, with `b` behind.
use roslibrust.Base.{
  ℕ, zero, ◌==◌, if◌then◌else◌, suc, ◌≡◌, ◌≢◌, refl, ap, ◌∙◌, Option, none, some, List, [], ◌∷◌,
  Text, codes, get,
}
use roslibrust.Base.{insert, remove, keys, split}
use roslibrust.Tcpros.Bytes.{is_utf8}
use roslibrust.Common.TopicName.{is_match}
use roslibrust.Zenoh.{
  publisher, subscriber, service, DiscoveryFact, make_discovery_key, parse_discovery_key,
}
use roslibrust.Zenoh.Keys.{IsSegment}
use roslibrust.Zenoh.Names.{discovered-declared, mangle_topic_injective}
use roslibrust.Zenoh.Monitor.{started, Event, sample, tick, run}
use roslibrust.Zenoh.Monitor.Expiry.{seen, shown, run-seen}
use roslibrust.Zenoh.Listing.Told.{list_topics-conflict}
use roslibrust.Zenoh.Listing.{is_topic, list_topics, IsTold}
use roslibrust.Zenoh.Discovery.{values, declared-listed}

abbrev unary : ℕ → Text → Text
unary zero rest = b'b' ∷ rest
unary (suc n) rest = b'a' ∷ unary n rest

abbrev encode : List ℕ → Text
encode [] = []
encode (n ∷ ns) = unary n (encode ns)

abbrev add_to_first : List ℕ → List ℕ
add_to_first [] = []
add_to_first (n ∷ ns) = suc n ∷ ns

-- The numbers behind, of which the first is not complete.
abbrev decoded : Text → List ℕ
decoded [] = []
decoded (c ∷ cs) = if c == b'b' then zero ∷ decoded cs else add_to_first (decoded cs)

abbrev decode : Text → Option (List ℕ)
decode text = some (decoded text)

decoded-unary : (n : ℕ) (rest : Text) → decoded (unary n rest) ≡ n ∷ decoded rest
decoded-unary zero rest = refl
decoded-unary (suc n) rest = ap add_to_first (decoded-unary n rest)

decode-encode : (bytes : List ℕ) → decode (encode bytes) ≡ some bytes
decode-encode bytes = ap some (go bytes)
  where
    go : (bytes : List ℕ) → decoded (encode bytes) ≡ bytes
    go [] = refl
    go (n ∷ ns) = decoded-unary n (encode ns) ∙ ap (λ l. n ∷ l) (go ns)

unary-IsSegment : (n : ℕ) (rest : Text) → IsSegment rest → IsSegment (unary n rest)
unary-IsSegment zero rest h = (refl, h)
unary-IsSegment (suc n) rest h = (refl, unary-IsSegment n rest h)

encode-IsSegment : (bytes : List ℕ) → IsSegment (encode bytes)
encode-IsSegment [] = tt
encode-IsSegment (n ∷ ns) = unary-IsSegment n (encode ns) (encode-IsSegment ns)

abbrev chatter : Text
chatter = codes "/a/chatter"

abbrev key : Text
key = make_discovery_key encode publisher chatter (codes "S") (codes "99")

discovered-declared_example :
    parse_discovery_key decode key
    ≡ some
        (record { class = publisher; name = chatter; type_name = codes "S"; md5sum = codes "99" })
unfolding is_match is_utf8
discovered-declared_example =
    discovered-declared encode decode decode-encode encode-IsSegment publisher chatter (codes "S")
      (codes "99") refl refl (refl, (refl, tt))

mangle_topic_injective_example :
    (chatter ≡ chatter) × (codes "S" ≡ codes "S") × (codes "99" ≡ codes "99")
unfolding is_match
mangle_topic_injective_example =
    mangle_topic_injective encode decode decode-encode encode-IsSegment chatter chatter (codes "S")
      (codes "S") (codes "99") (codes "99") refl refl (refl, (refl, tt)) (refl, (refl, tt)) refl

abbrev events : List Event
events = sample key 1000 ∷ tick 2000 ∷ []

run-seen_example :
    (get key (run decode events started).active_facts ≡ seen decode key events none)
    × (get key (run decode events started).graph ≡ shown decode key (seen decode key events none))
run-seen_example = run-seen decode key events

abbrev fact : DiscoveryFact
fact = record { class = publisher; name = chatter; type_name = codes "S"; md5sum = codes "99" }

abbrev service_fact : DiscoveryFact
service_fact = record fact { class = service; type_name = codes "T" }

abbrev other_fact : DiscoveryFact
other_fact = record fact { class = subscriber; type_name = codes "T" }

list_topics-conflict_example :
    IsTold is_topic (fact ∷ other_fact ∷ []) chatter (codes "S")
    × IsTold is_topic (fact ∷ other_fact ∷ []) chatter (codes "T")
    × (codes "S" ≢ codes "T")
unfolding list_topics insert get
list_topics-conflict_example =
    list_topics-conflict (fact ∷ other_fact ∷ []) chatter (codes "S") (codes "T") refl

declared-listed_example : get chatter ((chatter, codes "S") ∷ []) ≡ some (codes "S")
unfolding run parse_discovery_key make_discovery_key get insert remove keys split list_topics values
    is_match is_utf8
declared-listed_example =
    declared-listed encode decode decode-encode encode-IsSegment publisher chatter (codes "S")
      (codes "99") [] 1000 ((chatter, codes "S") ∷ []) refl refl refl (refl, (refl, tt)) refl
