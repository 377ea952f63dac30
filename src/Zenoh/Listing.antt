-- ===== src/Zenoh/Listing.antt =====
-- `list_topics` and `list_services` of roslibrust_zenoh/src/lib.rs.
pub mod Told
use roslibrust.Base.{
  ◌≡◌, ◌≢◌, refl, ap, sym, ◌∙◌, Bool, true, false, Bool-cases, Option-cases, none, some, List, [],
  ◌∷◌, Text, text_eq, text_eq_iff, Map, get, insert, get-insert, if◌then◌else◌, Result, ok, err,
  panic, diverge, ◌⊎◌, ◌↔◌, inl, inr,
}
use roslibrust.Zenoh.{DiscoveryClass, publisher, subscriber, service, DiscoveryFact}

-- `Error::ServerError`: the name, the type that stands and the type that comes.
pub data ServerError : Type 0 where
  conflict : Text → Text → Text → ServerError

unfoldable pub insert_discovered_type : Map Text → Text → Text → Result ServerError (Map Text)
insert_discovered_type types name type_name = elim (get name types) [
  | some existing ↦
      if text_eq existing type_name then ok types else err (conflict name existing type_name)
  | none ↦ ok (insert name type_name types)
]

abbrev pub is_topic : DiscoveryClass → Bool
is_topic publisher = true
is_topic subscriber = true
is_topic _ = false

abbrev pub is_service : DiscoveryClass → Bool
is_service service = true
is_service _ = false

-- The loop of both functions over the facts of the graph.
unfoldable pub collect :
    (DiscoveryClass → Bool) → List DiscoveryFact → Map Text → Result ServerError (Map Text)
unfolding insert_discovered_type
collect wanted [] types = ok types
collect wanted (fact ∷ facts) types = elim (wanted fact.class) [
  | false ↦ collect wanted facts types
  | true ↦ elim (insert_discovered_type types fact.name fact.type_name) [
    | ok more ↦ collect wanted facts more
    | err e ↦ err e
    | panic ↦ panic
    | diverge ↦ diverge
  ]
]

unfoldable pub list_topics : List DiscoveryFact → Result ServerError (Map Text)
unfolding collect
list_topics facts = collect is_topic facts []

unfoldable pub list_services : List DiscoveryFact → Result ServerError (Map Text)
unfolding collect
list_services facts = collect is_service facts []

-- One of the facts that are wanted tells of a name with a type.
unfoldable pub IsTold : (DiscoveryClass → Bool) → List DiscoveryFact → Text → Text → Type 0
IsTold wanted [] name type_name = ⊥
IsTold wanted (fact ∷ facts) name type_name =
    ((wanted fact.class ≡ true) × (fact.name ≡ name) × (fact.type_name ≡ type_name))
    ⊎ IsTold wanted facts name type_name
