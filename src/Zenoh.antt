-- ===== src/Zenoh.antt =====
-- roslibrust_zenoh/src/lib.rs: the names under which topics and services stand in zenoh, and the keys
-- that tell other nodes of them. `encode` and `decode` are those of the crate hex.
pub mod Keys
pub mod Names
pub mod Monitor
pub mod Listing
pub mod Discovery
mod Tests
use roslibrust.Base.{
  ℕ, Bool, true, false, Option, none, some, List, [], ◌∷◌, ◌++◌, Text, codes, text_eq, split, ◌==◌,
  if◌then◌else◌,
}
use roslibrust.Tcpros.Bytes.{is_utf8}

-- `s.trim_start_matches(c)`
unfoldable pub trim_start_matches : ℕ → Text → Text
trim_start_matches c [] = []
trim_start_matches c (x ∷ xs) =
    let rest = trim_start_matches c xs in if x == c then rest else x ∷ xs

abbrev pub cons_trimmed : ℕ → ℕ → Text → Text
cons_trimmed c x [] = if x == c then [] else x ∷ []
cons_trimmed c x (y ∷ ys) = x ∷ y ∷ ys

-- `s.trim_end_matches(c)`
unfoldable pub trim_end_matches : ℕ → Text → Text
trim_end_matches c [] = []
trim_end_matches c (x ∷ xs) = cons_trimmed c x (trim_end_matches c xs)

-- `parts.join("/")`
unfoldable pub join : ℕ → List Text → Text
join sep [] = []
join sep (piece ∷ []) = piece
join sep (piece ∷ next ∷ pieces) = piece ++ (sep ∷ join sep (next ∷ pieces))

pub data DiscoveryClass : Type 0 where
  publisher subscriber service client : DiscoveryClass

unfoldable pub as_str : DiscoveryClass → Text
as_str publisher = codes "pub"
as_str subscriber = codes "sub"
as_str service = codes "srv"
as_str client = codes "cl"

unfoldable pub parse : Text → Option DiscoveryClass
parse class_name =
    if text_eq class_name (codes "pub")
    then some publisher
    else if text_eq class_name (codes "sub")
    then some subscriber
    else if text_eq class_name (codes "srv")
    then some service
    else if text_eq class_name (codes "cl")
    then some client
    else none

pub record DiscoveryFact : Type 0 where
  pub class : DiscoveryClass
  pub name : Text
  pub type_name : Text
  pub md5sum : Text

abbrev pub slash : ℕ
slash = b'/'

unfoldable pub trim_slashes : Text → Text
unfolding trim_start_matches trim_end_matches
trim_slashes topic = trim_end_matches slash (trim_start_matches slash topic)

module _ (encode : List ℕ → Text) where
  unfoldable pub mangle_topic : Text → Text → Text → Text
  unfolding trim_slashes
  mangle_topic topic type_str md5sum =
      encode type_str ++ (slash ∷ (md5sum ++ (slash ∷ (codes "*" ++ (slash ∷ trim_slashes topic)))))

  unfoldable pub make_discovery_key : DiscoveryClass → Text → Text → Text → Text
  unfolding trim_slashes as_str
  make_discovery_key class name type_name md5sum =
      codes "ros1_discovery_info"
      ++ (slash
          ∷ (codes "*"
              ++ (slash
                  ∷ (as_str class
                      ++ (slash
                          ∷ (encode type_name
                              ++ (slash
                                  ∷ (md5sum
                                      ++ (slash
                                          ∷ (codes "*" ++ (slash ∷ trim_slashes name)))))))))))

module _ (decode : Text → Option (List ℕ)) where
  unfoldable pub decode_hex_type : Text → Option Text
  decode_hex_type hex_type = elim (decode hex_type) [
    | none ↦ none
    | some bytes ↦ if is_utf8 bytes then some bytes else none
  ]

  -- The parts of a key between its slashes: at least seven.
  unfoldable pub parse_parts : List Text → Option DiscoveryFact
  unfolding decode_hex_type parse join
  parse_parts (first ∷ _ ∷ class_part ∷ type_part ∷ md5sum ∷ _ ∷ name ∷ names) =
      if text_eq first (codes "ros1_discovery_info")
      then elim (parse class_part) [
        | none ↦ none
        | some class ↦ elim (decode_hex_type type_part) [
          | none ↦ none
          | some type_name ↦ some (record {
            class = class;
            name = slash ∷ join slash (name ∷ names);
            type_name = type_name;
            md5sum = md5sum;
          })
        ]
      ]
      else none
  parse_parts _ = none

  unfoldable pub parse_discovery_key : Text → Option DiscoveryFact
  unfolding parse_parts
  parse_discovery_key key = parse_parts (split slash key)
