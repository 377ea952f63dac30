-- ===== src/Zenoh/Keys.antt =====
-- What a discovery key tells of the node that made it.
use roslibrust.Base.{
  cons_head, ℕ, ◌≡◌, ◌≢◌, refl, ap, sym, ◌∙◌, true, false, Bool-cases, Option, some, List, [], ◌∷◌,
  ◌++◌, All, Text, codes, split, split-ne-nil, ◌==◌, ==_iff, inl, inr,
}
use roslibrust.Tcpros.Bytes.{is_utf8}
use roslibrust.Zenoh.{
  DiscoveryClass, publisher, subscriber, service, client, as_str, parse, slash, join, trim_slashes,
  make_discovery_key, decode_hex_type, parse_parts, parse_discovery_key,
}

-- A part of a key: no slash stands in it.
abbrev pub IsSegment : Text → Type 0
IsSegment = All (λ c. (c == slash) ≡ false)

pub split-segment :
    (a rest : Text) → IsSegment a → split slash (a ++ (slash ∷ rest)) ≡ a ∷ split slash rest
unfolding split
split-segment [] rest h = refl
split-segment (x ∷ xs) rest h = rw (h.0) (rw (split-segment xs rest h.1) refl)

join-cons_head :
    (x : ℕ) (pieces : List Text)
    → pieces ≢ []
    → join slash (cons_head x pieces) ≡ x ∷ join slash pieces
unfolding join
join-cons_head x [] h = absurd (h refl)
join-cons_head x (p ∷ []) h = refl
join-cons_head x (p ∷ q ∷ pieces) h = refl

join-nil : (pieces : List Text) → pieces ≢ [] → join slash ([] ∷ pieces) ≡ slash ∷ join slash pieces
unfolding join
join-nil [] h = absurd (h refl)
join-nil (p ∷ pieces) h = refl

pub join-split : (s : Text) → join slash (split slash s) ≡ s
unfolding split
join-split [] = unfold join in refl
join-split (x ∷ xs) = elim (Bool-cases (x == slash)) [
  | inl at ↦ rw at (
      join-nil (split slash xs) (split-ne-nil slash xs)
      ∙ ap (λ l. slash ∷ l) (join-split xs)
      ∙ ap (λ c. c ∷ xs) (sym ((==_iff x slash).0 at)))
  | inr off ↦
      rw off (
        join-cons_head x (split slash xs) (split-ne-nil slash xs) ∙ ap (λ l. x ∷ l) (join-split xs))
]

as_str-IsSegment : (class : DiscoveryClass) → IsSegment (as_str class)
unfolding as_str
as_str-IsSegment publisher = (refl, (refl, (refl, tt)))
as_str-IsSegment subscriber = (refl, (refl, (refl, tt)))
as_str-IsSegment service = (refl, (refl, (refl, tt)))
as_str-IsSegment client = (refl, (refl, tt))

parse-as_str : (class : DiscoveryClass) → parse (as_str class) ≡ some class
unfolding parse as_str
parse-as_str publisher = refl
parse-as_str subscriber = refl
parse-as_str service = refl
parse-as_str client = refl

module _ (encode : List ℕ → Text) (decode : Text → Option (List ℕ))
    (decode-encode : (bytes : List ℕ) → decode (encode bytes) ≡ some bytes)
    (encode-IsSegment : (bytes : List ℕ) → IsSegment (encode bytes)) where
  decode_hex_type-encode :
      (type_name : Text)
      → is_utf8 type_name ≡ true
      → decode_hex_type decode (encode type_name) ≡ some type_name
  unfolding decode_hex_type
  decode_hex_type-encode type_name h = rw (decode-encode type_name, decode_hex_type) (rw h refl)

  -- The parts of a key that was made.
  split-make_discovery_key :
      (class : DiscoveryClass) (name type_name md5sum : Text)
      → IsSegment md5sum
      → split slash (make_discovery_key encode class name type_name md5sum)
        ≡ codes "ros1_discovery_info"
          ∷ codes "*"
          ∷ as_str class
          ∷ encode type_name
          ∷ md5sum
          ∷ codes "*"
          ∷ split slash (trim_slashes name)
  unfolding make_discovery_key split
  split-make_discovery_key class name type_name md5sum h =
      rw (split-segment (as_str class) _ (as_str-IsSegment class)) (
        rw (split-segment (encode type_name) _ (encode-IsSegment type_name))
          (rw (split-segment md5sum _ h) refl))

  parse_parts-made :
      (class : DiscoveryClass) (type_name md5sum : Text) (pieces : List Text)
      → is_utf8 type_name ≡ true
      → pieces ≢ []
      → parse_parts decode (
          codes "ros1_discovery_info"
          ∷ codes "*"
          ∷ as_str class
          ∷ encode type_name
          ∷ md5sum
          ∷ codes "*"
          ∷ pieces)
        ≡ some (record {
          class = class;
          name = slash ∷ join slash pieces;
          type_name = type_name;
          md5sum = md5sum;
        })
  unfolding parse_parts
  parse_parts-made class type_name md5sum [] utf8 h = absurd (h refl)
  parse_parts-made class type_name md5sum (p ∷ ps) utf8 h =
      rw (parse-as_str class, decode_hex_type-encode type_name utf8) refl

  -- A key gives back what it was made of, the name with one slash in front and none behind.
  pub parse_discovery_key-make :
      (class : DiscoveryClass) (name type_name md5sum : Text)
      → is_utf8 type_name ≡ true
      → IsSegment md5sum
      → parse_discovery_key decode (make_discovery_key encode class name type_name md5sum)
        ≡ some (record {
          class = class;
          name = slash ∷ trim_slashes name;
          type_name = type_name;
          md5sum = md5sum;
        })
  unfolding parse_discovery_key
  parse_discovery_key-make class name type_name md5sum utf8 h =
      rw (split-make_discovery_key class name type_name md5sum h) (
        parse_parts-made class type_name md5sum (split slash (trim_slashes name)) utf8
          (split-ne-nil slash (trim_slashes name))
        ∙ ap
            (λ n.
              some (record {
                class = class;
                name = slash ∷ n;
                type_name = type_name;
                md5sum = md5sum;
              }))
            (join-split (trim_slashes name)))
