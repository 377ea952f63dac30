-- ===== src/Zenoh/Names.antt =====
-- The names that zenoh sees of topics, and what comes back of them.
use roslibrust.Base.{
  ℕ, ◌≡◌, refl, ap, sym, ◌∙◌, Bool, true, false, ◌&&◌, Bool-cases, Option, some, List, [], ◌∷◌,
  Text, split, ◌==◌, ==_iff, arith, inl, inr,
}
use roslibrust.Tcpros.Bytes.{is_utf8}
use roslibrust.Common.TopicName.{matches, is_match, is_word, is_alpha}
use roslibrust.Zenoh.{
  join, DiscoveryClass, slash, trim_start_matches, cons_trimmed, trim_end_matches, trim_slashes,
  make_discovery_key, mangle_topic, parse_discovery_key,
}
use roslibrust.Zenoh.Keys.{IsSegment, join-split, split-segment, parse_discovery_key-make}

-- A letter is no slash.
letter : (x : ℕ) → is_alpha x ≡ true → (x == slash) ≡ false
letter x h = grind arith

and_left : (a b : Bool) → (a && b) ≡ true → a ≡ true
and_left true b h = refl
and_left false b h = h

and_right : (a b : Bool) → (a && b) ≡ true → b ≡ true
and_right true b h = h
and_right false b h = cc

last_letter : (inside : Bool) (x : ℕ) → matches inside (x ∷ []) ≡ true → (x == slash) ≡ false
unfolding matches
last_letter true x h = elim (Bool-cases (x == slash)) [ inl at ↦ cc (rw at at h) | inr off ↦ off ]
last_letter false x h = letter x (and_left (is_alpha x) true h)

matches-tail :
    (inside : Bool) (x : ℕ) (xs : Text)
    → matches inside (x ∷ xs) ≡ true
    → (i : Bool) × (matches i xs ≡ true)
unfolding matches
matches-tail true x xs h = elim (Bool-cases (x == slash)) [
  | inl at ↦ (false, rw at at h)
  | inr off ↦ (true, and_right (is_word x) (matches true xs) (rw off at h))
]
matches-tail false x xs h = (true, and_right (is_alpha x) (matches true xs) h)

-- The rest of a name that the regular expression takes does not end in a slash.
trim_end-matches :
    (inside : Bool) (x : ℕ) (xs : Text)
    → matches inside (x ∷ xs) ≡ true
    → trim_end_matches slash (x ∷ xs) ≡ x ∷ xs
unfolding trim_end_matches
trim_end-matches inside x [] h = rw (last_letter inside x h) refl
trim_end-matches inside x (y ∷ ys) h =
    let (i, later) = matches-tail inside x (y ∷ ys) h in
    ap (cons_trimmed slash x) (trim_end-matches i y ys later)

-- A global topic name is trimmed of its first character only.
pub trim_slashes-global : (name : Text) → is_match name ≡ true → slash ∷ trim_slashes name ≡ name
unfolding is_match trim_slashes trim_start_matches matches
trim_slashes-global [] h = cc
trim_slashes-global (x ∷ []) h = cc (and_right (x == slash) (matches false []) h)
trim_slashes-global (x ∷ y ∷ ys) h =
    let at = and_left (x == slash) (matches false (y ∷ ys)) h in
    let rest = and_right (x == slash) (matches false (y ∷ ys)) h in
    let alpha = and_left (is_alpha y) (matches true ys) rest in
    rw (at, letter y alpha)
      (ap (λ l. slash ∷ l) (trim_end-matches false y ys rest)
        ∙ ap (λ c. c ∷ y ∷ ys) (sym ((==_iff x slash).0 at)))

module _ (encode : List ℕ → Text) (decode : Text → Option (List ℕ))
    (decode-encode : (bytes : List ℕ) → decode (encode bytes) ≡ some bytes)
    (encode-IsSegment : (bytes : List ℕ) → IsSegment (encode bytes)) where
  -- What a node learns of another's topic or service is what the other declared.
  pub discovered-declared :
      (class : DiscoveryClass) (name type_name md5sum : Text)
      → is_match name ≡ true
      → is_utf8 type_name ≡ true
      → IsSegment md5sum
      → parse_discovery_key decode (make_discovery_key encode class name type_name md5sum)
        ≡ some (record { class = class; name = name; type_name = type_name; md5sum = md5sum })
  discovered-declared class name type_name md5sum global utf8 h =
      parse_discovery_key-make encode decode decode-encode encode-IsSegment class name type_name
        md5sum utf8 h
      ∙ ap (λ n. some (record { class = class; name = n; type_name = type_name; md5sum = md5sum }))
          (trim_slashes-global name global)

  split-mangle_topic :
      (topic type_str md5sum : Text)
      → IsSegment md5sum
      → split slash (mangle_topic encode topic type_str md5sum)
        ≡ encode type_str ∷ md5sum ∷ (b'*' ∷ []) ∷ split slash (trim_slashes topic)
  unfolding mangle_topic split
  split-mangle_topic topic type_str md5sum h =
      split-segment (encode type_str) _ (encode-IsSegment type_str)
      ∙ ap (λ l. encode type_str ∷ l) (split-segment md5sum _ h)

  -- Two topics have the same zenoh name only if they have the same name, type and md5sum.
  pub mangle_topic_injective :
      (a b type_a type_b sum_a sum_b : Text)
      → is_match a ≡ true
      → is_match b ≡ true
      → IsSegment sum_a
      → IsSegment sum_b
      → mangle_topic encode a type_a sum_a ≡ mangle_topic encode b type_b sum_b
      → (a ≡ b) × (type_a ≡ type_b) × (sum_a ≡ sum_b)
  mangle_topic_injective a b type_a type_b sum_a sum_b ga gb sa sb same =
      let parts =
        sym (split-mangle_topic a type_a sum_a sa)
        ∙ ap (split slash) same
        ∙ split-mangle_topic b type_b sum_b sb in
      let types : encode type_a ≡ encode type_b = cc parts in
      let sums : sum_a ≡ sum_b = cc parts in
      let names : split slash (trim_slashes a) ≡ split slash (trim_slashes b) = cc parts in
      (
        sym (trim_slashes-global a ga)
            ∙ ap (λ n. slash ∷ n)
                (sym (join-split (trim_slashes a))
                  ∙ ap (join slash) names
                  ∙ join-split (trim_slashes b))
            ∙ trim_slashes-global b gb,
        cc (sym (decode-encode type_a) ∙ ap decode types ∙ decode-encode type_b),
        sums,
      )
