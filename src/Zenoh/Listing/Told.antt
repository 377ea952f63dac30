-- ===== src/Zenoh/Listing/Told.antt =====
-- The lists hold just what the facts tell, or fail on two facts that do not agree.
use roslibrust.Base.{
  ◌≡◌, ◌≢◌, refl, ap, sym, ◌∙◌, Bool, Bool-cases, Option-cases, none, some, List, [], ◌∷◌, Text,
  text_eq, text_eq_iff, Map, get, insert, get-insert, if◌then◌else◌, ok, err, ◌⊎◌, ◌↔◌, inl, inr,
}
use roslibrust.Zenoh.{DiscoveryClass, DiscoveryFact}
use roslibrust.Zenoh.Listing.{
  ServerError, conflict, insert_discovered_type, is_topic, collect, list_topics, IsTold,
}

insert_discovered_type-ok :
    (types more : Map Text) (name type_name n t : Text)
    → insert_discovered_type types name type_name ≡ ok more
    → (get n more ≡ some t) ↔ ((get n types ≡ some t) ⊎ ((name ≡ n) × (type_name ≡ t)))
unfolding insert_discovered_type
insert_discovered_type-ok types more name type_name n t e = elim (Option-cases (get name types)) [
  | inl new ↦
      let here : insert name type_name types ≡ more = cc (rw (new, insert_discovered_type) at e) in
      rw⁻¹ here (
        λ found. elim (Bool-cases (text_eq name n)) [
          | inl same ↦ inr (
            (text_eq_iff name n).0 same,
            cc (rw same at (sym (get-insert name n type_name types) ∙ found)),
          )
          | inr other ↦ inl (rw other at (sym (get-insert name n type_name types) ∙ found))
        ],
        λ told. get-insert name n type_name types ∙ told_in new told,
      )
  | inr (existing, found) ↦ elim (Bool-cases (text_eq existing type_name)) [
    | inl same ↦
        let here : types ≡ more = cc (rw (found, same, insert_discovered_type) at e) in
        let typed : existing ≡ type_name = (text_eq_iff existing type_name).0 same in
        rw⁻¹ here (
          λ known. inl known,
          λ told. elim told [
            | inl known ↦ known
            | inr (a, b) ↦ ap (λ k. get k types) (sym a) ∙ found ∙ ap some (typed ∙ b)
          ],
        )
    | inr other ↦ cc (rw (found, other, insert_discovered_type) at e)
  ]
]
  where
    told_in :
        get name types ≡ none
        → (get n types ≡ some t) ⊎ ((name ≡ n) × (type_name ≡ t))
        → (if text_eq name n then some type_name else get n types) ≡ some t
    told_in new (inl known) = elim (Bool-cases (text_eq name n)) [
      | inl same ↦
          let clash : none ≡ some t =
            sym new ∙ ap (λ k. get k types) ((text_eq_iff name n).0 same) ∙ known in
          cc
      | inr other ↦ rw other known
    ]
    told_in new (inr (a, b)) = rw ((text_eq_iff name n).1 a) (ap some b)

insert_discovered_type-conflict :
    (types : Map Text) (name type_name n a b : Text)
    → insert_discovered_type types name type_name ≡ err (conflict n a b)
    → (name ≡ n) × (type_name ≡ b) × (get n types ≡ some a) × (a ≢ b)
unfolding insert_discovered_type
insert_discovered_type-conflict types name type_name n a b e =
    elim (Option-cases (get name types)) [
      | inl new ↦ cc (rw (new, insert_discovered_type) at e)
      | inr (existing, found) ↦ elim (Bool-cases (text_eq existing type_name)) [
        | inl same ↦ cc (rw (found, same, insert_discovered_type) at e)
        | inr other ↦
            let read = rw (found, other, insert_discovered_type) at e in
            let names : name ≡ n = cc read in
            let olds : existing ≡ a = cc read in
            let news : type_name ≡ b = cc read in
            let differ : existing ≢ type_name =
              λ same. cc (sym ((text_eq_iff existing type_name).1 same) ∙ other) in
            (
              names,
              news,
              ap (λ k. get k types) (sym names) ∙ found ∙ ap some olds,
              λ same. differ (olds ∙ same ∙ sym news),
            )
      ]
    ]

insert_discovered_type_total :
    (types : Map Text) (name type_name : Text)
    → ((more : Map Text) × (insert_discovered_type types name type_name ≡ ok more))
      ⊎ ((e : ServerError) × (insert_discovered_type types name type_name ≡ err e))
unfolding insert_discovered_type
insert_discovered_type_total types name type_name = elim (Option-cases (get name types)) [
  | inl new ↦ inl (insert name type_name types, rw (new, insert_discovered_type) refl)
  | inr (existing, found) ↦ elim (Bool-cases (text_eq existing type_name)) [
    | inl same ↦ inl (types, rw (found, same, insert_discovered_type) refl)
    | inr other ↦
        inr (conflict name existing type_name, rw (found, other, insert_discovered_type) refl)
  ]
]

module _ (wanted : DiscoveryClass → Bool) where
  collect-ok :
      (facts : List DiscoveryFact) (types m : Map Text) (n t : Text)
      → collect wanted facts types ≡ ok m
      → (get n m ≡ some t) ↔ ((get n types ≡ some t) ⊎ IsTold wanted facts n t)
  unfolding collect IsTold
  collect-ok [] types m n t e =
      let here : types ≡ m = cc e in
      rw⁻¹ here
        (λ known. inl known, λ told. elim told [ inl known ↦ known | inr no_one ↦ absurd no_one ])
  collect-ok (fact ∷ facts) types m n t e = elim (Bool-cases (wanted fact.class)) [
    | inr off ↦
        let ih = collect-ok facts types m n t (rw (off, collect) at e) in
        (
          λ g. elim (ih.0 g) [ inl known ↦ inl known | inr later ↦ inr (inr later) ],
          λ told. elim told [
            | inl known ↦ ih.1 (inl known)
            | inr (inl (w, a, b)) ↦ cc (sym w ∙ off)
            | inr (inr later) ↦ ih.1 (inr later)
          ],
        )
    | inl on ↦ elim (insert_discovered_type_total types fact.name fact.type_name) [
      | inl (more, em) ↦
          let ih = collect-ok facts more m n t (rw (on, em, collect) at e) in
          let ins = insert_discovered_type-ok types more fact.name fact.type_name n t em in
          (
            λ g. elim (ih.0 g) [
              | inl known ↦ elim (ins.0 known) [
                | inl before ↦ inl before
                | inr (p, q) ↦ inr (inl (on, p, q))
              ]
              | inr later ↦ inr (inr later)
            ],
            λ told. elim told [
              | inl known ↦ ih.1 (inl (ins.1 (inl known)))
              | inr (inl (w, p, q)) ↦ ih.1 (inl (ins.1 (inr (p, q))))
              | inr (inr later) ↦ ih.1 (inr later)
            ],
          )
      | inr (why, em) ↦ cc (rw (on, em, collect) at e)
    ]
  ]

  collect-conflict :
      (facts : List DiscoveryFact) (types : Map Text) (n a b : Text)
      → collect wanted facts types ≡ err (conflict n a b)
      → ((get n types ≡ some a) ⊎ IsTold wanted facts n a) × IsTold wanted facts n b × (a ≢ b)
  unfolding collect IsTold
  collect-conflict [] types n a b e = cc e
  collect-conflict (fact ∷ facts) types n a b e = elim (Bool-cases (wanted fact.class)) [
    | inr off ↦
        let (told, new, differ) = collect-conflict facts types n a b (rw (off, collect) at e) in
        (elim told [ inl known ↦ inl known | inr later ↦ inr (inr later) ], inr new, differ)
    | inl on ↦ elim (insert_discovered_type_total types fact.name fact.type_name) [
      | inl (more, em) ↦
          let (told, new, differ) = collect-conflict facts more n a b (rw (on, em, collect) at e) in
          (
            elim told [
              | inl known ↦
                  elim ((insert_discovered_type-ok types more fact.name fact.type_name n a em).0
                    known) [ inl before ↦ inl before | inr (p, q) ↦ inr (inl (on, p, q)) ]
              | inr later ↦ inr (inr later)
            ],
            inr new,
            differ,
          )
      | inr (why, em) ↦
          let same : why ≡ conflict n a b = cc (rw (on, em, collect) at e) in
          let (names, news, old, differ) =
            insert_discovered_type-conflict types fact.name fact.type_name n a b
              (em ∙ ap err same) in
          (inl old, inl (on, names, news), differ)
    ]
  ]

no_types : (n t : Text) → get n [] ≢ some t
unfolding get
no_types n t e = cc

-- The list of topics has just the names that publishers and subscribers told, each with its type.
pub list_topics-IsTold :
    (facts : List DiscoveryFact) (m : Map Text) (name type_name : Text)
    → list_topics facts ≡ ok m
    → (get name m ≡ some type_name) ↔ IsTold is_topic facts name type_name
unfolding list_topics
list_topics-IsTold facts m name type_name e =
    let (there, back) = collect-ok is_topic facts [] m name type_name e in
    (
      λ g. elim (there g) [ inl known ↦ absurd (no_types name type_name known) | inr told ↦ told ],
      λ told. back (inr told),
    )

-- It fails only where one name was told with two types.
pub list_topics-conflict :
    (facts : List DiscoveryFact) (name existing type_name : Text)
    → list_topics facts ≡ err (conflict name existing type_name)
    → IsTold is_topic facts name existing
      × IsTold is_topic facts name type_name
      × (existing ≢ type_name)
unfolding list_topics
list_topics-conflict facts name existing type_name e =
    let (old, new, differ) = collect-conflict is_topic facts [] name existing type_name e in
    (elim old [ inl known ↦ absurd (no_types name existing known) | inr told ↦ told ], new, differ)
