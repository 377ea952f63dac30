-- ===== src/Codegen/Messages/Results.antt =====
-- The computations of a message end with a result if the messages that its fields refer to are in
-- the graph, theirs too, and so on for fewer steps than the fuel.
use roslibrust.Base.{
  ok, err, panic, diverge, ℕ, zero, suc, ◌≡◌, refl, Bool, true, List, [], ◌∷◌, All, Text, text_eq,
  get, contains_key, Result, arith, Bool-cases, Option-cases, inl, inr,
}
use roslibrust.Codegen.Types.{RosVersion, FieldInfo, ParsedMessageFile}
use roslibrust.Codegen.Parse.{version_or_ros1}
use roslibrust.Codegen.Messages.{
  NotFound, Graph, is_dynamic_array, is_fixed_field, are_fixed_fields, determine_if_fixed_length,
  md5_field, md5_fields, md5sum_content, compute_md5sum, unique_field_types, get_unique_field_types,
  definitions_of, compute_full_definition, resolve, set_insert, set_append, text_less,
}
use roslibrust.Codegen.Ros2Hashing.{calculate_ros2_hash}
use roslibrust.Codegen.Messages.Described.{get_full_type_name-package, calculate_ros2_hash-Gives}
use roslibrust.Codegen.Messages.Depth.{Gives, Gives-bind, Any, Known, Within}

pub Gives-value :
    {E A : Type 0} (P : A → Type 0) (r : Result E A) → Gives P r → (a : A) × (r ≡ ok a) × P a
Gives-value P (ok a) p = (a, refl, p)
Gives-value P (err e) p = elim p [ ]
Gives-value P panic p = elim p [ ]
Gives-value P diverge p = elim p [ ]

module _ (g : Graph) (n : ℕ) where
  is_fixed_field-Gives :
      (sub : ParsedMessageFile → Result NotFound Bool) (version : RosVersion) (f : FieldInfo)
      → ((p : ParsedMessageFile) → Within n g p → Gives Any (sub p))
      → Known (Within n g) g version f
      → Gives Any (is_fixed_field sub f g)
  is_fixed_field-Gives sub version f h (inl l) =
      elim (Bool-cases (is_dynamic_array f.field_type.array_info)) [
        | inl d ↦ rw (d, is_fixed_field) tt
        | inr d ↦ rw (d, is_fixed_field) (rw l.2 tt)
      ]
  is_fixed_field-Gives sub version f h (inr (pkg, m, r, e, w)) =
      elim (Bool-cases (is_dynamic_array f.field_type.array_info)) [
        | inl d ↦ rw (d, is_fixed_field) tt
        | inr d ↦
            rw (d, is_fixed_field)
              (rw r.2 (rw (get_full_type_name-package f pkg r.2) (rw e (h m.parsed w))))
      ]

  are_fixed_fields-Gives :
      (sub : ParsedMessageFile → Result NotFound Bool) (version : RosVersion)
      (fields : List FieldInfo)
      → ((p : ParsedMessageFile) → Within n g p → Gives Any (sub p))
      → All (Known (Within n g) g version) fields
      → Gives Any (are_fixed_fields sub fields g)
  unfolding are_fixed_fields
  are_fixed_fields-Gives sub version [] h a = tt
  are_fixed_fields-Gives sub version (f ∷ fields) h (k, a) =
      Gives-bind Any Any (is_fixed_field sub f g) _ (is_fixed_field-Gives sub version f h k)
        (λ is_fixed u. elim (Bool-cases is_fixed) [
          | inl e ↦ rw e (are_fixed_fields-Gives sub version fields h a)
          | inr e ↦ rw e tt
        ])

  md5_field-Gives :
      (md5 : Text → Text) (sub : ParsedMessageFile → Result NotFound Text) (version : RosVersion)
      (f : FieldInfo)
      → ((p : ParsedMessageFile) → Within n g p → Gives Any (sub p))
      → Known (Within n g) g version f
      → Gives Any (md5_field md5 sub version f g)
  md5_field-Gives md5 sub version f h (inl l) = rw (l.0, md5_field) tt
  md5_field-Gives md5 sub version f h (inr (pkg, m, r, e, w)) =
      rw (r.0, md5_field)
        (rw r.2 (rw e (Gives-bind Any Any (sub m.parsed) _ (h m.parsed w) (λ c u. tt))))

  md5_fields-Gives :
      (md5 : Text → Text) (sub : ParsedMessageFile → Result NotFound Text) (version : RosVersion)
      (fields : List FieldInfo)
      → ((p : ParsedMessageFile) → Within n g p → Gives Any (sub p))
      → All (Known (Within n g) g version) fields
      → Gives Any (md5_fields md5 sub version fields g)
  unfolding md5_fields
  md5_fields-Gives md5 sub version [] h a = tt
  md5_fields-Gives md5 sub version (f ∷ fields) h (k, a) =
      Gives-bind Any Any (md5_field md5 sub version f g) _ (md5_field-Gives md5 sub version f h k)
        (λ line u.
          Gives-bind Any Any (md5_fields md5 sub version fields g) _
            (md5_fields-Gives md5 sub version fields h a) (λ rest v. tt))

  -- Names of the graph.
  abbrev pub InGraph : List Text → Type 0
  InGraph = All (λ s. contains_key s g ≡ true)

  set_insert-InGraph :
      (s : Text) (set : List Text)
      → contains_key s g ≡ true
      → InGraph set
      → InGraph (set_insert s set)
  set_insert-InGraph s [] h a = (h, tt)
  set_insert-InGraph s (t ∷ ts) h (k, a) = elim (Bool-cases (text_eq t s)) [
    | inl e ↦ rw e (k, a)
    | inr e ↦ rw e (elim (Bool-cases (text_less s t)) [
      | inl l ↦ rw l (h, (k, a))
      | inr l ↦ rw l (k, set_insert-InGraph s ts h a)
    ])
  ]

  set_append-InGraph : (ss set : List Text) → InGraph ss → InGraph set → InGraph (set_append ss set)
  set_append-InGraph [] set a b = b
  set_append-InGraph (s ∷ ss) set (h, a) b =
      set_append-InGraph ss (set_insert s set) a (set_insert-InGraph s set h b)

  unique_field_types-Gives :
      (sub : ParsedMessageFile → Result NotFound (List Text)) (version : RosVersion)
      (fields : List FieldInfo) (set : List Text)
      → ((p : ParsedMessageFile) → Within n g p → Gives InGraph (sub p))
      → All (Known (Within n g) g version) fields
      → InGraph set
      → Gives InGraph (unique_field_types sub version fields g set)
  unfolding unique_field_types
  unique_field_types-Gives sub version [] set h a b = b
  unique_field_types-Gives sub version (f ∷ fields) set h (inl l, a) b =
      rw (l.0, unique_field_types) (unique_field_types-Gives sub version fields set h a b)
  unique_field_types-Gives sub version (f ∷ fields) set h (inr (pkg, m, r, e, w), a) b =
      rw (r.0, unique_field_types)
        (rw (get_full_type_name-package f pkg r.2) (
          rw e (
            Gives-bind InGraph InGraph _ _
              (Gives-bind InGraph InGraph (sub m.parsed) _ (h m.parsed w)
                (λ deps d. set_append-InGraph deps _ d (set_insert-InGraph _ set (rw e refl) b)))
              (λ set' c. unique_field_types-Gives sub version fields set' h a c))))

  definitions_of-Gives :
      (names : List Text) (content : Text)
      → InGraph names
      → Gives Any (definitions_of names g content)
  unfolding definitions_of
  definitions_of-Gives [] content a = tt
  definitions_of-Gives (name ∷ names) content (h, a) = elim (Option-cases (get name g)) [
    | inl e ↦ absurd (ground (arith, e, h))
    | inr (m, e) ↦ rw (e, definitions_of) (definitions_of-Gives names _ a)
  ]

module _ (g : Graph) where
  determine_if_fixed_length-Gives :
      (n : ℕ) (p : ParsedMessageFile) → Within n g p → Gives Any (determine_if_fixed_length n p g)
  unfolding determine_if_fixed_length
  determine_if_fixed_length-Gives zero p w = elim w [ ]
  determine_if_fixed_length-Gives (suc n) p w =
      are_fixed_fields-Gives g n _ _ p.fields (determine_if_fixed_length-Gives n) w.1

  get_unique_field_types-Gives :
      (n : ℕ) (p : ParsedMessageFile)
      → Within n g p
      → Gives (InGraph g n) (get_unique_field_types n p g)
  unfolding get_unique_field_types
  get_unique_field_types-Gives zero p w = elim w [ ]
  get_unique_field_types-Gives (suc n) p w =
      unique_field_types-Gives g n _ _ p.fields [] (get_unique_field_types-Gives n) w.1 tt

  compute_full_definition-Gives :
      (n : ℕ) (p : ParsedMessageFile) → Within n g p → Gives Any (compute_full_definition n p g)
  unfolding compute_full_definition
  compute_full_definition-Gives n p w =
      Gives-bind (InGraph g n) Any (get_unique_field_types n p g) _
        (get_unique_field_types-Gives n p w)
        (λ names a.
          Gives-bind Any Any (definitions_of names g _) _ (definitions_of-Gives g n names _ a)
            (λ c u. tt))

  module _ (md5 : Text → Text) where
    pub md5sum_content-Gives :
        (n : ℕ) (p : ParsedMessageFile) → Within n g p → Gives Any (md5sum_content md5 n p g)
    unfolding md5sum_content
    md5sum_content-Gives zero p w = elim w [ ]
    md5sum_content-Gives (suc n) p w =
        Gives-bind Any Any
          (md5_fields md5 (λ q. md5sum_content md5 n q g) (version_or_ros1 p.version) p.fields g) _
          (md5_fields-Gives g n md5 _ _ p.fields (md5sum_content-Gives n) w.1) (λ c u. tt)

    pub resolve-Gives :
        (n : ℕ) (p : ParsedMessageFile)
        → Within n g p
        → Gives (λ m. m.parsed ≡ p) (resolve md5 n p g)
    unfolding resolve compute_md5sum
    resolve-Gives n p w =
        Gives-bind Any _ (compute_md5sum md5 n p g) _
          (Gives-bind Any Any (md5sum_content md5 n p g) _ (md5sum_content-Gives n p w) (λ c u. tt))
          (λ md5sum u.
            Gives-bind Any _ (calculate_ros2_hash n p g) _ (calculate_ros2_hash-Gives g n p w)
              (λ hash z.
                Gives-bind Any _ (compute_full_definition n p g) _
                  (compute_full_definition-Gives n p w)
                  (λ definition v.
                    Gives-bind Any _ (determine_if_fixed_length n p g) _
                      (determine_if_fixed_length-Gives n p w) (λ is_fixed x. refl))))
