-- ===== src/Codegen/Resolve/Growth.antt =====
-- A graph of messages whose dependencies are in the graph, and its growth by a new message.
use roslibrust.Base.{
  All-weaken, ℕ, zero, suc, ◌≡◌, subst, refl, ap, ◌∙◌, Bool, true, false, ◌&&◌, none, some, List,
  [], ◌∷◌, All, Text, text_eq, text_eq_iff, Map, get, insert, get-insert, length, arith, Bool-cases,
  Option-cases, inl, inr, ◌⊎◌,
}
use roslibrust.Codegen.Types.{RosVersion, FieldInfo, ParsedMessageFile}
use roslibrust.Codegen.Parse.{version_or_ros1}
use roslibrust.Codegen.Messages.{MessageFile, Graph, in_package}
use roslibrust.Codegen.Messages.Depth.{IsLocal, IsReference, Known, Within, HasFolder}
use roslibrust.Codegen.Messages.Described.{get_full_type_name-package}
use roslibrust.Codegen.Resolve.{is_resolved_field, fully_resolved}

pub length-insert :
    {V : Type 0} (k : Text) (v : V) (m : Map V)
    → get k m ≡ none
    → length (insert k v m) ≡ suc (length m)
unfolding get insert
length-insert k v [] h = refl
length-insert k v ((j, w) ∷ m) h = elim (Bool-cases (text_eq j k)) [
  | inl e ↦ absurd (ground (arith, e, h))
  | inr e ↦ rw (e, insert) (ap (λ n. suc n) (length-insert k v m (rw (e, get) at h)))
]

some_path : (a b : MessageFile) → some a ≡ some b → a ≡ b
some_path a b p = ap (λ o. elim o as (λ _. MessageFile) [ none ↦ a | some x ↦ x ]) p

-- The second graph has the entries of the first.
abbrev pub Extends : Graph → Graph → Type 0
Extends g h = (name : Text) (m : MessageFile) → get name g ≡ some m → get name h ≡ some m

pub Extends-insert :
    (k : Text) (v : MessageFile) (g : Graph) → get k g ≡ none → Extends g (insert k v g)
Extends-insert k v g h name m e = elim (Bool-cases (text_eq k name)) [
  | inl q ↦ absurd (ground (arith, (text_eq_iff k name).0 q, h, e))
  | inr q ↦ get-insert k name v g ∙ rw q e
]

Known-weaken :
    (P Q : ParsedMessageFile → Type 0) (g h : Graph) (version : RosVersion) (f : FieldInfo)
    → Extends g h
    → ((p : ParsedMessageFile) → P p → Q p)
    → Known P g version f
    → Known Q h version f
Known-weaken P Q g h version f x w (inl l) = inl l
Known-weaken P Q g h version f x w (inr (pkg, m, r, e, s)) = inr (pkg, m, r, x _ m e, w m.parsed s)

Within-Extends :
    (n : ℕ) (g h : Graph) (p : ParsedMessageFile) → Extends g h → Within n g p → Within n h p
Within-Extends zero g h p x w = w
Within-Extends (suc n) g h p x (folder, w) = (
  folder,
  All-weaken _ _ p.fields
      (λ f. Known-weaken (Within n g) (Within n h) g h _ f x (λ q. Within-Extends n g h q x)) w,
)

Within-suc : (n : ℕ) (g : Graph) (p : ParsedMessageFile) → Within n g p → Within (suc n) g p
Within-suc zero g p w = elim w [ ]
Within-suc (suc n) g p (folder, w) = (
  folder,
  All-weaken _ _ p.fields
      (λ f. Known-weaken (Within n g) (Within (suc n) g) g g _ f (λ name m e. e) (Within-suc n g))
      w,
)

-- The dependencies of each message are in the graph, on fewer levels than it has messages.
abbrev pub IsClosed : Graph → Type 0
IsClosed g = (name : Text) (m : MessageFile) → get name g ≡ some m → Within (length g) g m.parsed

-- A field is of an intrinsic type without a package, or of a message type with one, and bounded only
-- if it is a string. The path of a message has a folder with a name.
abbrev pub IsProperField : RosVersion → FieldInfo → Type 0
IsProperField version f = IsLocal version f ⊎ ((pkg : Text) × IsReference version f pkg)

abbrev pub IsProper : ParsedMessageFile → Type 0
IsProper p = HasFolder p × All (IsProperField (version_or_ros1 p.version)) p.fields

resolved-Known :
    (g : Graph) (version : RosVersion) (f : FieldInfo)
    → IsClosed g
    → is_resolved_field g f ≡ true
    → IsProperField version f
    → Known (Within (length g) g) g version f
resolved-Known g version f c h (inl l) = inl l
resolved-Known g version f c h (inr (pkg, r)) =
    elim (Option-cases (get (in_package pkg f.field_type.field_type) g)) [
      | inl e ↦ absurd (
          ground (
            arith,
            rw e at
                (rw (get_full_type_name-package f pkg r.2) at (rw (r.1, is_resolved_field) at h)),
          ))
      | inr (m, e) ↦ inr (pkg, m, r, e, c _ m e)
    ]

and_true : (a b : Bool) → (a && b) ≡ true → (a ≡ true) × (b ≡ true)
and_true true b h = (refl, h)
and_true false b h = absurd (ground (arith, h))

fully_resolved-Known :
    (g : Graph) (version : RosVersion) (fields : List FieldInfo)
    → IsClosed g
    → fully_resolved g fields ≡ true
    → All (IsProperField version) fields
    → All (Known (Within (length g) g) g version) fields
fully_resolved-Known g version [] c h a = tt
fully_resolved-Known g version (f ∷ fields) c h (p, a) = (
  resolved-Known g version f c (and_true (is_resolved_field g f) (fully_resolved g fields) h).0 p,
  fully_resolved-Known g version fields c
      (and_true (is_resolved_field g f) (fully_resolved g fields) h).1 a,
)

-- A message whose fields are resolved has its dependencies in the graph.
pub fully_resolved-Within :
    (g : Graph) (p : ParsedMessageFile)
    → IsClosed g
    → fully_resolved g p.fields ≡ true
    → IsProper p
    → Within (suc (length g)) g p
fully_resolved-Within g p c h (folder, a) = (folder, fully_resolved-Known g _ p.fields c h a)

pub insert-IsClosed :
    (g : Graph) (k : Text) (v : MessageFile)
    → get k g ≡ none
    → IsClosed g
    → Within (suc (length g)) g v.parsed
    → IsClosed (insert k v g)
insert-IsClosed g k v h c w name m e = elim (Bool-cases (text_eq k name)) [
  | inl q ↦ rw (length-insert k v g h) (
      Within-Extends (suc (length g)) g (insert k v g) m.parsed (Extends-insert k v g h) (
        subst (λ x. Within (suc (length g)) g x.parsed)
          (some_path v m (rw q at (rw (get-insert k name v g) at e))) w))
  | inr q ↦ rw (length-insert k v g h) (
      Within-Extends (suc (length g)) g (insert k v g) m.parsed (Extends-insert k v g h)
        (Within-suc (length g) g m.parsed (c name m (rw q at (rw (get-insert k name v g) at e)))))
]
