-- ===== src/Codegen/Messages/Depth.antt =====
-- The messages that a message refers to, through its fields and theirs.
use roslibrust.Base.{
  ℕ, zero, suc, ◌≡◌, true, false, none, some, All, Text, get, Result, ok, err, panic, diverge,
  ◌>>=◌, ◌⊎◌,
}
use roslibrust.Codegen.Types.{RosVersion, FieldInfo, ParsedMessageFile}
use roslibrust.Codegen.Parse.{is_intrinsic_type, version_or_ros1}
use roslibrust.Codegen.TypeIds.Totality.{IsBoundable}
use roslibrust.Codegen.Messages.{MessageFile, Graph, is_primitive, in_package}

-- A result with the property.
abbrev pub Gives : {E A : Type 0} → (A → Type 0) → Result E A → Type 0
Gives P (ok a) = P a
Gives P _ = ⊥

pub Gives-bind :
    {E A B : Type 0} (P : A → Type 0) (Q : B → Type 0) (r : Result E A) (f : A → Result E B)
    → Gives P r
    → ((a : A) → P a → Gives Q (f a))
    → Gives Q (do a ← r; f a)
Gives-bind P Q (ok a) f p h = h a p
Gives-bind P Q (err e) f p h = elim p [ ]
Gives-bind P Q panic f p h = elim p [ ]
Gives-bind P Q diverge f p h = elim p [ ]

abbrev pub Any : {A : Type 0} → A → Type 0
Any a = Unit

-- A field of an intrinsic type, and one of a message type with its package.
abbrev pub IsLocal : RosVersion → FieldInfo → Type 0
IsLocal version f =
    (is_intrinsic_type version f.field_type.field_type ≡ true)
    × (is_primitive f.field_type ≡ true)
    × (f.field_type.package_name ≡ none)
    × IsBoundable f.field_type

abbrev pub IsReference : RosVersion → FieldInfo → Text → Type 0
IsReference version f pkg =
    (is_intrinsic_type version f.field_type.field_type ≡ false)
    × (is_primitive f.field_type ≡ false)
    × (f.field_type.package_name ≡ some pkg)
    × IsBoundable f.field_type

abbrev pub Refers : (ParsedMessageFile → Type 0) → Graph → RosVersion → FieldInfo → Type 0
Refers sub g version f =
    (pkg : Text) × (m : MessageFile) × IsReference version f pkg
    × (get (in_package pkg f.field_type.field_type) g ≡ some m)
    × sub m.parsed

abbrev pub Known : (ParsedMessageFile → Type 0) → Graph → RosVersion → FieldInfo → Type 0
Known sub g version f = IsLocal version f ⊎ Refers sub g version f

-- The path of the message has a folder with a name.
abbrev pub HasFolder : ParsedMessageFile → Type 0
HasFolder p = (parent : Text) × (p.path_parent ≡ some parent)

-- The messages under a message are in the graph, on fewer levels than the number, and they and the
-- message itself have folders.
abbrev pub Within : ℕ → Graph → ParsedMessageFile → Type 0
Within zero g p = ⊥
Within (suc n) g p = HasFolder p × All (Known (Within n g) g (version_or_ros1 p.version)) p.fields
