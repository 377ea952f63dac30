-- ===== src/Codegen/Messages/Described.antt =====
-- The description of a message for its ROS 2 hash, where the messages under it are in the graph.
use roslibrust.Base.{
  ok, err, panic, diverge, ℕ, zero, suc, ◌≡◌, refl, Bool, true, false, some, List, [], ◌∷◌, All,
  Text, Map, Result, inl, inr,
}
use roslibrust.Codegen.Types.{RosVersion, FieldInfo, ParsedMessageFile}
use roslibrust.Codegen.Parse.{version_or_ros1}
use roslibrust.Codegen.TypeIds.{NotFound}
use roslibrust.Codegen.TypeIds.Totality.{get_field_type_id-total}
use roslibrust.Codegen.MessageGraph.{Field, TypeDescription, TypeDescriptionMsg}
use roslibrust.Codegen.Ros2Hashing.{
  get_ros2_full_name, describe_fields, convert_to_type_description, described, calculate_ros2_hash,
}
use roslibrust.Codegen.Messages.{Graph, get_full_type_name, in_package}
use roslibrust.Codegen.Messages.Depth.{Gives, Gives-bind, Any, Known, Within, HasFolder}

pub get_full_type_name-package :
    (f : FieldInfo) (pkg : Text)
    → f.field_type.package_name ≡ some pkg
    → get_full_type_name f ≡ in_package pkg f.field_type.field_type
get_full_type_name-package f pkg e = rw (e, get_full_type_name) refl

describe_fields-Gives :
    (g : Graph) (n : ℕ) (sub : ParsedMessageFile → Result NotFound TypeDescriptionMsg)
    (version : RosVersion) (naming : Bool) (fs : List FieldInfo) (fields : List Field)
    (referenced : Map TypeDescription)
    → ((p : ParsedMessageFile) → Within n g p → Gives Any (sub p))
    → All (Known (Within n g) g version) fs
    → Gives Any (describe_fields sub naming fs g fields referenced)
unfolding describe_fields
describe_fields-Gives g n sub version naming [] fields referenced h a = tt
describe_fields-Gives g n sub version naming (f ∷ fs) fields referenced h (inl l, a) =
    let (id, e) = get_field_type_id-total f.field_type l.3 in
    rw (e, describe_fields)
      (rw l.1 (describe_fields-Gives g n sub version naming fs _ referenced h a))
describe_fields-Gives g n sub version naming (f ∷ fs) fields referenced h
      (inr (pkg, m, r, there, w), a) =
    let (id, e) = get_field_type_id-total f.field_type r.3 in
    rw (e, describe_fields)
      (rw r.1 (
        rw (get_full_type_name-package f pkg r.2) (
          rw there (
            Gives-bind Any Any _ _ (Gives-bind Any Any (sub m.parsed) _ (h m.parsed w) (λ d u. tt))
              (λ referenced u. describe_fields-Gives g n sub version naming fs _ referenced h a)))))

get_ros2_full_name-Gives : (p : ParsedMessageFile) → HasFolder p → Gives Any (get_ros2_full_name p)
unfolding get_ros2_full_name
get_ros2_full_name-Gives p (parent, e) = rw (e, get_ros2_full_name) tt

convert_to_type_description-Gives :
    (g : Graph) (n : ℕ) (naming : Bool) (p : ParsedMessageFile)
    → Within n g p
    → Gives Any (convert_to_type_description n p g naming)
unfolding convert_to_type_description
convert_to_type_description-Gives g zero naming p w = elim w [ ]
convert_to_type_description-Gives g (suc n) naming p (folder, w) =
    Gives-bind Any Any
      (describe_fields (λ q. convert_to_type_description n q g true) naming p.fields g _ []) _
      (describe_fields-Gives g n _ (version_or_ros1 p.version) naming p.fields _ []
        (λ q. convert_to_type_description-Gives g n true q) w)
      (λ x u.
        Gives-bind Any Any (get_ros2_full_name p) _ (get_ros2_full_name-Gives p folder) (λ c v. tt))

described-Gives : {A : Type 0} (r : Result NotFound A) → Gives Any r → Gives Any (described r)
described-Gives (ok a) h = tt
described-Gives (err e) h = h
described-Gives panic h = h
described-Gives diverge h = h

pub calculate_ros2_hash-Gives :
    (g : Graph) (n : ℕ) (p : ParsedMessageFile)
    → Within n g p
    → Gives Any (calculate_ros2_hash n p g)
unfolding calculate_ros2_hash
calculate_ros2_hash-Gives g n p w =
    described-Gives (convert_to_type_description n p g false)
      (convert_to_type_description-Gives g n false p w)
