-- ===== src/Codegen/TypeIds/Totality.antt =====
-- Which types have an id.
use roslibrust.Base.{
  ℕ, ◌≡◌, refl, Bool, true, ◌&&◌, Option, Option-cases, none, some, [], ◌∷◌, ◌++◌, Text, codes,
  text_eq, Map, get, contains_key, Bool-cases, inl, inr, ◌⊎◌, arith, if◌then◌else◌, ok,
}
use roslibrust.Codegen.Types.{ArrayType, not_array, fixed_length, bounded, unbounded, FieldType}
use roslibrust.Codegen.TypeIds.{
  field_type_name_to_id, field_value_type_names, core_name, array_suffix_name,
  get_field_type_string, get_field_type_id,
}

-- A type that is not bounded, or a bounded string.
abbrev pub IsBoundable : FieldType → Type 0
IsBoundable ft = (ft.string_capacity ≡ none) ⊎ (ft.field_type ≡ codes "string")

abbrev known : Text → Bool
known name = contains_key (codes "FIELD_TYPE_" ++ name) field_type_name_to_id

abbrev all_values : (Text → Bool) → Map Text → Bool
all_values test [] = true
all_values test ((k, v) ∷ m) = test v && all_values test m

all_values-get :
    (test : Text → Bool) (k v : Text) (m : Map Text)
    → all_values test m ≡ true
    → get k m ≡ some v
    → test v ≡ true
unfolding get
all_values-get test k v [] h e = cc
all_values-get test k v ((j, w) ∷ m) h e = elim (Bool-cases (text_eq j k)) [
  | inl same ↦ ground (arith, h, rw same at e)
  | inr other ↦ all_values-get test k v m (ground (arith, h)) (rw other at e)
]

tables_known :
    (array_info : ArrayType)
    → (all_values (λ name. known (name ++ array_suffix_name array_info)) field_value_type_names
        ≡ true)
      × (known (codes "NESTED_TYPE" ++ array_suffix_name array_info) ≡ true)
unfolding get
tables_known (fixed_length n) = (refl, refl)
tables_known unbounded = (refl, refl)
tables_known (bounded n) = (refl, refl)
tables_known not_array = (refl, refl)

core_name-known :
    (ty : Text) (array_info : ArrayType)
    → known (core_name ty ++ array_suffix_name array_info) ≡ true
core_name-known ty array_info = elim (Option-cases (get ty field_value_type_names)) [
  | inl e ↦ rw (e, core_name) ((tables_known array_info).1)
  | inr (name, e) ↦
      rw (e, core_name)
        (all_values-get (λ n. known (n ++ array_suffix_name array_info)) ty name
          field_value_type_names (tables_known array_info).0 e)
]

bounded_string-known :
    (array_info : ArrayType)
    → known (codes "BOUNDED_" ++ (core_name (codes "string") ++ array_suffix_name array_info))
      ≡ true
unfolding get
bounded_string-known (fixed_length n) = refl
bounded_string-known unbounded = refl
bounded_string-known (bounded n) = refl
bounded_string-known not_array = refl

known-id :
    (ft : FieldType)
    → contains_key (get_field_type_string ft) field_type_name_to_id ≡ true
    → (id : ℕ) × (get_field_type_id ft ≡ ok id)
unfolding get_field_type_id
known-id ft h = elim (Option-cases (get (get_field_type_string ft) field_type_name_to_id)) [
  | inl e ↦ absurd (ground (arith, e, h))
  | inr (id, e) ↦ (id, rw (e, get_field_type_id) refl)
]

string-known :
    (package_name : Option Text) (source_package ty : Text) (array_info : ArrayType)
    (capacity : Option ℕ)
    → (capacity ≡ none) ⊎ (ty ≡ codes "string")
    → contains_key
        (get_field_type_string (record {
          package_name = package_name;
          source_package = source_package;
          field_type = ty;
          array_info = array_info;
          string_capacity = capacity;
        }))
        field_type_name_to_id
      ≡ true
unfolding get_field_type_string
string-known package_name source_package ty array_info none b =
    core_name-known (if text_eq ty (codes "char") then codes "uint8" else ty) array_info
string-known package_name source_package ty array_info (some n) (inl e) = cc
string-known package_name source_package ty array_info (some n) (inr e) =
    rw e (bounded_string-known array_info)

pub get_field_type_id-total :
    (ft : FieldType) → IsBoundable ft → (id : ℕ) × (get_field_type_id ft ≡ ok id)
get_field_type_id-total ft boundable = known-id ft (
    string-known ft.package_name ft.source_package ft.field_type ft.array_info ft.string_capacity
      boundable)
