-- ===== src/Codegen/Resolve.antt =====
-- `resolve_dependency_graph` and `ServiceFile` of roslibrust_codegen/src/lib.rs. The loop runs on fuel, and the computations of a message run on
-- one step more than the graph has messages.
pub mod Growth
pub mod Rounds
pub mod Turns
pub mod Outcome
pub mod Completeness
pub mod Shipped
pub mod WholeGraph
mod Tests
use roslibrust.Base.{
  ℕ, zero, suc, ◌+◌, ◌*◌, Bool, true, false, not, ◌&&◌, Option, none, some, List, [], ◌∷◌, ◌++◌,
  Text, codes, Map, get, insert, contains_key, member, length, map, if◌then◌else◌, ltb, Result, ok,
  err, panic, diverge, ◌>>=◌,
}
use roslibrust.Codegen.Strs.{trim_end}
use roslibrust.Codegen.Types.{FieldType, FieldInfo, ParsedMessageFile, ParsedServiceFile}
use roslibrust.Codegen.Builtin.{get_builtin_interfaces}
use roslibrust.Codegen.MessageGraph.{TypeDescriptionMsg}
use roslibrust.Codegen.Ros2Hashing.{calculate_ros2_srv_hash}
use roslibrust.Codegen.Messages.{
  NotFound, not_found, MessageFile, Graph, is_primitive, get_full_type_name, get_full_name,
  text_less, set_insert, set_append, md5sum_content, resolve,
}

pub record ServiceFile : Type 0 where
  pub parsed : ParsedServiceFile
  pub request : MessageFile
  pub response : MessageFile
  pub md5sum : Text
  pub ros2_hash : TypeDescriptionMsg

-- The errors, with what they list: the types that are unresolved, and the messages.
pub data ResolveError : Type 0 where
  failed_message failed_service : Text → ResolveError
  search_limit : List Text → List Text → ResolveError

abbrev pub or_error : {A : Type 0} → ResolveError → Result NotFound A → Result ResolveError A
or_error e (ok a) = ok a
or_error e (err x) = err e
or_error e panic = panic
or_error e diverge = diverge

pub record MessageMetadata : Type 0 where
  pub msg : ParsedMessageFile
  pub seen_count : ℕ

abbrev pub unresolved : List ParsedMessageFile → List MessageMetadata
unresolved messages = map (λ msg. record { msg = msg; seen_count = 0 }) messages

abbrev pub is_resolved_field : Graph → FieldInfo → Bool
is_resolved_field g f =
    if is_primitive f.field_type then true else contains_key (get_full_type_name f) g

-- `msg.fields.iter().all(…)`
abbrev pub fully_resolved : Graph → List FieldInfo → Bool
fully_resolved g [] = true
fully_resolved g (f ∷ fields) = is_resolved_field g f && fully_resolved g fields

abbrev pub limit : ℕ
limit = 2048

-- The types of a queue's fields that are not in the graph, each once.
abbrev missing_types : Graph → List FieldInfo → List Text → List Text
missing_types g [] set = set
missing_types g (f ∷ fields) set =
    missing_types g fields
      (if is_resolved_field g f then set else set_insert (get_full_type_name f) set)

abbrev all_missing_types : Graph → List MessageMetadata → List Text → List Text
all_missing_types g [] set = set
all_missing_types g (item ∷ queue) set =
    all_missing_types g queue (missing_types g item.msg.fields set)

abbrev not_in : List Text → List Text → List Text
not_in names [] = []
not_in names (s ∷ ss) = let rest = not_in names ss in if member s names then rest else s ∷ rest

abbrev pub limit_error : List MessageMetadata → Graph → ResolveError
limit_error queue g =
    let msg_names = map (λ item. get_full_name item.msg) queue in
    search_limit (not_in msg_names (all_missing_types g queue [])) msg_names

-- The values of a `BTreeMap`, in the order of its keys.
abbrev insert_entry : Text → MessageFile → Graph → Graph
insert_entry k v [] = (k, v) ∷ []
insert_entry k v ((j, w) ∷ g) =
    let rest = insert_entry k v g in if text_less j k then (j, w) ∷ rest else (k, v) ∷ (j, w) ∷ g

abbrev pub in_order : Graph → Graph
in_order [] = []
in_order ((k, v) ∷ g) = insert_entry k v (in_order g)

-- `sort_by` on the names of the services.
abbrev insert_service : ServiceFile → List ServiceFile → List ServiceFile
insert_service s [] = s ∷ []
insert_service s (t ∷ ts) =
    let rest = insert_service s ts in
    if text_less t.parsed.name s.parsed.name then t ∷ rest else s ∷ (t ∷ ts)

abbrev pub sort_services : List ServiceFile → List ServiceFile
sort_services [] = []
sort_services (s ∷ ss) = insert_service s (sort_services ss)

module _ (md5 : Text → Text) where
  -- The message at the head of the queue, either into the graph or to the queue's end.
  abbrev pub place :
      MessageMetadata
      → List MessageMetadata
      → Graph
      → Result ResolveError (List MessageMetadata × Graph)
  place item queue g =
      if fully_resolved g item.msg.fields
      then (do
        msg_file ←
            or_error (failed_message (get_full_name item.msg))
              (resolve md5 (suc (length g)) item.msg g)
        ok (queue, insert (get_full_name msg_file.parsed) msg_file g))
      else ok (queue ++ (record item { seen_count = suc item.seen_count } ∷ []), g)

  -- A round of the loop.
  unfoldable pub visit :
      MessageMetadata
      → List MessageMetadata
      → Graph
      → Result ResolveError (List MessageMetadata × Graph)
  visit item queue g = do
    (queue, g) ← place item queue g
    if ltb limit item.seen_count then err (limit_error queue g) else ok (queue, g)

  unfoldable pub resolve_messages : ℕ → List MessageMetadata → Graph → Result ResolveError Graph
  resolve_messages fuel [] g = ok g
  resolve_messages zero (item ∷ queue) g = diverge
  resolve_messages (suc fuel) (item ∷ queue) g = do
    (queue, g) ← visit item queue g
    resolve_messages fuel queue g

  -- `ServiceFile::compute_md5sum`
  unfoldable pub service_md5sum : ℕ → ParsedServiceFile → Graph → Result NotFound Text
  service_md5sum fuel parsed g = do
    request_content ← md5sum_content md5 fuel parsed.request_type g
    response_content ← md5sum_content md5 fuel parsed.response_type g
    ok (md5 (trim_end request_content ++ trim_end response_content))

  -- The `if let` evaluates both resolutions.
  abbrev both : {A B : Type 0} → Result NotFound A → Result NotFound B → Result NotFound (A × B)
  both (ok a) (ok b) = ok (a, b)
  both (ok a) (err e) = err e
  both (ok a) panic = panic
  both (ok a) diverge = diverge
  both (err e) panic = panic
  both (err e) diverge = diverge
  both (err e) _ = err e
  both panic r = panic
  both diverge r = diverge

  -- `ServiceFile::resolve`
  unfoldable pub resolve_service : ℕ → ParsedServiceFile → Graph → Result NotFound ServiceFile
  resolve_service fuel parsed g = do
    (request, response) ←
        both (resolve md5 fuel parsed.request_type g) (resolve md5 fuel parsed.response_type g)
    md5sum ← service_md5sum fuel parsed g
    ros2_hash ← calculate_ros2_srv_hash fuel parsed g
    ok (record {
      parsed = parsed;
      request = request;
      response = response;
      md5sum = md5sum;
      ros2_hash = ros2_hash;
    })

  unfoldable pub resolve_services :
      List ParsedServiceFile → Graph → Result ResolveError (List ServiceFile)
  resolve_services [] g = ok []
  resolve_services (srv ∷ services) g = do
    s ← or_error (failed_service srv.name) (resolve_service (suc (length g)) srv g)
    rest ← resolve_services services g
    ok (s ∷ rest)

  -- The messages of `resolve_dependency_graph`, from those that the crate ships.
  unfoldable pub resolve_all : List ParsedMessageFile → Graph → Result ResolveError Graph
  resolve_all messages builtin =
      resolve_messages (suc (suc limit) * length messages) (unresolved messages) builtin

  unfoldable pub resolve_dependency_graph :
      List ParsedMessageFile
      → List ParsedServiceFile
      → Result ResolveError (List MessageFile × List ServiceFile)
  resolve_dependency_graph messages services = do
    builtin ← get_builtin_interfaces md5 ResolveError
    resolved_messages ← resolve_all messages builtin
    resolved_services ← resolve_services services resolved_messages
    ok (map (λ (k, m). m) (in_order resolved_messages), sort_services resolved_services)
