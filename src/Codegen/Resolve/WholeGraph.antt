-- ===== src/Codegen/Resolve/WholeGraph.antt =====
-- `resolve_dependency_graph` from the shipped messages to its result.
use roslibrust.Base.{
  All-weaken, ℕ, ◌≤◌, ◌<◌, ◌≡◌, refl, ◌∙◌, sym, true, false, none, List, All, Text, get,
  contains_key, keys, member, member-keys, map, ok, ◌>>=◌, arith, Option-cases, inl, inr, ◌⊎◌,
}
use roslibrust.Codegen.Types.{FieldInfo, ParsedMessageFile, ParsedServiceFile}
use roslibrust.Codegen.Messages.{Graph, is_primitive, get_full_type_name, get_full_name}
use roslibrust.Codegen.Resolve.{
  ResolveError, MessageMetadata, limit, unresolved, resolve_services, in_order, sort_services,
  resolve_dependency_graph,
}
use roslibrust.Codegen.Resolve.Growth.{IsProper, IsClosed}
use roslibrust.Codegen.Resolve.Rounds.{names, AreDistinct, Ready, IsIn}
use roslibrust.Codegen.Resolve.Turns.{rank_of, IsSupplied}
use roslibrust.Codegen.Resolve.Completeness.{resolve_all-completes}
use roslibrust.Codegen.Resolve.Shipped.{shipped_names, get_builtin_interfaces-IsClosed}

-- A field's type is primitive, shipped, or a message of a lower rank.
abbrev pub HasRank : (Text → ℕ) → List Text → ℕ → FieldInfo → Type 0
HasRank rank known r f =
    (is_primitive f.field_type ≡ true)
    ⊎ ((member (get_full_type_name f) shipped_names ≡ true)
        ⊎ ((member (get_full_type_name f) known ≡ true) × (rank (get_full_type_name f) < r)))

-- Messages of different names, none of them shipped, with folders and proper fields, and ranked so that each
-- refers to lower ranks only.
pub record AreRanked (rank : Text → ℕ) (messages : List ParsedMessageFile) : Type 0 where
  pub distinct : AreDistinct (names (unresolved messages))
  pub unshipped :
      All (λ item. member (get_full_name item.msg) shipped_names ≡ false) (unresolved messages)
  pub proper : All (λ item. IsProper item.msg) (unresolved messages)
  pub ranked :
      All
        (λ item.
          (rank_of rank item ≤ limit)
          × All (HasRank rank (names (unresolved messages)) (rank_of rank item)) item.msg.fields)
        (unresolved messages)

get-absent :
    {V : Type 0} (k : Text) (m : List (Text × V)) → member k (keys m) ≡ false → get k m ≡ none
get-absent k m h = elim (Option-cases (get k m)) [
  | inl e ↦ e
  | inr (v, e) ↦ absurd (ground (arith, e, h, member-keys k m))
]

module _ (md5 : Text → Text) (rank : Text → ℕ) (messages : List ParsedMessageFile) where
  shipped-Ready :
      (g : Graph)
      → IsClosed g
      → keys g ≡ shipped_names
      → AreRanked rank messages
      → Ready (unresolved messages) g
  shipped-Ready g c e a = record {
    distinct = a.distinct;
    fresh =
        All-weaken _ _ (unresolved messages)
          (λ item h. get-absent (get_full_name item.msg) g (rw e h)) a.unshipped;
    proper = a.proper;
    closed = c;
  }

  shipped-IsSupplied :
      (g : Graph)
      → keys g ≡ shipped_names
      → AreRanked rank messages
      → All (IsSupplied rank g (names (unresolved messages))) (unresolved messages)
  shipped-IsSupplied g e a =
      All-weaken _ _ (unresolved messages)
        (λ item (l, fs). (l, All-weaken _ _ item.msg.fields (step item) fs)) a.ranked
    where
      step :
          (item : MessageMetadata) (f : FieldInfo)
          → HasRank rank (names (unresolved messages)) (rank_of rank item) f
          → (is_primitive f.field_type ≡ true)
            ⊎ ((contains_key (get_full_type_name f) g ≡ true)
                ⊎ ((member (get_full_type_name f) (names (unresolved messages)) ≡ true)
                    × (rank (get_full_type_name f) < rank_of rank item)))
      step item f (inl p) = inl p
      step item f (inr (inl s)) = inr (inl (sym (member-keys (get_full_type_name f) g) ∙ rw e s))
      step item f (inr (inr q)) = inr (inr q)

  -- If the messages have different names, none of them shipped, paths with a folder, and proper
  -- fields, of which only strings are bounded, and can be ranked
  -- by numbers up to 2048 so that each refers to primitive types, shipped messages and messages of a
  -- lower rank only, then a graph has every message, and `resolve_dependency_graph` gives its
  -- messages in the order of their names and, sorted, the services that it resolves in the graph.
  pub resolve_dependency_graph-completes :
      (services : List ParsedServiceFile)
      → AreRanked rank messages
      → (g : Graph) × (resolve_dependency_graph md5 messages services ≡ (do
        resolved ← resolve_services md5 services g
        ok (map (λ (k, m). m) (in_order g), sort_services resolved)))
        × All (IsIn g) (unresolved messages)
  unfolding resolve_dependency_graph
  resolve_dependency_graph-completes services a =
      let (b, e, c, k) = get_builtin_interfaces-IsClosed md5 ResolveError in
      let (g, q, all) =
        resolve_all-completes md5 rank messages b (shipped-Ready b c k a)
          (shipped-IsSupplied b k a) in
      (g, rw e (rw q refl), all)
