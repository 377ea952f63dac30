-- ===== src/Codegen/Resolve/Outcome.antt =====
-- How the loop of `resolve_dependency_graph` ends.
use roslibrust.Base.{
  ℕ, zero, suc, ◌*◌, ◌≤◌, ◌≡◌, List, [], ◌∷◌, All, Text, length, ltb, Result, ok, err, panic,
  diverge, ◌>>=◌, arith, Bool-cases, inl, inr,
}
use roslibrust.Codegen.Types.{ParsedMessageFile}
use roslibrust.Codegen.Messages.{NotFound, Graph, resolve}
use roslibrust.Codegen.Messages.Depth.{Gives}
use roslibrust.Codegen.Messages.Results.{resolve-Gives}
use roslibrust.Codegen.Resolve.{
  ResolveError, failed_message, failed_service, search_limit, or_error, MessageMetadata,
  fully_resolved, limit, place, visit, resolve_messages, unresolved, resolve_all,
}
use roslibrust.Codegen.Resolve.Growth.{Extends, IsClosed, fully_resolved-Within}
use roslibrust.Codegen.Resolve.Rounds.{
  names, rounds, Ready, IsIn, Placed, resolved-Placed, delayed-Placed, rounds-unresolved,
}

-- A result with the property, or the error of the search limit.
abbrev pub GivesOrLimit : {A : Type 0} → (A → Type 0) → Result ResolveError A → Type 0
GivesOrLimit P (ok a) = P a
GivesOrLimit P (err (search_limit types names)) = Unit
GivesOrLimit P _ = ⊥

pub GivesOrLimit-bind :
    {A B : Type 0} (P : A → Type 0) (Q : B → Type 0) (r : Result ResolveError A)
    (f : A → Result ResolveError B)
    → GivesOrLimit P r
    → ((a : A) → P a → GivesOrLimit Q (f a))
    → GivesOrLimit Q (do a ← r; f a)
GivesOrLimit-bind P Q (ok a) f p h = h a p
GivesOrLimit-bind P Q (err (search_limit types names)) f p h = tt
GivesOrLimit-bind P Q (err (failed_message name)) f p h = elim p [ ]
GivesOrLimit-bind P Q (err (failed_service name)) f p h = elim p [ ]
GivesOrLimit-bind P Q panic f p h = elim p [ ]
GivesOrLimit-bind P Q diverge f p h = elim p [ ]

pub GivesOrLimit-weaken :
    {A : Type 0} (P Q : A → Type 0) (r : Result ResolveError A)
    → ((a : A) → P a → Q a)
    → GivesOrLimit P r
    → GivesOrLimit Q r
GivesOrLimit-weaken P Q (ok a) f p = f a p
GivesOrLimit-weaken P Q (err (search_limit types names)) f p = tt
GivesOrLimit-weaken P Q (err (failed_message name)) f p = elim p [ ]
GivesOrLimit-weaken P Q (err (failed_service name)) f p = elim p [ ]
GivesOrLimit-weaken P Q panic f p = elim p [ ]
GivesOrLimit-weaken P Q diverge f p = elim p [ ]

pub Gives-or_error :
    {A : Type 0} (P : A → Type 0) (e : ResolveError) (r : Result NotFound A)
    → Gives P r
    → GivesOrLimit P (or_error e r)
Gives-or_error P e (ok a) p = p
Gives-or_error P e (err x) p = elim p [ ]
Gives-or_error P e panic p = elim p [ ]
Gives-or_error P e diverge p = elim p [ ]

module _ (md5 : Text → Text) where
  place-Placed :
      (item : MessageMetadata) (queue : List MessageMetadata) (g : Graph)
      → Ready (item ∷ queue) g
      → GivesOrLimit (λ (queue', g'). Placed item queue g queue' g') (place md5 item queue g)
  place-Placed item queue g r = elim (Bool-cases (fully_resolved g item.msg.fields)) [
    | inl h ↦
        rw (h, place)
          (GivesOrLimit-bind (λ m. m.parsed ≡ item.msg) _ _ _
            (Gives-or_error _ _ (resolve md5 (suc (length g)) item.msg g) (
              resolve-Gives g md5 (suc (length g)) item.msg
                (fully_resolved-Within g item.msg r.closed h r.proper.0)))
            (λ m e. resolved-Placed item queue g m r h e))
    | inr h ↦ rw (h, place) (delayed-Placed item queue g r)
  ]

  visit-Placed :
      (item : MessageMetadata) (queue : List MessageMetadata) (g : Graph)
      → Ready (item ∷ queue) g
      → GivesOrLimit
          (λ (queue', g'). Placed item queue g queue' g' × (item.seen_count ≤ limit))
          (visit md5 item queue g)
  unfolding visit
  visit-Placed item queue g r =
      GivesOrLimit-bind (λ (queue', g'). Placed item queue g queue' g') _ (place md5 item queue g) _
        (place-Placed item queue g r)
        (λ (queue', g') p. elim (Bool-cases (ltb limit item.seen_count)) [
          | inl h ↦ rw h tt
          | inr h ↦ rw h (p, ground (arith, h))
        ])

  pub resolve_messages-ends :
      (fuel : ℕ) (queue : List MessageMetadata) (g : Graph)
      → Ready queue g
      → rounds queue ≤ fuel
      → GivesOrLimit
          (λ g'. Extends g g' × IsClosed g' × All (IsIn g') queue)
          (resolve_messages md5 fuel queue g)
  unfolding resolve_messages
  resolve_messages-ends fuel [] g r h = ((λ name m e. e), r.closed, tt)
  resolve_messages-ends zero (item ∷ queue) g r h = absurd (omega (arith, h))
  resolve_messages-ends (suc fuel) (item ∷ queue) g r h =
      GivesOrLimit-bind (λ (queue', g'). Placed item queue g queue' g' × (item.seen_count ≤ limit))
        _ (visit md5 item queue g) _ (visit-Placed item queue g r)
        (λ (queue', g') (p, seen).
          GivesOrLimit-weaken _ _ (resolve_messages md5 fuel queue' g')
            (λ k (x, c, a). ((λ name m e. x name m (p.extends name m e)), c, p.covers k x a))
            (resolve_messages-ends fuel queue' g' p.ready (omega (arith, p.fewer seen, h))))

  -- If the messages have different names, none of which the shipped messages have, paths with a
  -- folder, and proper fields, of which only strings are bounded, the loop ends, without a panic and with no error but that of the search limit; if it
  -- gives a graph, that has every message under its name and keeps the shipped messages, and the
  -- dependencies of each message are in it.
  pub resolve_all-ends :
      (messages : List ParsedMessageFile) (builtin : Graph)
      → Ready (unresolved messages) builtin
      → GivesOrLimit
          (λ g. Extends builtin g × IsClosed g × All (IsIn g) (unresolved messages))
          (resolve_all md5 messages builtin)
  unfolding resolve_all
  resolve_all-ends messages builtin r =
      resolve_messages-ends (suc (suc limit) * length messages) (unresolved messages) builtin r
        (omega (arith, rounds-unresolved messages))
