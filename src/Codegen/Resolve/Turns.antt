-- ===== src/Codegen/Resolve/Turns.antt =====
-- The messages wait in turns: in each turn those are resolved whose dependencies are.
use roslibrust.Base.{
  All-snoc, All-weaken, ℕ, suc, ◌≤◌, ◌<◌, ◌≡◌, subst, refl, true, List, [], ◌∷◌, ◌++◌, All, Text,
  text_eq, text_eq_iff, contains_key, member, arith, Bool-cases, inl, inr, ◌⊎◌,
}
use roslibrust.Codegen.Types.{FieldInfo}
use roslibrust.Codegen.Messages.{Graph, is_primitive, get_full_type_name, get_full_name}
use roslibrust.Codegen.Resolve.{MessageMetadata, fully_resolved, limit}
use roslibrust.Codegen.Resolve.Rounds.{names}

module _ (rank : Text → ℕ) where
  abbrev pub rank_of : MessageMetadata → ℕ
  rank_of item = rank (get_full_name item.msg)

  -- A message that was seen so often has at least that rank.
  abbrev pub Waits : ℕ → MessageMetadata → Type 0
  Waits s item = (item.seen_count ≡ s) × (s ≤ rank_of item)

  -- A queue whose first messages were seen so often, and the others once more.
  abbrev pub Turned : ℕ → List MessageMetadata → Type 0
  Turned s [] = Unit
  Turned s (item ∷ queue) = (Waits s item × Turned s queue) ⊎ All (Waits (suc s)) (item ∷ queue)

  Turned-All : (s : ℕ) (queue : List MessageMetadata) → All (Waits s) queue → Turned s queue
  Turned-All s [] a = tt
  Turned-All s (item ∷ queue) (w, a) = inl (w, Turned-All s queue a)

  pub Turned-snoc :
      (s : ℕ) (queue : List MessageMetadata) (item : MessageMetadata)
      → Turned s queue
      → Waits (suc s) item
      → Turned s (queue ++ (item ∷ []))
  Turned-snoc s [] item t w = inr (w, tt)
  Turned-snoc s (i ∷ queue) item (inl (v, t)) w = inl (v, Turned-snoc s queue item t w)
  Turned-snoc s (i ∷ queue) item (inr (v, a)) w = inr (v, All-snoc (Waits (suc s)) queue item a w)

  -- The count of the message at the head, and the turn of the others.
  pub Turned-head :
      (s : ℕ) (item : MessageMetadata) (queue : List MessageMetadata)
      → Turned s (item ∷ queue)
      → (t : ℕ) × Waits t item × Turned t queue
  Turned-head s item queue (inl (w, t)) = (s, w, t)
  Turned-head s item queue (inr (w, a)) = (suc s, w, Turned-All (suc s) queue a)

  Turned-later : (s : ℕ) (queue : List MessageMetadata) → All (Waits (suc s)) queue → Turned s queue
  Turned-later s [] a = tt
  Turned-later s (item ∷ queue) a = inr a

  Turned-first :
      (s : ℕ) (item : MessageMetadata) (queue : List MessageMetadata)
      → Turned s (item ∷ queue)
      → (s ≤ rank_of item) × Turned s queue
  Turned-first s item queue (inl (w, t)) = (w.1, t)
  Turned-first s item queue (inr (w, a)) = (omega (arith, w.1), Turned-later s queue a)

  pub Turned-rank :
      (s : ℕ) (queue : List MessageMetadata)
      → Turned s queue
      → (n : Text) → member n (names queue) ≡ true
      → s ≤ rank n
  Turned-rank s [] t n h = absurd (ground (arith, h))
  Turned-rank s (item ∷ queue) t n h = elim (Bool-cases (text_eq (get_full_name item.msg) n)) [
    | inl e ↦
        subst (λ k. s ≤ rank k) ((text_eq_iff (get_full_name item.msg) n).0 e)
          (Turned-first s item queue t).0
    | inr e ↦ Turned-rank s queue (Turned-first s item queue t).1 n (rw e at h)
  ]

  -- A field's type is primitive, in the graph, or waiting with a smaller rank.
  abbrev pub Supplied : Graph → List Text → ℕ → FieldInfo → Type 0
  Supplied g waiting r f =
      (is_primitive f.field_type ≡ true)
      ⊎ ((contains_key (get_full_type_name f) g ≡ true)
          ⊎ ((member (get_full_type_name f) waiting ≡ true) × (rank (get_full_type_name f) < r)))

  abbrev pub IsSupplied : Graph → List Text → MessageMetadata → Type 0
  IsSupplied g waiting item =
      (rank_of item ≤ limit) × All (Supplied g waiting (rank_of item)) item.msg.fields

  pub IsSupplied-weaken :
      (g h : Graph) (waiting later : List Text) (item : MessageMetadata)
      → ((n : Text) → contains_key n g ≡ true → contains_key n h ≡ true)
      → ((n : Text) → member n waiting ≡ true → (contains_key n h ≡ true) ⊎ (member n later ≡ true))
      → IsSupplied g waiting item
      → IsSupplied h later item
  IsSupplied-weaken g h waiting later item x y (l, a) = (l, All-weaken _ _ item.msg.fields step a)
    where
      step :
          (f : FieldInfo) → Supplied g waiting (rank_of item) f → Supplied h later (rank_of item) f
      step f (inl p) = inl p
      step f (inr (inl c)) = inr (inl (x (get_full_type_name f) c))
      step f (inr (inr (m, r))) = elim (y (get_full_type_name f) m) [
        | inl c ↦ inr (inl c)
        | inr l ↦ inr (inr (l, r))
      ]

  -- A message whose turn is its rank has all its dependencies.
  pub IsSupplied-resolved :
      (g : Graph) (waiting : List Text) (r : ℕ) (fields : List FieldInfo)
      → ((n : Text) → member n waiting ≡ true → r ≤ rank n)
      → All (Supplied g waiting r) fields
      → fully_resolved g fields ≡ true
  IsSupplied-resolved g waiting r [] x a = refl
  IsSupplied-resolved g waiting r (f ∷ fields) x (inl p, a) =
      rw p (IsSupplied-resolved g waiting r fields x a)
  IsSupplied-resolved g waiting r (f ∷ fields) x (inr (inl c), a) =
      elim (Bool-cases (is_primitive f.field_type)) [
        | inl p ↦ rw p (IsSupplied-resolved g waiting r fields x a)
        | inr p ↦ rw p (rw c (IsSupplied-resolved g waiting r fields x a))
      ]
  IsSupplied-resolved g waiting r (f ∷ fields) x (inr (inr (m, l)), a) =
      absurd (omega (arith, x (get_full_type_name f) m, l))
