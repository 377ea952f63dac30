-- ===== src/Codegen/Resolve/Rounds.antt =====
-- What a round of the loop of `resolve_dependency_graph` does to its queue and its graph.
use roslibrust.Base.{
  All-snoc, ℕ, suc, ◌+◌, ◌-◌, ◌*◌, ◌≤◌, ◌≡◌, subst, refl, ap, true, false, none, some, List, [],
  ◌∷◌, ◌++◌, All, Text, text_eq, text_eq_iff, text_eq_refl, get, insert, get-insert, member, length,
  map, arith, Bool-cases, inl, inr,
}
use roslibrust.Codegen.Types.{ParsedMessageFile}
use roslibrust.Codegen.Messages.{MessageFile, Graph, get_full_name}
use roslibrust.Codegen.Resolve.{MessageMetadata, fully_resolved, limit, unresolved}
use roslibrust.Codegen.Resolve.Growth.{
  Extends, Extends-insert, IsClosed, IsProper, fully_resolved-Within, insert-IsClosed,
}

abbrev pub names : List MessageMetadata → List Text
names queue = map (λ item. get_full_name item.msg) queue

abbrev pub AreDistinct : List Text → Type 0
AreDistinct [] = Unit
AreDistinct (s ∷ ss) = (member s ss ≡ false) × AreDistinct ss

-- The rounds that are left: a message is seen as often as the limit and two times more.
abbrev pub rounds : List MessageMetadata → ℕ
rounds [] = 0
rounds (item ∷ queue) = suc (suc limit - item.seen_count) + rounds queue

-- What holds at the start of each round.
pub record Ready (queue : List MessageMetadata) (g : Graph) : Type 0 where
  pub distinct : AreDistinct (names queue)
  pub fresh : All (λ item. get (get_full_name item.msg) g ≡ none) queue
  pub proper : All (λ item. IsProper item.msg) queue
  pub closed : IsClosed g

-- A message is in the graph, under its name.
abbrev pub IsIn : Graph → MessageMetadata → Type 0
IsIn g item = (m : MessageFile) × (get (get_full_name item.msg) g ≡ some m) × (m.parsed ≡ item.msg)

-- What a round leaves of the message at the head, the others and the graph.
pub record Placed (item : MessageMetadata) (queue : List MessageMetadata) (g : Graph)
    (queue' : List MessageMetadata) (g' : Graph) : Type 0 where
  pub ready : Ready queue' g'
  pub extends : Extends g g'
  pub covers : (h : Graph) → Extends g' h → All (IsIn h) queue' → All (IsIn h) (item ∷ queue)
  pub fewer : item.seen_count ≤ limit → suc (rounds queue') ≤ rounds (item ∷ queue)

text_eq_sym : (s t : Text) → text_eq s t ≡ false → text_eq t s ≡ false
text_eq_sym s t h = ground (arith, h, text_eq_iff s t, text_eq_iff t s)

member-snoc :
    (t s : Text) (ss : List Text)
    → member t ss ≡ false
    → text_eq s t ≡ false
    → member t (ss ++ (s ∷ [])) ≡ false
member-snoc t s [] h e = rw e refl
member-snoc t s (u ∷ us) h e = ground (arith, h, member-snoc t s us)

AreDistinct-snoc :
    (s : Text) (ss : List Text)
    → member s ss ≡ false
    → AreDistinct ss
    → AreDistinct (ss ++ (s ∷ []))
AreDistinct-snoc s [] h d = (refl, tt)
AreDistinct-snoc s (t ∷ ts) h (n, d) = elim (Bool-cases (text_eq t s)) [
  | inl e ↦ absurd (ground (arith, rw e at h))
  | inr e ↦ (member-snoc t s ts n (text_eq_sym t s e), AreDistinct-snoc s ts (rw e at h) d)
]

rounds-snoc :
    (queue : List MessageMetadata) (item : MessageMetadata)
    → rounds (queue ++ (item ∷ [])) ≡ suc (suc limit - item.seen_count) + rounds queue
rounds-snoc [] item = refl
rounds-snoc (i ∷ queue) item = omega (arith, rounds-snoc queue item)

All-unsnoc {ℓ} :
    {A : Type ℓ} (P : A → Type 0) (xs : List A) (x : A) → All P (xs ++ (x ∷ [])) → P x × All P xs
All-unsnoc P [] x (p, u) = (p, tt)
All-unsnoc P (y ∷ ys) x (q, a) = let (p, b) = All-unsnoc P ys x a in (p, (q, b))

pub names-snoc :
    (queue : List MessageMetadata) (item : MessageMetadata)
    → names (queue ++ (item ∷ [])) ≡ names queue ++ (get_full_name item.msg ∷ [])
names-snoc [] item = refl
names-snoc (i ∷ queue) item = ap (λ ss. get_full_name i.msg ∷ ss) (names-snoc queue item)

-- The others are still not in the graph.
insert-fresh :
    (k : Text) (v : MessageFile) (g : Graph) (queue : List MessageMetadata)
    → member k (names queue) ≡ false
    → All (λ item. get (get_full_name item.msg) g ≡ none) queue
    → All (λ item. get (get_full_name item.msg) (insert k v g) ≡ none) queue
insert-fresh k v g [] h a = tt
insert-fresh k v g (item ∷ queue) h (e, a) =
    elim (Bool-cases (text_eq (get_full_name item.msg) k)) [
      | inl q ↦ absurd (ground (arith, rw q at h))
      | inr q ↦ (
        rw (get-insert k (get_full_name item.msg) v g)
            (rw (text_eq_sym (get_full_name item.msg) k q) e),
        insert-fresh k v g queue (rw q at h) a,
      )
    ]

get-inserted : (k : Text) (v : MessageFile) (g : Graph) → get k (insert k v g) ≡ some v
get-inserted k v g = rw (get-insert k k v g) (rw (text_eq_refl k) refl)

pub resolved-Placed :
    (item : MessageMetadata) (queue : List MessageMetadata) (g : Graph) (m : MessageFile)
    → Ready (item ∷ queue) g
    → fully_resolved g item.msg.fields ≡ true
    → m.parsed ≡ item.msg
    → Placed item queue g queue (insert (get_full_name m.parsed) m g)
resolved-Placed item queue g m r h e =
    let fresh : get (get_full_name m.parsed) g ≡ none = rw e r.fresh.0 in
    record {
      ready = record {
        distinct = r.distinct.1;
        fresh = insert-fresh (get_full_name m.parsed) m g queue (rw e r.distinct.0) r.fresh.1;
        proper = r.proper.1;
        closed =
            insert-IsClosed g (get_full_name m.parsed) m fresh r.closed
              (rw e (fully_resolved-Within g item.msg r.closed h r.proper.0));
      };
      extends = Extends-insert (get_full_name m.parsed) m g fresh;
      covers = λ k x a. (
        (
          m,
          x (get_full_name item.msg) m (
              subst (λ p. get (get_full_name p) (insert (get_full_name m.parsed) m g) ≡ some m) e
                (get-inserted (get_full_name m.parsed) m g)),
          e,
        ),
        a,
      );
      fewer = λ l. omega (arith, l);
    }

abbrev pub seen_again : MessageMetadata → MessageMetadata
seen_again item = record item { seen_count = suc item.seen_count }

pub delayed-Placed :
    (item : MessageMetadata) (queue : List MessageMetadata) (g : Graph)
    → Ready (item ∷ queue) g
    → Placed item queue g (queue ++ (seen_again item ∷ [])) g
delayed-Placed item queue g r = record {
  ready = record {
    distinct =
        rw (names-snoc queue (seen_again item))
          (AreDistinct-snoc (get_full_name item.msg) (names queue) r.distinct.0 r.distinct.1);
    fresh = All-snoc _ queue (seen_again item) r.fresh.1 r.fresh.0;
    proper = All-snoc _ queue (seen_again item) r.proper.1 r.proper.0;
    closed = r.closed;
  };
  extends = λ name m e. e;
  covers = λ k x a. All-unsnoc (IsIn k) queue (seen_again item) a;
  fewer = λ l. omega (arith, l, rounds-snoc queue (seen_again item));
}

pub rounds-unresolved :
    (messages : List ParsedMessageFile)
    → rounds (unresolved messages) ≡ suc (suc limit) * length messages
rounds-unresolved [] = omega arith
rounds-unresolved (msg ∷ messages) = omega (arith, rounds-unresolved messages)
