-- ===== src/Codegen/Resolve/Completeness.antt =====
-- The loop of `resolve_dependency_graph` resolves every set of messages that can be resolved.
use roslibrust.Base.{
  All-snoc, All-weaken, ℕ, zero, suc, ◌*◌, ◌≤◌, ◌≡◌, subst, refl, ap, sym, Bool, true, false, List,
  [], ◌∷◌, ◌++◌, All, Text, text_eq, insert, contains_key, get-insert, member, length, ltb, ok,
  arith, Bool-cases, inl, inr, ◌⊎◌,
}
use roslibrust.Codegen.Types.{ParsedMessageFile}
use roslibrust.Codegen.Messages.{MessageFile, Graph, get_full_name, resolve}
use roslibrust.Codegen.Messages.Results.{resolve-Gives, Gives-value}
use roslibrust.Codegen.Resolve.{
  MessageMetadata, fully_resolved, limit, place, visit, resolve_messages, unresolved, resolve_all,
}
use roslibrust.Codegen.Resolve.Growth.{fully_resolved-Within}
use roslibrust.Codegen.Resolve.Rounds.{
  names, names-snoc, seen_again, rounds, Ready, IsIn, resolved-Placed, delayed-Placed,
  rounds-unresolved,
}
use roslibrust.Codegen.Resolve.Outcome.{resolve_all-ends}
use roslibrust.Codegen.Resolve.Turns.{
  rank_of, Turned, Turned-snoc, Turned-head, Turned-rank, IsSupplied, IsSupplied-weaken,
  IsSupplied-resolved,
}

within_limit : (n : ℕ) → n ≤ limit → ltb limit n ≡ false
within_limit n h = ground (arith, h)

not_less : (n m : ℕ) → ltb n m ≡ false → m ≤ n
not_less n m h = ground (arith, h)

true_not_false : {b : Bool} → b ≡ true → b ≡ false → ⊥
true_not_false p q = ground (arith, p, q)

module _ (md5 : Text → Text) (rank : Text → ℕ) where
  visit-resolved :
      (item : MessageMetadata) (queue : List MessageMetadata) (g : Graph)
      → Ready (item ∷ queue) g
      → item.seen_count ≤ limit
      → fully_resolved g item.msg.fields ≡ true
      → (m : MessageFile) × (m.parsed ≡ item.msg)
        × (visit md5 item queue g ≡ ok (queue, insert (get_full_name m.parsed) m g))
  unfolding visit
  visit-resolved item queue g r l h =
      let (m, e, p) = Gives-value _ (resolve md5 (suc (length g)) item.msg g) (
        resolve-Gives g md5 (suc (length g)) item.msg
          (fully_resolved-Within g item.msg r.closed h r.proper.0)) in
      (m, p, rw (h, place) (rw e (rw (within_limit item.seen_count l) refl)))

  visit-delayed :
      (item : MessageMetadata) (queue : List MessageMetadata) (g : Graph)
      → item.seen_count ≤ limit
      → fully_resolved g item.msg.fields ≡ false
      → visit md5 item queue g ≡ ok (queue ++ (seen_again item ∷ []), g)
  unfolding visit
  visit-delayed item queue g l h = rw (h, place) (rw (within_limit item.seen_count l) refl)

  -- What holds at the start of each round, if the messages can be resolved.
  record Resolvable (queue : List MessageMetadata) (g : Graph) : Type 0 where
    ready : Ready queue g
    turn : (s : ℕ) × Turned rank s queue
    supplied : All (IsSupplied rank g (names queue)) queue

  contains_key-insert :
      (k n : Text) (v : MessageFile) (g : Graph)
      → contains_key n g ≡ true
      → contains_key n (insert k v g) ≡ true
  contains_key-insert k n v g h = ground (arith, h, get-insert k n v g)

  resolved-or-waiting :
      (k n : Text) (v : MessageFile) (g : Graph) (ns : List Text)
      → member n (k ∷ ns) ≡ true
      → (contains_key n (insert k v g) ≡ true) ⊎ (member n ns ≡ true)
  resolved-or-waiting k n v g ns h = elim (Bool-cases (text_eq k n)) [
    | inl e ↦ inl (rw (get-insert k n v g) (rw e refl))
    | inr e ↦ inr (rw e at h)
  ]

  resolved-Resolvable :
      (item : MessageMetadata) (queue : List MessageMetadata) (g : Graph) (m : MessageFile)
      → Resolvable (item ∷ queue) g
      → fully_resolved g item.msg.fields ≡ true
      → m.parsed ≡ item.msg
      → Resolvable queue (insert (get_full_name m.parsed) m g)
  resolved-Resolvable item queue g m r h e = record {
    ready = (resolved-Placed item queue g m r.ready h e).ready;
    turn = let (s, w, t) = Turned-head rank r.turn.0 item queue r.turn.1 in (s, t);
    supplied =
        All-weaken _ _ queue
          (λ i.
            IsSupplied-weaken rank g (insert (get_full_name m.parsed) m g) (names (item ∷ queue))
              (names queue) i (λ n. contains_key-insert (get_full_name m.parsed) n m g)
              (λ n q.
                resolved-or-waiting (get_full_name m.parsed) n m g (names queue)
                  (subst (λ p. member n (get_full_name p ∷ names queue) ≡ true) (sym e) q)))
          r.supplied.1;
  }

  member-last :
      (n s : Text) (ss : List Text) → member n (s ∷ ss) ≡ true → member n (ss ++ (s ∷ [])) ≡ true
  member-last n s [] h = h
  member-last n s (t ∷ ts) h = ground (arith, h, member-last n s ts)

  -- A message that is not resolved in its turn has a higher rank.
  delayed-rank :
      (item : MessageMetadata) (queue : List MessageMetadata) (g : Graph) (s : ℕ)
      → Turned rank s (item ∷ queue)
      → s ≤ rank_of rank item
      → IsSupplied rank g (names (item ∷ queue)) item
      → fully_resolved g item.msg.fields ≡ false
      → suc s ≤ rank_of rank item
  delayed-rank item queue g s t l a h = elim (Bool-cases (ltb s (rank_of rank item))) [
    | inl q ↦ ground (arith, q)
    | inr q ↦ absurd (
        true_not_false
          (IsSupplied-resolved rank g (names (item ∷ queue)) (rank_of rank item) item.msg.fields
            (λ n m.
              omega
                (arith, not_less s (rank_of rank item) q, Turned-rank rank s (item ∷ queue) t n m))
            a.1)
          h)
  ]

  delayed-Resolvable :
      (item : MessageMetadata) (queue : List MessageMetadata) (g : Graph)
      → Resolvable (item ∷ queue) g
      → fully_resolved g item.msg.fields ≡ false
      → Resolvable (queue ++ (seen_again item ∷ [])) g
  delayed-Resolvable item queue g r h =
      let (s, w, t) = Turned-head rank r.turn.0 item queue r.turn.1 in
      let later : (n : Text)
          → member n (names (item ∷ queue)) ≡ true
          → member n (names (queue ++ (seen_again item ∷ []))) ≡ true =
        λ n q.
          rw (names-snoc queue (seen_again item))
            (member-last n (get_full_name item.msg) (names queue) q) in
      record {
        ready = (delayed-Placed item queue g r.ready).ready;
        turn = (
          s,
          Turned-snoc rank s queue (seen_again item) t
              (ap (λ n. suc n) w.0, delayed-rank item queue g s (inl (w, t)) w.1 r.supplied.0 h),
        );
        supplied =
            All-weaken _ _ (queue ++ (seen_again item ∷ []))
              (λ i.
                IsSupplied-weaken rank g g (names (item ∷ queue))
                  (names (queue ++ (seen_again item ∷ []))) i (λ n q. q) (λ n q. inr (later n q)))
              (All-snoc _ queue (seen_again item) r.supplied.1 r.supplied.0);
      }

  -- The bounds of the message at the head.
  head-limit :
      (item : MessageMetadata) (queue : List MessageMetadata) (g : Graph)
      → Resolvable (item ∷ queue) g
      → item.seen_count ≤ limit
  head-limit item queue g r =
      let (s, w, t) = Turned-head rank r.turn.0 item queue r.turn.1 in
      omega (arith, w.0, w.1, r.supplied.0.0)

  resolve_messages-completes :
      (fuel : ℕ) (queue : List MessageMetadata) (g : Graph)
      → Resolvable queue g
      → rounds queue ≤ fuel
      → (h : Graph) × (resolve_messages md5 fuel queue g ≡ ok h)
  unfolding resolve_messages
  resolve_messages-completes fuel [] g r l = (g, refl)
  resolve_messages-completes zero (item ∷ queue) g r l = absurd (omega (arith, l))
  resolve_messages-completes (suc fuel) (item ∷ queue) g r l =
      let seen = head-limit item queue g r in
      elim (Bool-cases (fully_resolved g item.msg.fields)) [
        | inl h ↦
            let (m, p, e) = visit-resolved item queue g r.ready seen h in
            rw e (
              resolve_messages-completes fuel queue (insert (get_full_name m.parsed) m g)
                (resolved-Resolvable item queue g m r h p)
                (omega (arith, (resolved-Placed item queue g m r.ready h p).fewer seen, l)))
        | inr h ↦ rw (visit-delayed item queue g seen h) (
            resolve_messages-completes fuel (queue ++ (seen_again item ∷ [])) g
              (delayed-Resolvable item queue g r h)
              (omega (arith, (delayed-Placed item queue g r.ready).fewer seen, l)))
      ]

  unresolved-Turned : (messages : List ParsedMessageFile) → Turned rank 0 (unresolved messages)
  unresolved-Turned [] = tt
  unresolved-Turned (msg ∷ messages) = inl ((refl, omega arith), unresolved-Turned messages)

  -- If the messages have different names, none of which the shipped messages have, paths with a
  -- folder, and proper fields, and can be ranked by numbers up to 2048 so that each field is primitive, of a shipped
  -- message, or of a message of a lower rank, then the loop resolves every message.
  pub resolve_all-completes :
      (messages : List ParsedMessageFile) (builtin : Graph)
      → Ready (unresolved messages) builtin
      → All (IsSupplied rank builtin (names (unresolved messages))) (unresolved messages)
      → (g : Graph) × (resolve_all md5 messages builtin ≡ ok g) × All (IsIn g) (unresolved messages)
  unfolding resolve_all
  resolve_all-completes messages builtin r a =
      let (g, e) =
        resolve_messages-completes (suc (suc limit) * length messages) (unresolved messages) builtin
          (record { ready = r; turn = (0, unresolved-Turned messages); supplied = a })
          (omega (arith, rounds-unresolved messages)) in
      (g, e, (rw e at (resolve_all-ends md5 messages builtin r)).2)
