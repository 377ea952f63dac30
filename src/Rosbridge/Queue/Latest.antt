-- ===== src/Rosbridge/Queue/Latest.antt =====
-- A subscriber's queue has the latest messages.
use roslibrust.Base.{
  append-nil, append_assoc, ℕ, zero, suc, ◌-◌, ◌<◌, ◌≤◌, ◌≡◌, refl, ap, sym, ◌∙◌, Option, none,
  some, List, [], ◌∷◌, ◌++◌, Text, length, drop, length-drop, length-append, ltb, arith, Bool-cases,
  Option-cases, inl, inr,
}
use roslibrust.Rosbridge.Queue.{MessageQueue, queue_size, send_cb, push_or_drop, receive_all}

module _ {T : Type 0} where
  -- The last so many items.
  abbrev pub latest : ℕ → List T → List T
  latest n ts = drop (length ts - n) ts

  drop-snoc :
      (k : ℕ) (ts : List T) (t : T)
      → k ≤ length ts
      → drop k (ts ++ (t ∷ [])) ≡ drop k ts ++ (t ∷ [])
  drop-snoc zero ts t h = refl
  drop-snoc (suc k) [] t h = absurd (omega (arith, h))
  drop-snoc (suc k) (u ∷ us) t h = drop-snoc k us t (omega (arith, h))

  drop-cons :
      (k : ℕ) (ts : List T)
      → k < length ts
      → (t : T) × (us : List T) × (drop k ts ≡ t ∷ us) × (drop (suc k) ts ≡ us)
  drop-cons k [] h = absurd (omega (arith, h))
  drop-cons zero (u ∷ us) h = (u, us, refl, refl)
  drop-cons (suc k) (u ∷ us) h = drop-cons k us (omega (arith, h))

  -- The parsed messages, oldest first.
  abbrev pub parsed : (Text → Option T) → List Text → List T
  parsed from_str [] = []
  parsed from_str (text ∷ rest) = elim (from_str text) [
    | none ↦ parsed from_str rest
    | some t ↦ t ∷ parsed from_str rest
  ]

  length-latest : (n : ℕ) (ts : List T) → length (latest n ts) ≡ length ts - (length ts - n)
  length-latest n ts = length-drop (length ts - n) ts

  latest-snoc :
      (n k : ℕ) (ts : List T) (t : T)
      → k ≤ length ts
      → suc (length ts) - n ≡ k
      → latest n (ts ++ (t ∷ [])) ≡ drop k ts ++ (t ∷ [])
  latest-snoc n k ts t h e =
      ap (λ j. drop j (ts ++ (t ∷ []))) (omega (arith, length-append ts (t ∷ []), e))
      ∙ drop-snoc k ts t h

-- A queue has the latest of the messages so far.
record Keeps {T : Type 0} (mq : MessageQueue T) (n : ℕ) (ts : List T) (q : mq.Queue) : Type 0 where
  has_latest : mq.items q ≡ latest n ts
  bounded : mq.max_size q ≡ n

module _ {T : Type 0} (from_str : Text → Option T) (mq : MessageQueue T) (n : ℕ)
    (positive : 0 < n) where
  push-room :
      (ts : List T) (t : T) (q : mq.Queue)
      → Keeps mq n ts q
      → length ts < n
      → Keeps mq n (ts ++ (t ∷ [])) (push_or_drop from_str mq t q)
  push-room ts t q k h =
      let (r, e, i, m) =
        mq.try_push-room t q
          (rw k.has_latest (rw k.bounded (omega (arith, h, length-latest n ts)))) in
      rw (e, push_or_drop)
        (record {
          has_latest =
              i
              ∙ ap (λ l. l ++ (t ∷ [])) k.has_latest
              ∙ sym (latest-snoc n (length ts - n) ts t (omega arith) (omega (arith, h)));
          bounded = m ∙ k.bounded;
        })

  push-full :
      (ts : List T) (t : T) (q : mq.Queue)
      → Keeps mq n ts q
      → n ≤ length ts
      → Keeps mq n (ts ++ (t ∷ [])) (push_or_drop from_str mq t q)
  push-full ts t q k h =
      let (y, us, d, d') = drop-cons (length ts - n) ts (omega (arith, h, positive)) in
      let full =
        mq.try_push-full t q
          (rw k.has_latest (rw k.bounded (omega (arith, h, length-latest n ts)))) in
      let (r, e, i, m) = mq.try_pop-oldest y us q (k.has_latest ∙ d) in
      let short = length-drop (suc (length ts - n)) ts in
      let (r', e', i', m') =
        mq.try_push-room t r
          (rw i (rw (m ∙ k.bounded) (rw (sym d') (omega (arith, h, positive, short))))) in
      rw (full, push_or_drop)
        (rw e (
          rw e' (record {
            has_latest =
                i'
                ∙ ap (λ l. l ++ (t ∷ [])) (i ∙ sym d')
                ∙ sym (
                    latest-snoc n (suc (length ts - n)) ts t (omega (arith, h, positive))
                      (omega (arith, h)));
            bounded = m' ∙ (m ∙ k.bounded);
          })))

  push_or_drop-Keeps :
      (ts : List T) (t : T) (q : mq.Queue)
      → Keeps mq n ts q
      → Keeps mq n (ts ++ (t ∷ [])) (push_or_drop from_str mq t q)
  push_or_drop-Keeps ts t q k = elim (Bool-cases (ltb (length ts) n)) [
    | inl h ↦ push-room ts t q k (ground (arith, h))
    | inr h ↦ push-full ts t q k (ground (arith, h))
  ]

  receive_all-Keeps :
      (texts : List Text) (ts : List T) (q : mq.Queue)
      → Keeps mq n ts q
      → Keeps mq n (ts ++ parsed from_str texts) (receive_all from_str mq texts q)
  unfolding send_cb
  receive_all-Keeps [] ts q k = rw (append-nil ts) k
  receive_all-Keeps (text ∷ rest) ts q k = elim (Option-cases (from_str text)) [
    | inl e ↦ rw (e, send_cb, parsed) (receive_all-Keeps rest ts q k)
    | inr (t, e) ↦
        rw (e, send_cb, parsed)
          (rw (sym (append_assoc ts (t ∷ []) (parsed from_str rest))) (
            receive_all-Keeps rest (ts ++ (t ∷ [])) (push_or_drop from_str mq t q)
              (push_or_drop-Keeps ts t q k)))
  ]

module _ {T : Type 0} (from_str : Text → Option T) (mq : MessageQueue T) where
  -- Whatever texts a subscriber gets, its queue has of the messages that they parse to the latest
  -- thousand, oldest first, or all of them if there are fewer.
  pub receive_all-latest :
      (texts : List Text)
      → (mq.items (receive_all from_str mq texts (mq.new queue_size))
          ≡ latest queue_size (parsed from_str texts))
        × (length (mq.items (receive_all from_str mq texts (mq.new queue_size))) ≤ queue_size)
  receive_all-latest texts =
      let k =
        receive_all-Keeps from_str mq queue_size (omega arith) texts [] (mq.new queue_size)
          (record {
            has_latest = (mq.items-new queue_size).0;
            bounded = (mq.items-new queue_size).1;
          }) in
      (
        k.has_latest,
        rw k.has_latest (omega (arith, length-latest queue_size (parsed from_str texts))),
      )
