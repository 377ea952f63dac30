-- ===== src/Ros1/Node/Sharing.antt =====
-- Handles of the same topic share one registration.
use roslibrust.Base.{
  ℕ, ◌+◌, ◌-◌, ◌<◌, ◌≡◌, ◌≢◌, ◌⊎◌, refl, ◌∙◌, true, none, some, List, [], ◌∷◌, arith, Text,
  text_eq_iff, Result, ok, err, get, insert, get-insert, get-remove,
}
use roslibrust.Ros1.Master
use roslibrust.Ros1.Node.{
  Node, NodeError, addr_in_use, Publication, Subscription, register_publisher, register_subscriber,
  drop_subscriber, unregister_subscriber,
}

-- A publisher of a topic that the node already publishes makes no call of the master: with the
-- same type and a live channel it shares the publication, else it is an error and changes nothing.
pub register_publisher_again :
    (node : Node) (topic topic_type : Text) (bound : Result NodeError ℕ)
    (answer : Result NodeError (Unit {0})) (p : Publication)
    → get topic node.publishers ≡ some p
    → let after = register_publisher topic topic_type bound answer node in
      (after.1.log ≡ node.log)
      × (p.topic_type ≡ topic_type
          → 0 < p.shutdown_senders
          → (after.0 ≡ ok tt)
            × (get topic after.1.publishers
                ≡ some (record p { shutdown_senders = p.shutdown_senders + 1 })))
      × ((p.topic_type ≢ topic_type) ⊎ (p.shutdown_senders ≡ 0) → after ≡ (err addr_in_use, node))
unfolding register_publisher
register_publisher_again node topic topic_type bound answer p known =
    let p' : Publication = record p { shutdown_senders = p.shutdown_senders + 1 } in
    let facts = text_eq_iff p.topic_type topic_type in
    (
      ground (arith, facts),
      λ same live. (
        ground (arith, facts),
        ground (arith, facts, text_eq_iff topic topic, get-insert topic topic p' node.publishers),
      ),
      λ bad. ground (arith, facts),
    )

-- What the holders of a topic's subscription do: one more subscribes, or one is dropped and asks
-- for the clean-up.
pub data Event : Type 0 where
  subscribes drops : Event

module _ (topic topic_type : Text) where
  pub event : Event → Node → Node
  event subscribes node = (register_subscriber topic topic_type (ok []) node).1
  event drops node = (unregister_subscriber topic (ok tt) (drop_subscriber topic node)).1

  pub run : List Event → Node → Node
  unfolding event
  run [] node = node
  run (e ∷ es) node = run es (event e node)

abbrev pub holders : Event → ℕ → ℕ
holders subscribes n = n + 1
holders drops n = n - 1

-- Some holder is left after each of the events.
abbrev pub StaysHeld : ℕ → List Event → Type 0
StaysHeld n [] = Unit {0}
StaysHeld n (e ∷ es) = (0 < holders e n) × StaysHeld (holders e n) es

abbrev pub holders_after : ℕ → List Event → ℕ
holders_after n [] = n
holders_after n (e ∷ es) = holders_after (holders e n) es

module _ (topic topic_type : Text) where
  event-held :
      (e : Event) (n : ℕ) (node : Node) (s : Subscription)
      → get topic node.subscriptions ≡ some s
      → s.receiver_count ≡ n + 1
      → 0 < holders e n
      → ((event topic topic_type e node).log ≡ node.log)
        × (get topic (event topic topic_type e node).subscriptions
            ≡ some (record s { receiver_count = holders e n + 1 }))
  unfolding event register_subscriber drop_subscriber unregister_subscriber
  event-held subscribes n node s known count held =
      let s' : Subscription = record s { receiver_count = s.receiver_count + 1 } in
      ground (arith, get-insert topic topic s' node.subscriptions, text_eq_iff topic topic)
  event-held drops n node s known count held =
      let s' : Subscription = record s { receiver_count = s.receiver_count - 1 } in
      ground (arith, get-insert topic topic s' node.subscriptions, text_eq_iff topic topic)

  -- While a holder is left, the subscription stays, counts its holders, and the master hears
  -- nothing of those that come and go.
  pub run-StaysHeld :
      (es : List Event) (n : ℕ) (node : Node) (s : Subscription)
      → get topic node.subscriptions ≡ some s
      → s.receiver_count ≡ n + 1
      → StaysHeld n es
      → ((run topic topic_type es node).log ≡ node.log)
        × (get topic (run topic topic_type es node).subscriptions
            ≡ some (record s { receiver_count = holders_after n es + 1 }))
  unfolding run
  run-StaysHeld [] n node s known count held = (refl, ground (arith, known))
  run-StaysHeld (e ∷ es) n node s known count (now, later) =
      let (quiet, known') = event-held e n node s known count now in
      let (quiet', known'') =
        run-StaysHeld es (holders e n) (event topic topic_type e node)
          (record s { receiver_count = holders e n + 1 }) known' refl later in
      (quiet' ∙ quiet, known'')

  -- The last holder's drop removes the subscription, with one call of the master.
  pub run-last_drop :
      (node : Node) (s : Subscription)
      → get topic node.subscriptions ≡ some s
      → s.receiver_count ≡ 2
      → ((event topic topic_type drops node).log
          ≡ (Master.unregister_subscriber topic, true) ∷ node.log)
        × (get topic (event topic topic_type drops node).subscriptions ≡ none)
  unfolding event register_subscriber drop_subscriber unregister_subscriber
  run-last_drop node s known count =
      let s' : Subscription = record s { receiver_count = s.receiver_count - 1 } in
      ground (
        arith,
        get-insert topic topic s' node.subscriptions,
        text_eq_iff topic topic,
        get-remove topic topic (insert topic s' node.subscriptions),
      )
