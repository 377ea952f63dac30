-- ===== src/Rosbridge/Queue.antt =====
-- The queue of a subscriber: the callback of `_subscribe` in roslibrust_rosbridge/src/client.rs. The
-- bounded queue of the crate deadqueue is an interface.
pub mod Latest
mod Tests
use roslibrust.Base.{
  ℕ, zero, suc, ◌<◌, ◌≤◌, ◌≡◌, Option, none, some, List, [], ◌∷◌, ◌++◌, Text, length, Bool, ltb,
  if◌then◌else◌,
}

-- A bounded queue, with what its documentation says: `try_push` fails if it is full, `try_pop` takes
-- the oldest item and fails if there is none.
pub record MessageQueue (T : Type 0) : Type 1 where
  pub Queue : Type 0
  pub new : ℕ → Queue
  pub try_push : T → Queue → Option Queue
  pub try_pop : Queue → Option (T × Queue)
  pub items : Queue → List T
  pub max_size : Queue → ℕ
  pub items-new : (n : ℕ) → (items (new n) ≡ []) × (max_size (new n) ≡ n)
  pub try_push-room :
      (t : T) (q : Queue)
      → length (items q) < max_size q
      → (r : Queue) × (try_push t q ≡ some r)
        × (items r ≡ items q ++ (t ∷ []))
        × (max_size r ≡ max_size q)
  pub try_push-full : (t : T) (q : Queue) → max_size q ≤ length (items q) → try_push t q ≡ none
  pub try_pop-oldest :
      (t : T) (ts : List T) (q : Queue)
      → items q ≡ t ∷ ts
      → (r : Queue) × (try_pop q ≡ some (t, r)) × (items r ≡ ts) × (max_size r ≡ max_size q)

abbrev pub queue_size : ℕ
queue_size = 1000

module _ {T : Type 0} (from_str : Text → Option T) (mq : MessageQueue T) where
  abbrev pub after_pop : Option (T × mq.Queue) → mq.Queue → mq.Queue
  after_pop none q = q
  after_pop (some (dropped, r)) q = r

  abbrev pub pushed : Option mq.Queue → mq.Queue → mq.Queue
  pushed none q = q
  pushed (some r) q = r

  abbrev pub push_or_drop : T → mq.Queue → mq.Queue
  push_or_drop msg q = elim (mq.try_push msg q) [
    | some r ↦ r
    | none ↦ let r = after_pop (mq.try_pop q) q in pushed (mq.try_push msg r) r
  ]

  -- The callback of a subscriber.
  unfoldable pub send_cb : Text → mq.Queue → mq.Queue
  send_cb text q = elim (from_str text) [ none ↦ q | some converted ↦ push_or_drop converted q ]

  abbrev pub receive_all : List Text → mq.Queue → mq.Queue
  receive_all [] q = q
  receive_all (text ∷ rest) q = receive_all rest (send_cb text q)
