-- ===== src/Rosbridge/Queue/Tests.antt =====
-- A queue as a list with its size.
use roslibrust.Base.{
  ℕ, ◌<◌, ◌≤◌, ◌≡◌, refl, ap, Option, none, some, List, [], ◌∷◌, ◌++◌, Text, codes, length, ltb,
  if◌then◌else◌, arith,
}
use roslibrust.Rosbridge.Queue.{MessageQueue, queue_size, receive_all, send_cb}
use roslibrust.Rosbridge.Queue.Latest.{receive_all-latest}

abbrev Listed : Type 0
Listed = ℕ × List Text

abbrev push : Text → Listed → Option Listed
push t (n, ts) = if ltb (length ts) n then some (n, ts ++ (t ∷ [])) else none

abbrev pop : Listed → Option (Text × Listed)
pop (n, []) = none
pop (n, t ∷ ts) = some (t, (n, ts))

push-room :
    (t : Text) (q : Listed)
    → length q.1 < q.0
    → (r : Listed) × (push t q ≡ some r) × (r.1 ≡ q.1 ++ (t ∷ [])) × (r.0 ≡ q.0)
push-room t q h = ((q.0, q.1 ++ (t ∷ [])), ground (arith, h), refl, refl)

push-full : (t : Text) (q : Listed) → q.0 ≤ length q.1 → push t q ≡ none
push-full t q h = ground (arith, h)

pop-oldest :
    (t : Text) (ts : List Text) (q : Listed)
    → q.1 ≡ t ∷ ts
    → (r : Listed) × (pop q ≡ some (t, r)) × (r.1 ≡ ts) × (r.0 ≡ q.0)
pop-oldest t ts q h = ((q.0, ts), ap (λ l. pop (q.0, l)) h, refl, refl)

abbrev listed_queue : MessageQueue Text
listed_queue = record {
  Queue = Listed;
  new = λ n. (n, []);
  try_push = push;
  try_pop = pop;
  items = λ q. q.1;
  max_size = λ q. q.0;
  items-new = λ n. (refl, refl);
  try_push-room = push-room;
  try_push-full = push-full;
  try_pop-oldest = pop-oldest;
}

receive_all-latest_example :
    (listed_queue.items
        (receive_all some listed_queue (codes "a" ∷ codes "b" ∷ []) (listed_queue.new queue_size))
      ≡ codes "a" ∷ codes "b" ∷ [])
    × (length (
          listed_queue.items (
            receive_all some listed_queue
              (codes "a" ∷ codes "b" ∷ [])
              (listed_queue.new queue_size)))
        ≤ queue_size)
receive_all-latest_example = receive_all-latest some listed_queue (codes "a" ∷ codes "b" ∷ [])

-- Of three messages a queue of two keeps the later ones.
send_cb_1 :
    listed_queue.items
      (receive_all some listed_queue (codes "a" ∷ codes "b" ∷ codes "c" ∷ []) (2, []))
    ≡ codes "b" ∷ codes "c" ∷ []
unfolding send_cb
send_cb_1 = refl
