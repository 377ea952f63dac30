-- ===== src/Ros1/Publishing/Tests.antt =====
-- The theorems on publications at concrete inputs: a latching publication with a message before its
-- first subscriber comes and two behind.
use roslibrust.Base.{
  ℕ, ◌≡◌, refl, true, false, some, List, [], ◌∷◌, ◌++◌, length, take, drop, codes, ok, arith,
}
use roslibrust.Tcpros.Bytes.{is_utf8, le32}
use roslibrust.Tcpros.Header.{
  ConnectionHeader, empty_header, to_bytes, from_bytes, from_bytes_loop, apply_field,
}
use roslibrust.Tcpros.Header.Reread.{IsSendable}
use roslibrust.Tcpros.Stream.{Stream, read_until, receive_header_bytes, receive_header}
use roslibrust.Ros1.Handshake.{publisher_accepts, publisher_answer, connect_and_handshake}
use roslibrust.Ros1.Services.{write_all}
use roslibrust.Ros1.Services.Contract.{IsFrame}
use roslibrust.Ros1.Publishing.{
  PublishTask, publication_header, new, Event, sending, accept_recv, connection, task_recv, run,
  step, has_connected_clients, publish_bytes, accept_receives, accept_connection, spawn_task,
  write_latched, task_receives,
}
use roslibrust.Ros1.Publishing.Delivery.{Delivers, latch}
use roslibrust.Ros1.Publishing.Following.{Follows, connection-Follows}
use roslibrust.Ros1.Publishing.Arrival.{read_messages, latched_list, messages_arrive}

abbrev talker : ConnectionHeader
talker = publication_header (codes "/t") true (codes "/c") (codes "") (codes "ab") (codes "x/Y")

abbrev listener : ConnectionHeader
listener = record empty_header { caller_id = codes "/l"; md5sum = some (codes "ab") }

abbrev frame : ℕ → List ℕ
frame b = le32 1 ++ (b ∷ [])

abbrev there : Stream
there = to_bytes listener true ∷ []

abbrev events : List Event
events =
    sending (frame 1)
    ∷ accept_recv
    ∷ connection there 9
    ∷ sending (frame 2)
    ∷ sending (frame 3)
    ∷ task_recv 0
    ∷ task_recv 0
    ∷ []

abbrev answer : List ℕ
answer = to_bytes talker false

abbrev task : PublishTask
task = record {
  rx = 3;
  stream = record { written = answer ++ (frame 1 ++ (frame 2 ++ frame 3)); room = 5 };
  running = true;
}

-- The run of these events: one task, which has sent the latched message and both later ones.
delivery_test : (run events (new talker)).tasks ≡ task ∷ []
unfolding run step has_connected_clients publish_bytes accept_receives accept_connection spawn_task
    write_latched task_receives write_all publisher_answer publisher_accepts receive_header
    receive_header_bytes read_until from_bytes from_bytes_loop apply_field is_utf8 to_bytes
delivery_test = refl

abbrev before : List Event
before = sending (frame 1) ∷ accept_recv ∷ []

abbrev behind : List Event
behind = sending (frame 2) ∷ sending (frame 3) ∷ task_recv 0 ∷ task_recv 0 ∷ []

connection-Follows_example :
    let p = run before (new talker) in
    Follows talker
      (length p.sent)
      p.last_message
      (length p.tasks)
      (run behind (step (connection there 9) p))
unfolding run step has_connected_clients publish_bytes accept_receives publisher_answer
    publisher_accepts receive_header receive_header_bytes read_until from_bytes from_bytes_loop
    apply_field is_utf8 to_bytes
connection-Follows_example =
    connection-Follows talker before behind there 7 answer (tt, (tt, tt)) (tt, (tt, (tt, (tt, tt))))
      refl refl

abbrev sent : List (List ℕ)
sent = frame 1 ∷ frame 2 ∷ frame 3 ∷ []

abbrev task_delivery : Delivers talker sent task
task_delivery = record {
  saved = 1;
  start = 1;
  before = omega arith;
  behind = omega arith;
  known = omega arith;
  written = refl;
}

talker-IsSendable : IsSendable talker
unfolding is_utf8
talker-IsSendable = record {
  caller_id = (omega arith, refl);
  msg_definition = (omega arith, refl);
  md5sum = (omega arith, refl);
  service = tt;
  topic = (omega arith, refl);
  topic_type = (omega arith, refl);
}

listener-IsSendable : IsSendable listener
unfolding is_utf8
listener-IsSendable = record {
  caller_id = (omega arith, refl);
  msg_definition = (omega arith, refl);
  md5sum = (omega arith, refl);
  service = tt;
  topic = tt;
  topic_type = (omega arith, refl);
}

frame-IsFrame : (b : ℕ) → IsFrame (frame b)
frame-IsFrame b = record { body = b ∷ []; short = omega arith; framed = refl }

messages_arrive_example :
    (rest : Stream) × (connect_and_handshake (task.stream.written ∷ []) listener ≡ ok rest)
    × (read_messages 4 rest ≡ latched_list (latch talker (take 1 sent)) ++ drop 1 (take 3 sent))
unfolding to_bytes
messages_arrive_example =
    messages_arrive listener talker (codes "ab") sent task task_delivery (task.stream.written ∷ [])
      4 refl refl listener-IsSendable talker-IsSendable (omega arith) (omega arith)
      (frame-IsFrame 1, (frame-IsFrame 2, (frame-IsFrame 3, tt))) (refl, (λ e. cc, tt))
      (omega arith)
