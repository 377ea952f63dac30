-- ===== src/Ros1/Publishing.antt =====
-- roslibrust_ros1/src/publisher.rs: the `Publisher` handles, and the tasks of a `Publication`, which
-- accept the subscribers' connections and write the messages to them. The broadcast channel between
-- them is the list of what was sent on it, and a receiver is the position of its next message.
pub mod Delivery
pub mod Invariant
pub mod Connections
pub mod Histories
pub mod Following
pub mod Arrival
pub mod Frames
mod Tests
use roslibrust.Base.{
  ℕ, zero, suc, ◌+◌, ◌-◌, ◌%◌, ◌^◌, min, Bool, true, false, ◌&&◌, ◌||◌, Option, none, some, List,
  [], ◌∷◌, ◌++◌, length, drop, any, ltb, leb, if◌then◌else◌, Result, ok, err, panic, diverge, ◌>>=◌,
  Text,
}
use roslibrust.Tcpros.Bytes.{u32_mod, le32}
use roslibrust.Tcpros.Header.{ConnectionHeader}
use roslibrust.Tcpros.Stream.{Stream}
use roslibrust.Ros1.Services.{Outgoing, write_all}
use roslibrust.Ros1.Handshake.{publisher_answer}

-- A `publish_task`.
pub record PublishTask : Type 0 where
  pub rx : ℕ
  pub stream : Outgoing
  pub running : Bool

-- The channel, `closed` when its last sender is dropped; the `tcp_accept_task`, while `accepting`;
-- and the tasks that it has started.
pub record Publication : Type 0 where
  pub responding_conn_header : ConnectionHeader
  pub sent : List (List ℕ)
  pub closed : Bool
  pub accepting : Bool
  pub rx : ℕ
  pub last_message : Option (List ℕ)
  pub tasks : List PublishTask

-- `Publication::new`
abbrev pub publication_header : Text → Bool → Text → Text → Text → Text → ConnectionHeader
publication_header node_name latching topic_name msg_definition sum topic_type = record {
  caller_id = node_name;
  latching = latching;
  msg_definition = msg_definition;
  md5sum = some sum;
  service = none;
  topic = some topic_name;
  topic_type = topic_type;
  tcp_nodelay = false;
  persistent = none;
}

abbrev pub new : ConnectionHeader → Publication
new header = record {
  responding_conn_header = header;
  sent = [];
  closed = false;
  accepting = true;
  rx = 0;
  last_message = none;
  tasks = [];
}

-- `self.sender.receiver_count() > 0`: the accept task holds a receiver, and so does every task.
unfoldable pub has_connected_clients : Publication → Bool
has_connected_clients p = p.accepting || any (λ t. t.running) p.tasks

pub data PublisherError : Type 0 where
  serializing : PublisherError

-- `PublisherAny::publish` and `publish_bytes`. Behind the test the channel has a receiver, and its
-- `send` succeeds.
unfoldable pub publish_bytes : List ℕ → Publication → Publication
unfolding has_connected_clients
publish_bytes bytes p =
    if has_connected_clients p then record p { sent = p.sent ++ (bytes ∷ []) } else p

-- `buffer.len() as u32 - 4`, where the buffer holds the empty size and the body; the subtraction
-- panics below 0.
unfoldable pub patch_size : List ℕ → Result PublisherError (List ℕ)
patch_size body =
    let buffer_len = (4 + length body) % u32_mod in
    if ltb buffer_len 4 then panic else ok (le32 (buffer_len - 4) ++ body)

-- `Publisher::publish`. `to_writer_skip_length` is the serializer of rosmsg.
unfoldable pub publish {ℓ} :
    {T : Type ℓ} → (T → Option (List ℕ)) → T → Publication → Result PublisherError Publication
unfolding has_connected_clients publish_bytes patch_size
publish to_writer_skip_length data_value p =
    if has_connected_clients p
    then elim (to_writer_skip_length data_value) [
      | none ↦ err serializing
      | some body ↦ do bytes ← patch_size body; ok (publish_bytes bytes p)
    ]
    else ok p

-- The write of the latched message: a failure is logged only.
unfoldable pub write_latched : Option (List ℕ) → Outgoing → Outgoing
write_latched none stream = stream
write_latched (some last_message) stream = elim (write_all last_message stream) [
  | none ↦ stream
  | some written ↦ written
]

-- `rx.recv()` gives a message in `publish_task`: a write that fails ends the task, and so does `RecvError::Closed`.
unfoldable pub task_receives : Bool → List (List ℕ) → PublishTask → PublishTask
task_receives closed sent t = elim t.running [
  | false ↦ t
  | true ↦ elim (drop t.rx sent) [
    | [] ↦ if closed then record t { running = false } else t
    | msg_to_publish ∷ _ ↦ elim (write_all msg_to_publish t.stream) [
      | none ↦ record t { running = false }
      | some stream ↦ record t { rx = suc t.rx; stream = stream }
    ]
  ]
]

-- `RecvError::Lagged`: the receiver goes on behind the messages that it has missed.
abbrev pub skip : ℕ → List (List ℕ) → ℕ → ℕ
skip num sent rx = min (rx + num) (length sent)

abbrev pub task_lags : ℕ → List (List ℕ) → PublishTask → PublishTask
task_lags num sent t = if t.running then record t { rx = skip num sent t.rx } else t

abbrev pub update_at : ℕ → (PublishTask → PublishTask) → List PublishTask → List PublishTask
update_at i f [] = []
update_at zero f (t ∷ ts) = f t ∷ ts
update_at (suc i) f (t ∷ ts) = t ∷ update_at i f ts

-- `rx.recv()` gives a message in `tcp_accept_task`.
unfoldable pub accept_receives : Publication → Publication
accept_receives p = elim (drop p.rx p.sent) [
  | [] ↦ if p.closed then record p { accepting = false } else p
  | msg ∷ _ ↦ record p {
    rx = suc p.rx;
    last_message = if p.responding_conn_header.latching then some msg else p.last_message;
  }
]

-- A task for a connection that was answered: `rx.resubscribe()` starts behind all that was sent.
unfoldable pub spawn_task : Outgoing → Publication → Publication
spawn_task stream p = record p {
  tasks =
      p.tasks
      ++ (record {
        rx = length p.sent;
        stream = write_latched p.last_message stream;
        running = true;
      }
          ∷ []);
}

-- A connection, with what its peer sends and how many writes it takes. The task panics where its
-- answer cannot be written; `stream.shutdown()` on a connection that is refused is taken to succeed.
unfoldable pub accept_connection : Stream → ℕ → Publication → Publication
accept_connection stream room p = elim (publisher_answer stream p.responding_conn_header) [
  | ok (some response_header_bytes) ↦
      elim (write_all response_header_bytes (record { written = []; room = room })) [
        | none ↦ record p { accepting = false }
        | some answered ↦ spawn_task answered p
      ]
  | ok none ↦ p
  | err e ↦ p
  | panic ↦ record p { accepting = false }
  | diverge ↦ p
]

-- What can happen, in any order.
pub data Event : Type 0 where
  sending : List ℕ → Event
  accept_recv : Event
  accept_lagged : ℕ → Event
  connection : Stream → ℕ → Event
  shutdown close : Event
  task_recv : ℕ → Event
  task_lagged : ℕ → ℕ → Event

-- One event: the branches of the `select!` of `tcp_accept_task` happen only while it runs.
unfoldable pub step : Event → Publication → Publication
step (sending bytes) p = if p.closed then p else publish_bytes bytes p
step accept_recv p = if p.accepting then accept_receives p else p
step (accept_lagged num) p = if p.accepting then record p { rx = skip num p.sent p.rx } else p
step (connection stream room) p = if p.accepting then accept_connection stream room p else p
step shutdown p = record p { accepting = false }
step close p = record p { closed = true }
step (task_recv i) p = record p { tasks = update_at i (task_receives p.closed p.sent) p.tasks }
step (task_lagged i num) p = record p { tasks = update_at i (task_lags num p.sent) p.tasks }

unfoldable pub run : List Event → Publication → Publication
run [] p = p
run (event ∷ events) p = run events (step event p)
