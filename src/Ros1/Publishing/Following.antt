-- ===== src/Ros1/Publishing/Following.antt =====
-- One connection of a publication, through all that happens behind it.
use roslibrust.Base.{
  ℕ, zero, suc, ◌≡◌, refl, ap, sym, ◌∙◌, Bool, true, false, Option, none, some, List, [], ◌∷◌, ◌++◌,
  append-nil, length, take, take-append_less, drop, All, if◌then◌else◌, arith, ok, err, panic,
  diverge, Result,
}
use roslibrust.Tcpros.Header.{ConnectionHeader, IoError, to_bytes}
use roslibrust.Tcpros.Stream.{Stream, receive_header}
use roslibrust.Ros1.Services.{write_all}
use roslibrust.Ros1.Handshake.{publisher_answer}
use roslibrust.Ros1.Publishing.{
  PublishTask, Publication, new, skip, write_latched, spawn_task, task_receives, accept_receives,
  accept_connection, update_at, has_connected_clients, publish_bytes, Event, sending, accept_recv,
  accept_lagged, connection, shutdown, close, task_recv, task_lagged, step, run,
}
use roslibrust.Ros1.Publishing.Delivery.{
  latch, latched_bytes, Delivers, Delivers-sent, Delivers-receive, task,
}
use roslibrust.Ros1.Publishing.Invariant.{Invariant, IsPunctual}
use roslibrust.Ros1.Publishing.Connections.{latch-kept, delivered, publisher_answer-header}
use roslibrust.Ros1.Publishing.Histories.{run-Invariant, new-Invariant}

abbrev pub task_at : ℕ → List PublishTask → Option PublishTask
task_at i [] = none
task_at zero (t ∷ ts) = some t
task_at (suc i) (t ∷ ts) = task_at i ts

task_at-append :
    (i : ℕ) (ts us : List PublishTask) (t : PublishTask)
    → task_at i ts ≡ some t
    → task_at i (ts ++ us) ≡ some t
task_at-append i [] us t e = cc
task_at-append zero (x ∷ ts) us t e = e
task_at-append (suc i) (x ∷ ts) us t e = task_at-append i ts us t e

task_at-last :
    (ts : List PublishTask) (t : PublishTask) → task_at (length ts) (ts ++ (t ∷ [])) ≡ some t
task_at-last [] t = refl
task_at-last (x ∷ ts) t = task_at-last ts t

-- A connection behind which `start` messages had been sent, when `last` was the message to latch.
abbrev pub Since : ConnectionHeader → ℕ → Option (List ℕ) → List (List ℕ) → PublishTask → Type 0
Since header start last sent t =
    (d : Delivers header sent t) × (d.start ≡ start) × (latch header (take d.saved sent) ≡ last)

module _ (header : ConnectionHeader) (start : ℕ) (last : Option (List ℕ)) where
  Since-sent :
      (sent : List (List ℕ)) (m : List ℕ) (t : PublishTask)
      → Since header start last sent t
      → Since header start last (sent ++ (m ∷ [])) t
  Since-sent sent m t (d, from, latched) = (
    Delivers-sent header sent m t d,
    from,
    ap (latch header)
          (take-append_less d.saved sent (m ∷ []) (omega (arith, d.before, d.behind, d.known)))
        ∙ latched,
  )

  Since-stopped :
      (sent : List (List ℕ)) (rx : ℕ) (w : List ℕ) (room : ℕ) (b c : Bool)
      → Since header start last sent (task rx w room b)
      → Since header start last sent (task rx w room c)
  Since-stopped sent rx w room b c (d, from, latched) = (
    record {
      saved = d.saved;
      start = d.start;
      before = d.before;
      behind = d.behind;
      known = d.known;
      written = d.written;
    },
    from,
    latched,
  )

  Since-task_receives :
      (closed : Bool) (sent : List (List ℕ)) (rx : ℕ) (w : List ℕ) (room : ℕ) (running : Bool)
      → Since header start last sent (task rx w room running)
      → Since header start last sent (task_receives closed sent (task rx w room running))
  unfolding task_receives write_all
  Since-task_receives closed sent rx w room false s = s
  Since-task_receives closed sent rx w room true s = go room (drop rx sent) refl s
    where
      ends :
          (c : Bool) (room : ℕ)
          → Since header start last sent (task rx w room true)
          → Since header start last sent
              (if c then record (task rx w room true) { running = false } else task rx w room true)
      ends true room s = Since-stopped sent rx w room true false s
      ends false room s = s

      go :
          (room : ℕ) (pending : List (List ℕ))
          → drop rx sent ≡ pending
          → Since header start last sent (task rx w room true)
          → Since header start last sent (task_receives closed sent (task rx w room true))
      go room [] e s = rw (e, task_receives) (ends closed room s)
      go zero (m ∷ rest) e s = rw (e, task_receives) (Since-stopped sent rx w 0 true false s)
      go (suc room) (m ∷ rest) e (d, from, latched) =
          let further = Delivers-receive header sent m rest w room rx (suc room) e d in
          rw (e, task_receives) (further, from, latched)

  -- The connection at its place among the tasks.
  abbrev pub Follows : ℕ → Publication → Type 0
  Follows i p = (t : PublishTask) × (task_at i p.tasks ≡ some t) × Since header start last p.sent t

  either-Follows :
      (i : ℕ) (b : Bool) (p q : Publication)
      → Follows i p
      → Follows i q
      → Follows i (if b then p else q)
  either-Follows i true p q f g = f
  either-Follows i false p q f g = g

  publish_bytes-Follows :
      (i : ℕ) (bytes : List ℕ) (p : Publication) → Follows i p → Follows i (publish_bytes bytes p)
  unfolding publish_bytes
  publish_bytes-Follows i bytes p (t, at_i, s) =
      either-Follows i (has_connected_clients p) (record p { sent = p.sent ++ (bytes ∷ []) }) p
        (t, at_i, Since-sent p.sent bytes t s) (t, at_i, s)

  accept_receives-Follows : (i : ℕ) (p : Publication) → Follows i p → Follows i (accept_receives p)
  unfolding accept_receives
  accept_receives-Follows i p f = go (drop p.rx p.sent) refl
    where
      go : (pending : List (List ℕ)) → drop p.rx p.sent ≡ pending → Follows i (accept_receives p)
      go [] e =
          rw (e, accept_receives) (either-Follows i p.closed (record p { accepting = false }) p f f)
      go (m ∷ rest) e = rw (e, accept_receives) f

  accept_connection-Follows :
      (i : ℕ) (stream : Stream) (room : ℕ) (p : Publication)
      → Follows i p
      → Follows i (accept_connection stream room p)
  unfolding accept_connection spawn_task write_all
  accept_connection-Follows i stream room p (t, at_i, s) =
      go room (publisher_answer stream p.responding_conn_header) refl
    where
      go :
          (room : ℕ) (answer : Result IoError (Option (List ℕ)))
          → publisher_answer stream p.responding_conn_header ≡ answer
          → Follows i (accept_connection stream room p)
      go zero (ok (some bytes)) e = rw (e, accept_connection) (t, at_i, s)
      go (suc room) (ok (some bytes)) e =
          rw (e, accept_connection) (t, task_at-append i p.tasks _ t at_i, s)
      go room (ok none) e = rw (e, accept_connection) (t, at_i, s)
      go room (err why) e = rw (e, accept_connection) (t, at_i, s)
      go room panic e = rw (e, accept_connection) (t, at_i, s)
      go room diverge e = rw (e, accept_connection) (t, at_i, s)

  task_recv-Follows :
      (closed : Bool) (sent : List (List ℕ)) (i j : ℕ) (ts : List PublishTask) (t : PublishTask)
      → task_at i ts ≡ some t
      → Since header start last sent t
      → (u : PublishTask) × (task_at i (update_at j (task_receives closed sent) ts) ≡ some u)
        × Since header start last sent u
  task_recv-Follows closed sent i j [] t e s = cc
  task_recv-Follows closed sent zero zero (x ∷ ts) t e s = (
    task_receives closed sent t,
    ap (λ o. elim o [ none ↦ none | some y ↦ some (task_receives closed sent y) ]) e,
    Since-task_receives closed sent t.rx t.stream.written t.stream.room t.running s,
  )
  task_recv-Follows closed sent zero (suc j) (x ∷ ts) t e s = (t, e, s)
  task_recv-Follows closed sent (suc i) zero (x ∷ ts) t e s = (t, e, s)
  task_recv-Follows closed sent (suc i) (suc j) (x ∷ ts) t e s =
      task_recv-Follows closed sent i j ts t e s

  step-Follows :
      (i : ℕ) (event : Event) (p : Publication)
      → IsPunctual event
      → Follows i p
      → Follows i (step event p)
  unfolding step
  step-Follows i (sending bytes) p on_time f =
      either-Follows i p.closed p (publish_bytes bytes p) f (publish_bytes-Follows i bytes p f)
  step-Follows i accept_recv p on_time f =
      either-Follows i p.accepting (accept_receives p) p (accept_receives-Follows i p f) f
  step-Follows i (accept_lagged num) p on_time f =
      either-Follows i p.accepting (record p { rx = skip num p.sent p.rx }) p f f
  step-Follows i (connection stream room) p on_time f =
      either-Follows i p.accepting (accept_connection stream room p) p
        (accept_connection-Follows i stream room p f) f
  step-Follows i shutdown p on_time f = f
  step-Follows i close p on_time f = f
  step-Follows i (task_recv j) p on_time (t, at_i, s) =
      task_recv-Follows p.closed p.sent i j p.tasks t at_i s
  step-Follows i (task_lagged j num) p on_time f = absurd on_time

  run-Follows :
      (i : ℕ) (events : List Event) (p : Publication)
      → All IsPunctual events
      → Follows i p
      → Follows i (run events p)
  unfolding run
  run-Follows i [] p on_time f = f
  run-Follows i (event ∷ events) p (now, later) f =
      run-Follows i events (step event p) later (step-Follows i event p now f)

written-latched :
    (w : List ℕ) (last : Option (List ℕ)) (room : ℕ)
    → (write_latched last (record { written = w; room = suc room })).written
      ≡ w ++ latched_bytes last
unfolding write_latched write_all
written-latched w none room = sym (append-nil w)
written-latched w (some m) room = refl

-- A connection that takes two writes, behind any events.
connected-Follows :
    (header : ConnectionHeader) (stream : Stream) (room : ℕ) (bytes : List ℕ) (p : Publication)
    → Invariant header p
    → p.accepting ≡ true
    → publisher_answer stream header ≡ ok (some bytes)
    → Follows header
        (length p.sent)
        p.last_message
        (length p.tasks)
        (step (connection stream (suc (suc room))) p)
unfolding step accept_connection spawn_task write_all write_latched publisher_answer
connected-Follows header stream room bytes p inv on answered =
    let own : bytes ≡ to_bytes header false =
      publisher_answer-header (receive_header stream) header bytes answered in
    let answer : publisher_answer stream p.responding_conn_header
        ≡ ok (some (to_bytes header false)) =
      ap (publisher_answer stream) inv.same ∙ (answered ∙ ap (λ b. ok (some b)) own) in
    rw (on, answer, accept_connection)
      (
        _,
        task_at-last p.tasks _,
        (
          delivered header p inv _ (written-latched (to_bytes header false) p.last_message room),
          refl,
          sym (latch-kept header p inv),
        ),
      )

-- A subscriber whose connection takes two writes at least, and that is accepted, with the events
-- before and behind it in any order, but for a connection that lags: it is sent the header, then the
-- message that the accept task kept to latch when it came, then the messages sent since, up to its
-- own position, each of them once and in order.
pub connection-Follows :
    (header : ConnectionHeader) (before behind : List Event) (stream : Stream) (room : ℕ)
    (bytes : List ℕ)
    → All IsPunctual before
    → All IsPunctual behind
    → (run before (new header)).accepting ≡ true
    → publisher_answer stream header ≡ ok (some bytes)
    → let p = run before (new header) in
      Follows header
        (length p.sent)
        p.last_message
        (length p.tasks)
        (run behind (step (connection stream (suc (suc room))) p))
connection-Follows header before behind stream room bytes on_time later on answered =
    let p = run before (new header) in
    run-Follows header (length p.sent) p.last_message (length p.tasks) behind
      (step (connection stream (suc (suc room))) p) later
      (connected-Follows header stream room bytes p
        (run-Invariant header before (new header) on_time (new-Invariant header)) on answered)
