-- ===== src/Ros1/Publishing/Histories.antt =====
-- Whatever happens to a publication, and in whatever order, its connections keep what `Delivers`
-- says.
use roslibrust.Ros1.Publishing.Delivery.{latest}
use roslibrust.Base.{
  ℕ, ◌≡◌, refl, Bool, true, false, none, List, [], ◌∷◌, All, if◌then◌else◌, arith,
}
use roslibrust.Tcpros.Header.{ConnectionHeader}
use roslibrust.Ros1.Publishing.{
  skip, Publication, new, task_receives, accept_receives, accept_connection, Event, sending,
  accept_recv, accept_lagged, connection, shutdown, close, publish_bytes, task_recv, task_lagged,
  step, run,
}
use roslibrust.Ros1.Publishing.Delivery.{Tracks-task_receives}
use roslibrust.Ros1.Publishing.Invariant.{
  stops-Invariant, Invariant, IsPunctual, All-update_at, publish_bytes-Invariant,
  accept_receives-Invariant,
}
use roslibrust.Ros1.Publishing.Connections.{accept_connection-Invariant}

latch-nil : (b : Bool) → none ≡ (if b then latest {A = List ℕ} none [] else none)
latch-nil true = refl
latch-nil false = refl

lags-Invariant :
    (header : ConnectionHeader) (p : Publication) (num : ℕ)
    → Invariant header p
    → Invariant header (record p { rx = skip num p.sent p.rx })
lags-Invariant header p num inv = record {
  same = inv.same;
  known = omega arith;
  saves = record {
    read = inv.saves.read;
    behind = omega (arith, inv.saves.behind, inv.known);
    kept = inv.saves.kept;
  };
  tracks = inv.tracks;
}

either-Invariant :
    (header : ConnectionHeader) (b : Bool) (p q : Publication)
    → Invariant header p
    → Invariant header q
    → Invariant header (if b then p else q)
either-Invariant header true p q i j = i
either-Invariant header false p q i j = j

step-Invariant :
    (header : ConnectionHeader) (event : Event) (p : Publication)
    → IsPunctual event
    → Invariant header p
    → Invariant header (step event p)
unfolding step
step-Invariant header (sending bytes) p on_time inv =
    either-Invariant header p.closed p (publish_bytes bytes p) inv
      (publish_bytes-Invariant header bytes p inv)
step-Invariant header accept_recv p on_time inv =
    either-Invariant header p.accepting (accept_receives p) p
      (accept_receives-Invariant header p inv) inv
step-Invariant header (accept_lagged num) p on_time inv =
    either-Invariant header p.accepting _ p (lags-Invariant header p num inv) inv
step-Invariant header (connection stream room) p on_time inv =
    either-Invariant header p.accepting (accept_connection stream room p) p
      (accept_connection-Invariant header stream room p inv) inv
step-Invariant header shutdown p on_time inv = stops-Invariant header p inv
step-Invariant header close p on_time inv = record {
  same = inv.same;
  known = inv.known;
  saves = record { read = inv.saves.read; behind = inv.saves.behind; kept = inv.saves.kept };
  tracks = inv.tracks;
}
step-Invariant header (task_recv i) p on_time inv = record {
  same = inv.same;
  known = inv.known;
  saves = record { read = inv.saves.read; behind = inv.saves.behind; kept = inv.saves.kept };
  tracks =
      All-update_at i (task_receives p.closed p.sent) p.tasks
        (λ t tr.
          Tracks-task_receives header p.closed p.sent t.rx t.stream.written t.stream.room t.running
            tr)
        inv.tracks;
}
step-Invariant header (task_lagged i num) p on_time inv = absurd on_time

pub run-Invariant :
    (header : ConnectionHeader) (events : List Event) (p : Publication)
    → All IsPunctual events
    → Invariant header p
    → Invariant header (run events p)
unfolding run
run-Invariant header [] p on_time inv = inv
run-Invariant header (event ∷ events) p (now, later) inv =
    run-Invariant header events (step event p) later (step-Invariant header event p now inv)

pub new-Invariant : (header : ConnectionHeader) → Invariant header (new header)
new-Invariant header = record {
  same = refl;
  known = omega arith;
  saves = record { read = 0; behind = omega arith; kept = latch-nil header.latching };
  tracks = tt;
}
