-- ===== src/Ros1/Subscriber/Reader.antt =====
-- `publisher_reader_task` of roslibrust_ros1/src/subscriber.rs: one step for each thing that the
-- task waits for. Periods are in milliseconds.
use roslibrust.Base.{
  ℕ, ◌*◌, Bool, true, false, Option, none, some, List, [], ◌∷◌, Text, min, max, length,
}

abbrev pub initial_retry_period : ℕ
initial_retry_period = 100

abbrev pub max_retry_period : ℕ
max_retry_period = 20000

-- At the head of the connection loop, in the loop that reads messages, or behind both.
pub data Phase : Type 0 where
  connecting reading ended : Phase

-- `sent` and `sleeps` are the messages passed on and the waits, the latest first.
pub record Reader : Type 0 where
  pub phase : Phase
  pub retry_period : ℕ
  pub tcp_endpoint : Option Text
  pub receive_capacity_hint : ℕ
  pub sent : List (List ℕ)
  pub sleeps : List ℕ

abbrev pub started : Reader
started = record {
  phase = connecting;
  retry_period = initial_retry_period;
  tcp_endpoint = none;
  receive_capacity_hint = 1024;
  sent = [];
  sleeps = [];
}

-- What the task waits for: the cancellation, the attempt to connect (with the endpoint that a first
-- attempt learns), or a message; `message` tells whether the channel still has receivers.
pub data Event : Type 0 where
  cancels : Event
  connects : Text → Event
  connect_fails : Event
  message : List ℕ → Bool → Event
  read_fails : Event

abbrev or_cached : Option Text → Text → Option Text
or_cached none endpoint = some endpoint
or_cached (some cached) endpoint = some cached

-- `sleep(retry_period)`, then the exponential backoff.
abbrev wait : Reader → Reader
wait r = record r {
  phase = connecting;
  sleeps = r.retry_period ∷ r.sleeps;
  retry_period = min (r.retry_period * 2) max_retry_period;
}

abbrev at_connection : Event → Reader → Reader
at_connection cancels r = record r { phase = ended }
at_connection (connects endpoint) r = record r {
  phase = reading;
  tcp_endpoint = or_cached r.tcp_endpoint endpoint;
  retry_period = initial_retry_period;
}
at_connection connect_fails r = wait r
at_connection _ r = r

abbrev at_read : Event → Reader → Reader
at_read cancels r = record r { phase = ended }
at_read (message body true) r = record r {
  receive_capacity_hint = max r.receive_capacity_hint (length body);
  sent = body ∷ r.sent;
  retry_period = initial_retry_period;
}
at_read (message body false) r = record r {
  receive_capacity_hint = max r.receive_capacity_hint (length body);
  phase = ended;
}
at_read read_fails r = wait r
at_read _ r = r

-- An event that the phase does not wait for changes nothing.
unfoldable pub step : Event → Reader → Reader
step e r = elim r.phase [ connecting ↦ at_connection e r | reading ↦ at_read e r | ended ↦ r ]

unfoldable pub run_task : List Event → Reader → Reader
unfolding step
run_task [] r = r
run_task (e ∷ es) r = run_task es (step e r)
