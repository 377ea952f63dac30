-- ===== src/Ros1/Subscriber/Tests.antt =====
-- The theorems on subscriptions at concrete inputs.
use roslibrust.Base.{
  ◌^◌, ◌*◌, ◌≡◌, refl, true, List, [], ◌∷◌, Text, codes, contains_key, member, min, replicate,
}
use roslibrust.Ros1.Subscriber.{no_connections, publisher_update, task_exits}
use roslibrust.Ros1.Subscriber.Updates.{
  publisher_update-connections, live_tasks, late_exit_doubles_reader,
}
use roslibrust.Ros1.Subscriber.Reader.{
  Reader, Event, connects, connect_fails, message, read_fails, started, run_task,
  initial_retry_period, max_retry_period,
}
use roslibrust.Ros1.Subscriber.Backoff.{IsPaced, run_task_backoff}

abbrev talker : Text
talker = codes "http://talker:1"

publisher_update-connections_example :
    contains_key
      (codes "http://b:2")
      (publisher_update
        (talker ∷ [])
        (publisher_update (codes "http://b:2" ∷ []) no_connections)).connections
    ≡ member (codes "http://b:2") (talker ∷ [])
publisher_update-connections_example =
    publisher_update-connections (talker ∷ [])
      (publisher_update (codes "http://b:2" ∷ []) no_connections) (codes "http://b:2")

late_exit_doubles_reader_example :
    let listed = publisher_update (talker ∷ []) no_connections in
    let relisted = publisher_update (talker ∷ []) (publisher_update [] listed) in
    live_tasks talker (publisher_update (talker ∷ []) (task_exits 0 talker relisted)).tasks ≡ 2
late_exit_doubles_reader_example = late_exit_doubles_reader talker

abbrev script : List Event
script = connect_fails ∷ connects (codes "host:9") ∷ message (1 ∷ []) true ∷ read_fails ∷ []

waits_of_script : (run_task script started).sleeps ≡ 100 ∷ 100 ∷ []
unfolding run_task
waits_of_script = refl

run_task_backoff_example :
    IsPaced (run_task script started)
    × ((run_task (replicate 9 connect_fails) started).retry_period
        ≡ min (initial_retry_period * 2 ^ 9) max_retry_period)
run_task_backoff_example = run_task_backoff script 9

abbrev connected : Reader
connected = run_task (connect_fails ∷ connects (codes "host:9") ∷ []) started
