-- ===== src/Ros1/Subscriber.antt =====
-- roslibrust_ros1/src/subscriber.rs: the publisher connections of a `Subscription`, and the reader
-- task of one connection. A task is known by its number; the connections are keyed by URI.
pub mod Reader
pub mod Backoff
pub mod Updates
mod Tests
use roslibrust.Base.{
  ℕ, ◌+◌, ◌*◌, ◌-◌, ◌≡◌, Bool, true, false, not, ◌&&◌, Option, none, some, List, [], ◌∷◌, ◌++◌,
  Text, text_eq, if◌then◌else◌, Map, get, insert, remove, keys, contains_key, member, ltb, ◌==◌,
  min, length,
}

-- `PublisherConnection`: the cached endpoint, and the cancellation token, which is the task's.
pub record PublisherConnection : Type 0 where
  pub tcp_endpoint : Option Text
  pub token : ℕ

-- A reader task that has not ended.
pub record Task : Type 0 where
  pub number : ℕ
  pub uri : Text
  pub cancelled : Bool

pub record PublisherConnectionState : Type 0 where
  pub connections : Map PublisherConnection
  pub tasks : List Task
  pub spawned : ℕ

abbrev pub no_connections : PublisherConnectionState
no_connections = record { connections = []; tasks = []; spawned = 0 }

-- `add_publisher_source`: a new entry and a new task, unless the URI has an entry.
pub add_publisher_source : Text → PublisherConnectionState → PublisherConnectionState
add_publisher_source uri st = if contains_key uri st.connections then st else record {
  connections = insert uri (record { tcp_endpoint = none; token = st.spawned }) st.connections;
  tasks = record { number = st.spawned; uri = uri; cancelled = false } ∷ st.tasks;
  spawned = st.spawned + 1;
}

-- `cancel_token.cancel()`
abbrev pub cancel : ℕ → List Task → List Task
cancel token [] = []
cancel token (t ∷ ts) =
    (if t.number == token then record t { cancelled = true } else t) ∷ cancel token ts

-- The second loop of `remove_stale_publishers`.
unfoldable pub drop_stale : List Text → PublisherConnectionState → PublisherConnectionState
drop_stale [] st = st
drop_stale (uri ∷ uris) st = drop_stale uris (elim (get uri st.connections) [
  | none ↦ st
  | some conn ↦ record st {
    connections = remove uri st.connections;
    tasks = cancel conn.token st.tasks;
  }
])

-- `keys().filter(…)`
unfoldable pub stale_uris : List Text → List Text → List Text
stale_uris current [] = []
stale_uris current (uri ∷ uris) =
    let rest = stale_uris current uris in if member uri current then rest else uri ∷ rest

pub remove_stale_publishers : List Text → PublisherConnectionState → PublisherConnectionState
unfolding drop_stale stale_uris
remove_stale_publishers current st = drop_stale (stale_uris current (keys st.connections)) st

unfoldable pub add_publisher_sources :
    List Text → PublisherConnectionState → PublisherConnectionState
unfolding add_publisher_source
add_publisher_sources [] st = st
add_publisher_sources (uri ∷ uris) st = add_publisher_sources uris (add_publisher_source uri st)

-- The handler of `publisherUpdate` in roslibrust_ros1/src/node/xmlrpc.rs, for a known topic.
pub publisher_update : List Text → PublisherConnectionState → PublisherConnectionState
unfolding remove_stale_publishers add_publisher_sources
publisher_update publishers st =
    add_publisher_sources publishers (remove_stale_publishers publishers st)

abbrev pub without : ℕ → List Task → List Task
without number [] = []
without number (t ∷ ts) =
    let rest = without number ts in if t.number == number then rest else t ∷ rest

-- The end of `publisher_reader_task`: it removes the entry of its URI.
pub task_exits : ℕ → Text → PublisherConnectionState → PublisherConnectionState
task_exits number uri st = record st {
  connections = remove uri st.connections;
  tasks = without number st.tasks;
}
