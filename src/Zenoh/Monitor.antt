-- ===== src/Zenoh/Monitor.antt =====
-- The discovery monitor of roslibrust_zenoh/src/lib.rs: which keys it holds. Times are milliseconds.
pub mod Expiry
use roslibrust.Base.{
  ℕ, ◌-◌, Bool, true, false, Option, none, some, List, [], ◌∷◌, ◌++◌, Text, text_eq, Map, get,
  insert, remove, keys, ltb, if◌then◌else◌,
}
use roslibrust.Zenoh.{DiscoveryFact, parse_discovery_key}

abbrev pub discovery_lost_after : ℕ
discovery_lost_after = 3000

pub record DiscoveryMonitor : Type 0 where
  pub active_facts : Map ℕ
  pub graph : Map DiscoveryFact

abbrev pub started : DiscoveryMonitor
started = record { active_facts = []; graph = [] }

-- `now.duration_since(*last_seen).gt(&DISCOVERY_LOST_AFTER)`: a time that lies ahead counts as now.
abbrev pub is_lost : ℕ → ℕ → Bool
is_lost now last_seen = ltb discovery_lost_after (now - last_seen)

-- The keys of `active_facts` that have not been seen for too long.
unfoldable pub lost : ℕ → Map ℕ → List Text → List Text
lost now active_facts [] = []
lost now active_facts (key ∷ more) =
    let rest = lost now active_facts more in
    elim (get key active_facts) [
      | none ↦ rest
      | some last_seen ↦ if is_lost now last_seen then key ∷ rest else rest
    ]

unfoldable pub remove_all {ℓ} : {V : Type ℓ} → List Text → Map V → Map V
remove_all [] m = m
remove_all (key ∷ more) m = remove_all more (remove key m)

-- What the monitor waits for: a sample with its key, or a tick of the interval.
pub data Event : Type 0 where
  sample : Text → ℕ → Event
  tick : ℕ → Event

module _ (decode : Text → Option (List ℕ)) where
  unfoldable pub step : Event → DiscoveryMonitor → DiscoveryMonitor
  unfolding lost remove_all
  step (sample key now) monitor = elim (parse_discovery_key decode key) [
    | none ↦ monitor
    | some fact ↦ record {
      active_facts = insert key now monitor.active_facts;
      graph = insert key fact monitor.graph;
    }
  ]
  step (tick now) monitor =
      let lost_keys = lost now monitor.active_facts (keys monitor.active_facts) in
      record {
        active_facts = remove_all lost_keys monitor.active_facts;
        graph = remove_all lost_keys monitor.graph;
      }

  unfoldable pub run : List Event → DiscoveryMonitor → DiscoveryMonitor
  unfolding step
  run [] monitor = monitor
  run (event ∷ events) monitor = run events (step event monitor)
