-- ===== src/Transforms/Waiting.antt =====
-- `TransformManager::wait_for_transform` of roslibrust_transforms/src/lib.rs beside the tasks that
-- add transforms: `process_tf_messages`, `add_transform` and `update_static_transform`. The registry
-- is the list of what was added; `get_transform` is the look-up of the crate transforms for the
-- frames and the time that are waited for.
pub mod Wakeups
use roslibrust.Base.{
  ℕ, zero, suc, ◌+◌, ◌-◌, Bool, true, false, Option, none, some, List, [], ◌∷◌, ◌++◌, ltb, min,
  if◌then◌else◌,
}

pub data Answer {ℓ} (T : Type ℓ) : Type ℓ where
  found : T → Answer T
  timed_out : Answer T

-- Where the call of `wait_for_transform` stands, with the notifications that it has received:
-- before it subscribes to them, before a look at the registry, behind a look that found nothing, or
-- at the `select!`.
pub data Phase {ℓ} (T : Type ℓ) : Type ℓ where
  starting : Phase T
  looking looked waiting : ℕ → Phase T
  done : Answer T → Phase T

-- `adding` tasks have added their transforms and not sent their notification yet.
pub record Manager {ℓ} (T : Type ℓ) : Type ℓ where
  pub registry : List T
  pub sent : ℕ
  pub adding : ℕ
  pub phase : Phase T

-- What can happen: a task adds transforms, and ends with its notification, or without it where a
-- later transform of its message panics in `into_transform`; the call subscribes, looks at the
-- registry, tests whether the time that remains is zero, receives a notification behind those that
-- it has `missed`, or its time is over.
pub data Event {ℓ} (T : Type ℓ) : Type ℓ where
  adds : List T → Event T
  notifies panics : Event T
  subscribes looks : Event T
  tests_remaining : Bool → Event T
  receives : ℕ → Event T
  expires : Event T

abbrev pub called {ℓ} : {T : Type ℓ} → List T → ℕ → ℕ → Manager T
called registry sent adding = record {
  registry = registry;
  sent = sent;
  adding = adding;
  phase = starting;
}

module _ {ℓ} {T : Type ℓ} (get_transform : List T → Option T) where
  -- The look at the head of the loop.
  unfoldable pub look : ℕ → Manager T → Phase T
  look received m = elim (get_transform m.registry) [
    | some transform ↦ done (found transform)
    | none ↦ looked received
  ]

  -- The last look when the time is over.
  unfoldable pub last_look : Manager T → Phase T
  last_look m = elim (get_transform m.registry) [
    | some transform ↦ done (found transform)
    | none ↦ done timed_out
  ]

  unfoldable pub step : Event T → Manager T → Manager T
  unfolding look last_look
  step (adds transforms) m = record m { registry = m.registry ++ transforms; adding = suc m.adding }
  step notifies m = elim m.adding [
    | zero ↦ m
    | suc adding ↦ record m { adding = adding; sent = suc m.sent }
  ]
  step panics m = elim m.adding [ zero ↦ m | suc adding ↦ record m { adding = adding } ]
  step subscribes m = elim m.phase [ starting ↦ record m { phase = looking m.sent } | _ ↦ m ]
  step looks m = elim m.phase [ looking received ↦ record m { phase = look received m } | _ ↦ m ]
  step (tests_remaining is_zero) m = elim m.phase [
    | looked received ↦ record m { phase = if is_zero then done timed_out else waiting received }
    | _ ↦ m
  ]
  step (receives missed) m = elim m.phase [
    | waiting received ↦
        if ltb received m.sent
        then record m { phase = looking (min (suc received + missed) m.sent) }
        else m
    | _ ↦ m
  ]
  step expires m = elim m.phase [ waiting received ↦ record m { phase = last_look m } | _ ↦ m ]

  unfoldable pub run : List (Event T) → Manager T → Manager T
  unfolding step
  run [] m = m
  run (event ∷ events) m = run events (step event m)
