-- ===== src/Transforms/Waiting/Wakeups.antt =====
-- A call that waits is woken.
use roslibrust.Base.{
  ℕ, zero, suc, ◌+◌, ◌≤◌, ◌<◌, ◌≡◌, sym, subst, ◌∙◌, true, false, Bool-cases, Option, Option-cases,
  none, some, List, [], ◌∷◌, ◌++◌, ltb, ◌⊎◌, inl, inr, arith, All,
}
use roslibrust.Transforms.Waiting.{
  Phase, starting, looking, looked, waiting, done, Manager, Event, adds, notifies, panics,
  subscribes, looks, tests_remaining, receives, expires, called, look, last_look, step, run,
}

-- No task ends between its transforms and their notification.
abbrev pub Completes : {T : Type 0} → Event T → Type 0
Completes panics = ⊥
Completes _ = Unit {0}

module _ {T : Type 0} (get_transform : List T → Option T) where
  -- Behind a look that found nothing, a notification is to come or there is nothing to find still.
  abbrev IsOwed : List T → ℕ → ℕ → ℕ → Type 0
  IsOwed registry sent adding received =
      (received ≤ sent) × ((received < sent + adding) ⊎ (get_transform registry ≡ none))

  -- What holds of a call in each phase, for the registry and the notifications that are sent or
  -- owed.
  abbrev IsAwake : List T → ℕ → ℕ → Phase T → Type 0
  IsAwake registry sent adding starting = Unit {0}
  IsAwake registry sent adding (looking received) = received ≤ sent
  IsAwake registry sent adding (looked received) = IsOwed registry sent adding received
  IsAwake registry sent adding (waiting received) = IsOwed registry sent adding received
  IsAwake registry sent adding (done answer) = Unit {0}

  adds-IsAwake :
      (transforms registry : List T) (sent adding : ℕ) (phase : Phase T)
      → IsAwake registry sent adding phase
      → IsAwake (registry ++ transforms) sent (suc adding) phase
  adds-IsAwake transforms registry sent adding starting awake = tt
  adds-IsAwake transforms registry sent adding (looking received) awake = awake
  adds-IsAwake transforms registry sent adding (looked received) (le, _) = (le, inl (omega arith))
  adds-IsAwake transforms registry sent adding (waiting received) (le, _) = (le, inl (omega arith))
  adds-IsAwake transforms registry sent adding (done answer) awake = tt

  notifies-IsOwed :
      (registry : List T) (sent adding received : ℕ)
      → IsOwed registry sent (suc adding) received
      → IsOwed registry (suc sent) adding received
  notifies-IsOwed registry sent adding received (le, inl owed) = (omega arith, inl (omega arith))
  notifies-IsOwed registry sent adding received (le, inr nothing) = (omega arith, inr nothing)

  notifies-IsAwake :
      (registry : List T) (sent adding : ℕ) (phase : Phase T)
      → IsAwake registry sent (suc adding) phase
      → IsAwake registry (suc sent) adding phase
  notifies-IsAwake registry sent adding starting awake = tt
  notifies-IsAwake registry sent adding (looking received) awake = omega arith
  notifies-IsAwake registry sent adding (looked received) awake =
      notifies-IsOwed registry sent adding received awake
  notifies-IsAwake registry sent adding (waiting received) awake =
      notifies-IsOwed registry sent adding received awake
  notifies-IsAwake registry sent adding (done answer) awake = tt

  look-IsAwake :
      (registry : List T) (sent adding received : ℕ) (phase : Phase T)
      → received ≤ sent
      → IsAwake registry sent adding (
          look get_transform received
            (record { registry = registry; sent = sent; adding = adding; phase = phase }))
  unfolding look
  look-IsAwake registry sent adding received phase le =
      elim (Option-cases (get_transform registry)) [
        | inl nothing ↦ rw (nothing, look) (le, inr nothing)
        | inr (t, there) ↦ rw (there, look) tt
      ]

  last_look-IsAwake :
      (registry : List T) (sent adding : ℕ) (phase : Phase T)
      → IsAwake registry sent adding (
          last_look get_transform
            (record { registry = registry; sent = sent; adding = adding; phase = phase }))
  unfolding last_look
  last_look-IsAwake registry sent adding phase = elim (Option-cases (get_transform registry)) [
    | inl nothing ↦ rw (nothing, last_look) tt
    | inr (t, there) ↦ rw (there, last_look) tt
  ]

  step-IsAwake :
      (event : Event T) (registry : List T) (sent adding : ℕ) (phase : Phase T)
      → Completes event
      → IsAwake registry sent adding phase
      → let m =
          step get_transform event
            (record { registry = registry; sent = sent; adding = adding; phase = phase }) in
        IsAwake m.registry m.sent m.adding m.phase
  unfolding step look last_look
  step-IsAwake (adds transforms) registry sent adding phase c awake =
      adds-IsAwake transforms registry sent adding phase awake
  step-IsAwake notifies registry sent zero phase c awake = awake
  step-IsAwake notifies registry sent (suc adding) phase c awake =
      notifies-IsAwake registry sent adding phase awake
  step-IsAwake panics registry sent adding phase c awake = absurd c
  step-IsAwake subscribes registry sent adding starting c awake = omega arith
  step-IsAwake subscribes registry sent adding (looking received) c awake = awake
  step-IsAwake subscribes registry sent adding (looked received) c awake = awake
  step-IsAwake subscribes registry sent adding (waiting received) c awake = awake
  step-IsAwake subscribes registry sent adding (done answer) c awake = awake
  step-IsAwake looks registry sent adding starting c awake = awake
  step-IsAwake looks registry sent adding (looking received) c awake =
      look-IsAwake registry sent adding received (looking received) awake
  step-IsAwake looks registry sent adding (looked received) c awake = awake
  step-IsAwake looks registry sent adding (waiting received) c awake = awake
  step-IsAwake looks registry sent adding (done answer) c awake = awake
  step-IsAwake (tests_remaining is_zero) registry sent adding starting c awake = awake
  step-IsAwake (tests_remaining is_zero) registry sent adding (looking received) c awake = awake
  step-IsAwake (tests_remaining true) registry sent adding (looked received) c awake = tt
  step-IsAwake (tests_remaining false) registry sent adding (looked received) c awake = awake
  step-IsAwake (tests_remaining is_zero) registry sent adding (waiting received) c awake = awake
  step-IsAwake (tests_remaining is_zero) registry sent adding (done answer) c awake = awake
  step-IsAwake (receives missed) registry sent adding starting c awake = awake
  step-IsAwake (receives missed) registry sent adding (looking received) c awake = awake
  step-IsAwake (receives missed) registry sent adding (looked received) c awake = awake
  step-IsAwake (receives missed) registry sent adding (waiting received) c awake =
      elim (Bool-cases (ltb received sent)) [
        | inl more ↦ rw more (omega arith)
        | inr none_left ↦ rw none_left awake
      ]
  step-IsAwake (receives missed) registry sent adding (done answer) c awake = awake
  step-IsAwake expires registry sent adding starting c awake = awake
  step-IsAwake expires registry sent adding (looking received) c awake = awake
  step-IsAwake expires registry sent adding (looked received) c awake = awake
  step-IsAwake expires registry sent adding (waiting received) c awake =
      last_look-IsAwake registry sent adding (waiting received)
  step-IsAwake expires registry sent adding (done answer) c awake = awake

  run-IsAwake :
      (events : List (Event T)) (m : Manager T)
      → All Completes events
      → IsAwake m.registry m.sent m.adding m.phase
      → IsAwake
          (run get_transform events m).registry
          (run get_transform events m).sent
          (run get_transform events m).adding
          (run get_transform events m).phase
  unfolding run
  run-IsAwake [] m c awake = awake
  run-IsAwake (event ∷ events) m (c, cs) awake =
      run-IsAwake events (step get_transform event m) cs
        (step-IsAwake event m.registry m.sent m.adding m.phase c awake)

  -- Whatever happens beside it, in whatever order, provided that no task that has added transforms
  -- panics before its notification, a call that waits though its transform is in the registry has a
  -- notification to come, sent or owed.
  pub waiting-woken :
      (events : List (Event T)) (registry : List T) (sent adding received : ℕ) (transform : T)
      → All Completes events
      → (run get_transform events (called registry sent adding)).phase ≡ waiting received
      → get_transform (run get_transform events (called registry sent adding)).registry
        ≡ some transform
      → received
        < (run get_transform events (called registry sent adding)).sent
          + (run get_transform events (called registry sent adding)).adding
  waiting-woken events registry sent adding received transform complete waits there =
      let m = run get_transform events (called registry sent adding) in
      let awake = run-IsAwake events (called registry sent adding) complete tt in
      let now : IsAwake m.registry m.sent m.adding (waiting received) =
        subst (λ p. IsAwake m.registry m.sent m.adding p) waits awake in
      elim (now.1) [ inl owed ↦ owed | inr nothing ↦ absurd (no_transform nothing there) ]
    where
      no_transform : {o : Option T} → o ≡ none → o ≡ some transform → ⊥
      no_transform a b = cc (sym a ∙ b)
