-- ===== src/Ros1/Subscriber/Backoff.antt =====
-- The waits between the attempts of a reader task, and its cached endpoint.
use native.Mathlib.Nat.{pow-suc}
use roslibrust.Base.{
  ap, ℕ, zero, suc, ◌*◌, ◌^◌, ◌≤◌, ◌≡◌, refl, ◌∙◌, some, List, [], ◌∷◌, arith, Text, min, All,
  replicate,
}
use roslibrust.Ros1.Subscriber.Reader.{
  Reader, connecting, ended, Event, connect_fails, started, step, run_task, initial_retry_period,
  max_retry_period,
}

abbrev pub IsPeriod : ℕ → Type 0
IsPeriod p = (initial_retry_period ≤ p) × (p ≤ max_retry_period)

pub record IsPaced (r : Reader) : Type 0 where
  pub period : IsPeriod r.retry_period
  pub waits : All IsPeriod r.sleeps

step-IsPaced : (e : Event) (r : Reader) → IsPaced r → IsPaced (step e r)
unfolding step
step-IsPaced e r h = record {
  period = ground (arith, h.period);
  waits = ground (arith, h.period, h.waits);
}

run_task-IsPaced : (es : List Event) (r : Reader) → IsPaced r → IsPaced (run_task es r)
unfolding run_task
run_task-IsPaced [] r h = h
run_task-IsPaced (e ∷ es) r h = run_task-IsPaced es (step e r) (step-IsPaced e r h)

started-IsPaced : IsPaced started
started-IsPaced = record { period = omega arith; waits = tt }

fails-period :
    (n p : ℕ) (r : Reader)
    → r.phase ≡ connecting
    → r.retry_period ≡ min p max_retry_period
    → (run_task (replicate n connect_fails) r).retry_period ≡ min (p * 2 ^ n) max_retry_period
unfolding run_task step
fails-period zero p r at e = e ∙ omega arith
fails-period (suc n) p r at e =
    let r' = step connect_fails r in
    fails-period n (p * 2) r' (ground arith) (ground arith)
    ∙ ap (λ k. min k max_retry_period) (omega (arith, ap (λ (t : ℕ). p * t) (pow-suc 2 n)))

-- From its start, whatever happens, the task's period and all its waits lie between 100 ms and
-- 20 s, and after n failed attempts at the start the period is 100 * 2^n ms, cut at 20 s.
pub run_task_backoff :
    (es : List Event) (n : ℕ)
    → IsPaced (run_task es started)
      × ((run_task (replicate n connect_fails) started).retry_period
          ≡ min (initial_retry_period * 2 ^ n) max_retry_period)
run_task_backoff es n = (
  run_task-IsPaced es started started-IsPaced,
  fails-period n initial_retry_period started refl (omega arith),
)

step-endpoint :
    (e : Event) (r : Reader) (a : Text) → r.tcp_endpoint ≡ some a → (step e r).tcp_endpoint ≡ some a
unfolding step
step-endpoint e r a h = ground arith

-- Once the endpoint of a publisher is known, no event changes it, and an ended task passes on no
-- further message and waits no more.
pub run_task_stable :
    (es : List Event) (r : Reader)
    → ((a : Text) → r.tcp_endpoint ≡ some a → (run_task es r).tcp_endpoint ≡ some a)
      × (r.phase ≡ ended → run_task es r ≡ r)
unfolding run_task step
run_task_stable [] r = (λ a h. h, λ h. refl)
run_task_stable (e ∷ es) r =
    let (keeps, stays) = run_task_stable es (step e r) in
    (
      λ a h. keeps a (step-endpoint e r a h),
      λ h. let same : step e r ≡ r = ground (arith, h) in stays (ap (λ x. x.phase) same ∙ h) ∙ same,
    )
