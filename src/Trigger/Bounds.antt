-- ===== src/Trigger/Bounds.antt =====
-- What the trigger does at most, and what its settings are at least.
use skywalking_infra_e2e.Base.{
  ℕ, ◌≤◌, ◌<◌, ◌≡◌, ◌≢◌, inl, inr, true, false, Option, some, List, [], ◌∷◌, arith, Text, Result,
  ok, Result-cases, ℤ, pos, negsuc, is_nonpos, times,
}
use skywalking_infra_e2e.Config.{Trigger}
use skywalking_infra_e2e.Trigger.{
  max_int32, HttpAction, new_http_action, normalize_times, bad_request, failed, answered, Event,
  tick, stop, Worker, execute, step, run, started,
}

normalize_times-pos : (z : ℤ) → 0 < normalize_times z
unfolding normalize_times
normalize_times-pos (pos n) = ground arith
normalize_times-pos (negsuc n) = omega arith

-- An action that is created has an interval above 0 and a positive number of times.
pub new_http_action-positive :
    (parse_duration : Text → Result ℤ) (show_duration : ℤ → Text) (expand_env : Text → Text)
    (t : Trigger) {a : HttpAction}
    → new_http_action parse_duration show_duration expand_env t ≡ ok a
    → (is_nonpos a.interval ≡ false) × (0 < a.times)
unfolding new_http_action
new_http_action-positive parse_duration show_duration expand_env t {a} h =
    elim (Result-cases (parse_duration t.interval)) [
      | inl (d, e) ↦ ground (arith, normalize_times-pos t.times)
      | inr (x, e) ↦ ground arith
    ]

-- What holds of the goroutine between two events.
pub record Inv (times : ℕ) (w : Worker) : Type 0 where
  pub bounded : times ≢ max_int32 → w.executed_count ≤ times
  pub open_below : times ≢ max_int32 → w.running ≡ true → w.executed_count < times

step-Inv : (times : ℕ) (w : Worker) (e : Event) → Inv times w → Inv times (step times w e)
unfolding step execute
step-Inv times w (tick (bad_request x)) h = ground arith
step-Inv times w (tick (failed x)) h = ground arith
step-Inv times w (tick (answered n)) h = ground arith
step-Inv times w stop h = ground arith

run-Inv : (times : ℕ) (es : List Event) (w : Worker) → Inv times w → Inv times (run times w es)
unfolding run
run-Inv times [] w h = h
run-Inv times (e ∷ es) w h = run-Inv times es (step times w e) (step-Inv times w e h)

-- With a finite and positive number of times no more requests than that are executed, whatever
-- happens.
pub run_count_bounded :
    (times : ℕ) (es : List Event)
    → 0 < times
    → times ≢ max_int32
    → (run times started es).executed_count ≤ times
run_count_bounded times es positive finite =
    (run-Inv times es started
        (record { bounded = λ _. omega arith; open_below = λ _ _. omega arith })).bounded
      finite

pub step_sent :
    (times : ℕ) (w : Worker) (e : Event) {x : Option Text}
    → w.sent ≡ some x
    → (step times w e).sent ≡ some x
unfolding step
step_sent times w (tick r) h = ground arith
step_sent times w stop h = ground arith

-- The channel gets one value at most: what was sent once is never replaced.
pub run_sent_once :
    (times : ℕ) (es : List Event) (w : Worker) {x : Option Text}
    → w.sent ≡ some x
    → (run times w es).sent ≡ some x
unfolding run
run_sent_once times [] w h = h
run_sent_once times (e ∷ es) w h = run_sent_once times es (step times w e) (step_sent times w e h)
