-- ===== src/Trigger/Command.antt =====
-- The trigger command (commands/trigger/trigger.go): the action, the signal, and `Stop`.
use skywalking_infra_e2e.Base.{
  ℕ, ◌≡◌, refl, sym, ap, ◌∙◌, inl, inr, false, Option, none, some, List, [], ◌∷◌, ◌++◌, map, arith,
  Option-cases, Text, codes, Result, ok, err, times,
}
use skywalking_infra_e2e.Trigger.{
  HttpAction, Response, Event, tick, stop, Worker, step, run, started,
}

-- How the command ends: with an error, without an action, or by waiting, for the channel or for
-- the signal; with the goroutine as it is then.
pub data Ended : Type 0 where
  failed : Text → Ended
  no_action : Ended
  waits_for_result : Worker → Ended
  action_failed : Text → Worker → Ended
  stopped : Worker → Ended

-- What the command returns, where it returns.
abbrev pub returned : Ended → Option (Option Text)
returned (failed x) = some (some (codes "[Trigger] " ++ x))
returned no_action = some none
returned (waits_for_result w) = none
returned (action_failed x w) = some (some x)
returned (stopped w) = some none

-- The ticks until the goroutine sees the stop, and those that it could see behind it.
unfoldable pub run_action : ℕ → List Response → List Response → Ended
run_action times before behind =
    let w = run times started (map tick before) in
    elim w.sent [
      | none ↦ waits_for_result w
      | some (some x) ↦ action_failed x w
      | some none ↦ stopped (run times w (stop ∷ map tick behind))
    ]

-- `RunE`, with the action that `CreateTriggerAction` gives.
unfoldable pub trigger_command : Result (Option HttpAction) → List Response → List Response → Ended
trigger_command created before behind = elim created [
  | err x ↦ failed x
  | ok none ↦ no_action
  | ok (some a) ↦ run_action a.times before behind
]

idle : (times : ℕ) (w : Worker) (es : List Event) → w.running ≡ false → run times w es ≡ w
unfolding run step
idle times w [] h = refl
idle times w (e ∷ es) h =
    let same : step times w e ≡ w = ground arith in
    ap (λ v. run times v es) same ∙ idle times w es h

step_stop :
    (times : ℕ) (w : Worker)
    → ((step times w stop).running ≡ false)
      × ((step times w stop).executed_count ≡ w.executed_count)
unfolding step
step_stop times w = ground arith

pub stopped_at :
    (times : ℕ) (w : Worker) (es : List Event)
    → ((run times w (stop ∷ es)).running ≡ false)
      × ((run times w (stop ∷ es)).executed_count ≡ w.executed_count)
unfolding run
stopped_at times w es =
    let (a, b) = step_stop times w in
    let same = idle times (step times w stop) es a in
    (ap (λ (v : Worker). v.running) same ∙ a, ap (λ (v : Worker). v.executed_count) same ∙ b)

succeeded :
    (times : ℕ) (before behind : List Response) {w : Worker}
    → run_action times before behind ≡ stopped w
    → ((run times started (map tick before)).sent ≡ some none)
      × (run times (run times started (map tick before)) (stop ∷ map tick behind) ≡ w)
unfolding run_action
succeeded times before behind {w} h =
    elim (Option-cases (run times started (map tick before)).sent) [
      | inl e ↦ absurd (ground arith)
      | inr (result, e) ↦ elim (Option-cases result) [
        | inl e' ↦ ground arith
        | inr (x, e') ↦ absurd (ground arith)
      ]
    ]

-- Where the trigger command with an action ends by its signal, the action has sent nil before, and
-- its goroutine runs no more and has executed no request behind the stop.
pub trigger_command_stops :
    (a : HttpAction) (before behind : List Response) {w : Worker}
    → trigger_command (ok (some a)) before behind ≡ stopped w
    → ((run a.times started (map tick before)).sent ≡ some none)
      × (w.running ≡ false)
      × (w.executed_count ≡ (run a.times started (map tick before)).executed_count)
unfolding trigger_command
trigger_command_stops a before behind {w} h =
    let (e, same) = succeeded a.times before behind {w = w} h in
    let (b, c) = stopped_at a.times (run a.times started (map tick before)) (map tick behind) in
    (
      e,
      ap (λ (v : Worker). v.running) (sym same) ∙ b,
      ap (λ (v : Worker). v.executed_count) (sym same) ∙ c,
    )
