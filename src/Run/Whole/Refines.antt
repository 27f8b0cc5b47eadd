-- ===== src/Run/Whole/Refines.antt =====
-- The run command with its parts refines the order of the stages (`Stages` of Run).
use skywalking_infra_e2e.Base.{
  ℕ, ◌≡◌, refl, sym, ap, ◌∙◌, inl, inr, Bool, Option, none, some, List, map, arith, if◌then◌else◌,
  Option-cases, is_some, Text, text_eq, Result, ok, err,
}
use skywalking_infra_e2e.Verifier.{Engine}
use skywalking_infra_e2e.Verify.Serial.{Outcome}
use skywalking_infra_e2e.Verify.Command.{do_verify_according_config}
use skywalking_infra_e2e.Kind.Forward.{Notified, returned, panicked, waits}
use skywalking_infra_e2e.SetupCommand.{SetupState, do_setup_according_e2e, do_stop_setup}
use skywalking_infra_e2e.Trigger.{HttpAction, Response, create_trigger_action, tick, run, started}
use skywalking_infra_e2e.Run.{
  ActionOutcome, create_failed, no_action, never_sends, sends, Stages, run_according_e2e,
  clean_up_always,
}
use skywalking_infra_e2e.Run.Cleanup.{
  cleanups, later_error, asked, first_error, cleanups_waiting, cleanups_unloaded,
  first_error_of_setup, first_error_later, run_according_e2e_returns, cleanups-run_according_e2e,
}
use mathlib.Core.Path.{subst}
use skywalking_infra_e2e.Run.Whole.{
  RunWorld, RunState, Finished, begun, ticked, stop_action, clean_environment, do_cleanup,
  should_cleanup, leave, leave_setup, verify_part, await_action, with_action, trigger_part,
  run_whole,
}

abbrev answer_of : Option (Option Text) → ActionOutcome
answer_of none = never_sends
answer_of (some error) = sends error

-- How the trigger stage ends.
abbrev pub outcome_of : Result (Option HttpAction) → List Response → ActionOutcome
outcome_of (err x) rs = create_failed x
outcome_of (ok none) rs = no_action
outcome_of (ok (some a)) rs = answer_of (run a.times started (map tick rs)).sent

-- The stages of a run, by the error of its verification.
abbrev pub stages : RunWorld → SetupState → Option Text → Stages
stages w s verify_error = record {
  config_error = w.setup.config_error;
  cleanup_on = w.cleanup_on;
  setup_error = (do_setup_according_e2e w.setup s).1;
  action =
      outcome_of
        (create_trigger_action w.parse_duration w.show_duration w.expand_env none w.trigger)
        w.until_sent;
  verify_error = verify_error;
}

-- How often the forwarders were notified, which every cleanup does once.
abbrev pub notifications : RunState → ℕ
notifications st = if is_some st.notified then 1 else 0

abbrev once : Bool → ℕ
once b = if b then 1 else 0

module _ (w : RunWorld) where
  clean_environment_notifies :
      (n : Notified) (st : RunState) → (clean_environment w n st).notified ≡ some n
  unfolding clean_environment
  clean_environment_notifies returned st = refl
  clean_environment_notifies panicked st = refl
  clean_environment_notifies (waits n) st = refl

  do_cleanup_notifies : (st : RunState) → notifications (do_cleanup w st) ≡ 1
  unfolding do_cleanup
  do_cleanup_notifies st =
      rw (clean_environment_notifies (do_stop_setup (stop_action st).setup).1) refl

  ticked_notifies : (rs : List Response) (st : RunState) → (ticked rs st).notified ≡ st.notified
  unfolding ticked
  ticked_notifies rs st = ground arith

  -- The return of a run behind its setup, with a cleanup where it is due.
  abbrev cleanup_count : Option (Option Text) → ℕ
  cleanup_count none = 0
  cleanup_count (some error) = if should_cleanup w error then 1 else 0

  abbrev Leaves : Option (Option Text) → Finished → Type 0
  Leaves r f = (f.returned ≡ r) × (notifications f.state ≡ cleanup_count r)

  asked_failed :
      {setup_error : Option Text} {x : Text} (error : Option Text)
      → setup_error ≡ some x
      → once (text_eq w.cleanup_on clean_up_always) ≡ once (asked w.cleanup_on setup_error error)
  asked_failed error h = rw h refl

  asked_done :
      {setup_error : Option Text} (error : Option Text)
      → setup_error ≡ none
      → cleanup_count (some error) ≡ (if asked w.cleanup_on setup_error error then 1 else 0)
  unfolding should_cleanup
  asked_done error h = rw h (ground arith)

  leave-Leaves :
      (st : RunState) (error : Option Text)
      → st.notified ≡ none
      → Leaves (some error) (leave w st error)
  unfolding leave
  leave-Leaves st error h = let one = do_cleanup_notifies st in ground arith

module _ (e : Engine) (w : RunWorld) {o : Outcome}
    (ended : do_verify_according_config e w.settings w.parse_duration w.flags none w.verify w.world
        w.schedule
      ≡ some o) where
  verify_part-Leaves :
      (st : RunState) → st.notified ≡ none → Leaves w (some o.error) (verify_part e w st)
  unfolding verify_part
  verify_part-Leaves st h =
      let same : verify_part e w st ≡ leave w (ticked w.while_verifying st) o.error =
        ground arith in
      subst (Leaves w (some o.error)) (sym same) (
        leave-Leaves w (ticked w.while_verifying st) o.error
          (ticked_notifies w w.while_verifying st ∙ h))

  await_action-Leaves :
      (st : RunState) (a : HttpAction)
      → st.notified ≡ none
      → Leaves w
          (later_error (outcome_of (ok (some a)) w.until_sent) o.error)
          (await_action e w st a)
  unfolding await_action
  await_action-Leaves st a h =
      let k = run a.times started (map tick w.until_sent) in
      let st' : RunState = record st { action = some (a, k) } in
      elim (Option-cases k.sent) [
        | inl c ↦ ground arith
        | inr (sent, c) ↦ elim (Option-cases sent) [
          | inl d ↦ let v = verify_part-Leaves st' h in ground arith
          | inr (x, d) ↦ let v = leave-Leaves w st' (some x) h in ground arith
        ]
      ]

  with_action-Leaves :
      (st : RunState) (created : Result (Option HttpAction))
      → st.notified ≡ none
      → Leaves w
          (later_error (outcome_of created w.until_sent) o.error)
          (with_action e w st created)
  unfolding with_action
  with_action-Leaves st (err x) h = leave-Leaves w st (some x) h
  with_action-Leaves st (ok none) h = verify_part-Leaves st h
  with_action-Leaves st (ok (some a)) h = await_action-Leaves st a h

  trigger_part-Leaves :
      (st : RunState)
      → st.notified ≡ none
      → Leaves w (later_error (stages w st.setup o.error).action o.error) (trigger_part e w st)
  unfolding trigger_part
  trigger_part-Leaves st h = with_action-Leaves st _ h

  leave_setup-Leaves :
      (st : RunState) (x : Text)
      → st.notified ≡ none
      → ((leave_setup w st x).returned ≡ some (some x))
        × (notifications (leave_setup w st x).state
            ≡ (if text_eq w.cleanup_on clean_up_always then 1 else 0))
  unfolding leave_setup
  leave_setup-Leaves st x h = let one = do_cleanup_notifies w st in ground arith

module _ (e : Engine) (w : RunWorld) (s : SetupState) where
  pub setup_failed :
      {x : Text}
      → w.setup.config_error ≡ none
      → (do_setup_according_e2e w.setup s).1 ≡ some x
      → run_whole e w s ≡ leave_setup w (begun (do_setup_according_e2e w.setup s).0) x
  unfolding run_whole
  setup_failed h k = ground arith

  pub setup_done :
      w.setup.config_error ≡ none
      → (do_setup_according_e2e w.setup s).1 ≡ none
      → run_whole e w s ≡ trigger_part e w (begun (do_setup_according_e2e w.setup s).0)
  unfolding run_whole
  setup_done h k = ground arith

  pub not_loaded :
      {x : Text}
      → w.setup.config_error ≡ some x
      → run_whole e w s ≡ record { state = begun s; returned = some (some x) }
  unfolding run_whole
  not_loaded h = ground arith

-- A finished run returns as its stages do, and cleans up as often.
abbrev pub Refines : Stages → Finished → Type 0
Refines t f =
    (f.returned ≡ (run_according_e2e t).returned)
    × (notifications f.state ≡ cleanups (run_according_e2e t).events)

module _ (t : Stages) (f : Finished) where
  unloaded_case :
      {x : Text}
      → t.config_error ≡ some x
      → f.returned ≡ some (some x)
      → notifications f.state ≡ 0
      → Refines t f
  unloaded_case h k l =
      let r = run_according_e2e_returns t in
      (k ∙ sym (r ∙ (rw h refl)), l ∙ sym (cleanups_unloaded t h))

  -- A run that returns cleans up where it is asked for.
  returned_case :
      {error : Option Text}
      → t.config_error ≡ none
      → f.returned ≡ some error
      → some error ≡ first_error t.config_error t.setup_error t.action t.verify_error
      → notifications f.state ≡ (if asked t.cleanup_on t.setup_error error then 1 else 0)
      → Refines t f
  returned_case {error} h k l n =
      let same = l ∙ sym (run_according_e2e_returns t) in
      (k ∙ same, n ∙ sym (cleanups-run_according_e2e t {error = error} h (sym same)))

  waiting_case :
      f.returned ≡ none
      → none ≡ first_error t.config_error t.setup_error t.action t.verify_error
      → notifications f.state ≡ 0
      → Refines t f
  waiting_case k l n =
      let same = l ∙ sym (run_according_e2e_returns t) in
      (k ∙ same, n ∙ sym (cleanups_waiting t (sym same)))

module _ (e : Engine) (w : RunWorld) (s : SetupState) {o : Outcome}
    (ended : do_verify_according_config e w.settings w.parse_duration w.flags none w.verify w.world
        w.schedule
      ≡ some o) where
  unloaded-Refines :
      {x : Text} → w.setup.config_error ≡ some x → Refines (stages w s o.error) (run_whole e w s)
  unloaded-Refines c =
      let same = not_loaded e w s c in
      unloaded_case (stages w s o.error) (run_whole e w s) c
        (ap (λ (f : Finished). f.returned) same) (ap (λ (f : Finished). notifications f.state) same)

  failed-Refines :
      {x : Text}
      → w.setup.config_error ≡ none
      → (do_setup_according_e2e w.setup s).1 ≡ some x
      → Refines (stages w s o.error) (run_whole e w s)
  failed-Refines {x} c d =
      let same = setup_failed e w s c d in
      let (a, b) =
        leave_setup-Leaves e w ended (begun (do_setup_according_e2e w.setup s).0) x refl in
      returned_case (stages w s o.error) (run_whole e w s) c
        (ap (λ (f : Finished). f.returned) same ∙ a) (sym (first_error_of_setup _ o.error c d))
        (ap (λ (f : Finished). notifications f.state) same ∙ b ∙ asked_failed w (some x) d)

  done-Refines :
      w.setup.config_error ≡ none
      → (do_setup_according_e2e w.setup s).1 ≡ none
      → Refines (stages w s o.error) (run_whole e w s)
  done-Refines c d =
      let same = setup_done e w s c d in
      let (a, b) =
        trigger_part-Leaves e w ended (begun (do_setup_according_e2e w.setup s).0) refl in
      let t = stages w s o.error in
      let returned = ap (λ (f : Finished). f.returned) same ∙ a in
      let notified = ap (λ (f : Finished). notifications f.state) same ∙ b in
      let first = first_error_later t.action o.error c d in
      elim (Option-cases (later_error t.action o.error)) [
        | inl waits_on ↦
            waiting_case t (run_whole e w s) (returned ∙ waits_on) (sym (first ∙ waits_on))
              (notified ∙ ap (cleanup_count w) waits_on)
        | inr (error, found) ↦
            returned_case t (run_whole e w s) c (returned ∙ found) (sym (first ∙ found))
              (notified ∙ ap (cleanup_count w) found ∙ asked_done w error d)
      ]

  -- Where the verification ends, the run command with its parts refines the order of its stages:
  -- it returns what they return, or waits for ever as they do, and it notifies the forwarders, as
  -- each cleanup does, as often as they clean up.
  pub run_whole-Refines : Refines (stages w s o.error) (run_whole e w s)
  run_whole-Refines = elim (Option-cases w.setup.config_error) [
    | inr (x, c) ↦ unloaded-Refines c
    | inl c ↦ elim (Option-cases (do_setup_according_e2e w.setup s).1) [
      | inr (x, d) ↦ failed-Refines c d
      | inl d ↦ done-Refines c d
    ]
  ]
