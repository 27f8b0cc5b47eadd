-- ===== src/Run/Whole/Released.antt =====
-- What `doCleanup` leaves behind.
use mathlib.Core.Path.{subst}
use skywalking_infra_e2e.Base.{
  ℕ, Bool, [], ◌++◌, ◌≡◌, refl, sym, ap, ◌∙◌, ◌⊎◌, inl, inr, true, false, Option, none, some, List,
  ◌∷◌, map, arith, Option-cases, Text, Result, ok, err,
}
use skywalking_infra_e2e.Verifier.{Engine}
use skywalking_infra_e2e.Verify.Command.{do_verify_according_config}
use skywalking_infra_e2e.Kind.Forward.{ForwardContext, Notified, returned, panicked, waits}
use skywalking_infra_e2e.SetupCommand.{
  SetupState, IsQuiet, do_setup_according_e2e, do_stop_setup, stop_forward, close_log_follower,
  close_log_follower-IsQuiet, stop_forward-IsQuiet,
}
use skywalking_infra_e2e.Teardown.{do_cleanup_according_e2e}
use skywalking_infra_e2e.Trigger.{
  HttpAction, Response, Worker, Event, tick, stop, step, run, started,
}
use skywalking_infra_e2e.Trigger.Command.{stopped_at}
use skywalking_infra_e2e.Run.Cleanup.{asked}
use skywalking_infra_e2e.Run.Whole.{
  RunWorld, RunState, Finished, begun, ticked, stop_action, taken_later, clean_environment,
  do_cleanup, should_cleanup, leave, leave_setup, verify_part, await_action, with_action,
  trigger_part, run_whole,
}
use skywalking_infra_e2e.Run.Whole.Refines.{setup_failed, setup_done}

-- The error of the cleanup.
abbrev pub cleanup_error : RunWorld → Option Text
cleanup_error w =
    do_cleanup_according_e2e w.setup.env w.kubeconfig w.compose_path w.kind_config w.kind_run
      w.compose_down

-- Over the events the goroutine ends, and has executed what it executes over those before.
abbrev pub EndsBehind : ℕ → Worker → List Event → List Event → Type 0
EndsBehind times k before events =
    ((run times k events).running ≡ false)
    × ((run times k events).executed_count ≡ (run times k before).executed_count)

run-append :
    (times : ℕ) (k : Worker) (es fs : List Event)
    → run times k (es ++ fs) ≡ run times (run times k es) fs
unfolding run
run-append times k [] fs = refl
run-append times k (e ∷ es) fs = run-append times (step times k e) es fs

-- The goroutine of the action runs no more once it has taken its stop, whatever ticks it takes before
-- and could take behind it, and asks for nothing behind it; the log follower and the forwarders are
-- closed; and the environment was cleaned up, unless the channel of the forwarders was closed before.
pub record IsReleased (w : RunWorld) (st : RunState) : Type 0 where
  pub quiet : IsQuiet st.setup
  pub forwards : (c : ForwardContext) → st.setup.forward ≡ some c → c.stopped ≡ true
  pub action :
      (a : HttpAction) (k : Worker) (before behind : List Response)
      → st.action ≡ some (a, k)
      → EndsBehind a.times k (map tick before) (taken_later st.stopping before behind)
  pub cleaned : (st.notified ≡ some panicked) ⊎ (st.cleaned ≡ some (cleanup_error w))

stop_forward_stops :
    (s : SetupState) (c : ForwardContext) → (stop_forward s).forward ≡ some c → c.stopped ≡ true
unfolding stop_forward
stop_forward_stops s c h = ground arith

stop_action_stopping :
    (st : RunState) (a : HttpAction) (k : Worker)
    → (stop_action st).action ≡ some (a, k)
    → (stop_action st).stopping ≡ true
unfolding stop_action
stop_action_stopping st a k h = ground arith

taken_later_ends :
    (times : ℕ) (k : Worker) (stopping : Bool) (before behind : List Response)
    → stopping ≡ true
    → EndsBehind times k (map tick before) (taken_later stopping before behind)
unfolding taken_later
taken_later_ends times k false before behind h = cc
taken_later_ends times k true before behind h =
    subst
      (λ (v : Worker).
        (v.running ≡ false) × (v.executed_count ≡ (run times k (map tick before)).executed_count))
      (sym (run-append times k (map tick before) (stop ∷ map tick behind)))
      (stopped_at times (run times k (map tick before)) (map tick behind))

module _ (w : RunWorld) where
  clean_environment_lem :
      (n : Notified) (st : RunState)
      → ((clean_environment w n st).setup ≡ st.setup)
        × ((clean_environment w n st).action ≡ st.action)
        × ((clean_environment w n st).stopping ≡ st.stopping)
        × (((clean_environment w n st).notified ≡ some panicked)
            ⊎ ((clean_environment w n st).cleaned ≡ some (cleanup_error w)))
  unfolding clean_environment
  clean_environment_lem returned st = (refl, refl, refl, inr refl)
  clean_environment_lem panicked st = (refl, refl, refl, inl refl)
  clean_environment_lem (waits n) st = (refl, refl, refl, inr refl)

  pub do_cleanup-IsReleased : (st : RunState) → IsReleased w (do_cleanup w st)
  unfolding do_cleanup do_stop_setup
  do_cleanup-IsReleased st =
      let stopped = stop_action st in
      let (s, n) = do_stop_setup stopped.setup in
      let (same, kept, sent, cleaned) = clean_environment_lem n (record stopped { setup = s }) in
      let closed = close_log_follower stopped.setup in
      record {
        quiet =
            subst IsQuiet (sym same)
              (stop_forward-IsQuiet closed (close_log_follower-IsQuiet stopped.setup));
        forwards =
            λ c h. stop_forward_stops closed c (ap (λ (t : SetupState). t.forward) (sym same) ∙ h);
        action = λ a k before behind h.
            taken_later_ends a.times k _ before behind
              (sent ∙ stop_action_stopping st a k (sym kept ∙ h));
        cleaned = cleaned;
      }

  -- A run that returns with an error or nil, for which a cleanup is asked, has cleaned up last, with
  -- the variables of the setup as they were behind it.
  abbrev Cleans : SetupState → Finished → Type 0
  Cleans s f =
      (error : Option Text)
      → f.returned ≡ some error
      → should_cleanup w error ≡ true
      → (st : RunState) × (f.state ≡ do_cleanup w st) × (st.setup ≡ s)

  leave-Cleans : (st : RunState) (error : Option Text) → Cleans st.setup (leave w st error)
  unfolding leave
  leave-Cleans st error error' h k = (st, ground arith, refl)

  ticked_keeps : (rs : List Response) (st : RunState) → (ticked rs st).setup ≡ st.setup
  unfolding ticked
  ticked_keeps rs st = ground arith

module _ (e : Engine) (w : RunWorld) where
  verify_part-Cleans : (st : RunState) → Cleans w st.setup (verify_part e w st)
  unfolding verify_part
  verify_part-Cleans st =
      elim (Option-cases (
        do_verify_according_config e w.settings w.parse_duration w.flags none w.verify w.world
          w.schedule)) [
            | inl d ↦ λ error h k. absurd (ground arith)
            | inr (o, d) ↦
                let same : verify_part e w st ≡ leave w (ticked w.while_verifying st) o.error =
                  ground arith in
                subst (λ t. Cleans w t (verify_part e w st)) (ticked_keeps w w.while_verifying st)
                  (subst (Cleans w (ticked w.while_verifying st).setup) (sym same)
                    (leave-Cleans w (ticked w.while_verifying st) o.error))
          ]

  await_action-Cleans : (st : RunState) (a : HttpAction) → Cleans w st.setup (await_action e w st a)
  unfolding await_action
  await_action-Cleans st a =
      let k = run a.times started (map tick w.until_sent) in
      let st' : RunState = record st { action = some (a, k) } in
      elim (Option-cases k.sent) [
        | inl c ↦ λ error h l. absurd (ground arith)
        | inr (sent, c) ↦ elim (Option-cases sent) [
          | inl d ↦
              let same : await_action e w st a ≡ verify_part e w st' = ground arith in
              subst (Cleans w st.setup) (sym same) (verify_part-Cleans st')
          | inr (x, d) ↦
              let same : await_action e w st a ≡ leave w st' (some x) = ground arith in
              subst (Cleans w st.setup) (sym same) (leave-Cleans w st' (some x))
        ]
      ]

  with_action-Cleans :
      (st : RunState) (created : Result (Option HttpAction))
      → Cleans w st.setup (with_action e w st created)
  unfolding with_action
  with_action-Cleans st (err x) = leave-Cleans w st (some x)
  with_action-Cleans st (ok none) = verify_part-Cleans st
  with_action-Cleans st (ok (some a)) = await_action-Cleans st a

  -- The same for a run of which only the end of the setup is known.
  pub run_whole-Cleans :
      (s : SetupState) {error : Option Text}
      → w.setup.config_error ≡ none
      → (run_whole e w s).returned ≡ some error
      → asked w.cleanup_on (do_setup_according_e2e w.setup s).1 error ≡ true
      → (st : RunState) × ((run_whole e w s).state ≡ do_cleanup w st)
        × (st.setup ≡ (do_setup_according_e2e w.setup s).0)
  unfolding trigger_part should_cleanup leave_setup
  run_whole-Cleans s {error} c h k =
      let first = begun (do_setup_according_e2e w.setup s).0 in
      elim (Option-cases (do_setup_according_e2e w.setup s).1) [
        | inr (x, d) ↦
            let same = setup_failed e w s c d in
            let due = sym (ap (λ y. asked w.cleanup_on y error) d) ∙ k in
            (first, ap (λ (f : Finished). f.state) same ∙ rw due refl, refl)
        | inl d ↦
            let due = sym (ap (λ y. asked w.cleanup_on y error) d) ∙ k in
            let same = setup_done e w s c d in
            let (st, last, kept) =
              with_action-Cleans first _ error (ap (λ (f : Finished). f.returned) (sym same) ∙ h)
                due in
            (st, ap (λ (f : Finished). f.state) same ∙ last, kept)
      ]
