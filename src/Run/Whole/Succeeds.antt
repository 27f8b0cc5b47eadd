-- ===== src/Run/Whole/Succeeds.antt =====
-- When the run command with its parts returns no error.
use skywalking_infra_e2e.Base.{
  ◌≡◌, sym, ◌∙◌, ◌↔◌, ◌⊎◌, false, Option, none, some, List, map, arith, all, Text, Result, ok, err,
  ℤ,
}
use skywalking_infra_e2e.Verifier.{Engine}
use skywalking_infra_e2e.Verify.Spec.{AllVerified}
use skywalking_infra_e2e.Verify.Serial.{Outcome}
use skywalking_infra_e2e.Verify.{parse_interval}
use skywalking_infra_e2e.Verify.Command.{
  verify_info, do_verify_according_config, do_verify_according_config_iff,
}
use skywalking_infra_e2e.SetupCommand.{SetupState, do_setup_according_e2e}
use skywalking_infra_e2e.Trigger.{HttpAction, Response, create_trigger_action, tick, run, started}
use skywalking_infra_e2e.Run.{ActionOutcome, no_action, sends}
use skywalking_infra_e2e.Run.Cleanup.{first_error, run_according_e2e_returns}
use skywalking_infra_e2e.Run.Whole.{RunWorld, run_whole}
use skywalking_infra_e2e.Run.Whole.Refines.{outcome_of, stages, run_whole-Refines}

-- There is no action, or an action that sends nil.
abbrev pub SendsNil : List Response → Result (Option HttpAction) → Type 0
SendsNil rs (err x) = ⊥
SendsNil rs (ok none) = Unit
SendsNil rs (ok (some a)) = (run a.times started (map tick rs)).sent ≡ some none

abbrev pub Triggered : RunWorld → Type 0
Triggered w =
    SendsNil w.until_sent
      (create_trigger_action w.parse_duration w.show_duration w.expand_env none w.trigger)

-- The stages return no error.
first_error_iff :
    (c s : Option Text) (a : ActionOutcome) (v : Option Text)
    → (first_error c s a v ≡ some none)
      ↔ ((c ≡ none) × (s ≡ none) × ((a ≡ no_action) ⊎ (a ≡ sends none)) × (v ≡ none))
first_error_iff c s a v = ground arith

outcome_of-SendsNil :
    (rs : List Response) (c : Result (Option HttpAction))
    → ((outcome_of c rs ≡ no_action) ⊎ (outcome_of c rs ≡ sends none)) ↔ SendsNil rs c
outcome_of-SendsNil rs (err x) = ground arith
outcome_of-SendsNil rs (ok none) = ground arith
outcome_of-SendsNil rs (ok (some a)) = ground arith

-- Without summary-only, with an interval that can be read and a verification that ends, the run
-- command returns no error exactly where the configuration was loaded, the setup returns no error,
-- there is no trigger or it has sent nil, and every case is verified.
pub run_whole_succeeds :
    (e : Engine) (w : RunWorld) (s : SetupState) {interval : ℤ} {o : Outcome}
    → w.flags.summary_only ≡ false
    → parse_interval w.parse_duration w.verify.retry_strategy.interval ≡ ok interval
    → do_verify_according_config e w.settings w.parse_duration w.flags none w.verify w.world
        w.schedule
      ≡ some o
    → ((run_whole e w s).returned ≡ some none) ↔ (
        (w.setup.config_error ≡ none)
        × ((do_setup_according_e2e w.setup s).1 ≡ none)
        × Triggered w
        × AllVerified e w.settings (verify_info w.verify interval) w.world 0 w.verify.cases)
run_whole_succeeds e w s {interval} {o} full read ended =
    let t = stages w s o.error in
    let same = (run_whole-Refines e w s ended).0 ∙ run_according_e2e_returns t in
    let (parts, whole) = first_error_iff t.config_error t.setup_error t.action o.error in
    let (nil, sent) = outcome_of-SendsNil w.until_sent _ in
    let (all, verified) =
      do_verify_according_config_iff e w.settings w.parse_duration w.flags w.verify w.world
        w.schedule full read ended in
    (
      λ h. let (a, b, c, d) = parts (sym same ∙ h) in (a, b, nil c, all d),
      λ (a, b, c, d). same ∙ whole (a, b, sent c, verified d),
    )
