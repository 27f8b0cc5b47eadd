-- ===== src/Run/Whole/EndToEnd.antt =====
-- The run command with the setups of both environments, as they are modelled.
use skywalking_infra_e2e.Base.{◌≡◌, false, none, some, List, codes, text_eq_iff, ok, ℤ}
use skywalking_infra_e2e.Paths.{Settings}
use skywalking_infra_e2e.Config.{Step, Setup}
use skywalking_infra_e2e.Verifier.{Engine}
use skywalking_infra_e2e.Verify.Spec.{AllVerified}
use skywalking_infra_e2e.Verify.Serial.{Outcome}
use skywalking_infra_e2e.Verify.{parse_interval}
use skywalking_infra_e2e.Verify.Command.{verify_info, do_verify_according_config}
use skywalking_infra_e2e.SetupCommand.{SetupState, kind_done, compose_done}
use skywalking_infra_e2e.Steps.Parts.{StepParts}
use skywalking_infra_e2e.Kind.{check_kube_config}
use skywalking_infra_e2e.Kind.Order.{IsUndisturbed}
use skywalking_infra_e2e.Kind.Whole.{KindParts, kind_setup_parts}
use skywalking_infra_e2e.Kind.Whole.Done.{KindDone, kind_setup_parts-KindDone}
use skywalking_infra_e2e.Compose.{ComposeService, build_compose_services}
use skywalking_infra_e2e.Compose.Setup.{ComposeWorld}
use skywalking_infra_e2e.Compose.Setup.Order.{IsQuiet}
use skywalking_infra_e2e.Compose.Whole.{
  compose_setup_parts, CommandsDone, compose_setup_parts-CommandsDone,
}
use skywalking_infra_e2e.Run.Whole.{RunWorld, run_whole}
use skywalking_infra_e2e.Run.Whole.Succeeds.{Triggered, run_whole_succeeds}

-- What the setups are given, and the configuration of the setup.
pub record Environments : Type 1 where
  pub kind : KindParts
  pub steps : StepParts
  pub settings : Settings
  pub compose : ComposeWorld

-- A run whose setups are those of the environments.
abbrev pub in_environments : Environments → Setup → RunWorld → RunWorld
in_environments q s w = record w {
  setup = record (w.setup) {
    env = s.env;
    kind_setup = kind_setup_parts q.kind s;
    compose_setup = compose_setup_parts q.settings q.steps q.compose s;
  };
}

module _ (e : Engine) (q : Environments) (s : Setup) (w : RunWorld) (start : SetupState)
    {interval : ℤ} {o : Outcome} {steps : List Step} (full : w.flags.summary_only ≡ false)
    (read : parse_interval w.parse_duration w.verify.retry_strategy.interval ≡ ok interval)
    (ended : do_verify_according_config e w.settings w.parse_duration w.flags none w.verify w.world
        w.schedule
      ≡ some o)
    (given : s.steps ≡ some steps)
    (success : (run_whole e (in_environments q s w) start).returned ≡ some none) where
  -- Where the run command of an environment of kind returns no error, its setup has steps, one of
  -- the two configuration files is given, the listener writes nothing to the error that it shares
  -- with the setup, and the verification is not in summary-only, has an interval that can be read
  -- and ends: the setup is done (the cluster could be connected to; each image is local or could
  -- be pulled; each step has created its manifests and its waits have ended, or its commands
  -- succeeded and its waits are met, or it returned with exactly one error sent, which was not
  -- read; the log of each pod was exposed without an error; and the bound context counts one
  -- running forwarder for each export); there is no trigger or it has sent nil; and every case is
  -- verified.
  pub run_whole-KindDone :
      s.env ≡ codes "kind"
      → check_kube_config q.kind.outside.kind_config_path q.kind.outside.kube_config_path ≡ none
      → IsUndisturbed q.kind.outside
      → KindDone q.kind s start.forward steps
        × Triggered w
        × AllVerified e w.settings (verify_info w.verify interval) w.world 0 w.verify.cases
  run_whole-KindDone is_kind one quiet =
      let w' = in_environments q s w in
      let (a, b, c, d) = (run_whole_succeeds e w' start full read ended).0 success in
      let done = kind_done w'.setup start ((text_eq_iff s.env (codes "kind")).1 is_kind) b in
      (kind_setup_parts-KindDone q.kind s start.forward given one quiet done.1, c, d)

  -- The same for an environment of compose, whose services can be built, where the listener finds no
  -- start of a container of a service between a call and the test of its error.
  pub run_whole-CommandsDone :
      (services : List ComposeService)
      → s.env ≡ codes "compose"
      → build_compose_services q.compose.services ≡ ok services
      → IsQuiet q.settings q.compose services
      → CommandsDone q.steps 0 steps
        × Triggered w
        × AllVerified e w.settings (verify_info w.verify interval) w.world 0 w.verify.cases
  run_whole-CommandsDone services is_compose built quiet =
      let w' = in_environments q s w in
      let (a, b, c, d) = (run_whole_succeeds e w' start full read ended).0 success in
      let done = compose_done w'.setup start is_compose b in
      let (i, j, k) =
        compose_setup_parts-CommandsDone q.settings q.steps q.compose s services given built quiet
          done in
      (k, c, d)
