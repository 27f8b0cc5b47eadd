-- ===== src/Tests/WholeRuns.antt =====
-- The run command with its parts at concrete inputs.
use skywalking_infra_e2e.Base.{
  ◌^◌, ◌≡◌, refl, ap, ◌↔◌, false, Option, none, some, [], codes, text_eq, pos,
}
use skywalking_infra_e2e.Config.{Trigger}
use skywalking_infra_e2e.SetupCommand.{SetupState}
use skywalking_infra_e2e.Verify.Command.{do_verify_according_config}
use skywalking_infra_e2e.Run.Whole.{RunWorld, run_whole}
use skywalking_infra_e2e.Run.Whole.EndToEnd.{Environments, in_environments}
use skywalking_infra_e2e.Tests.Data.{
  plain, settings, worlds, two_cases, configuration, one_second, flags, outcome_of,
}
use skywalking_infra_e2e.Tests.ComposeRuns.{calm_run}
use skywalking_infra_e2e.Tests.PartRuns.{answers}
use skywalking_infra_e2e.Kind.{check_kube_config}
use skywalking_infra_e2e.Paths.{join_path, clean, dir}
use skywalking_infra_e2e.Kind.Whole.Done.{KindDone}
use skywalking_infra_e2e.Verify.Serial.{
  Outcome, verify_cases_serially, serial_cases, serial_case, conclude,
}
use skywalking_infra_e2e.Output.{print_result}
use skywalking_infra_e2e.Run.Cleanup.{asked}
use skywalking_infra_e2e.Verify.Spec.{AllVerified}
use skywalking_infra_e2e.Verify.{verify_single_case, parse_interval, clamp_retries}
use skywalking_infra_e2e.Verifier.{verify}
use skywalking_infra_e2e.Config.{get_expected, get_actual}
use skywalking_infra_e2e.Paths.{resolve_abs, resolve_abs_with_base, abs_path}
use skywalking_infra_e2e.Verify.Command.{
  verify_info, verify_by_mode, new_printer, do_verify_according_config_iff,
}
use skywalking_infra_e2e.SetupCommand.{do_setup_according_e2e, init_log_follower}
use skywalking_infra_e2e.Trigger.{create_trigger_action, new_http_action, run, step, execute}
use skywalking_infra_e2e.Run.Whole.Refines.{Refines, stages, run_whole-Refines}
use skywalking_infra_e2e.Run.Whole.Succeeds.{Triggered, run_whole_succeeds}
use skywalking_infra_e2e.Run.Whole.Released.{IsReleased, cleanup_error}
use skywalking_infra_e2e.Run.Whole.Fresh.{run_whole-IsReleased}
use skywalking_infra_e2e.Run.Whole.EndToEnd.{run_whole-KindDone}
use skywalking_infra_e2e.Tests.SetupRuns.{kind_file, third}
use skywalking_infra_e2e.Tests.LogRuns.{kind_world}
use skywalking_infra_e2e.Tests.VerifyRuns.{one_second_read}
use skywalking_infra_e2e.Tests.KindParts.{
  quick_steps, both_steps, kind_parts, kind_yaml, kind_parts_run,
}

abbrev get_url : Trigger
get_url = record {
  action = codes "http";
  interval = codes "1s";
  times = pos 3;
  url = codes "u";
  method = codes "GET";
  body = [];
  headers = [];
}

abbrev pub start : SetupState
start = record { log_follower = none; forward = none }

-- The parts of a run whose strategy is to clean up always.
abbrev pub whole_run : RunWorld
whole_run = record {
  setup = kind_world;
  cleanup_on = codes "always";
  trigger = get_url;
  parse_duration = one_second;
  show_duration = λ d. [];
  expand_env = λ t. t;
  until_sent = answers;
  while_verifying = [];
  behind_stop = answers;
  settings = settings;
  flags = flags false;
  verify = configuration false two_cases;
  world = worlds;
  schedule = [];
  kubeconfig = [];
  compose_path = [];
  kind_config = kind_file;
  kind_run = third;
  compose_down = none;
}

abbrev pub environments : Environments
environments = record {
  kind = kind_parts;
  steps = quick_steps;
  settings = settings;
  compose = calm_run;
}

abbrev pub kind_run : RunWorld
kind_run = in_environments environments kind_yaml whole_run

abbrev pub verified : Option Outcome
verified =
    do_verify_according_config plain settings one_second (flags false) none
      (configuration false two_cases) worlds []

pub verified_run : verified ≡ some (outcome_of verified)
unfolding do_verify_according_config verify_by_mode parse_interval verify_info new_printer
    clamp_retries verify_cases_serially
verified_run = refl

pub all_good : (outcome_of verified).error ≡ none
unfolding do_verify_according_config verify_by_mode parse_interval verify_info new_printer
    clamp_retries verify_cases_serially serial_cases serial_case verify_single_case verify
    get_expected get_actual resolve_abs text_eq resolve_abs_with_base abs_path join_path dir clean
    conclude print_result
all_good = refl

pub set_up : (do_setup_according_e2e kind_run.setup start).1 ≡ none
unfolding do_setup_according_e2e init_log_follower text_eq
set_up = kind_parts_run

pub triggered : Triggered kind_run
unfolding create_trigger_action new_http_action text_eq run step execute
triggered = refl

returns_nil : ((run_whole plain kind_run start).returned ≡ some none) ↔ (
    (kind_run.setup.config_error ≡ none)
    × ((do_setup_according_e2e kind_run.setup start).1 ≡ none)
    × Triggered kind_run
    × AllVerified plain settings
        (verify_info (configuration false two_cases) (pos (10 ^ 9)))
        worlds
        0
        two_cases)
returns_nil = run_whole_succeeds plain kind_run start refl one_second_read verified_run

succeeded : (run_whole plain kind_run start).returned ≡ some none
succeeded = returns_nil.1 (
  refl,
  set_up,
  triggered,
  (do_verify_according_config_iff plain settings one_second (flags false)
        (configuration false two_cases) worlds [] refl one_second_read verified_run).0
      all_good,
)

run_whole-KindDone_example :
    KindDone kind_parts kind_yaml none both_steps
    × Triggered whole_run
    × AllVerified plain settings
        (verify_info (configuration false two_cases) (pos (10 ^ 9)))
        worlds
        0
        two_cases
unfolding check_kube_config
run_whole-KindDone_example =
    run_whole-KindDone plain environments kind_yaml whole_run start refl one_second_read
      verified_run refl succeeded refl refl (refl, refl, refl)

run_whole-Refines_example :
    Refines (stages kind_run start (outcome_of verified).error) (run_whole plain kind_run start)
run_whole-Refines_example = run_whole-Refines plain kind_run start verified_run

run_whole-IsReleased_example :
    IsReleased kind_run (run_whole plain kind_run start).state
    × ((run_whole plain kind_run start).state.cleaned ≡ some (cleanup_error kind_run))
unfolding text_eq
run_whole-IsReleased_example =
    run_whole-IsReleased plain environments kind_yaml whole_run start refl refl succeeded
      (ap (λ z. asked (codes "always") z none) set_up)
