-- ===== src/Tests/CliRuns.antt =====
-- The program at concrete inputs: its exit status, the requests of the trigger, and the shell.
use skywalking_infra_e2e.Base.{
  ◌^◌, ◌≡◌, refl, ◌↔◌, true, false, none, some, [], ◌++◌, map, arith, Text, codes, text_eq, ok,
  split, pos,
}
use skywalking_infra_e2e.Verify.Spec.{AllVerified}
use skywalking_infra_e2e.Verify.Command.{verify_info}
use skywalking_infra_e2e.SetupCommand.{do_setup_according_e2e}
use skywalking_infra_e2e.Root.{persistent_pre_run}
use skywalking_infra_e2e.Run.Whole.Succeeds.{Triggered}
use skywalking_infra_e2e.Cli.{Command, CliWorld, exit_status}
use skywalking_infra_e2e.Cli.Status.{CaseMatches, exit_status-CaseMatches, exit_status-run}
use skywalking_infra_e2e.Trigger.{tick, run, started}
use skywalking_infra_e2e.Trigger.Request.{HttpWorld, responses, refused_request_waits}
use skywalking_infra_e2e.Environment.{Env}
use skywalking_infra_e2e.Environment.RoundTrip.{lookup}
use skywalking_infra_e2e.Environment.Shell.{
  HookEngine, ShellRun, hook_script, execute_command_in, printed, execute_command_exports,
}
use skywalking_infra_e2e.Paths.{join_path, clean}
use skywalking_infra_e2e.Tests.Data.{plain, settings, calm, worlds, two_cases, configuration}
use skywalking_infra_e2e.Tests.VerifyRuns.{one_second_read}
use skywalking_infra_e2e.Tests.PartRuns.{http_action}
use skywalking_infra_e2e.Tests.EnvRuns.{two_settings, first-IsPlain, last-IsPlain}
use skywalking_infra_e2e.Tests.WholeRuns.{kind_run, start, verified_run}

abbrev process : CliWorld
process = record {
  root = record {
    user = ok (codes "/root");
    is_not_exist = λ p. true;
    mkdir_all = λ p. none;
    parse_level = λ t. ok 4;
  };
  root_state = record {
    verbosity = codes "info";
    level = 4;
    work_dir = codes "~/.skywalking-infra-e2e";
    log_dir = codes "~/.skywalking-infra-e2e/logs";
  };
  parts = kind_run;
  start = start;
  query = codes "echo x";
  actual = [];
  expected = codes "e.yaml";
  case_world = calm;
}

exit_status-CaseMatches_example : (exit_status plain process Command.verify ≡ some 0) ↔ (
    ((persistent_pre_run process.root process.root_state).2 ≡ none)
    × CaseMatches plain calm (codes "e.yaml") [] (codes "echo x"))
exit_status-CaseMatches_example = exit_status-CaseMatches plain process refl

exit_status-run_example : (exit_status plain process Command.run ≡ some 0) ↔ (
    ((persistent_pre_run process.root process.root_state).2 ≡ none)
    × (kind_run.setup.config_error ≡ none)
    × ((do_setup_according_e2e kind_run.setup start).1 ≡ none)
    × Triggered kind_run
    × AllVerified plain settings
        (verify_info (configuration false two_cases) (pos (10 ^ 9)))
        worlds
        0
        two_cases)
exit_status-run_example = exit_status-run plain process refl one_second_read verified_run

-- http.NewRequest refuses the URL.
abbrev refusing : HttpWorld
refusing = record { new_request = λ m u b. some (codes "bad URL"); send = λ i r. ok 200 }

refused_request_waits_example :
    run http_action.times started (map tick (responses refusing http_action 0 5)) ≡ started
refused_request_waits_example = refused_request_waits refusing http_action 5 (omega arith) refl

abbrev hook : HookEngine
hook = record { Template = Text; parse = λ t. ok t; execute = λ t f. ok (t ++ f) }

-- The shell ends with two settings of a variable.
abbrev shell : Text → Env → ShellRun
shell script env = record {
  process = record { stdout = []; stderr = []; error = none };
  env_file = ok (printed two_settings);
}

made : hook_script hook (codes "printenv > ") (codes "/w") ≡ ok (codes "printenv > /w/.env")
unfolding hook_script join_path clean split text_eq
made = refl

execute_command_exports_example :
    (execute_command_in hook (codes "printenv > ") (codes "/w") shell (codes "ls") (λ k. [])).1
    ≡ lookup two_settings (λ k. [])
execute_command_exports_example =
    execute_command_exports hook (codes "printenv > ") (codes "/w") shell (codes "ls") (λ k. [])
      two_settings made refl (first-IsPlain, (last-IsPlain, tt))
