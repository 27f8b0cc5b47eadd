-- ===== src/Cli.antt =====
-- The program (cmd/e2e/main.go and `Execute`, commands/root.go): what runs before each command, the
-- commands' own functions (`RunE`), and the exit status.
pub mod Status
use skywalking_infra_e2e.Base.{
  ℕ, not, Option, none, some, ◌++◌, if◌then◌else◌, is_some, Text, codes, is_empty,
}
use skywalking_infra_e2e.Verifier.{Engine}
use skywalking_infra_e2e.Verify.{World, verify_single_case}
use skywalking_infra_e2e.Verify.Serial.{Outcome}
use skywalking_infra_e2e.Verify.Command.{do_verify_according_config}
use skywalking_infra_e2e.SetupCommand.{SetupState, run_setup}
use skywalking_infra_e2e.Teardown.{do_cleanup_according_e2e}
use skywalking_infra_e2e.Trigger.{create_trigger_action}
use skywalking_infra_e2e.Trigger.Command.{returned, trigger_command}
use skywalking_infra_e2e.Root.{RootWorld, RootState, persistent_pre_run}
use skywalking_infra_e2e.Run.Whole.{RunWorld, run_whole}

-- The commands that `Execute` adds to the root command.
pub data Command : Type 0 where
  run setup trigger verify cleanup : Command

-- What the process is given: the root command's world and variables, the parts, the flags of the
-- verify command, and the outside of its single case.
pub record CliWorld : Type 0 where
  pub root : RootWorld
  pub root_state : RootState
  pub parts : RunWorld
  pub start : SetupState
  pub query : Text
  pub actual : Text
  pub expected : Text
  pub case_world : World

-- `RunE` of the cleanup command.
unfoldable pub run_cleanup : RunWorld → Option Text
run_cleanup w =
    elim (do_cleanup_according_e2e w.setup.env w.kubeconfig w.compose_path w.kind_config w.kind_run
      w.compose_down) [ some x ↦ some (codes "[Cleanup] " ++ x) | none ↦ none ]

-- The return of the trigger command.
unfoldable pub run_trigger : RunWorld → Option (Option Text)
run_trigger w = returned (
    trigger_command
      (create_trigger_action w.parse_duration w.show_duration w.expand_env w.setup.config_error
        w.trigger)
      w.until_sent w.behind_stop)

abbrev error_of : Option Outcome → Option (Option Text)
error_of none = none
error_of (some o) = some o.error

module _ (e : Engine) where
  -- `RunE` of the verify command.
  unfoldable pub run_verify : CliWorld → Option (Option Text)
  run_verify c =
      if not (is_empty c.expected)
      then some (verify_single_case e c.case_world c.expected c.actual c.query).1
      else error_of (
          do_verify_according_config e c.parts.settings c.parts.parse_duration c.parts.flags
            c.parts.setup.config_error c.parts.verify c.parts.world c.parts.schedule)

  -- The commands: `none` while one waits.
  unfoldable pub run_command : CliWorld → Command → Option (Option Text)
  run_command c run = (run_whole e c.parts c.start).returned
  run_command c setup = some (run_setup c.parts.setup c.start).error
  run_command c trigger = run_trigger c.parts
  run_command c verify = run_verify c
  run_command c cleanup = some (run_cleanup c.parts)

  -- `Execute`
  unfoldable pub run_root : CliWorld → Command → Option (Option Text)
  run_root c command = elim (persistent_pre_run c.root c.root_state).2 [
    | some x ↦ some (some x)
    | none ↦ run_command c command
  ]

  -- `main`: the exit status.
  unfoldable pub exit_status : CliWorld → Command → Option ℕ
  exit_status c command = elim (run_root c command) [
    | none ↦ none
    | some error ↦ some (if is_some error then 1 else 0)
  ]
