-- ===== src/Steps/Parts.antt =====
-- The steps with commands as `RunStepsAndWait` calls them: the goroutine of each, and where the
-- select goes (internal/components/setup/common.go).
use skywalking_infra_e2e.Base.{
  ℕ, ◌≡◌, ◌⊎◌, Bool, true, false, Option, none, List, [], ◌∷◌, arith, ltb, length, All, Text,
  is_empty, ℤ,
}
use skywalking_infra_e2e.Config.{Step, Wait}
use skywalking_infra_e2e.Steps.{Select, StepWorld, step_error, run_commands_and_wait}
use skywalking_infra_e2e.Steps.Commands.{CommandWorld, Sent, execute_commands_and_wait, IsMet}
use skywalking_infra_e2e.Steps.Checked.{Takes, OneUnread, run_commands_and_wait_checked}

-- By the number of the step: what its commands meet, where its select goes among what the goroutine
-- allows, and the time that it takes; and how a timeout and a step print.
pub record StepParts : Type 0 where
  pub command : ℕ → CommandWorld
  pub choose : ℕ → (s : Sent) → (t : Select) × Takes s t
  pub elapsed : ℕ → ℤ
  pub seconds : ℤ → Text
  pub show_step : Step → Text

module _ (has_cluster : Bool) (p : StepParts) where
  -- What the commands of the i-th step meet in a setup with or without a cluster.
  abbrev pub commands_of : ℕ → CommandWorld
  commands_of i = record (p.command i) { has_cluster = has_cluster }

  -- The call of `RunCommandsAndWait` for the i-th step.
  unfoldable pub command_step : ℕ → Text → List Wait → ℤ → Option Text
  command_step i command waits timeout =
      run_commands_and_wait command (p.seconds timeout)
        (p.choose i (execute_commands_and_wait (commands_of i) command waits)).0

  -- The steps, by how those with manifests are run.
  abbrev pub step_world : (ℕ → Text → List Wait → ℤ → Option Text) → ℕ → StepWorld
  step_world create i = record {
    create_manifest = create i;
    run_commands = command_step i;
    elapsed = p.elapsed i;
    show_step = p.show_step;
  }

  -- The commands succeeded and every wait is met, or the one error of the step was not read.
  abbrev pub Executed : ℕ → Step → Type 0
  Executed i s =
      (((commands_of i).execute s.command ≡ none) × All (IsMet (commands_of i)) s.waits)
      ⊎ OneUnread (execute_commands_and_wait (commands_of i) s.command s.waits)

  not_short : (command : Text) → is_empty command ≡ false → ltb (length command) 1 ≡ false
  not_short [] h = cc
  not_short (c ∷ command) h = ground arith

  pub executed :
      (i : ℕ) (s : Step) (timeout : ℤ)
      → is_empty s.command ≡ false
      → command_step i s.command s.waits timeout ≡ none
      → Executed i s
  unfolding command_step
  executed i s timeout given h =
      let sent = execute_commands_and_wait (commands_of i) s.command s.waits in
      run_commands_and_wait_checked (commands_of i) s.command (p.seconds timeout) s.waits
        (p.choose i sent).0 (not_short s.command given) (p.choose i sent).1 h

-- A step that returns no error has either a path, with a cluster, or a command.
pub step_cases :
    (has_cluster : Bool) (w : StepWorld) (s : Step) (timeout : ℤ)
    → step_error has_cluster w s timeout ≡ none
    → ((is_empty s.command ≡ true)
        × (is_empty s.path ≡ false)
        × (has_cluster ≡ true)
        × (w.create_manifest s.path s.waits timeout ≡ none))
      ⊎ ((is_empty s.path ≡ true)
          × (is_empty s.command ≡ false)
          × (w.run_commands s.command s.waits timeout ≡ none))
unfolding step_error
step_cases has_cluster w s timeout h = ground arith
