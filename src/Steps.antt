-- ===== src/Steps.antt =====
-- The steps of a setup (`RunStepsAndWait`, internal/components/setup/common.go). How a step ends
-- and how long it takes is an argument, by the number of the step.
pub mod Budget
pub mod Commands
pub mod Checked
pub mod WaitSet
pub mod Parts
use skywalking_infra_e2e.Base.{
  ℕ, ◌+◌, Bool, not, ◌&&◌, Option, none, some, List, [], ◌∷◌, ◌++◌, ltb, if◌then◌else◌, length,
  is_nil, Text, codes, is_empty, ℤ, is_nonpos, ◌-ℤ◌,
}
use skywalking_infra_e2e.Config.{Step, Wait}

-- `create_manifest` and `run_commands` take what the two calls take, and give their error;
-- `show_step` is what `%+v` prints.
pub record StepWorld : Type 0 where
  pub create_manifest : Text → List Wait → ℤ → Option Text
  pub run_commands : Text → List Wait → ℤ → Option Text
  pub elapsed : ℤ
  pub show_step : Step → Text

unfoldable pub step_error : Bool → StepWorld → Step → ℤ → Option Text
step_error has_cluster w s timeout =
    if not (is_empty s.path) && is_empty s.command
    then (if not has_cluster
        then some (codes "not support path")
        else w.create_manifest s.path s.waits timeout)
    else if not (is_empty s.command) && is_empty s.path
    then w.run_commands s.command s.waits timeout
    else some (
        codes "step parameter error, one Path or one Command should be specified, but got "
        ++ w.show_step s)

-- `NewTimeout`
unfoldable pub new_timeout : ℤ → ℤ → ℤ
new_timeout timeout elapsed = timeout -ℤ elapsed

-- `RunStepsAndWait` from the step number i on.
unfoldable pub run_steps_and_wait : Bool → (ℕ → StepWorld) → ℕ → List Step → ℤ → Option Text
run_steps_and_wait has_cluster w i [] timeout = none
run_steps_and_wait has_cluster w i (s ∷ steps) timeout =
    let left = new_timeout timeout (w i).elapsed in
    let rest = run_steps_and_wait has_cluster w (i + 1) steps left in
    elim (step_error has_cluster (w i) s timeout) [
      | some x ↦ some x
      | none ↦ if is_nonpos left then some (codes "setup timeout") else rest
    ]

-- How the `select` of `RunCommandsAndWait` and `createManifestAndWait` ends.
pub data Select : Type 0 where
  finished timed_out : Select
  errored : Text → Select

unfoldable pub select_error : Text → Text → Select → Option Text
select_error what seconds finished = none
select_error what seconds (errored x) = some x
select_error what seconds timed_out =
    some (codes "wait for " ++ (what ++ (codes " timeout after " ++ (seconds ++ codes " seconds"))))

-- `RunCommandsAndWait`
unfoldable pub run_commands_and_wait : Text → Text → Select → Option Text
run_commands_and_wait command seconds s =
    if ltb (length command) 1 then none else select_error (codes "commands run") seconds s

-- The options of the waits, up to the first that cannot be made.
unfoldable pub options_error : (Wait → Option Text) → List Wait → Option Text
options_error options [] = none
options_error options (w ∷ ws) =
    let rest = options_error options ws in elim (options w) [ some x ↦ some x | none ↦ rest ]

-- `createManifestAndWait`, with the error of `createByManifest`.
unfoldable pub create_manifest_and_wait :
    Option Text → (Wait → Option Text) → List Wait → Text → Select → Option Text
unfolding select_error
create_manifest_and_wait created options waits seconds s = elim created [
  | some x ↦ some x
  | none ↦ if is_nil waits then none else elim (options_error options waits) [
    | some x ↦ some x
    | none ↦ select_error (codes "manifest ready") seconds s
  ]
]
