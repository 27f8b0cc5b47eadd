-- ===== src/Steps/Budget.antt =====
-- What the steps of `RunStepsAndWait` are, and the time that they take.
use skywalking_infra_e2e.Base.{
  ℕ, ◌+◌, ◌≡◌, Bool, true, false, not, none, List, [], ◌∷◌, arith, is_empty, ℤ, is_nonpos,
}
use skywalking_infra_e2e.Config.{Step}
use skywalking_infra_e2e.Steps.{StepWorld, step_error, new_timeout, run_steps_and_wait}

-- A step has either a path or a command, a path only with a cluster, and time is left behind it.
pub record StepDone (has_cluster : Bool) (w : StepWorld) (s : Step) (timeout : ℤ) : Type 0 where
  pub one_of : not (is_empty s.path) ≡ is_empty s.command
  pub path_in_cluster : is_empty s.path ≡ false → has_cluster ≡ true
  pub in_time : is_nonpos (new_timeout timeout w.elapsed) ≡ false

abbrev pub StepsDone : Bool → (ℕ → StepWorld) → ℕ → List Step → ℤ → Type 0
StepsDone has_cluster w i [] timeout = Unit
StepsDone has_cluster w i (s ∷ steps) timeout =
    StepDone has_cluster (w i) s timeout
    × StepsDone has_cluster w (i + 1) steps (new_timeout timeout (w i).elapsed)

step-StepDone :
    (has_cluster : Bool) (w : StepWorld) (s : Step) (timeout : ℤ)
    → step_error has_cluster w s timeout ≡ none
    → is_nonpos (new_timeout timeout w.elapsed) ≡ false
    → StepDone has_cluster w s timeout
unfolding step_error
step-StepDone has_cluster w s timeout h k = record {
  one_of = ground arith;
  path_in_cluster = ground arith;
  in_time = k;
}

pub step_cons :
    (has_cluster : Bool) (w : ℕ → StepWorld) (i : ℕ) (s : Step) (steps : List Step) (timeout : ℤ)
    → run_steps_and_wait has_cluster w i (s ∷ steps) timeout ≡ none
    → (step_error has_cluster (w i) s timeout ≡ none)
      × (is_nonpos (new_timeout timeout (w i).elapsed) ≡ false)
      × (run_steps_and_wait has_cluster w (i + 1) steps (new_timeout timeout (w i).elapsed) ≡ none)
unfolding run_steps_and_wait
step_cons has_cluster w i s steps timeout h = ground arith

-- Where the steps return no error, each of them has either a path or a command, one with a path
-- was run in a cluster, and the timeout less the time of the steps so far was positive behind
-- every step.
pub run_steps_and_wait-StepsDone :
    (has_cluster : Bool) (w : ℕ → StepWorld) (i : ℕ) (steps : List Step) (timeout : ℤ)
    → run_steps_and_wait has_cluster w i steps timeout ≡ none
    → StepsDone has_cluster w i steps timeout
run_steps_and_wait-StepsDone has_cluster w i [] timeout h = tt
run_steps_and_wait-StepsDone has_cluster w i (s ∷ steps) timeout h =
    let (good, left, rest) = step_cons has_cluster w i s steps timeout h in
    (
      step-StepDone has_cluster (w i) s timeout good left,
      run_steps_and_wait-StepsDone has_cluster w (i + 1) steps (new_timeout timeout (w i).elapsed)
          rest,
    )
