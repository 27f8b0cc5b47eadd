-- ===== src/Compose/Whole.antt =====
-- The setup with compose with its steps (`ComposeSetup`, internal/components/setup/compose.go, calls
-- `RunStepsAndWait` without a cluster).
use skywalking_infra_e2e.Base.{
  ℕ, ◌+◌, ◌≡◌, refl, ◌⊎◌, inl, inr, true, false, Option, none, some, List, [], ◌∷◌, arith, All,
  Text, is_empty, ok, ℤ,
}
use skywalking_infra_e2e.Paths.{Settings}
use skywalking_infra_e2e.Config.{Step, Wait, Setup}
use skywalking_infra_e2e.Steps.{step_error, new_timeout, run_steps_and_wait}
use skywalking_infra_e2e.Steps.Budget.{step_cons}
use skywalking_infra_e2e.Steps.Commands.{IsMet, lacks_cluster, options, execute_commands_and_wait}
use skywalking_infra_e2e.Steps.Checked.{OneUnread}
use skywalking_infra_e2e.Steps.Parts.{StepParts, commands_of, step_world, executed, step_cases}
use skywalking_infra_e2e.Kind.{get_wait_options}
use skywalking_infra_e2e.Compose.{ComposeService, build_compose_services}
use skywalking_infra_e2e.Compose.Setup.{ComposeWorld, followed, compose_setup}
use skywalking_infra_e2e.Compose.Setup.Order.{
  IsQuiet, service_exports, command, compose_setup-events,
}

-- `createManifestAndWait` is not called without a cluster.
abbrev no_manifests : ℕ → Text → List Wait → ℤ → Option Text
no_manifests i path waits timeout = none

-- `RunStepsAndWait` without a cluster. A setup without steps has a nil slice.
unfoldable pub run_compose_steps : StepParts → Setup → Option Text
run_compose_steps p s = elim s.steps [
  | none ↦ none
  | some steps ↦ run_steps_and_wait false (step_world false p no_manifests) 0 steps s.final_timeout
]

-- `ComposeSetup` with its steps.
unfoldable pub compose_setup_parts : Settings → StepParts → ComposeWorld → Setup → Option Text
compose_setup_parts st p w s =
    (compose_setup st (record w { steps_error = run_compose_steps p s }) s).1

module _ (p : StepParts) where
  -- A step has a command only, which succeeded, and nothing to wait for; or the one error of the step
  -- was not read.
  abbrev pub CommandDone : ℕ → Step → Type 0
  CommandDone i s =
      (is_empty s.path ≡ true)
      × (is_empty s.command ≡ false)
      × ((((p.command i).execute s.command ≡ none) × (s.waits ≡ []))
          ⊎ OneUnread (execute_commands_and_wait (commands_of false p i) s.command s.waits))

  abbrev pub CommandsDone : ℕ → List Step → Type 0
  CommandsDone i [] = Unit
  CommandsDone i (s ∷ steps) = CommandDone i s × CommandsDone (i + 1) steps

  -- A wait that does not ask for the cluster is refused.
  unmet : (i : ℕ) (wait : Wait) → IsMet (commands_of false p i) wait → ⊥
  unfolding IsMet lacks_cluster options get_wait_options
  unmet i wait (near, (flags, (h, met))) = ground arith

  nothing_met : (i : ℕ) (waits : List Wait) → All (IsMet (commands_of false p i)) waits → waits ≡ []
  nothing_met i [] h = refl
  nothing_met i (w ∷ ws) (h, hs) = absurd (unmet i w h)

  step-CommandDone :
      (i : ℕ) (s : Step) (timeout : ℤ)
      → step_error false (step_world false p no_manifests i) s timeout ≡ none
      → CommandDone i s
  step-CommandDone i s timeout h =
      elim (step_cases false (step_world false p no_manifests i) s timeout h) [
        | inl (a, b, c, d) ↦ absurd (ground arith)
        | inr (a, b, c) ↦ (
          a,
          b,
          elim (executed false p i s timeout b c) [
            | inl (d, e) ↦ inl (d, nothing_met i s.waits e)
            | inr one ↦ inr one
          ],
        )
      ]

  steps-CommandsDone :
      (i : ℕ) (steps : List Step) (timeout : ℤ)
      → run_steps_and_wait false (step_world false p no_manifests) i steps timeout ≡ none
      → CommandsDone i steps
  steps-CommandsDone i [] timeout h = tt
  steps-CommandsDone i (s ∷ steps) timeout h =
      let (good, left, rest) =
        step_cons false (step_world false p no_manifests) i s steps timeout h in
      (
        step-CommandDone i s timeout good,
        steps-CommandsDone (i + 1) steps (new_timeout timeout (p.elapsed i)) rest,
      )

  run_compose_steps-CommandsDone :
      (s : Setup) {steps : List Step}
      → s.steps ≡ some steps
      → run_compose_steps p s ≡ none
      → CommandsDone 0 steps
  unfolding run_compose_steps
  run_compose_steps-CommandsDone s {steps} given h =
      steps-CommandsDone 0 steps s.final_timeout (ground arith)

-- Where a setup with compose has steps, its services can be built, the listener finds no start of
-- a container of a service between a call and the test of its error, and the setup returns no
-- error: docker-compose and the ports returned none, and each step has a command and no path, and
-- either the command succeeded and the step has no waits, or its goroutine has returned with
-- exactly one error sent, which was not read.
pub compose_setup_parts-CommandsDone :
    (st : Settings) (p : StepParts) (w : ComposeWorld) (s : Setup) (services : List ComposeService)
    {steps : List Step}
    → s.steps ≡ some steps
    → build_compose_services w.services ≡ ok services
    → IsQuiet st w services
    → compose_setup_parts st p w s ≡ none
    → (w.invoke (command st w s) ≡ none)
      × ((service_exports st w services).1 ≡ none)
      × CommandsDone p 0 steps
unfolding compose_setup_parts followed
compose_setup_parts-CommandsDone st p w s services given built quiet h =
    let (a, b, c, d) =
      compose_setup-events st (record w { steps_error = run_compose_steps p s }) s services built
        quiet h in
    (a, b, run_compose_steps-CommandsDone p s given c)
