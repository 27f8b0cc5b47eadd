-- ===== src/Kind/Whole/Steps.antt =====
-- The steps of a setup with kind: what was created, run and waited for.
use skywalking_infra_e2e.Base.{
  ℕ, ◌+◌, ◌≡◌, refl, ◌⊎◌, inl, inr, true, false, Option, none, List, [], ◌∷◌, arith, Text, is_empty,
  ℤ,
}
use skywalking_infra_e2e.Config.{Step, Wait}
use skywalking_infra_e2e.Steps.{
  Select, finished, timed_out, errored, step_error, new_timeout, select_error, run_steps_and_wait,
  create_manifest_and_wait, options_error,
}
use skywalking_infra_e2e.Steps.Budget.{step_cons}
use skywalking_infra_e2e.Steps.Parts.{step_world, Executed, executed, step_cases}
use skywalking_infra_e2e.Base.{length, ap, ◌∙◌, ◌≤◌, some}
use skywalking_infra_e2e.Steps.WaitSet.Verdicts.{finish_means_ended}
use skywalking_infra_e2e.Kind.Manifests.{create_by_manifest}
use skywalking_infra_e2e.Kind.Whole.{KindParts, wait_error, create_step}

create_manifest_and_wait-none :
    (made : Option Text) (options : Wait → Option Text) (waits : List Wait) (seconds : Text)
    (sel : Select)
    → create_manifest_and_wait made options waits seconds sel ≡ none
    → (made ≡ none) × ((waits ≡ []) ⊎ ((options_error options waits ≡ none) × (sel ≡ finished)))
unfolding create_manifest_and_wait select_error
create_manifest_and_wait-none made options [] seconds sel h = (ground arith, inl refl)
create_manifest_and_wait-none made options (w ∷ ws) seconds finished h =
    (ground arith, inr (ground arith))
create_manifest_and_wait-none made options (w ∷ ws) seconds timed_out h = absurd (ground arith)
create_manifest_and_wait-none made options (w ∷ ws) seconds (errored x) h = absurd (ground arith)

module _ (p : KindParts) where
  -- The manifests were created, and their waits, if there are any, have options, have all ended, and
  -- at most one of them has failed.
  abbrev pub Created : ℕ → Step → Type 0
  Created i s =
      ((create_by_manifest p.api p.settings p.disk s.path).1 ≡ none)
      × ((s.waits ≡ [])
          ⊎ ((options_error (wait_error p i) s.waits ≡ none)
              × ((p.choose i s.waits).set.running ≡ 0)
              × ((p.choose i s.waits).set.failed ≤ 1)))

  -- A step has either a path or a command, and was done.
  abbrev pub StepMet : ℕ → Step → Type 0
  StepMet i s =
      ((is_empty s.command ≡ true) × (is_empty s.path ≡ false) × Created i s)
      ⊎ ((is_empty s.path ≡ true) × (is_empty s.command ≡ false) × Executed true p.steps i s)

  abbrev pub StepsMet : ℕ → List Step → Type 0
  StepsMet i [] = Unit
  StepsMet i (s ∷ steps) = StepMet i s × StepsMet (i + 1) steps

  created :
      (i : ℕ) (s : Step) (timeout : ℤ) → create_step p i s.path s.waits timeout ≡ none → Created i s
  unfolding create_step
  created i s timeout h =
      let c = p.choose i s.waits in
      let (made, waited) =
        create_manifest_and_wait-none _ (wait_error p i) s.waits (p.steps.seconds timeout) c.select
          h in
      (
        made,
        elim waited [
          | inl nothing ↦ inl nothing
          | inr (options, ended) ↦
              let (a, b, d, e) =
                finish_means_ended _ (length s.waits) c.reached (c.verdict ∙ ap some ended) in
              inr (options, a, d)
        ],
      )

  step-StepMet :
      (i : ℕ) (s : Step) (timeout : ℤ)
      → step_error true (step_world true p.steps (create_step p) i) s timeout ≡ none
      → StepMet i s
  step-StepMet i s timeout h =
      elim (step_cases true (step_world true p.steps (create_step p) i) s timeout h) [
        | inl (a, b, c, d) ↦ inl (a, b, created i s timeout d)
        | inr (a, b, c) ↦ inr (a, b, executed true p.steps i s timeout b c)
      ]

  -- Steps that return no error were all done.
  pub run_steps_and_wait-StepsMet :
      (i : ℕ) (steps : List Step) (timeout : ℤ)
      → run_steps_and_wait true (step_world true p.steps (create_step p)) i steps timeout ≡ none
      → StepsMet i steps
  run_steps_and_wait-StepsMet i [] timeout h = tt
  run_steps_and_wait-StepsMet i (s ∷ steps) timeout h =
      let (good, left, rest) =
        step_cons true (step_world true p.steps (create_step p)) i s steps timeout h in
      (
        step-StepMet i s timeout good,
        run_steps_and_wait-StepsMet (i + 1) steps (new_timeout timeout (p.steps.elapsed i)) rest,
      )
