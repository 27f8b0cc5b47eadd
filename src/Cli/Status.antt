-- ===== src/Cli/Status.antt =====
-- The exit status of the program by what the commands promise.
use skywalking_infra_e2e.Base.{
  ◌≡◌, sym, ap, ◌∙◌, ◌↔◌, inl, inr, false, none, some, some-injective, arith, Text, is_empty, ok,
  Result-cases, ℤ,
}
use skywalking_infra_e2e.Verifier.{Engine, Matches, verify_iff}
use skywalking_infra_e2e.Verify.{
  World, parse_interval, read_file_content, actual_data, verify_single_case,
}
use skywalking_infra_e2e.Verify.Spec.{AllVerified}
use skywalking_infra_e2e.Verify.Serial.{Outcome}
use skywalking_infra_e2e.Verify.Command.{verify_info, do_verify_according_config}
use skywalking_infra_e2e.SetupCommand.{do_setup_according_e2e}
use skywalking_infra_e2e.Root.{persistent_pre_run}
use skywalking_infra_e2e.Run.Whole.Succeeds.{Triggered, run_whole_succeeds}
use skywalking_infra_e2e.Cli.{
  Command, run, CliWorld, run_verify, run_command, run_root, exit_status,
}

-- The expected file can be read, the actual data can be had, and they match.
pub record CaseMatches (e : Engine) (w : World) (expected_file actual_file query : Text)
    : Type 0 where
  pub expected : Text
  pub actual : Text
  pub source : Text
  pub expected_read : read_file_content w expected_file ≡ ok expected
  pub actual_read : actual_data w actual_file query ≡ ok (actual, source)
  pub matches : Matches e actual expected

module _ (e : Engine) (w : World) (expected_file actual_file query : Text) where
  matches-CaseMatches :
      (verify_single_case e w expected_file actual_file query).1 ≡ none
      → CaseMatches e w expected_file actual_file query
  unfolding verify_single_case
  matches-CaseMatches h = elim (Result-cases (read_file_content w expected_file)) [
    | inr (x, a) ↦ absurd (ground arith)
    | inl (expected, a) ↦ elim (Result-cases (actual_data w actual_file query)) [
      | inr (x, b) ↦ absurd (ground arith)
      | inl ((actual, source), b) ↦ record {
        expected = expected;
        actual = actual;
        source = source;
        expected_read = a;
        actual_read = b;
        matches = (verify_iff e actual expected).0 (ground arith);
      }
    ]
  ]

  CaseMatches-verified :
      CaseMatches e w expected_file actual_file query
      → (verify_single_case e w expected_file actual_file query).1 ≡ none
  unfolding verify_single_case
  CaseMatches-verified m =
      let good = (verify_iff e m.actual m.expected).1 m.matches in
      let a = m.expected_read in let b = m.actual_read in ground arith

-- The process exits with 0 where what runs before the command and the command return no error.
exit_status_iff :
    (e : Engine) (c : CliWorld) (command : Command)
    → (exit_status e c command ≡ some 0) ↔ (
        ((persistent_pre_run c.root c.root_state).2 ≡ none) × (run_command e c command ≡ some none))
unfolding exit_status run_root
exit_status_iff e c command = ground arith

run_verify_single :
    (e : Engine) (c : CliWorld)
    → is_empty c.expected ≡ false
    → run_verify e c ≡ some (verify_single_case e c.case_world c.expected c.actual c.query).1
unfolding run_verify
run_verify_single e c h = ground arith

-- The process of the verify command with an expected file exits with 0 exactly where the log level
-- and the two directories are set without an error, the expected file can be read, the actual data
-- can be had, from the file or by the query, and they match: both are well formed, and the
-- template, filled with the data, reads back as a value that is equal to the data.
pub exit_status-CaseMatches :
    (e : Engine) (c : CliWorld)
    → is_empty c.expected ≡ false
    → (exit_status e c Command.verify ≡ some 0) ↔ (
        ((persistent_pre_run c.root c.root_state).2 ≡ none)
        × CaseMatches e c.case_world c.expected c.actual c.query)
unfolding run_command
exit_status-CaseMatches e c given =
    let (a, b) = exit_status_iff e c Command.verify in
    let same = run_verify_single e c given in
    (
      λ h.
          let (ready, done) = a h in
          (
            ready,
            matches-CaseMatches e c.case_world c.expected c.actual c.query
                (some-injective _ _ (sym same ∙ done)),
          ),
      λ (ready, m). b (
        ready,
        same ∙ ap some (CaseMatches-verified e c.case_world c.expected c.actual c.query m),
      ),
    )

-- Without summary-only, with an interval that can be read and a verification that ends, the
-- process of the run command exits with 0 exactly where the log level and the two directories are
-- set without an error, the configuration was loaded, the setup returns no error, there is no
-- trigger or it has sent nil, and every case is verified.
pub exit_status-run :
    (e : Engine) (c : CliWorld) {interval : ℤ} {o : Outcome}
    → c.parts.flags.summary_only ≡ false
    → parse_interval c.parts.parse_duration c.parts.verify.retry_strategy.interval ≡ ok interval
    → do_verify_according_config e c.parts.settings c.parts.parse_duration c.parts.flags none
        c.parts.verify c.parts.world c.parts.schedule
      ≡ some o
    → (exit_status e c run ≡ some 0) ↔ (
        ((persistent_pre_run c.root c.root_state).2 ≡ none)
        × (c.parts.setup.config_error ≡ none)
        × ((do_setup_according_e2e c.parts.setup c.start).1 ≡ none)
        × Triggered c.parts
        × AllVerified e c.parts.settings
            (verify_info c.parts.verify interval)
            c.parts.world
            0
            c.parts.verify.cases)
unfolding run_command
exit_status-run e c full read ended =
    let (a, b) = exit_status_iff e c run in
    let (x, y) = run_whole_succeeds e c.parts c.start full read ended in
    (
      λ h.
          let (ready, done) = a h in
          let (loaded, set_up, sent, verified) = x done in (ready, loaded, set_up, sent, verified),
      λ (ready, loaded, set_up, sent, verified). b (ready, y (loaded, set_up, sent, verified)),
    )
