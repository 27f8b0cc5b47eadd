-- ===== src/Verify/Command.antt =====
-- `DoVerifyAccordingConfig` (commands/verify/verify.go): the settings of the command and the choice
-- of the mode.
use skywalking_infra_e2e.Base.{
  ℕ, ℤ, is_neg, ◌≡◌, ◌↔◌, inl, inr, Bool, true, false, not, ◌&&◌, Option, none, some, List, [],
  ◌++◌, Text, codes, text_eq, Result, ok, err, length, arith, if◌then◌else◌, Bool-cases,
  Result-cases, some-injective, sym, ap, ◌∙◌, IsInt64, wrap64-IsInt64, times,
}
use skywalking_infra_e2e.Paths.{Settings}
use skywalking_infra_e2e.Config.{Any, nil, int, string, other, VerifyCase, millisecond, Verify}
use skywalking_infra_e2e.Output.{Printer, has_format}
use skywalking_infra_e2e.Verifier.{Engine}
use skywalking_infra_e2e.Verify.{World, VerifyInfo, parse_interval, clamp_retries}
use skywalking_infra_e2e.Verify.Spec.{AllVerified}
use skywalking_infra_e2e.Verify.Serial.{Outcome, verify_cases_serially}
use skywalking_infra_e2e.Verify.Serial.Results.{verify_cases_serially_iff}
use skywalking_infra_e2e.Verify.Concurrent.{verify_cases_concurrently}
use skywalking_infra_e2e.Verify.Concurrent.Results.{verify_cases_concurrently_iff}

-- The flags of the command line that the command reads.
pub record Flags : Type 0 where
  pub summary_only : Bool
  pub format : Text
  pub batch_mode : Bool

abbrev failed_early : Text → Outcome
failed_early x = record { error = some x; results = []; calls = []; yaml = none }

-- The verifyInfo of a configuration.
unfoldable pub verify_info : Verify → ℤ → VerifyInfo
verify_info v interval = record {
  case_number = length v.cases;
  retry_count = clamp_retries v.retry_strategy.count;
  interval = interval;
  fail_fast = v.fail_fast;
}

-- `NewPrinter` with its two options.
unfoldable pub new_printer : Bool → Bool → Printer
new_printer batch summary_only = record { batch_output = batch; summary_only = summary_only }

module _ (e : Engine) (st : Settings) (parse_duration : Text → Result ℤ) where
  -- The choice of the mode. The schedule is that of the goroutines.
  unfoldable pub verify_by_mode :
      Flags → Verify → VerifyInfo → (ℕ → ℕ → World) → List ℕ → Option Outcome
  verify_by_mode flags v info w schedule =
      if v.concurrency
      then verify_cases_concurrently e st (new_printer true flags.summary_only) info
          flags.summary_only flags.format w schedule v.cases
      else some (
          verify_cases_serially e st (new_printer flags.batch_mode flags.summary_only) info
            flags.summary_only flags.format w v.cases)

  -- `DoVerifyAccordingConfig`, with the error of the loaded configuration. `none` while the
  -- goroutines of the concurrent mode are not finished.
  unfoldable pub do_verify_according_config :
      Flags → Option Text → Verify → (ℕ → ℕ → World) → List ℕ → Option Outcome
  do_verify_according_config flags config_error v w schedule =
      if flags.summary_only
        && (not (has_format flags.format) && not (text_eq flags.format (codes "yaml")))
      then some (failed_early (codes " '" ++ (flags.format ++ codes "' format doesn't exist")))
      else elim config_error [
        | some x ↦ some (failed_early x)
        | none ↦ elim (parse_interval parse_duration v.retry_strategy.interval) [
          | err x ↦ some (failed_early x)
          | ok interval ↦ verify_by_mode flags v (verify_info v interval) w schedule
        ]
      ]

-- If the durations that are parsed fit 64 bits, an interval that can be read is never negative,
-- also where a number of milliseconds overflows, and fits 64 bits.
pub parse_interval_bounds :
    (parse_duration : Text → Result ℤ) (v : Any) {d : ℤ}
    → ((s : Text) (t : ℤ) → parse_duration s ≡ ok t → IsInt64 t)
    → parse_interval parse_duration v ≡ ok d
    → (is_neg d ≡ false) × IsInt64 d
unfolding parse_interval
parse_interval_bounds parse_duration nil parsed h = ground arith
parse_interval_bounds parse_duration (int z) parsed h =
    ground (arith, wrap64-IsInt64 (times z millisecond))
parse_interval_bounds parse_duration (string s) parsed h = elim (Result-cases (parse_duration s)) [
  | inl (t, e) ↦ ground (arith, parsed s t e)
  | inr (x, e) ↦ ground arith
]
parse_interval_bounds parse_duration (other s) parsed h = ground arith

module _ (e : Engine) (st : Settings) where
  serially_iff :
      (p : Printer) (info : VerifyInfo) (summary_only : Bool) (format : Text) (w : ℕ → ℕ → World)
      (vs : List VerifyCase)
      → summary_only ≡ false
      → ((verify_cases_serially e st p info summary_only format w vs).error ≡ none)
        ↔ AllVerified e st info w 0 vs
  serially_iff p info true format w vs h = cc
  serially_iff p info false format w vs h = verify_cases_serially_iff e st p info format w vs

  concurrently_iff :
      (p : Printer) (info : VerifyInfo) (summary_only : Bool) (format : Text) (w : ℕ → ℕ → World)
      (schedule : List ℕ) (vs : List VerifyCase) {o : Outcome}
      → summary_only ≡ false
      → verify_cases_concurrently e st p info summary_only format w schedule vs ≡ some o
      → (o.error ≡ none) ↔ AllVerified e st info w 0 vs
  concurrently_iff p info true format w schedule vs h k = cc
  concurrently_iff p info false format w schedule vs h k =
      verify_cases_concurrently_iff e st info p format w schedule vs k

module _ (e : Engine) (st : Settings) (parse_duration : Text → Result ℤ) where
  pub by_concurrency :
      (flags : Flags) (v : Verify) (info : VerifyInfo) (w : ℕ → ℕ → World) (schedule : List ℕ)
      → v.concurrency ≡ true
      → verify_by_mode e st parse_duration flags v info w schedule
        ≡ verify_cases_concurrently e st
            (new_printer true flags.summary_only)
            info
            flags.summary_only
            flags.format
            w
            schedule
            v.cases
  unfolding verify_by_mode
  by_concurrency flags v info w schedule h = ground arith

  pub by_series :
      (flags : Flags) (v : Verify) (info : VerifyInfo) (w : ℕ → ℕ → World) (schedule : List ℕ)
      → v.concurrency ≡ false
      → verify_by_mode e st parse_duration flags v info w schedule
        ≡ some (
            verify_cases_serially e st
              (new_printer flags.batch_mode flags.summary_only)
              info
              flags.summary_only
              flags.format
              w
              v.cases)
  unfolding verify_by_mode
  by_series flags v info w schedule h = ground arith

  verify_by_mode_iff :
      (flags : Flags) (v : Verify) (info : VerifyInfo) (w : ℕ → ℕ → World) (schedule : List ℕ)
      {o : Outcome}
      → flags.summary_only ≡ false
      → verify_by_mode e st parse_duration flags v info w schedule ≡ some o
      → (o.error ≡ none) ↔ AllVerified e st info w 0 v.cases
  verify_by_mode_iff flags v info w schedule {o} full h = elim (Bool-cases v.concurrency) [
    | inl c ↦
        concurrently_iff e st _ info flags.summary_only flags.format w schedule v.cases full
          (sym (by_concurrency flags v info w schedule c) ∙ h)
    | inr c ↦
        let same = some-injective _ _ (sym (by_series flags v info w schedule c) ∙ h) in
        let (a, b) =
          serially_iff e st (new_printer flags.batch_mode flags.summary_only) info
            flags.summary_only flags.format w v.cases full in
        let error_of = ap (λ (r : Outcome). r.error) same in
        (λ z. a (error_of ∙ z), λ all. sym error_of ∙ b all)
  ]

  -- Where the configuration was loaded and the interval can be read, and without summary-only, the
  -- command returns no error exactly where every case is verified (it has an expected file, and
  -- one of its attempts within the retries succeeds), in the serial mode and in the concurrent
  -- mode under every schedule in which the goroutines finish.
  pub do_verify_according_config_iff :
      (flags : Flags) (v : Verify) (w : ℕ → ℕ → World) (schedule : List ℕ) {interval : ℤ}
      {o : Outcome}
      → flags.summary_only ≡ false
      → parse_interval parse_duration v.retry_strategy.interval ≡ ok interval
      → do_verify_according_config e st parse_duration flags none v w schedule ≡ some o
      → (o.error ≡ none) ↔ AllVerified e st (verify_info v interval) w 0 v.cases
  unfolding do_verify_according_config
  do_verify_according_config_iff flags v w schedule {interval} {o} full read h =
      verify_by_mode_iff flags v (verify_info v interval) w schedule {o = o} full (ground arith)
