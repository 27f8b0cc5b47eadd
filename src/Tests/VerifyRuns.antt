-- ===== src/Tests/VerifyRuns.antt =====
-- The verify command at concrete inputs.
use skywalking_infra_e2e.Verify.Contract.{Contract}
use skywalking_infra_e2e.Verify.Contract.Modes.{do_verify_according_config-Contract}
use skywalking_infra_e2e.Base.{
  ℕ, zero, suc, ◌^◌, ◌≤◌, ◌<◌, ◌≡◌, refl, ◌↔◌, Bool, true, false, Option, none, some, List, [], ◌∷◌,
  map, All, arith, Text, codes, text_eq, ok, err, ℤ, pos, is_neg, wrap64, times, IsInt64,
}
use skywalking_infra_e2e.Paths
use skywalking_infra_e2e.Paths.{resolve_abs, resolve_abs_with_base}
use skywalking_infra_e2e.Config.{Any, get_expected, get_actual}
use skywalking_infra_e2e.Output.{print_result, print_result_in_yaml, has_format}
use skywalking_infra_e2e.Output.Counts.{
  passed, failed, skipped, verdict, names, print_result_in_yaml-names,
}
use skywalking_infra_e2e.Verifier.{verify}
use skywalking_infra_e2e.Verify.{
  World, read_file_content, verify_single_case, parse_interval, clamp_retries,
}
use skywalking_infra_e2e.Verify.Spec.{AllVerified, passing, first_success, attempt_error}
use skywalking_infra_e2e.Verify.Serial.{Outcome, serial_cases, serial_case, attempts, initial}
use skywalking_infra_e2e.Verify.Serial.Attempts.{attempts_lem, result_at, returns_at, core}
use skywalking_infra_e2e.Verify.Serial.Results.{verdicts_of, serial_cases-verdicts}
use skywalking_infra_e2e.Verify.Concurrent.{
  fresh, advance, turn, run, launch, finished, verify_cases_concurrently,
}
use skywalking_infra_e2e.Verify.Concurrent.Progress.{turns, verify_cases_concurrently_returns}
use skywalking_infra_e2e.Verify.Spec.Files.{FromFile, SameFiles}
use skywalking_infra_e2e.Verify.Concurrent.Results.{verify_cases_concurrently-serially}
use skywalking_infra_e2e.Verify.Command.{
  verify_info, do_verify_according_config, verify_by_mode, new_printer, parse_interval_bounds,
  do_verify_according_config_iff,
}
use skywalking_infra_e2e.Tests.Data.{
  plain, settings, case_of, worlds, two_cases, four_cases, one_retry, loud, configuration,
  one_second, flags, outcome_of, some_results,
}

-- In the serial mode with fail-fast: passed, passed at the second attempt, failed, skipped.
serial_run :
    map verdict (serial_cases plain settings loud (one_retry true) worlds 0 four_cases).0
    ≡ passed ∷ passed ∷ failed ∷ skipped ∷ []
unfolding serial_cases serial_case verify_single_case verify get_expected get_actual resolve_abs
    text_eq resolve_abs_with_base Paths.abs_path Paths.join_path Paths.dir Paths.clean
serial_run = refl

serial_cases-verdicts_example :
    map verdict (serial_cases plain settings loud (one_retry true) worlds 0 four_cases).0
    ≡ verdicts_of true (passing plain settings (one_retry true) worlds 0 four_cases)
serial_cases-verdicts_example =
    serial_cases-verdicts plain settings loud (one_retry true) worlds 0 four_cases

-- The second case fails at its first attempt and is verified at the second one.
attempts_lem_example :
    core plain settings loud (one_retry true) (
      attempts plain settings loud
        (one_retry true)
        (worlds 1)
        (case_of "b")
        2
        0
        (initial (case_of "b")))
    ≡ (
      result_at plain settings loud
          (one_retry true)
          (worlds 1)
          (case_of "b")
          (initial (case_of "b"))
          (first_success
            (attempt_error plain settings (one_retry true) (worlds 1) (case_of "b"))
            2
            0),
      returns_at plain settings loud (one_retry true) (
          first_success
            (attempt_error plain settings (one_retry true) (worlds 1) (case_of "b"))
            2
            0),
    )
attempts_lem_example =
    attempts_lem plain settings loud (one_retry true) (worlds 1) (case_of "b") 1 0
      (initial (case_of "b")) refl

-- Each of the two goroutines gets eight turns, in turn.
abbrev alternate : List ℕ
alternate = 0 ∷ 1 ∷ 0 ∷ 1 ∷ 0 ∷ 1 ∷ 0 ∷ 1 ∷ 0 ∷ 1 ∷ 0 ∷ 1 ∷ 0 ∷ 1 ∷ 0 ∷ 1 ∷ []

enough_turns : (i : ℕ) → i < 2 → 8 ≤ turns i alternate
enough_turns zero h = omega arith
enough_turns (suc zero) h = omega arith
enough_turns (suc (suc i)) h = absurd (omega arith)

verify_cases_concurrently_returns_example :
    (o : Outcome) × (verify_cases_concurrently plain settings loud
        (one_retry true)
        false
        (codes "yaml")
        worlds
        alternate
        two_cases
      ≡ some o)
verify_cases_concurrently_returns_example =
    verify_cases_concurrently_returns plain settings (one_retry true) loud false (codes "yaml")
      worlds alternate two_cases enough_turns

abbrev concurrent_outcome : Outcome
concurrent_outcome = outcome_of (
    verify_cases_concurrently plain settings loud (one_retry false) false (codes "yaml") worlds
      alternate two_cases)

concurrent_run :
    verify_cases_concurrently plain settings loud
      (one_retry false)
      false
      (codes "yaml")
      worlds
      alternate
      two_cases
    ≡ some concurrent_outcome
unfolding verify_cases_concurrently verify_single_case verify get_expected get_actual resolve_abs
    text_eq resolve_abs_with_base Paths.abs_path Paths.join_path Paths.dir Paths.clean finished run
    turn launch advance fresh
concurrent_run = refl

-- The same files, with a shell that fails.
abbrev shell_less : ℕ → ℕ → World
shell_less i k = record (worlds i k) { hook = err (codes "no hook") }

same_files : SameFiles worlds shell_less
unfolding read_file_content
same_files i k name = refl

from_file : All (FromFile settings) two_cases
unfolding get_actual resolve_abs resolve_abs_with_base Paths.abs_path Paths.join_path Paths.dir
    Paths.clean text_eq
from_file = (refl, (refl, tt))

verify_cases_concurrently-serially_example :
    map verdict concurrent_outcome.results
    ≡ map verdict (serial_cases plain settings loud (one_retry false) shell_less 0 two_cases).0
verify_cases_concurrently-serially_example =
    verify_cases_concurrently-serially plain settings (one_retry false) loud (codes "yaml") worlds
      shell_less alternate two_cases refl from_file same_files concurrent_run

-- The whole command in the concurrent mode.
abbrev whole : Bool → Option Outcome
whole summary_only =
    do_verify_according_config plain settings one_second (flags summary_only) none
      (configuration true two_cases) worlds alternate

whole_run : whole false ≡ some (outcome_of (whole false))
unfolding do_verify_according_config verify_by_mode parse_interval verify_info new_printer
    clamp_retries verify_cases_concurrently verify_single_case verify get_expected get_actual
    resolve_abs text_eq resolve_abs_with_base Paths.abs_path Paths.join_path Paths.dir Paths.clean
    finished run turn launch advance fresh
whole_run = refl

brief_run : whole true ≡ some (outcome_of (whole true))
unfolding do_verify_according_config verify_by_mode parse_interval verify_info new_printer
    clamp_retries verify_cases_concurrently verify_single_case verify get_expected get_actual
    resolve_abs text_eq resolve_abs_with_base Paths.abs_path Paths.join_path Paths.dir Paths.clean
    finished run turn launch advance fresh has_format
brief_run = refl

pub one_second_read :
    parse_interval one_second (configuration true two_cases).retry_strategy.interval
    ≡ ok (pos (10 ^ 9))
unfolding parse_interval
one_second_read = refl

do_verify_according_config_iff_example :
    ((outcome_of (whole false)).error ≡ none)
    ↔ AllVerified plain settings
        (verify_info (configuration true two_cases) (pos (10 ^ 9)))
        worlds
        0
        two_cases
do_verify_according_config_iff_example =
    do_verify_according_config_iff plain settings one_second (flags false)
      (configuration true two_cases) worlds alternate refl one_second_read whole_run

one_second-IsInt64 : (s : Text) (t : ℤ) → one_second s ≡ ok t → IsInt64 t
one_second-IsInt64 s t h = ground arith

-- The number of milliseconds overflows.
large_read : parse_interval one_second (Any.int (pos (10 ^ 14))) ≡ ok (pos 7766279631452241920)
unfolding parse_interval wrap64 times
large_read = refl

parse_interval_bounds_example :
    (is_neg (pos 7766279631452241920) ≡ false) × IsInt64 (pos 7766279631452241920)
parse_interval_bounds_example =
    parse_interval_bounds one_second (Any.int (pos (10 ^ 14))) one_second-IsInt64 large_read

print_result_in_yaml-names_example :
    ((print_result_in_yaml some_results).passed ≡ names passed some_results)
    × ((print_result_in_yaml some_results).failed ≡ names failed some_results)
    × ((print_result_in_yaml some_results).skipped ≡ names skipped some_results)
    × ((print_result_in_yaml some_results).passed_count ≡ (print_result loud some_results).pass_num)
    × ((print_result_in_yaml some_results).failed_count ≡ (print_result loud some_results).fail_num)
    × ((print_result_in_yaml some_results).skipped_count
        ≡ (print_result loud some_results).skip_num)
print_result_in_yaml-names_example = print_result_in_yaml-names loud some_results

do_verify_according_config-Contract_example :
    Contract plain settings
      (verify_info (configuration true two_cases) (pos (10 ^ 9)))
      worlds
      two_cases
      (outcome_of (whole false))
do_verify_according_config-Contract_example =
    do_verify_according_config-Contract plain settings one_second (flags false)
      (configuration true two_cases) worlds alternate refl one_second_read whole_run
