-- ===== src/Verify/Serial.antt =====
-- `verifyCasesSerially` (commands/verify/verify.go). The answers of the outside are given by the
-- index of the case and the number of the attempt.
pub mod Attempts
pub mod Results
use skywalking_infra_e2e.Base.{
  ℕ, zero, suc, ◌+◌, Bool, true, false, not, Option, none, some, List, [], ◌∷◌, ◌++◌, map, Text,
  codes, is_empty, itoa_nat, ltb, ◌==◌, if◌then◌else◌,
}
use skywalking_infra_e2e.Paths.{Settings}
use skywalking_infra_e2e.Config.{VerifyCase, get_expected, get_actual}
use skywalking_infra_e2e.Output.{
  CaseResult, Printer, SpinnerCall, start, success, warning, fail, update_text, emit, print_result,
  YamlCaseResult, print_result_summary,
}
use skywalking_infra_e2e.Verifier.{Engine}
use skywalking_infra_e2e.Verify.{
  World, VerifyInfo, verify_single_case, case_name, not_specified, cases_failed,
}

-- A result as it is set in advance.
unfoldable pub initial : VerifyCase → CaseResult
initial v = record { name = case_name v; msg = []; error = none; skip = true }

-- The result of a case, the calls of the spinner, and whether the function returned in it.
pub record CaseRun : Type 0 where
  pub res : CaseResult
  pub calls : List SpinnerCall
  pub returned : Bool

abbrev before : List SpinnerCall → CaseRun → CaseRun
before calls r = record r { calls = calls ++ r.calls }

-- The messages of the loop.
unfoldable pub verified_msg : Text → VerifyCase → ℕ → Text
verified_msg now v current =
    now
    ++ (codes " verified "
        ++ (case_name v
            ++ (if current == 0
                then codes " \n"
                else codes ", retried " ++ (itoa_nat current ++ codes " time(s)\n"))))

unfoldable pub failed_msg : Text → VerifyCase → ℕ → Text → Text
failed_msg now v current data' =
    now
    ++ (codes " failed to verify "
        ++ (case_name v
            ++ (codes ", retried "
                ++ (itoa_nat current
                    ++ (codes " time(s)"
                        ++ (if is_empty data'
                            then []
                            else codes ", the actual data is:\n" ++ (data' ++ codes "\n")))))))

unfoldable pub retry_text : VerifyCase → ℕ → ℕ → Text
retry_text v current retries =
    codes "failed to verify "
    ++ (case_name v
        ++ (codes ", retry ["
            ++ (itoa_nat current ++ (codes "/" ++ (itoa_nat retries ++ codes "]")))))

unfoldable pub will_retry_text : VerifyCase → ℕ → ℕ → Text
unfolding retry_text
will_retry_text v current retries =
    if current == 0
    then codes "failed to verify " ++ (case_name v ++ codes ", will continue retry:")
    else retry_text v current retries

module _ (e : Engine) (st : Settings) (p : Printer) (info : VerifyInfo) where
  -- The three branches of a round: verified, to be tried again, given up.
  succeed : World → VerifyCase → ℕ → CaseResult → CaseRun
  succeed w v current res =
      let msg = verified_msg w.now v current in
      record {
        res = record res { msg = msg; skip = false };
        calls = emit p (success msg);
        returned = false;
      }

  give_up : World → VerifyCase → ℕ → Text → Text → CaseResult → CaseRun
  give_up w v current d x res =
      let msg = failed_msg w.now v current d in
      record {
        res = record res { msg = msg; error = some x; skip = false };
        calls =
            emit p (update_text (retry_text v current info.retry_count))
            ++ (emit p (warning msg) ++ emit p (fail x));
        returned = info.fail_fast;
      }

  -- `for current := 0; current <= retryCount; current++`, with the rounds left.
  unfoldable pub attempts : (ℕ → World) → VerifyCase → ℕ → ℕ → CaseResult → CaseRun
  unfolding succeed give_up
  attempts w v zero current res = record { res = res; calls = []; returned = false }
  attempts w v (suc rounds) current res =
      let rest = attempts w v rounds (current + 1) res in
      let (d, x) = verify_single_case e (w current) (get_expected st v) (get_actual st v) v.query in
      elim x [
        | none ↦ succeed (w current) v current res
        | some msg ↦
            if not (current == info.retry_count)
            then before (emit p (update_text (will_retry_text v current info.retry_count))) rest
            else give_up (w current) v current d msg res
      ]

  -- The branch of a case that has no expected file.
  unspecified : World → VerifyCase → CaseRun
  unspecified w v =
      let msg = w.now ++ (codes " failed to verify " ++ case_name v) in
      record {
        res = record (initial v) { msg = msg; error = some (not_specified v); skip = false };
        calls = emit p (warning msg) ++ emit p (fail (not_specified v));
        returned = info.fail_fast;
      }

  -- The body of the loop over the cases.
  unfoldable pub serial_case : (ℕ → World) → VerifyCase → CaseRun
  unfolding attempts unspecified initial
  serial_case w v = before (emit p start) (
      if is_empty (get_expected st v)
      then unspecified (w 0) v
      else attempts w v (suc info.retry_count) 0 (initial v))

  -- The loop over the cases from index i on. A return leaves the results as they were set.
  unfoldable pub serial_cases :
      (ℕ → ℕ → World) → ℕ → List VerifyCase → List CaseResult × List SpinnerCall
  serial_cases w i [] = ([], [])
  serial_cases w i (v ∷ vs) =
      let r = serial_case (w i) v in
      let rest = serial_cases w (i + 1) vs in
      if r.returned then (r.res ∷ map initial vs, r.calls) else (r.res ∷ rest.0, r.calls ++ rest.1)

-- What a run of the command leaves: the error that it returns, the results, the calls of the
-- spinner, and the summary in YAML where one is printed.
pub record Outcome : Type 0 where
  pub error : Option Text
  pub results : List CaseResult
  pub calls : List SpinnerCall
  pub yaml : Option YamlCaseResult

-- The last part of both functions: the summary, and the error where a case failed.
unfoldable pub conclude : Printer → Bool → Text → List CaseResult → List SpinnerCall → Outcome
conclude p summary_only format res calls =
    if summary_only
    then record {
      error = none;
      results = res;
      calls = calls;
      yaml = print_result_summary format res;
    }
    else let s = print_result p res in
      record {
        error = if ltb 0 s.fail_num then some (cases_failed s.fail_num) else none;
        results = res;
        calls = calls ++ s.calls;
        yaml = none;
      }

-- `verifyCasesSerially`
unfoldable pub verify_cases_serially :
    Engine
    → Settings
    → Printer
    → VerifyInfo
    → Bool
    → Text
    → (ℕ → ℕ → World)
    → List VerifyCase
    → Outcome
verify_cases_serially e st p info summary_only format w cases =
    let (res, calls) = serial_cases e st p info w 0 cases in
    conclude p summary_only format res calls
