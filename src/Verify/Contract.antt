-- ===== src/Verify/Contract.antt =====
-- What the verify command promises of a run that ends, in the serial and in the concurrent mode:
-- the contract of commands/verify/verify.go, which forgets how the cases were run.
pub mod Serially
pub mod Modes
use skywalking_infra_e2e.Base.{
  ℕ, ◌<◌, ◌≡◌, refl, ◌∙◌, Bool, true, false, Option, none, some, List, [], ◌∷◌, map, ltb,
  if◌then◌else◌, Text,
}
use skywalking_infra_e2e.Paths.{Settings}
use skywalking_infra_e2e.Config.{VerifyCase}
use skywalking_infra_e2e.Output.{CaseResult, Printer, SpinnerCall}
use skywalking_infra_e2e.Output.Counts.{Verdict, skipped, verdict, print_result_counts}
use skywalking_infra_e2e.Verifier.{Engine}
use skywalking_infra_e2e.Verify.{World, VerifyInfo, case_name, cases_failed}
use skywalking_infra_e2e.Verify.Spec.{passing}
use skywalking_infra_e2e.Verify.Serial.{Outcome, conclude}
use skywalking_infra_e2e.Verify.Serial.Results.{failures, count-failures}
use skywalking_infra_e2e.Verify.Concurrent.Claims.{Claims}
use skywalking_infra_e2e.Verify.Concurrent.Names.{result_name}

abbrev pub any_skipped : List Verdict → Bool
any_skipped [] = false
any_skipped (skipped ∷ ds) = true
any_skipped (_ ∷ ds) = any_skipped ds

-- The error by the number of failed cases.
abbrev pub report : ℕ → Option Text
report n = if ltb 0 n then some (cases_failed n) else none

-- The i-th result is that of the i-th case; a verdict tells whether the case passes, and a case is
-- skipped in fail-fast mode only, where another one failed; the error counts the failed cases.
pub record Contract (e : Engine) (st : Settings) (info : VerifyInfo) (w : ℕ → ℕ → World)
    (vs : List VerifyCase) (o : Outcome) : Type 0 where
  pub named : map result_name o.results ≡ map case_name vs
  pub judged : Claims info.fail_fast (passing e st info w 0 vs) (map verdict o.results)
  pub blamed : any_skipped (map verdict o.results) ≡ true → 0 < failures (map verdict o.results)
  pub reported : o.error ≡ report (failures (map verdict o.results))

conclude_results :
    (p : Printer) (format : Text) (res : List CaseResult) (calls : List SpinnerCall)
    → (conclude p false format res calls).results ≡ res
unfolding conclude
conclude_results p format res calls = refl

conclude_error :
    (p : Printer) (format : Text) (res : List CaseResult) (calls : List SpinnerCall)
    → (conclude p false format res calls).error ≡ report (failures (map verdict res))
unfolding conclude
conclude_error p format res calls =
    let (a, b, c) = print_result_counts p res in rw (b ∙ count-failures res) refl

-- The last part of both modes keeps what holds of the results.
pub conclude-Contract :
    (e : Engine) (st : Settings) (info : VerifyInfo) (w : ℕ → ℕ → World) (vs : List VerifyCase)
    (p : Printer) (format : Text) (res : List CaseResult) (calls : List SpinnerCall)
    → map result_name res ≡ map case_name vs
    → Claims info.fail_fast (passing e st info w 0 vs) (map verdict res)
    → (any_skipped (map verdict res) ≡ true → 0 < failures (map verdict res))
    → Contract e st info w vs (conclude p false format res calls)
conclude-Contract e st info w vs p format res calls n j b =
    let same = conclude_results p format res calls in
    record {
      named = rw same n;
      judged = rw same j;
      blamed = rw same b;
      reported = rw same (conclude_error p format res calls);
    }
