-- ===== src/Verify/Serial/Attempts.antt =====
-- The retry loop of the serial mode against the number of the first success.
use skywalking_infra_e2e.Base.{
  ℕ, zero, suc, ◌+◌, ◌≡◌, ◌≢◌, refl, ◌∙◌, inl, inr, Bool, true, false, Option, none, some, Text,
  is_empty, is_some, Bool-cases, Option-cases, arith,
}
use skywalking_infra_e2e.Paths.{Settings}
use skywalking_infra_e2e.Config.{VerifyCase, get_expected}
use skywalking_infra_e2e.Output.{CaseResult, Printer}
use skywalking_infra_e2e.Output.Counts.{passed, failed, verdict}
use skywalking_infra_e2e.Verifier.{Engine}
use skywalking_infra_e2e.Verify.{World, VerifyInfo}
use skywalking_infra_e2e.Verify.Spec.{
  first_success, first_success_nil, first_success_here, first_success_later, first_success-none,
  attempt, attempt_error, passes,
}
use skywalking_infra_e2e.Verify.Serial.{
  CaseRun, initial, verified_msg, failed_msg, attempts, serial_case,
}

-- What the loop body makes of a case, by the setting of fail-fast and whether the case passes: its
-- verdict is passed or failed, and the loop is left where the case failed and fail-fast is on.
abbrev pub Judged : Bool → Bool → CaseRun → Type 0
Judged fail_fast true r = (verdict r.res ≡ passed) × (r.returned ≡ false)
Judged fail_fast false r = (verdict r.res ≡ failed) × (r.returned ≡ fail_fast)

module _ (e : Engine) (st : Settings) (p : Printer) (info : VerifyInfo) where
  -- The result by the number of the first success, if there is one, and by the last attempt.
  abbrev pub result_at : (ℕ → World) → VerifyCase → CaseResult → Option ℕ → CaseResult
  result_at w v res (some k) = record res { msg = verified_msg (w k).now v k; skip = false }
  result_at w v res none = record res {
    msg =
        failed_msg (w info.retry_count).now v info.retry_count
          (attempt e st info w v info.retry_count).0;
    error = attempt_error e st info w v info.retry_count;
    skip = false;
  }

  -- Whether the function returns in the loop.
  abbrev pub returns_at : Option ℕ → Bool
  returns_at (some k) = false
  returns_at none = info.fail_fast

  -- The parts of a run that the results depend on.
  abbrev pub core : CaseRun → CaseResult × Bool
  core r = (r.res, r.returned)

  attempts_verified :
      (w : ℕ → World) (v : VerifyCase) (rounds current : ℕ) (res : CaseResult)
      → attempt_error e st info w v current ≡ none
      → core (attempts e st p info w v (suc rounds) current res)
        ≡ (result_at w v res (some current), false)
  unfolding attempts
  attempts_verified w v rounds current res h = ground arith

  attempts_again :
      (w : ℕ → World) (v : VerifyCase) (rounds current : ℕ) (res : CaseResult) {x : Text}
      → attempt_error e st info w v current ≡ some x
      → current ≢ info.retry_count
      → core (attempts e st p info w v (suc rounds) current res)
        ≡ core (attempts e st p info w v rounds (current + 1) res)
  unfolding attempts
  attempts_again w v rounds current res h n = ground arith

  attempts_last :
      (w : ℕ → World) (v : VerifyCase) (rounds current : ℕ) (res : CaseResult) {x : Text}
      → attempt_error e st info w v current ≡ some x
      → current ≡ info.retry_count
      → core (attempts e st p info w v (suc rounds) current res)
        ≡ (result_at w v res none, info.fail_fast)
  unfolding attempts
  attempts_last w v rounds current res h last = ground arith

  -- The retry loop of a case, begun so that the rounds left reach the last retry, gives the result
  -- by the number of its first success, else the result of the last attempt with its error and its
  -- data, and the function returns there exactly if no attempt succeeded and fail-fast is on.
  pub attempts_lem :
      (w : ℕ → World) (v : VerifyCase) (rounds current : ℕ) (res : CaseResult)
      → current + rounds ≡ info.retry_count
      → let k = first_success (attempt_error e st info w v) (suc rounds) current in
        core (attempts e st p info w v (suc rounds) current res)
        ≡ (result_at w v res k, returns_at k)
  attempts_lem w v zero current res h = elim (Option-cases (attempt_error e st info w v current)) [
    | inl good ↦
        attempts_verified w v zero current res good
        ∙ rw (first_success_here (attempt_error e st info w v) zero current good)
    | inr (x, bad) ↦
        attempts_last w v zero current res bad (omega arith)
        ∙ rw (first_success_later (attempt_error e st info w v) zero current bad, first_success_nil)
  ]
  attempts_lem w v (suc rounds) current res h =
      elim (Option-cases (attempt_error e st info w v current)) [
        | inl good ↦
            attempts_verified w v (suc rounds) current res good
            ∙ rw (first_success_here (attempt_error e st info w v) (suc rounds) current good)
        | inr (x, bad) ↦
            attempts_again w v (suc rounds) current res bad (omega arith)
            ∙ attempts_lem w v rounds (current + 1) res (omega arith)
            ∙ rw (first_success_later (attempt_error e st info w v) (suc rounds) current bad)
      ]

  serial_case_specified :
      (w : ℕ → World) (v : VerifyCase)
      → is_empty (get_expected st v) ≡ false
      → core (serial_case e st p info w v)
        ≡ core (attempts e st p info w v (suc info.retry_count) 0 (initial v))
  unfolding serial_case
  serial_case_specified w v h = ground arith

  serial_case_unspecified :
      (w : ℕ → World) (v : VerifyCase)
      → is_empty (get_expected st v) ≡ true
      → Judged info.fail_fast false (serial_case e st p info w v)
  unfolding serial_case
  serial_case_unspecified w v h = ground arith

  result_at-Judged :
      (w : ℕ → World) (v : VerifyCase) (k : Option ℕ) (r : CaseRun)
      → first_success (attempt_error e st info w v) (suc info.retry_count) 0 ≡ k
      → core r ≡ (result_at w v (initial v) k, returns_at k)
      → Judged info.fail_fast (is_some k) r
  unfolding initial
  result_at-Judged w v (some k) r f h = ground arith
  result_at-Judged w v none r f h =
      let bad =
        first_success-none (attempt_error e st info w v) (suc info.retry_count) 0 info.retry_count f
          (omega arith) (omega arith) in
      ground arith

  pub serial_case-Judged :
      (w : ℕ → World) (v : VerifyCase)
      → Judged info.fail_fast (passes e st info w v) (serial_case e st p info w v)
  unfolding passes
  serial_case-Judged w v = elim (Bool-cases (is_empty (get_expected st v))) [
    | inl e' ↦ rw e' (serial_case_unspecified w v e')
    | inr named ↦ rw named (
        result_at-Judged w v _ _ refl (
          serial_case_specified w v named
          ∙ attempts_lem w v info.retry_count 0 (initial v) (omega arith)))
  ]
