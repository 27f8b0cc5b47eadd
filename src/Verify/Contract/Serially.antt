-- ===== src/Verify/Contract/Serially.antt =====
-- The contract in the serial mode.
use skywalking_infra_e2e.Base.{
  ℕ, zero, suc, ◌+◌, ◌<◌, ◌≡◌, refl, ap, ap₂, inl, inr, Bool, true, false, List, [], ◌∷◌, map,
  arith, Bool-cases, Text,
}
use skywalking_infra_e2e.Paths.{Settings}
use skywalking_infra_e2e.Config.{VerifyCase}
use skywalking_infra_e2e.Output.{CaseResult, Printer}
use skywalking_infra_e2e.Output.Counts.{skipped}
use skywalking_infra_e2e.Verifier.{Engine}
use skywalking_infra_e2e.Verify.{World, VerifyInfo, case_name}
use skywalking_infra_e2e.Verify.Spec.{passing}
use skywalking_infra_e2e.Verify.Serial.{
  initial, attempts, serial_case, serial_cases, verify_cases_serially,
}
use skywalking_infra_e2e.Verify.Serial.Results.{verdicts_of, failures, serial_cases-verdicts}
use skywalking_infra_e2e.Verify.Concurrent.Claims.{Claims}
use skywalking_infra_e2e.Verify.Concurrent.Names.{result_name}
use skywalking_infra_e2e.Verify.Contract.{Contract, any_skipped, conclude-Contract}

all_skipped-Claims : (bs : List Bool) → Claims true bs (map (λ b. skipped) bs)
all_skipped-Claims [] = tt
all_skipped-Claims (b ∷ bs) = (refl, all_skipped-Claims bs)

verdicts_of-Claims : (ff : Bool) (bs : List Bool) → Claims ff bs (verdicts_of ff bs)
verdicts_of-Claims ff [] = tt
verdicts_of-Claims ff (true ∷ bs) = (refl, verdicts_of-Claims ff bs)
verdicts_of-Claims true (false ∷ bs) = (refl, all_skipped-Claims bs)
verdicts_of-Claims false (false ∷ bs) = (refl, verdicts_of-Claims false bs)

-- A case is skipped behind a failed one only.
verdicts_of_blamed :
    (ff : Bool) (bs : List Bool)
    → any_skipped (verdicts_of ff bs) ≡ true
    → 0 < failures (verdicts_of ff bs)
verdicts_of_blamed ff [] h = cc
verdicts_of_blamed ff (true ∷ bs) h = verdicts_of_blamed ff bs h
verdicts_of_blamed ff (false ∷ bs) h = omega arith

module _ (e : Engine) (st : Settings) (p : Printer) (info : VerifyInfo) where
  attempts-name :
      (w : ℕ → World) (v : VerifyCase) (rounds current : ℕ) (res : CaseResult)
      → (attempts e st p info w v rounds current res).res.name ≡ res.name
  unfolding attempts
  attempts-name w v zero current res = refl
  attempts-name w v (suc rounds) current res =
      ground (arith, attempts-name w v rounds (current + 1) res)

  serial_case-name :
      (w : ℕ → World) (v : VerifyCase) → (serial_case e st p info w v).res.name ≡ case_name v
  unfolding serial_case
  serial_case-name w v = ground (arith, attempts-name w v (suc info.retry_count) 0 (initial v))

  initial-names : (vs : List VerifyCase) → map result_name (map initial vs) ≡ map case_name vs
  unfolding initial
  initial-names [] = refl
  initial-names (v ∷ vs) = ap (λ l. case_name v ∷ l) (initial-names vs)

  serial_cases-names :
      (w : ℕ → ℕ → World) (i : ℕ) (vs : List VerifyCase)
      → map result_name (serial_cases e st p info w i vs).0 ≡ map case_name vs
  unfolding serial_cases
  serial_cases-names w i [] = refl
  serial_cases-names w i (v ∷ vs) = elim (Bool-cases (serial_case e st p info (w i) v).returned) [
    | inl stop ↦ rw stop (ap₂ (λ n l. n ∷ l) (serial_case-name (w i) v) (initial-names vs))
    | inr more ↦
        rw more (ap₂ (λ n l. n ∷ l) (serial_case-name (w i) v) (serial_cases-names w (i + 1) vs))
  ]

  pub verify_cases_serially-Contract :
      (format : Text) (w : ℕ → ℕ → World) (vs : List VerifyCase)
      → Contract e st info w vs (verify_cases_serially e st p info false format w vs)
  unfolding verify_cases_serially
  verify_cases_serially-Contract format w vs =
      let same = serial_cases-verdicts e st p info w 0 vs in
      conclude-Contract e st info w vs p format (serial_cases e st p info w 0 vs).0
        (serial_cases e st p info w 0 vs).1 (serial_cases-names w 0 vs)
        (rw same (verdicts_of-Claims info.fail_fast (passing e st info w 0 vs)))
        (rw same (verdicts_of_blamed info.fail_fast (passing e st info w 0 vs)))
