-- ===== src/Verify/Concurrent/Results.antt =====
-- What the concurrent mode returns, under every schedule.
use skywalking_infra_e2e.Base.{
  ℕ, ◌≡◌, ◌∙◌, ap, sym, ◌↔◌, inl, inr, true, false, none, some, List, [], map, Text, All,
  Bool-cases, arith,
}
use skywalking_infra_e2e.Paths.{Settings}
use skywalking_infra_e2e.Config.{VerifyCase}
use skywalking_infra_e2e.Output.{Printer}
use skywalking_infra_e2e.Output.Counts.{verdict}
use skywalking_infra_e2e.Verifier.{Engine}
use skywalking_infra_e2e.Verify.{World, VerifyInfo}
use skywalking_infra_e2e.Verify.Spec.{passing, AllVerified}
use skywalking_infra_e2e.Verify.Spec.Files.{FromFile, SameFiles, passing_same}
use skywalking_infra_e2e.Verify.Serial.{Outcome, conclude, serial_cases}
use skywalking_infra_e2e.Verify.Serial.Results.{
  verdicts_of, failures, count-failures, conclude_iff, serial_cases-verdicts,
}
use skywalking_infra_e2e.Verify.Concurrent.{
  System, run, launch, finished, results, verify_cases_concurrently,
}
use skywalking_infra_e2e.Verify.Concurrent.Invariant.{Inv, run-Inv}
use skywalking_infra_e2e.Verify.Concurrent.Claims.{
  launch-Launched, Claims, Claims-verdicts_of, run-Launched, launch-Inv, finished-Claims,
  failures_of_any_failed, Claims-AllVerified, AllVerified-failures,
}

module _ (e : Engine) (st : Settings) (info : VerifyInfo) (p : Printer) (format : Text)
    (w : ℕ → ℕ → World) (schedule : List ℕ) (vs : List VerifyCase) where
  abbrev final : System
  final = run e st info w schedule (record { cancelled = false; routines = launch 0 vs })

  final-Inv : Inv e st info w final
  final-Inv = run-Inv e st info w schedule _ (launch-Inv e st info w vs)

  final-Claims :
      finished final.routines ≡ true
      → Claims final.cancelled (passing e st info w 0 vs) (map verdict (results final.routines))
  final-Claims f =
      finished-Claims e st info final.cancelled w 0 vs final.routines
        (run-Launched e st info w schedule 0 vs _ (launch-Launched 0 vs)) final-Inv.sound f

  final_uncancelled :
      finished final.routines ≡ true
      → failures (map verdict (results final.routines)) ≡ 0
      → final.cancelled ≡ false
  final_uncancelled f z = elim (Bool-cases final.cancelled) [
    | inl yes' ↦ absurd (
        omega (
          arith,
          failures_of_any_failed e st info final.cancelled w final.routines final-Inv.sound f
              (final-Inv.explained yes').1,
        ))
    | inr not' ↦ not'
  ]

  returned :
      {o : Outcome}
      → verify_cases_concurrently e st p info false format w schedule vs ≡ some o
      → (finished final.routines ≡ true) × (o ≡ conclude p false format (results final.routines) [])
  unfolding verify_cases_concurrently
  returned {o} h = ground arith

  -- Under every schedule in which the goroutines finish, without summary-only, the concurrent
  -- mode returns no error exactly where every case is verified: a case that fail-fast skips
  -- never hides a failure.
  pub verify_cases_concurrently_iff :
      {o : Outcome}
      → verify_cases_concurrently e st p info false format w schedule vs ≡ some o
      → (o.error ≡ none) ↔ AllVerified e st info w 0 vs
  verify_cases_concurrently_iff h =
      let (f, eq) = returned h in
      let (a, b) = conclude_iff p format (results final.routines) [] in
      let same = count-failures (results final.routines) in
      let claims = final-Claims f in
      (
        λ z.
            let none_failed = sym same ∙ a (ap (λ (r : Outcome). r.error) (sym eq) ∙ z) in
            Claims-AllVerified e st info final.cancelled w 0 vs _ claims
              (final_uncancelled f none_failed) none_failed,
        λ v.
            ap (λ (r : Outcome). r.error) eq
            ∙ b (same ∙ AllVerified-failures e st info final.cancelled w 0 vs _ claims v),
      )

  -- The same with the answers that the concurrent mode is given.
  verdicts_serially :
      {o : Outcome}
      → info.fail_fast ≡ false
      → verify_cases_concurrently e st p info false format w schedule vs ≡ some o
      → map verdict o.results ≡ map verdict (serial_cases e st p info w 0 vs).0
  unfolding conclude
  verdicts_serially slow h =
      let (f, eq) = returned h in
      let never : final.cancelled ≡ false = uncancelled slow in
      ap (λ (r : Outcome). map verdict r.results) eq
      ∙ Claims-verdicts_of final.cancelled _ _ never (final-Claims f)
      ∙ ap (λ ff. verdicts_of ff (passing e st info w 0 vs)) (sym slow)
      ∙ sym (serial_cases-verdicts e st p info w 0 vs)
    where
      uncancelled : info.fail_fast ≡ false → final.cancelled ≡ false
      uncancelled ff = elim (Bool-cases final.cancelled) [
        | inl set ↦ cc (ff, (final-Inv.explained set).0)
        | inr unset ↦ unset
      ]

-- Without fail-fast and without summary-only, where each case names a file with its actual data,
-- so that no query is run, and the files read the same in both modes at each attempt, the
-- concurrent mode, under every schedule in which the goroutines finish, passes and fails the same
-- cases as the serial mode, and skips none, whatever else the two modes are answered.
pub verify_cases_concurrently-serially :
    (e : Engine) (st : Settings) (info : VerifyInfo) (p : Printer) (format : Text)
    (w w' : ℕ → ℕ → World) (schedule : List ℕ) (vs : List VerifyCase) {o : Outcome}
    → info.fail_fast ≡ false
    → All (FromFile st) vs
    → SameFiles w w'
    → verify_cases_concurrently e st p info false format w schedule vs ≡ some o
    → map verdict o.results ≡ map verdict (serial_cases e st p info w' 0 vs).0
verify_cases_concurrently-serially e st info p format w w' schedule vs slow files same h =
    verdicts_serially e st info p format w schedule vs slow h
    ∙ serial_cases-verdicts e st p info w 0 vs
    ∙ ap (verdicts_of info.fail_fast) (passing_same e st info w w' same 0 vs files)
    ∙ sym (serial_cases-verdicts e st p info w' 0 vs)
