-- ===== src/Verify/Contract/Modes.antt =====
-- The contract in the concurrent mode, and of the whole command.
use skywalking_infra_e2e.Base.{
  ℕ, ◌≡◌, sym, ◌∙◌, inl, inr, Bool, true, false, none, some, some-injective, List, [], ◌∷◌, arith,
  Bool-cases, Text, Result, ok, ℤ,
}
use skywalking_infra_e2e.Paths.{Settings}
use skywalking_infra_e2e.Config.{VerifyCase, Verify}
use skywalking_infra_e2e.Output.{Printer}
use skywalking_infra_e2e.Output.Counts.{Verdict, passed, failed, skipped}
use skywalking_infra_e2e.Verifier.{Engine}
use skywalking_infra_e2e.Verify.{World, VerifyInfo, parse_interval}
use skywalking_infra_e2e.Verify.Serial.{Outcome, conclude, verify_cases_serially}
use skywalking_infra_e2e.Verify.Concurrent.{
  System, run, launch, finished, results, verify_cases_concurrently,
}
use skywalking_infra_e2e.Verify.Concurrent.Invariant.{Inv, run-Inv}
use skywalking_infra_e2e.Verify.Concurrent.Claims.{
  launch-Launched, Claims, run-Launched, launch-Inv, finished-Claims, failures_of_any_failed,
}
use skywalking_infra_e2e.Verify.Concurrent.Names.{run-NamedAll, launch-NamedAll, finished-names}
use skywalking_infra_e2e.Verify.Command.{
  Flags, verify_info, verify_by_mode, do_verify_according_config, new_printer, by_concurrency,
  by_series,
}
use skywalking_infra_e2e.Verify.Contract.{Contract, any_skipped, conclude-Contract}
use skywalking_infra_e2e.Verify.Contract.Serially.{verify_cases_serially-Contract}

Claims-mono :
    (c d : Bool) (bs : List Bool) (ds : List Verdict)
    → (c ≡ true → d ≡ true)
    → Claims c bs ds
    → Claims d bs ds
Claims-mono c d [] [] h k = tt
Claims-mono c d [] (v ∷ vs) h k = absurd k
Claims-mono c d (b ∷ bs) [] h k = absurd k
Claims-mono c d (b ∷ bs) (passed ∷ vs) h (k, ks) = (k, Claims-mono c d bs vs h ks)
Claims-mono c d (b ∷ bs) (failed ∷ vs) h (k, ks) = (k, Claims-mono c d bs vs h ks)
Claims-mono c d (b ∷ bs) (skipped ∷ vs) h (k, ks) = (h k, Claims-mono c d bs vs h ks)

-- A case is skipped behind a cancelled context.
Claims-any_skipped :
    (c : Bool) (bs : List Bool) (ds : List Verdict)
    → Claims c bs ds
    → any_skipped ds ≡ true
    → c ≡ true
Claims-any_skipped c [] [] k h = cc
Claims-any_skipped c [] (v ∷ vs) k h = absurd k
Claims-any_skipped c (b ∷ bs) [] k h = absurd k
Claims-any_skipped c (b ∷ bs) (passed ∷ vs) (k, ks) h = Claims-any_skipped c bs vs ks h
Claims-any_skipped c (b ∷ bs) (failed ∷ vs) (k, ks) h = Claims-any_skipped c bs vs ks h
Claims-any_skipped c (b ∷ bs) (skipped ∷ vs) (k, ks) h = k

module _ (e : Engine) (st : Settings) (info : VerifyInfo) where
  finished-Contract :
      (p : Printer) (format : Text) (w : ℕ → ℕ → World) (schedule : List ℕ) (vs : List VerifyCase)
      → let s = run e st info w schedule (record { cancelled = false; routines = launch 0 vs }) in
        finished s.routines ≡ true
        → Contract e st info w vs (conclude p false format (results s.routines) [])
  finished-Contract p format w schedule vs f =
      let start : System = record { cancelled = false; routines = launch 0 vs } in
      let s = run e st info w schedule start in
      let inv : Inv e st info w s =
        run-Inv e st info w schedule start (launch-Inv e st info w vs) in
      let launched = run-Launched e st info w schedule 0 vs start (launch-Launched 0 vs) in
      let claims = finished-Claims e st info s.cancelled w 0 vs s.routines launched inv.sound f in
      conclude-Contract e st info w vs p format (results s.routines) []
        (finished-names 0 vs s.routines launched
          (run-NamedAll e st info w schedule start (launch-NamedAll 0 vs)) f)
        (Claims-mono s.cancelled info.fail_fast _ _ (λ c. (inv.explained c).0) claims)
        (λ h.
          failures_of_any_failed e st info s.cancelled w s.routines inv.sound f
            (inv.explained (Claims-any_skipped s.cancelled _ _ claims h)).1)

  verify_cases_concurrently-Contract :
      (p : Printer) (format : Text) (w : ℕ → ℕ → World) (schedule : List ℕ) (vs : List VerifyCase)
      {o : Outcome}
      → verify_cases_concurrently e st p info false format w schedule vs ≡ some o
      → Contract e st info w vs o
  unfolding verify_cases_concurrently
  verify_cases_concurrently-Contract p format w schedule vs {o} h =
      let s = run e st info w schedule (record { cancelled = false; routines = launch 0 vs }) in
      elim (Bool-cases (finished s.routines)) [
        | inl f ↦
            let same : conclude p false format (results s.routines) [] ≡ o = ground arith in
            rw same at (finished-Contract p format w schedule vs f)
        | inr f ↦ absurd (ground arith)
      ]

  serially_full :
      (p : Printer) (brief : Bool) (format : Text) (w : ℕ → ℕ → World) (vs : List VerifyCase)
      → brief ≡ false
      → Contract e st info w vs (verify_cases_serially e st p info brief format w vs)
  serially_full p true format w vs h = cc
  serially_full p false format w vs h = verify_cases_serially-Contract e st p info format w vs

  concurrently_full :
      (p : Printer) (brief : Bool) (format : Text) (w : ℕ → ℕ → World) (schedule : List ℕ)
      (vs : List VerifyCase) {o : Outcome}
      → brief ≡ false
      → verify_cases_concurrently e st p info brief format w schedule vs ≡ some o
      → Contract e st info w vs o
  concurrently_full p true format w schedule vs h k = cc
  concurrently_full p false format w schedule vs h k =
      verify_cases_concurrently-Contract p format w schedule vs k

moved-Contract :
    (e : Engine) (st : Settings) (info : VerifyInfo) (w : ℕ → ℕ → World) (vs : List VerifyCase)
    (o q : Outcome)
    → o ≡ q
    → Contract e st info w vs o
    → Contract e st info w vs q
moved-Contract e st info w vs o q same h = rw same at h

module _ (e : Engine) (st : Settings) (parse_duration : Text → Result ℤ) where
  verify_by_mode-Contract :
      (flags : Flags) (v : Verify) (info : VerifyInfo) (w : ℕ → ℕ → World) (schedule : List ℕ)
      {o : Outcome}
      → flags.summary_only ≡ false
      → verify_by_mode e st parse_duration flags v info w schedule ≡ some o
      → Contract e st info w v.cases o
  verify_by_mode-Contract flags v info w schedule {o} full h = elim (Bool-cases v.concurrency) [
    | inl c ↦
        concurrently_full e st info _ flags.summary_only flags.format w schedule v.cases full
          (sym (by_concurrency e st parse_duration flags v info w schedule c) ∙ h)
    | inr c ↦
        moved-Contract e st info w v.cases _ o
          (some-injective _ _ (sym (by_series e st parse_duration flags v info w schedule c) ∙ h))
          (serially_full e st info (new_printer flags.batch_mode flags.summary_only)
            flags.summary_only flags.format w v.cases full)
  ]

  -- Without summary-only, with an interval that can be read and a configuration that was loaded, a
  -- command that returns keeps the contract of verification in both modes, under every schedule:
  -- the i-th result has the name of the i-th case, a case that is not skipped passed exactly where
  -- the case is verified within its retries, cases are skipped in fail-fast mode only and where
  -- another one failed, and the error is that of the number of failed cases.
  pub do_verify_according_config-Contract :
      (flags : Flags) (v : Verify) (w : ℕ → ℕ → World) (schedule : List ℕ) {interval : ℤ}
      {o : Outcome}
      → flags.summary_only ≡ false
      → parse_interval parse_duration v.retry_strategy.interval ≡ ok interval
      → do_verify_according_config e st parse_duration flags none v w schedule ≡ some o
      → Contract e st (verify_info v interval) w v.cases o
  unfolding do_verify_according_config
  do_verify_according_config-Contract flags v w schedule {interval} {o} full read h =
      verify_by_mode-Contract flags v (verify_info v interval) w schedule {o = o} full
        (ground arith)
