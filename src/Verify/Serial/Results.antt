-- ===== src/Verify/Serial/Results.antt =====
-- The results of the serial mode, and what the command returns in it.
use skywalking_infra_e2e.Base.{
  ℕ, suc, ◌+◌, ◌≡◌, refl, ◌∙◌, ap, ap₂, sym, ◌↔◌, inl, inr, Bool, true, false, none, List, [], ◌∷◌,
  ◌++◌, map, Text, Bool-cases, arith, length, if◌then◌else◌,
}
use skywalking_infra_e2e.Paths.{Settings}
use skywalking_infra_e2e.Config.{VerifyCase}
use skywalking_infra_e2e.Output.{CaseResult, Printer, SpinnerCall}
use skywalking_infra_e2e.Output.Counts.{
  Verdict, passed, failed, skipped, verdict, count, print_result_counts,
}
use skywalking_infra_e2e.Verifier.{Engine}
use skywalking_infra_e2e.Verify.{World, VerifyInfo}
use skywalking_infra_e2e.Verify.Spec.{passes, passing, passes_iff, AllVerified}
use skywalking_infra_e2e.Verify.Serial.{
  CaseRun, initial, serial_case, serial_cases, conclude, verify_cases_serially,
}
use skywalking_infra_e2e.Verify.Serial.Attempts.{Judged, serial_case-Judged}

-- The verdicts from the list of the cases that pass: without fail-fast each case is judged, with
-- it the cases behind the first failure are skipped.
abbrev pub verdicts_of : Bool → List Bool → List Verdict
verdicts_of fail_fast [] = []
verdicts_of fail_fast (true ∷ bs) = passed ∷ verdicts_of fail_fast bs
verdicts_of fail_fast (false ∷ bs) =
    failed ∷ (if fail_fast then map (λ b. skipped) bs else verdicts_of fail_fast bs)

-- The last part of the command returns an error exactly where a result failed.
pub conclude_iff :
    (p : Printer) (format : Text) (res : List CaseResult) (calls : List SpinnerCall)
    → ((conclude p false format res calls).error ≡ none) ↔ (count failed res ≡ 0)
unfolding conclude
conclude_iff p format res calls = ground (arith, print_result_counts p res)

map-initial :
    (vs : List VerifyCase) (bs : List Bool)
    → length vs ≡ length bs
    → map verdict (map initial vs) ≡ map (λ b. skipped) bs
unfolding initial
map-initial [] [] h = refl
map-initial [] (b ∷ bs) h = absurd (omega arith)
map-initial (v ∷ vs) [] h = absurd (omega arith)
map-initial (v ∷ vs) (b ∷ bs) h = ap (λ l. skipped ∷ l) (map-initial vs bs (omega arith))

-- The number of failures in a list of verdicts.
abbrev pub failures : List Verdict → ℕ
failures [] = 0
failures (failed ∷ vs) = suc (failures vs)
failures (_ ∷ vs) = failures vs

failures-cons :
    (v : Verdict) (vs : List Verdict) (cr : CaseResult) (rest : List CaseResult)
    → verdict cr ≡ v
    → count failed rest ≡ failures vs
    → count failed (cr ∷ rest) ≡ failures (v ∷ vs)
failures-cons passed vs cr rest e h = rw e (omega (arith, h))
failures-cons failed vs cr rest e h = rw e (omega (arith, h))
failures-cons skipped vs cr rest e h = rw e (omega (arith, h))

pub count-failures : (res : List CaseResult) → count failed res ≡ failures (map verdict res)
count-failures [] = refl
count-failures (cr ∷ rest) =
    failures-cons (verdict cr) (map verdict rest) cr rest refl (count-failures rest)

-- One step of the loop over the cases.
verdicts-step :
    (fail_fast good : Bool) (r : CaseRun) (vs : List VerifyCase) (bs : List Bool)
    (rest : List CaseResult × List SpinnerCall)
    → Judged fail_fast good r
    → map verdict (map initial vs) ≡ map (λ b. skipped) bs
    → map verdict rest.0 ≡ verdicts_of fail_fast bs
    → let next : List CaseResult × List SpinnerCall =
        if r.returned
        then (r.res ∷ map initial vs, r.calls)
        else (r.res ∷ rest.0, r.calls ++ rest.1) in
      map verdict next.0 ≡ verdicts_of fail_fast (good ∷ bs)
verdicts-step fail_fast true r vs bs rest (a, b) h k = rw b (ap₂ (λ x y. x ∷ y) a k)
verdicts-step true false r vs bs rest (a, b) h k = rw b (ap₂ (λ x y. x ∷ y) a h)
verdicts-step false false r vs bs rest (a, b) h k = rw b (ap₂ (λ x y. x ∷ y) a k)

module _ (e : Engine) (st : Settings) (p : Printer) (info : VerifyInfo) where
  length-passing :
      (w : ℕ → ℕ → World) (i : ℕ) (vs : List VerifyCase)
      → length vs ≡ length (passing e st info w i vs)
  length-passing w i [] = refl
  length-passing w i (v ∷ vs) = ap suc (length-passing w (i + 1) vs)

  -- The verdicts of the serial mode are those of the cases that pass: each case is judged by
  -- itself, and with fail-fast all behind the first failed case are skipped.
  pub serial_cases-verdicts :
      (w : ℕ → ℕ → World) (i : ℕ) (vs : List VerifyCase)
      → map verdict (serial_cases e st p info w i vs).0
        ≡ verdicts_of info.fail_fast (passing e st info w i vs)
  unfolding serial_cases
  serial_cases-verdicts w i [] = refl
  serial_cases-verdicts w i (v ∷ vs) =
      verdicts-step info.fail_fast (passes e st info (w i) v) (serial_case e st p info (w i) v) vs
        (passing e st info w (i + 1) vs) (serial_cases e st p info w (i + 1) vs)
        (serial_case-Judged e st p info (w i) v)
        (map-initial vs (passing e st info w (i + 1) vs) (length-passing w (i + 1) vs))
        (serial_cases-verdicts w (i + 1) vs)

  -- No failure in the verdicts means that every case passes.
  pub failures-verdicts_of :
      (w : ℕ → ℕ → World) (i : ℕ) (vs : List VerifyCase)
      → (failures (verdicts_of info.fail_fast (passing e st info w i vs)) ≡ 0)
        ↔ AllVerified e st info w i vs
  failures-verdicts_of w i [] = (λ h. tt, λ h. refl)
  failures-verdicts_of w i (v ∷ vs) = elim (Bool-cases (passes e st info (w i) v)) [
    | inl good ↦
        let ih = failures-verdicts_of w (i + 1) vs in
        rw good (λ h. ((passes_iff e st info (w i) v).0 good, ih.0 h), λ h. ih.1 h.1)
    | inr bad ↦
        rw bad (λ h. absurd (omega arith), λ h. cc (bad, (passes_iff e st info (w i) v).1 h.0))
  ]

  -- Without summary-only, the serial mode returns no error exactly where every case is verified:
  -- it has an expected file, and one of its attempts, the retries included, succeeds. This holds
  -- with fail-fast and without.
  pub verify_cases_serially_iff :
      (format : Text) (w : ℕ → ℕ → World) (vs : List VerifyCase)
      → ((verify_cases_serially e st p info false format w vs).error ≡ none)
        ↔ AllVerified e st info w 0 vs
  unfolding verify_cases_serially
  verify_cases_serially_iff format w vs =
      let (res, calls) = serial_cases e st p info w 0 vs in
      let (a, b) = conclude_iff p format res calls in
      let (c, d) = failures-verdicts_of w 0 vs in
      let same : count failed res
          ≡ failures (verdicts_of info.fail_fast (passing e st info w 0 vs)) =
        count-failures res ∙ ap failures (serial_cases-verdicts w 0 vs) in
      (λ h. c (sym same ∙ a h), λ h. b (same ∙ d h))
