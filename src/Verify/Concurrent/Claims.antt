-- ===== src/Verify/Concurrent/Claims.antt =====
-- What the results of the finished goroutines say of the cases.
use skywalking_infra_e2e.Base.{
  ℕ, zero, suc, ◌+◌, ◌<◌, ◌≡◌, refl, ◌⊎◌, ap, Bool, true, false, List, [], ◌∷◌, map, is_some, arith,
}
use skywalking_infra_e2e.Paths.{Settings}
use skywalking_infra_e2e.Config.{VerifyCase}
use skywalking_infra_e2e.Output.{CaseResult}
use skywalking_infra_e2e.Output.Counts.{Verdict, passed, failed, skipped, verdict}
use skywalking_infra_e2e.Verifier.{Engine}
use skywalking_infra_e2e.Verify.{World, VerifyInfo}
use skywalking_infra_e2e.Verify.Spec.{passing, passes_iff, AllVerified}
use skywalking_infra_e2e.Verify.Serial.Results.{verdicts_of, failures}
use skywalking_infra_e2e.Verify.Concurrent.{
  done, Goroutine, System, turn, run, launch, finished, results,
}
use skywalking_infra_e2e.Verify.Concurrent.Soundness.{Claim, Sound}
use skywalking_infra_e2e.Verify.Concurrent.Invariant.{SoundAll, any_failed, Inv}

-- The goroutines are those of the cases, in order.
abbrev pub Launched : ℕ → List VerifyCase → List Goroutine → Type 0
Launched i [] [] = Unit
Launched i (v ∷ vs) (g ∷ gs) = (g.index ≡ i) × (g.verify_case ≡ v) × Launched (i + 1) vs gs
Launched i _ _ = ⊥

pub launch-Launched : (i : ℕ) (vs : List VerifyCase) → Launched i vs (launch i vs)
unfolding launch
launch-Launched i [] = tt
launch-Launched i (v ∷ vs) = (refl, refl, launch-Launched (i + 1) vs)

-- Each verdict is sound for its case.
abbrev pub Claims : Bool → List Bool → List Verdict → Type 0
Claims c [] [] = Unit
Claims c (b ∷ bs) (v ∷ vs) = Claim c b v × Claims c bs vs
Claims c _ _ = ⊥

-- Where nothing was cancelled, the verdicts are those of the cases that pass.
pub Claims-verdicts_of :
    (c : Bool) (bs : List Bool) (vs : List Verdict)
    → c ≡ false
    → Claims c bs vs
    → vs ≡ verdicts_of false bs
Claims-verdicts_of c [] [] h k = refl
Claims-verdicts_of c [] (v ∷ vs) h k = absurd k
Claims-verdicts_of c (b ∷ bs) [] h k = absurd k
Claims-verdicts_of c (b ∷ bs) (passed ∷ vs) h (k, ks) =
    rw k (ap (λ l. passed ∷ l) (Claims-verdicts_of c bs vs h ks))
Claims-verdicts_of c (b ∷ bs) (failed ∷ vs) h (k, ks) =
    rw k (ap (λ l. failed ∷ l) (Claims-verdicts_of c bs vs h ks))
Claims-verdicts_of c (b ∷ bs) (skipped ∷ vs) h (k, ks) = cc

pub results_of_done :
    (g : Goroutine) (gs : List Goroutine) (res : CaseResult)
    → g.state ≡ done res
    → results (g ∷ gs) ≡ res ∷ results gs
unfolding results
results_of_done g gs res h = ground arith

pub finished_cons :
    (g : Goroutine) (gs : List Goroutine)
    → finished (g ∷ gs) ≡ true
    → (res : CaseResult) × (g.state ≡ done res) × (finished gs ≡ true)
unfolding finished
finished_cons g gs h = ground arith

module _ (e : Engine) (st : Settings) (info : VerifyInfo) where
  turn-Launched :
      (c : Bool) (w : ℕ → ℕ → World) (j i : ℕ) (vs : List VerifyCase) (gs : List Goroutine)
      → Launched i vs gs
      → Launched i vs (turn e st info c w j gs).0
  unfolding turn
  turn-Launched c w j i [] [] h = h
  turn-Launched c w j i [] (g ∷ gs) h = absurd h
  turn-Launched c w j i (v ∷ vs) [] h = absurd h
  turn-Launched c w zero i (v ∷ vs) (g ∷ gs) h = h
  turn-Launched c w (suc j) i (v ∷ vs) (g ∷ gs) (a, b, h) =
      (a, b, turn-Launched c w j (i + 1) vs gs h)

  pub run-Launched :
      (w : ℕ → ℕ → World) (schedule : List ℕ) (i : ℕ) (vs : List VerifyCase) (s : System)
      → Launched i vs s.routines
      → Launched i vs (run e st info w schedule s).routines
  unfolding run
  run-Launched w [] i vs s h = h
  run-Launched w (j ∷ js) i vs s h =
      let (gs, c) = turn e st info s.cancelled w j s.routines in
      run-Launched w js i vs (record { cancelled = c; routines = gs })
        (turn-Launched s.cancelled w j i vs s.routines h)

  launch-SoundAll :
      (w : ℕ → ℕ → World) (i : ℕ) (vs : List VerifyCase) → SoundAll e st info false w (launch i vs)
  unfolding launch
  launch-SoundAll w i [] = tt
  launch-SoundAll w i (v ∷ vs) = (tt, launch-SoundAll w (i + 1) vs)

  pub launch-Inv :
      (w : ℕ → ℕ → World) (vs : List VerifyCase)
      → Inv e st info w (record { cancelled = false; routines = launch 0 vs })
  launch-Inv w vs = record { sound = launch-SoundAll w 0 vs; explained = λ h. cc }

  pub finished-Claims :
      (c : Bool) (w : ℕ → ℕ → World) (i : ℕ) (vs : List VerifyCase) (gs : List Goroutine)
      → Launched i vs gs
      → SoundAll e st info c w gs
      → finished gs ≡ true
      → Claims c (passing e st info w i vs) (map verdict (results gs))
  unfolding finished results
  finished-Claims c w i [] [] l s f = tt
  finished-Claims c w i [] (g ∷ gs) l s f = absurd l
  finished-Claims c w i (v ∷ vs) [] l s f = absurd l
  finished-Claims c w i (v ∷ vs) (g ∷ gs) (a, b, l) (s, ss) f =
      let (res, eq, more) = finished_cons g gs f in
      let sound : Sound e st info c (w i) v (done res) = rw eq at (rw a at (rw b at s)) in
      rw (results_of_done g gs res eq) (sound.0, finished-Claims c w (i + 1) vs gs l ss more)

  failures-cons_of_failed :
      (c good : Bool) (res : CaseResult) (rest : List Verdict)
      → Claim c good (verdict res) × (is_some res.error ≡ true → res.skip ≡ false)
      → (is_some res.error ≡ true) ⊎ (0 < failures rest)
      → 0 < failures (verdict res ∷ rest)
  failures-cons_of_failed c good res rest (k, l) h = ground arith

  -- A finished goroutine with an error is counted as failed.
  pub failures_of_any_failed :
      (c : Bool) (w : ℕ → ℕ → World) (gs : List Goroutine)
      → SoundAll e st info c w gs
      → finished gs ≡ true
      → any_failed gs ≡ true
      → 0 < failures (map verdict (results gs))
  failures_of_any_failed c w [] s f h = cc
  failures_of_any_failed c w (g ∷ gs) (s, ss) f h =
      let (res, eq, more) = finished_cons g gs f in
      rw (results_of_done g gs res eq) (
        failures-cons_of_failed c _ res (map verdict (results gs)) (rw eq at s)
          (ground (arith, failures_of_any_failed c w gs ss more)))

  -- With no failure, and none behind a cancelled context, every case passes; and the converse.
  pub Claims-AllVerified :
      (c : Bool) (w : ℕ → ℕ → World) (i : ℕ) (vs : List VerifyCase) (ds : List Verdict)
      → Claims c (passing e st info w i vs) ds
      → c ≡ false
      → failures ds ≡ 0
      → AllVerified e st info w i vs
  Claims-AllVerified c w i [] [] k h z = tt
  Claims-AllVerified c w i [] (d ∷ ds) k h z = absurd k
  Claims-AllVerified c w i (v ∷ vs) [] k h z = absurd k
  Claims-AllVerified c w i (v ∷ vs) (passed ∷ ds) (k, ks) h z =
      ((passes_iff e st info (w i) v).0 k, Claims-AllVerified c w (i + 1) vs ds ks h z)
  Claims-AllVerified c w i (v ∷ vs) (failed ∷ ds) k h z = absurd (omega arith)
  Claims-AllVerified c w i (v ∷ vs) (skipped ∷ ds) (k, ks) h z = cc

  pub AllVerified-failures :
      (c : Bool) (w : ℕ → ℕ → World) (i : ℕ) (vs : List VerifyCase) (ds : List Verdict)
      → Claims c (passing e st info w i vs) ds
      → AllVerified e st info w i vs
      → failures ds ≡ 0
  AllVerified-failures c w i [] [] k h = refl
  AllVerified-failures c w i [] (d ∷ ds) k h = absurd k
  AllVerified-failures c w i (v ∷ vs) [] k h = absurd k
  AllVerified-failures c w i (v ∷ vs) (passed ∷ ds) (k, ks) (h, hs) =
      AllVerified-failures c w (i + 1) vs ds ks hs
  AllVerified-failures c w i (v ∷ vs) (failed ∷ ds) (k, ks) (h, hs) =
      let good = (passes_iff e st info (w i) v).1 h in cc
  AllVerified-failures c w i (v ∷ vs) (skipped ∷ ds) (k, ks) (h, hs) =
      AllVerified-failures c w (i + 1) vs ds ks hs
