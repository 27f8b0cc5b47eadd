-- ===== src/Verify/Concurrent/Names.antt =====
-- The names of the results of the concurrent mode.
use skywalking_infra_e2e.Base.{
  ℕ, zero, suc, ◌+◌, ◌≡◌, refl, ap₂, Bool, true, false, Option, none, some, List, [], ◌∷◌, map,
  arith, Text,
}
use skywalking_infra_e2e.Paths.{Settings}
use skywalking_infra_e2e.Config.{VerifyCase}
use skywalking_infra_e2e.Output.{CaseResult}
use skywalking_infra_e2e.Verifier.{Engine}
use skywalking_infra_e2e.Verify.{World, VerifyInfo, case_name}
use skywalking_infra_e2e.Verify.Concurrent.{
  Routine, waiting, entered, looping, trying, returning, done, Goroutine, System, fresh, round_of,
  advance, turn, run, launch, finished, results,
}
use skywalking_infra_e2e.Verify.Concurrent.Claims.{Launched, finished_cons, results_of_done}

abbrev pub result_name : CaseResult → Text
result_name res = res.name

abbrev Named : VerifyCase → Routine → Type 0
Named v (looping k res) = res.name ≡ case_name v
Named v (trying k res) = res.name ≡ case_name v
Named v (returning res) = res.name ≡ case_name v
Named v (done res) = res.name ≡ case_name v
Named v _ = Unit

abbrev pub NamedAll : List Goroutine → Type 0
NamedAll [] = Unit
NamedAll (g ∷ gs) = Named g.verify_case g.state × NamedAll gs

module _ (e : Engine) (st : Settings) (info : VerifyInfo) where
  round_of-Named :
      (v : VerifyCase) (k : ℕ) (res : CaseResult) (d : Text) (x : Option Text)
      → res.name ≡ case_name v
      → Named v (round_of e st info v k res d x)
  unfolding round_of
  round_of-Named v k res d none h = h
  round_of-Named v k res d (some x) h = ground arith

  advance-Named :
      (c : Bool) (w : ℕ → World) (v : VerifyCase) (r : Routine)
      → Named v r
      → Named v (advance e st info c w v r).0
  unfolding advance fresh
  advance-Named true w v waiting h = refl
  advance-Named false w v waiting h = tt
  advance-Named c w v entered h = ground arith
  advance-Named c w v (looping k res) h = ground arith
  advance-Named c w v (trying k res) h = round_of-Named v k res _ _ h
  advance-Named c w v (returning res) h = h
  advance-Named c w v (done res) h = h

  turn-NamedAll :
      (c : Bool) (w : ℕ → ℕ → World) (i : ℕ) (gs : List Goroutine)
      → NamedAll gs
      → NamedAll (turn e st info c w i gs).0
  unfolding turn
  turn-NamedAll c w i [] h = h
  turn-NamedAll c w zero (g ∷ gs) (h, hs) =
      (advance-Named c (w g.index) g.verify_case g.state h, hs)
  turn-NamedAll c w (suc i) (g ∷ gs) (h, hs) = (h, turn-NamedAll c w i gs hs)

  pub run-NamedAll :
      (w : ℕ → ℕ → World) (schedule : List ℕ) (s : System)
      → NamedAll s.routines
      → NamedAll (run e st info w schedule s).routines
  unfolding run
  run-NamedAll w [] s h = h
  run-NamedAll w (i ∷ is) s h =
      let (gs, c) = turn e st info s.cancelled w i s.routines in
      run-NamedAll w is (record { cancelled = c; routines = gs })
        (turn-NamedAll s.cancelled w i s.routines h)

pub launch-NamedAll : (i : ℕ) (vs : List VerifyCase) → NamedAll (launch i vs)
unfolding launch
launch-NamedAll i [] = tt
launch-NamedAll i (v ∷ vs) = (tt, launch-NamedAll (i + 1) vs)

pub finished-names :
    (i : ℕ) (vs : List VerifyCase) (gs : List Goroutine)
    → Launched i vs gs
    → NamedAll gs
    → finished gs ≡ true
    → map result_name (results gs) ≡ map case_name vs
unfolding results
finished-names i [] [] l h f = refl
finished-names i [] (g ∷ gs) l h f = absurd l
finished-names i (v ∷ vs) [] l h f = absurd l
finished-names i (v ∷ vs) (g ∷ gs) (a, b, l) (h, hs) f =
    let (res, eq, more) = finished_cons g gs f in
    let own : res.name ≡ case_name v = rw eq at (rw b at h) in
    rw (results_of_done g gs res eq)
      (ap₂ (λ n t. n ∷ t) own (finished-names (i + 1) vs gs l hs more))
