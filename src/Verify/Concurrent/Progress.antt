-- ===== src/Verify/Concurrent/Progress.antt =====
-- The turns that the goroutines of `verifyCasesConcurrently` need (commands/verify/verify.go).
use skywalking_infra_e2e.Base.{
  ℕ, zero, suc, ◌+◌, ◌-◌, ◌*◌, ◌≤◌, ◌<◌, ◌≡◌, refl, Bool, true, false, some, List, [], ◌∷◌, arith,
  ltb, Text, length, ◌==◌, if◌then◌else◌,
}
use skywalking_infra_e2e.Paths.{Settings}
use skywalking_infra_e2e.Config.{VerifyCase}
use skywalking_infra_e2e.Output.{Printer}
use skywalking_infra_e2e.Verify.Serial.{Outcome, conclude}
use skywalking_infra_e2e.Verifier.{Engine}
use skywalking_infra_e2e.Verify.{World, VerifyInfo}
use skywalking_infra_e2e.Verify.Concurrent.{
  Routine, waiting, entered, looping, trying, returning, done, Goroutine, System, advance, turn,
  run, is_done, finished, results, launch, verify_cases_concurrently,
}

-- How many turns the schedule gives to the i-th goroutine.
abbrev pub turns : ℕ → List ℕ → ℕ
turns i [] = 0
turns i (j ∷ js) = (if i == j then 1 else 0) + turns i js

module _ (e : Engine) (st : Settings) (info : VerifyInfo) where
  -- A bound on the turns that a goroutine still needs.
  abbrev weight : Routine → ℕ
  weight waiting = 2 * info.retry_count + 6
  weight entered = 2 * info.retry_count + 5
  weight (looping k res) = 2 * (info.retry_count + 1 - k) + 2
  weight (trying k res) = 2 * (info.retry_count - k) + 3
  weight (returning res) = 1
  weight (done res) = 0

  abbrev weight_at : ℕ → List Goroutine → ℕ
  weight_at i [] = 0
  weight_at zero (g ∷ gs) = weight g.state
  weight_at (suc i) (g ∷ gs) = weight_at i gs

  weight-advance :
      (c : Bool) (w : ℕ → World) (v : VerifyCase) (r : Routine)
      → weight (advance e st info c w v r).0 ≤ weight r - 1
  unfolding advance
  weight-advance c w v waiting = ground arith
  weight-advance c w v entered = ground arith
  weight-advance c w v (looping k res) = ground arith
  weight-advance c w v (trying k res) = ground arith
  weight-advance c w v (returning res) = ground arith
  weight-advance c w v (done res) = ground arith

  weight_at-turn :
      (c : Bool) (w : ℕ → ℕ → World) (i j : ℕ) (gs : List Goroutine)
      → weight_at i (turn e st info c w j gs).0 ≤ weight_at i gs - (if i == j then 1 else 0)
  unfolding turn
  weight_at-turn c w i j [] = ground arith
  weight_at-turn c w zero zero (g ∷ gs) = weight-advance c (w g.index) g.verify_case g.state
  weight_at-turn c w zero (suc j) (g ∷ gs) = ground arith
  weight_at-turn c w (suc i) zero (g ∷ gs) = ground arith
  weight_at-turn c w (suc i) (suc j) (g ∷ gs) = ground (arith, weight_at-turn c w i j gs)

  weight_at-run :
      (w : ℕ → ℕ → World) (i : ℕ) (schedule : List ℕ) (s : System)
      → weight_at i (run e st info w schedule s).routines
        ≤ weight_at i s.routines - turns i schedule
  unfolding run
  weight_at-run w i [] s = omega arith
  weight_at-run w i (j ∷ js) s =
      let (gs, c) = turn e st info s.cancelled w j s.routines in
      omega (
        arith,
        weight_at-run w i js (record { cancelled = c; routines = gs }),
        weight_at-turn s.cancelled w i j s.routines,
      )

  weight_at-launch :
      (i j : ℕ) (vs : List VerifyCase)
      → weight_at i (launch j vs) ≤ (if ltb i (length vs) then 2 * info.retry_count + 6 else 0)
  unfolding launch
  weight_at-launch i j [] = ground arith
  weight_at-launch zero j (v ∷ vs) = ground arith
  weight_at-launch (suc i) j (v ∷ vs) = ground (arith, weight_at-launch i (j + 1) vs)

  weightless : (r : Routine) → weight r ≡ 0 → is_done r ≡ true
  weightless (done res) h = refl
  weightless waiting h = absurd (omega arith)
  weightless entered h = absurd (omega arith)
  weightless (looping k res) h = absurd (omega arith)
  weightless (trying k res) h = absurd (omega arith)
  weightless (returning res) h = absurd (omega arith)

  finished_of_weights : (gs : List Goroutine) → ((i : ℕ) → weight_at i gs ≡ 0) → finished gs ≡ true
  unfolding finished
  finished_of_weights [] h = refl
  finished_of_weights (g ∷ gs) h =
      rw (weightless g.state (h 0)) (finished_of_weights gs (λ i. h (suc i)))

  -- The concurrent mode returns under every schedule that gives each goroutine `2 * retries + 6`
  -- turns, in whatever order.
  pub verify_cases_concurrently_returns :
      (p : Printer) (summary_only : Bool) (format : Text) (w : ℕ → ℕ → World) (schedule : List ℕ)
      (vs : List VerifyCase)
      → ((i : ℕ) → i < length vs → 2 * info.retry_count + 6 ≤ turns i schedule)
      → (o : Outcome) × (verify_cases_concurrently e st p info summary_only format w schedule vs
          ≡ some o)
  unfolding verify_cases_concurrently
  verify_cases_concurrently_returns p summary_only format w schedule vs enough =
      let s = run e st info w schedule (record { cancelled = false; routines = launch 0 vs }) in
      let all_done : finished s.routines ≡ true = finished_of_weights s.routines λ i.
        spent i (weight_at-run w i schedule (record { cancelled = false; routines = launch 0 vs }))
          (weight_at-launch i 0 vs) (enough i) in
      (conclude p summary_only format (results s.routines) [], rw all_done)
    where
      spent :
          (i : ℕ) {a b : ℕ}
          → a ≤ b - turns i schedule
          → b ≤ (if ltb i (length vs) then 2 * info.retry_count + 6 else 0)
          → (i < length vs → 2 * info.retry_count + 6 ≤ turns i schedule)
          → a ≡ 0
      spent i h k l = ground arith
