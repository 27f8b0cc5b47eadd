-- ===== src/Verify/Concurrent.antt =====
-- `verifyCasesConcurrently` and `concurrentlyVerifySingleCase` (commands/verify/verify.go): one
-- goroutine for each case, and the context that they share. The scheduler is a list of turns.
pub mod Progress
pub mod Soundness
pub mod Invariant
pub mod Claims
pub mod Names
pub mod Results
use skywalking_infra_e2e.Base.{
  ℕ, zero, suc, ◌+◌, Bool, true, false, not, ◌&&◌, ◌||◌, Option, none, some, List, [], ◌∷◌, ◌++◌,
  Text, codes, is_empty, is_some, itoa_nat, all, leb, ◌==◌, if◌then◌else◌,
}
use skywalking_infra_e2e.Paths.{Settings}
use skywalking_infra_e2e.Config.{VerifyCase, get_expected, get_actual}
use skywalking_infra_e2e.Output.{CaseResult, Printer}
use skywalking_infra_e2e.Verifier.{Engine}
use skywalking_infra_e2e.Verify.{World, VerifyInfo, verify_single_case, case_name, not_specified}
use skywalking_infra_e2e.Verify.Serial.{Outcome, conclude}

-- Where a goroutine stands: before its first look at the context; in the function, before the
-- test of the expected file; at the head of the loop; behind the `select` of a round; behind a
-- return, with the deferred call to come; finished.
pub data Routine : Type 0 where
  waiting entered : Routine
  looping trying : ℕ → CaseResult → Routine
  returning done : CaseResult → Routine

-- `res` as the function starts with it.
unfoldable pub fresh : VerifyCase → CaseResult
fresh v = record { name = case_name v; msg = []; error = none; skip = false }

unfoldable pub verified_msg : VerifyCase → ℕ → Text
verified_msg v current =
    codes "verified "
    ++ (case_name v
        ++ (if current == 0
            then codes "\n"
            else codes ", retried " ++ (itoa_nat current ++ codes " time(s)\n")))

unfoldable pub failed_msg : VerifyCase → ℕ → Text → Text
failed_msg v current d =
    codes "failed to verify "
    ++ (case_name v
        ++ (codes ", retried "
            ++ (itoa_nat current
                ++ (codes " time(s):"
                    ++ (if is_empty d
                        then []
                        else codes " the actual data is:\n" ++ (d ++ codes "\n"))))))

-- A goroutine with its index and its case.
pub record Goroutine : Type 0 where
  pub index : ℕ
  pub verify_case : VerifyCase
  pub state : Routine

pub record System : Type 0 where
  pub cancelled : Bool
  pub routines : List Goroutine

module _ (e : Engine) (st : Settings) (info : VerifyInfo) where
  -- The round behind the `select`, with the data and the error of the attempt.
  round_of : VerifyCase → ℕ → CaseResult → Text → Option Text → Routine
  round_of v k res d none = returning (record res { msg = verified_msg v k })
  round_of v k res d (some x) =
      if not (k == info.retry_count)
      then looping (k + 1) res
      else looping (k + 1) (record res { msg = failed_msg v k d; error = some x })

  -- The next step of a goroutine, and whether the context is cancelled after it.
  unfoldable pub advance : Bool → (ℕ → World) → VerifyCase → Routine → Routine × Bool
  unfolding round_of
  advance c w v waiting = if c then (done (record (fresh v) { skip = true }), c) else (entered, c)
  advance c w v entered =
      if is_empty (get_expected st v)
      then (
        returning (record (fresh v) {
          msg = codes "failed to verify " ++ (case_name v ++ codes ":");
          error = some (not_specified v);
        }),
        c,
      )
      else (looping 0 (fresh v), c)
  advance c w v (looping k res) =
      if leb k info.retry_count
      then (if c then returning (record res { skip = true }) else trying k res, c)
      else (returning res, c)
  advance c w v (trying k res) =
      let (d, x) = verify_single_case e (w k) (get_expected st v) (get_actual st v) v.query in
      (round_of v k res d x, c)
  advance c w v (returning res) = (done res, c || (is_some res.error && info.fail_fast))
  advance c w v (done res) = (done res, c)

  -- A turn of the i-th goroutine.
  unfoldable pub turn : Bool → (ℕ → ℕ → World) → ℕ → List Goroutine → List Goroutine × Bool
  turn c w i [] = ([], c)
  turn c w zero (g ∷ gs) =
      let (s, c') = advance c (w g.index) g.verify_case g.state in (record g { state = s } ∷ gs, c')
  turn c w (suc i) (g ∷ gs) = let (gs', c') = turn c w i gs in (g ∷ gs', c')

  -- The turns that the scheduler gives, in order.
  unfoldable pub run : (ℕ → ℕ → World) → List ℕ → System → System
  run w [] s = s
  run w (i ∷ is) s =
      let (gs, c) = turn s.cancelled w i s.routines in
      run w is (record { cancelled = c; routines = gs })

abbrev is_done : Routine → Bool
is_done (done res) = true
is_done _ = false

-- wg.Wait returns.
unfoldable pub finished : List Goroutine → Bool
finished = all (λ g. is_done g.state)

-- The results of the finished goroutines, in the order of the cases.
unfoldable pub results : List Goroutine → List CaseResult
results [] = []
results (g ∷ gs) = let rest = results gs in elim g.state [ done res ↦ res ∷ rest | _ ↦ rest ]

unfoldable pub launch : ℕ → List VerifyCase → List Goroutine
launch i [] = []
launch i (v ∷ vs) = record { index = i; verify_case = v; state = waiting } ∷ launch (i + 1) vs

-- `verifyCasesConcurrently` under a schedule: `none` while the goroutines are not finished.
unfoldable pub verify_cases_concurrently :
    Engine
    → Settings
    → Printer
    → VerifyInfo
    → Bool
    → Text
    → (ℕ → ℕ → World)
    → List ℕ
    → List VerifyCase
    → Option Outcome
verify_cases_concurrently e st p info summary_only format w schedule cases =
    let s = run e st info w schedule (record { cancelled = false; routines = launch 0 cases }) in
    if finished s.routines
    then some (conclude p summary_only format (results s.routines) [])
    else none
