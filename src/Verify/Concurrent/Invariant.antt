-- ===== src/Verify/Concurrent/Invariant.antt =====
-- The invariant of all goroutines of the concurrent mode.
use skywalking_infra_e2e.Base.{
  ℕ, zero, suc, ◌≡◌, ◌⊎◌, Bool, true, false, ◌||◌, List, [], ◌∷◌, is_some, arith,
}
use skywalking_infra_e2e.Paths.{Settings}
use skywalking_infra_e2e.Config.{VerifyCase}
use skywalking_infra_e2e.Verifier.{Engine}
use skywalking_infra_e2e.Verify.{World, VerifyInfo}
use skywalking_infra_e2e.Verify.Concurrent.{
  Routine, waiting, entered, looping, trying, returning, done, Goroutine, System, advance, turn,
  run,
}
use skywalking_infra_e2e.Verify.Concurrent.Soundness.{Sound, Sound-mono, advance-Sound}

abbrev pub failed_done : Routine → Bool
failed_done (done res) = is_some res.error
failed_done _ = false

-- Some goroutine is finished with an error.
abbrev pub any_failed : List Goroutine → Bool
any_failed [] = false
any_failed (g ∷ gs) = failed_done g.state || any_failed gs

module _ (e : Engine) (st : Settings) (info : VerifyInfo) where
  abbrev pub SoundAll : Bool → (ℕ → ℕ → World) → List Goroutine → Type 0
  SoundAll c w [] = Unit
  SoundAll c w (g ∷ gs) = Sound e st info c (w g.index) g.verify_case g.state × SoundAll c w gs

  SoundAll-mono :
      (c c' : Bool) (w : ℕ → ℕ → World) (gs : List Goroutine)
      → (c ≡ true → c' ≡ true)
      → SoundAll c w gs
      → SoundAll c' w gs
  SoundAll-mono c c' w [] h k = tt
  SoundAll-mono c c' w (g ∷ gs) h k = (
    Sound-mono e st info c c' (w g.index) g.verify_case g.state h k.0,
    SoundAll-mono c c' w gs h k.1,
  )

  advance_keeps :
      (c : Bool) (w : ℕ → World) (v : VerifyCase) (r : Routine)
      → c ≡ true
      → (advance e st info c w v r).1 ≡ true
  unfolding advance
  advance_keeps c w v waiting h = ground arith
  advance_keeps c w v _ h = ground arith

  turn_keeps :
      (c : Bool) (w : ℕ → ℕ → World) (i : ℕ) (gs : List Goroutine)
      → c ≡ true
      → (turn e st info c w i gs).1 ≡ true
  unfolding turn
  turn_keeps c w i [] h = h
  turn_keeps c w zero (g ∷ gs) h = advance_keeps c (w g.index) g.verify_case g.state h
  turn_keeps c w (suc i) (g ∷ gs) h = turn_keeps c w i gs h

  turn-SoundAll :
      (c : Bool) (w : ℕ → ℕ → World) (i : ℕ) (gs : List Goroutine)
      → SoundAll c w gs
      → SoundAll (turn e st info c w i gs).1 w (turn e st info c w i gs).0
  unfolding turn
  turn-SoundAll c w i [] h = tt
  turn-SoundAll c w zero (g ∷ gs) h =
      let (s, c') = advance e st info c (w g.index) g.verify_case g.state in
      let keeps = advance_keeps c (w g.index) g.verify_case g.state in
      (
        Sound-mono e st info c c' (w g.index) g.verify_case s keeps
            (advance-Sound e st info c (w g.index) g.verify_case g.state h.0),
        SoundAll-mono c c' w gs keeps h.1,
      )
  turn-SoundAll c w (suc i) (g ∷ gs) h = (
    Sound-mono e st info c (turn e st info c w i gs).1 (w g.index) g.verify_case g.state
        (turn_keeps c w i gs) h.0,
    turn-SoundAll c w i gs h.1,
  )

  advance_explained :
      (c : Bool) (w : ℕ → World) (v : VerifyCase) (r : Routine)
      → ((advance e st info c w v r).1 ≡ true
          → (c ≡ true)
            ⊎ ((info.fail_fast ≡ true) × (failed_done (advance e st info c w v r).0 ≡ true)))
        × (failed_done r ≡ true → failed_done (advance e st info c w v r).0 ≡ true)
  unfolding advance
  advance_explained c w v waiting = ground arith
  advance_explained c w v entered = ground arith
  advance_explained c w v (looping k res) = ground arith
  advance_explained c w v (trying k res) = ground arith
  advance_explained c w v (returning res) = ground arith
  advance_explained c w v (done res) = ground arith

  turn_explained :
      (c : Bool) (w : ℕ → ℕ → World) (i : ℕ) (gs : List Goroutine)
      → ((turn e st info c w i gs).1 ≡ true
          → (c ≡ true)
            ⊎ ((info.fail_fast ≡ true) × (any_failed (turn e st info c w i gs).0 ≡ true)))
        × (any_failed gs ≡ true → any_failed (turn e st info c w i gs).0 ≡ true)
  unfolding turn
  turn_explained c w i [] = ground arith
  turn_explained c w zero (g ∷ gs) =
      ground (arith, advance_explained c (w g.index) g.verify_case g.state)
  turn_explained c w (suc i) (g ∷ gs) = ground (arith, turn_explained c w i gs)

  -- The invariant of the system. A cancelled context has a failed case in fail-fast mode behind it.
  pub record Inv (w : ℕ → ℕ → World) (s : System) : Type 0 where
    pub sound : SoundAll s.cancelled w s.routines
    pub explained : s.cancelled ≡ true → (info.fail_fast ≡ true) × (any_failed s.routines ≡ true)

  -- Every schedule keeps the invariant.
  pub run-Inv :
      (w : ℕ → ℕ → World) (schedule : List ℕ) (s : System)
      → Inv w s
      → Inv w (run e st info w schedule s)
  unfolding run
  run-Inv w [] s h = h
  run-Inv w (i ∷ is) s h =
      let (gs, c) = turn e st info s.cancelled w i s.routines in
      let (why, kept) = turn_explained s.cancelled w i s.routines in
      run-Inv w is (record { cancelled = c; routines = gs })
        (record {
          sound = turn-SoundAll s.cancelled w i s.routines h.sound;
          explained = λ now. ground (arith, why now, h.explained);
        })
