-- ===== src/Verify/Concurrent/Soundness.antt =====
-- The invariant of one goroutine: what it knows of its case.
use skywalking_infra_e2e.Base.{
  ℕ, zero, suc, ◌+◌, ◌≡◌, refl, ◌∙◌, inl, inr, Bool, true, false, Option, none, some, Text,
  is_empty, is_some, Bool-cases, arith, leb, ◌==◌,
}
use skywalking_infra_e2e.Paths.{Settings}
use skywalking_infra_e2e.Config.{VerifyCase, get_expected}
use skywalking_infra_e2e.Output.{CaseResult}
use skywalking_infra_e2e.Output.Counts.{Verdict, passed, failed, skipped, verdict}
use skywalking_infra_e2e.Verifier.{Engine}
use skywalking_infra_e2e.Verify.{World, VerifyInfo}
use skywalking_infra_e2e.Verify.Spec.{
  first_success, first_success_nil, first_success_here, first_success_later, attempt_error, passes,
}
use skywalking_infra_e2e.Verify.Concurrent.{
  Routine, waiting, entered, looping, trying, returning, done, fresh, round_of, advance,
}

-- What a verdict says of a case that passes or not, and of the context.
abbrev pub Claim : Bool → Bool → Verdict → Type 0
Claim c good passed = good ≡ true
Claim c good failed = good ≡ false
Claim c good skipped = c ≡ true

-- A result that nobody may change any more. An error is that of a case that is not skipped.
abbrev pub Decided : Bool → Bool → CaseResult → Type 0
Decided c good res = Claim c good (verdict res) × (is_some res.error ≡ true → res.skip ≡ false)

module _ (e : Engine) (st : Settings) (info : VerifyInfo) where
  -- The attempts before the k-th have failed, and `rounds` of them are left.
  abbrev pub Pending : (ℕ → World) → VerifyCase → ℕ → ℕ → Type 0
  Pending w v k rounds =
      (is_empty (get_expected st v) ≡ false)
      × (k + rounds ≡ suc info.retry_count)
      × (first_success (attempt_error e st info w v) (suc info.retry_count) 0
          ≡ first_success (attempt_error e st info w v) rounds k)

  abbrev pub Sound : Bool → (ℕ → World) → VerifyCase → Routine → Type 0
  Sound c w v waiting = Unit
  Sound c w v entered = Unit
  Sound c w v (looping k res) =
      (rounds : ℕ) × Pending w v k rounds × (res.skip ≡ false) × (is_some res.error ≡ (rounds == 0))
  Sound c w v (trying k res) =
      (rounds : ℕ) × Pending w v k (suc rounds) × (res.skip ≡ false) × (res.error ≡ none)
  Sound c w v (returning res) = Decided c (passes e st info w v) res
  Sound c w v (done res) = Decided c (passes e st info w v) res

  passes_blank :
      (w : ℕ → World) (v : VerifyCase)
      → is_empty (get_expected st v) ≡ true
      → passes e st info w v ≡ false
  unfolding passes
  passes_blank w v h = rw h

  passes_named :
      (w : ℕ → World) (v : VerifyCase) {k : Option ℕ}
      → is_empty (get_expected st v) ≡ false
      → first_success (attempt_error e st info w v) (suc info.retry_count) 0 ≡ k
      → passes e st info w v ≡ is_some k
  unfolding passes
  passes_named w v h f = rw (h, f)

  entered-Sound :
      (c : Bool) (w : ℕ → World) (v : VerifyCase) → Sound c w v (advance e st info c w v entered).0
  unfolding advance fresh
  entered-Sound c w v = elim (Bool-cases (is_empty (get_expected st v))) [
    | inl blank ↦ rw blank (passes_blank w v blank, λ h. refl)
    | inr named ↦ rw named (suc info.retry_count, (named, omega arith, refl), refl, ground arith)
  ]

  looping-Sound :
      (c : Bool) (w : ℕ → World) (v : VerifyCase) (k : ℕ) (res : CaseResult)
      → Sound c w v (looping k res)
      → Sound c w v (advance e st info c w v (looping k res)).0
  unfolding advance
  looping-Sound c w v k res (zero, (named, h, f), skip, bad) =
      let over : leb k info.retry_count ≡ false = ground arith in
      let lost = passes_named w v named (f ∙ first_success_nil (attempt_error e st info w v) k) in
      rw over (ground arith)
  looping-Sound true w v k res (suc rounds, (named, h, f), skip, bad) =
      let more : leb k info.retry_count ≡ true = ground arith in rw more (ground arith)
  looping-Sound false w v k res (suc rounds, (named, h, f), skip, bad) =
      let more : leb k info.retry_count ≡ true = ground arith in
      rw more (rounds, (named, h, f), skip, ground arith)

  trying-Sound :
      (c : Bool) (w : ℕ → World) (v : VerifyCase) (k : ℕ) (res : CaseResult) (d : Text)
      (x : Option Text)
      → attempt_error e st info w v k ≡ x
      → Sound c w v (trying k res)
      → Sound c w v (round_of e st info v k res d x)
  unfolding round_of
  trying-Sound c w v k res d none good (rounds, (named, h, f), skip, clean) =
      let won =
        passes_named w v named
          (f ∙ first_success_here (attempt_error e st info w v) rounds k good) in
      ground arith
  trying-Sound c w v k res d (some x) bad (rounds, (named, h, f), skip, clean) =
      let g = f ∙ first_success_later (attempt_error e st info w v) rounds k bad in
      elim (Bool-cases (k == info.retry_count)) [
        | inl last ↦ rw last (rounds, (named, omega arith, g), skip, ground arith)
        | inr more ↦ rw more (rounds, (named, omega arith, g), skip, ground arith)
      ]

  pub advance-Sound :
      (c : Bool) (w : ℕ → World) (v : VerifyCase) (r : Routine)
      → Sound c w v r
      → Sound c w v (advance e st info c w v r).0
  unfolding advance fresh
  advance-Sound true w v waiting h = (refl, λ e. cc)
  advance-Sound false w v waiting h = tt
  advance-Sound c w v entered h = entered-Sound c w v
  advance-Sound c w v (looping k res) h = looping-Sound c w v k res h
  advance-Sound c w v (trying k res) h = trying-Sound c w v k res _ _ refl h
  advance-Sound c w v (returning res) h = h
  advance-Sound c w v (done res) h = h

  -- A context that is cancelled later does not spoil what is known.
  Claim-mono :
      (c c' good : Bool) (v : Verdict) → (c ≡ true → c' ≡ true) → Claim c good v → Claim c' good v
  Claim-mono c c' good passed h k = k
  Claim-mono c c' good failed h k = k
  Claim-mono c c' good skipped h k = h k

  pub Sound-mono :
      (c c' : Bool) (w : ℕ → World) (v : VerifyCase) (r : Routine)
      → (c ≡ true → c' ≡ true)
      → Sound c w v r
      → Sound c' w v r
  Sound-mono c c' w v waiting h k = k
  Sound-mono c c' w v entered h k = k
  Sound-mono c c' w v (looping n res) h k = k
  Sound-mono c c' w v (trying n res) h k = k
  Sound-mono c c' w v (returning res) h k = (Claim-mono c c' _ (verdict res) h k.0, k.1)
  Sound-mono c c' w v (done res) h k = (Claim-mono c c' _ (verdict res) h k.0, k.1)
