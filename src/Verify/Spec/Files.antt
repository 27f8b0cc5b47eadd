-- ===== src/Verify/Spec/Files.antt =====
-- Cases whose actual data are in a file (`verifySingleCase`, commands/verify/verify.go): no command is
-- run for them, so that the environment of the process plays no part.
use skywalking_infra_e2e.Base.{
  ℕ, suc, ◌+◌, ◌≡◌, refl, ap, ◌∙◌, false, not, ◌&&◌, Option, List, [], ◌∷◌, All, Text, is_empty,
  is_some, arith,
}
use skywalking_infra_e2e.Paths.{Settings}
use skywalking_infra_e2e.Config.{VerifyCase, get_expected, get_actual}
use skywalking_infra_e2e.Verifier.{Engine}
use skywalking_infra_e2e.Verify.{
  World, VerifyInfo, read_file_content, actual_data, verify_single_case,
}
use skywalking_infra_e2e.Verify.Spec.{first_success, attempt_error, passes, passing}

-- The case names a file with its actual data.
abbrev pub FromFile : Settings → VerifyCase → Type 0
FromFile st v = is_empty (get_actual st v) ≡ false

-- Each attempt at each case reads the same of each file.
abbrev pub SameFiles : (ℕ → ℕ → World) → (ℕ → ℕ → World) → Type 0
SameFiles w w' =
    (i k : ℕ) (name : Text) → read_file_content (w i k) name ≡ read_file_content (w' i k) name

actual_data_same :
    (a b : World) (actual query : Text)
    → is_empty actual ≡ false
    → read_file_content a actual ≡ read_file_content b actual
    → actual_data a actual query ≡ actual_data b actual query
unfolding actual_data
actual_data_same a b [] query h y = absurd (ground arith)
actual_data_same a b (c ∷ actual) query h y = rw y refl

single_case_same :
    (e : Engine) (a b : World) (expected actual query : Text)
    → is_empty actual ≡ false
    → read_file_content a expected ≡ read_file_content b expected
    → read_file_content a actual ≡ read_file_content b actual
    → verify_single_case e a expected actual query ≡ verify_single_case e b expected actual query
unfolding verify_single_case
single_case_same e a b expected actual query h x y =
    ground (arith, actual_data_same a b actual query h y)

module _ (e : Engine) (st : Settings) (info : VerifyInfo) (w w' : ℕ → ℕ → World)
    (same : SameFiles w w') where
  attempt_same :
      (i k : ℕ) (v : VerifyCase)
      → FromFile st v
      → attempt_error e st info (w i) v k ≡ attempt_error e st info (w' i) v k
  attempt_same i k v h =
      ap (λ (r : Text × Option Text). r.1)
        (single_case_same e (w i k) (w' i k) (get_expected st v) (get_actual st v) v.query h
          (same i k _) (same i k _))

  passes_same :
      (i : ℕ) (v : VerifyCase)
      → FromFile st v
      → passes e st info (w i) v ≡ passes e st info (w' i) v
  unfolding passes
  passes_same i v h =
      ap
        (λ (f : ℕ → Option Text).
          not (is_empty (get_expected st v)) && is_some (first_success f (suc info.retry_count) 0))
        (λ j k. attempt_same i k v h j)

  pub passing_same :
      (i : ℕ) (vs : List VerifyCase)
      → All (FromFile st) vs
      → passing e st info w i vs ≡ passing e st info w' i vs
  passing_same i [] h = refl
  passing_same i (v ∷ vs) (h, hs) =
      ap (λ b. b ∷ passing e st info w (i + 1) vs) (passes_same i v h)
      ∙ ap (λ l. passes e st info (w' i) v ∷ l) (passing_same (i + 1) vs hs)
