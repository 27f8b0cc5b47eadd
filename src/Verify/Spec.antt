-- ===== src/Verify/Spec.antt =====
-- What verification promises, independent of the order in which the cases are run: a case is
-- verified if one of its attempts succeeds.
pub mod Files
use skywalking_infra_e2e.Base.{
  ℕ, zero, suc, ◌+◌, ◌≤◌, ◌<◌, ◌≡◌, refl, ◌↔◌, inl, inr, Bool, true, false, not, ◌&&◌, Option, none,
  some, List, [], ◌∷◌, Text, is_empty, is_some, Bool-cases, Option-cases, arith, ◌==◌,
  if◌then◌else◌,
}
use skywalking_infra_e2e.Paths.{Settings}
use skywalking_infra_e2e.Config.{VerifyCase, get_expected, get_actual}
use skywalking_infra_e2e.Verifier.{Engine}
use skywalking_infra_e2e.Verify.{World, VerifyInfo, verify_single_case}

-- The number of the first success among the given rounds.
unfoldable pub first_success : (ℕ → Option Text) → ℕ → ℕ → Option ℕ
first_success f zero current = none
first_success f (suc rounds) current =
    let rest = first_success f rounds (current + 1) in
    if is_some (f current) then rest else some current

pub first_success_nil : (f : ℕ → Option Text) (current : ℕ) → first_success f zero current ≡ none
unfolding first_success
first_success_nil f current = refl

pub first_success_here :
    (f : ℕ → Option Text) (rounds current : ℕ)
    → f current ≡ none
    → first_success f (suc rounds) current ≡ some current
unfolding first_success
first_success_here f rounds current h = ground arith

pub first_success_later :
    (f : ℕ → Option Text) (rounds current : ℕ) {x : Text}
    → f current ≡ some x
    → first_success f (suc rounds) current ≡ first_success f rounds (current + 1)
unfolding first_success
first_success_later f rounds current h = ground arith

pub first_success-none :
    (f : ℕ → Option Text) (rounds current k : ℕ)
    → first_success f rounds current ≡ none
    → current ≤ k
    → k < current + rounds
    → is_some (f k) ≡ true
unfolding first_success
first_success-none f zero current k h a b = absurd (omega arith)
first_success-none f (suc rounds) current k h a b = elim (Bool-cases (k == current)) [
  | inl e ↦ let same : k ≡ current = ground arith in rw same (ground arith)
  | inr e ↦ first_success-none f rounds (current + 1) k (ground arith) (ground arith) (omega arith)
]

pub first_success-some :
    (f : ℕ → Option Text) (rounds current : ℕ) {k : ℕ}
    → first_success f rounds current ≡ some k
    → (f k ≡ none) × (k < current + rounds)
unfolding first_success
first_success-some f zero current h = cc
first_success-some f (suc rounds) current {k} h = elim (Option-cases (f current)) [
  | inl e ↦ ground arith
  | inr (x, e) ↦ ground (arith, first_success-some f rounds (current + 1) {k = k})
]

module _ (e : Engine) (st : Settings) (info : VerifyInfo) where
  -- The data and the error of an attempt.
  abbrev pub attempt : (ℕ → World) → VerifyCase → ℕ → Text × Option Text
  attempt w v k = verify_single_case e (w k) (get_expected st v) (get_actual st v) v.query

  -- Its error.
  abbrev pub attempt_error : (ℕ → World) → VerifyCase → ℕ → Option Text
  attempt_error w v k = (attempt w v k).1

  -- A case has an expected file, and an attempt succeeds, within the retries.
  abbrev pub Verified : (ℕ → World) → VerifyCase → Type 0
  Verified w v =
      (is_empty (get_expected st v) ≡ false)
      × ((k : ℕ) × (k ≤ info.retry_count) × (attempt_error w v k ≡ none))

  abbrev pub AllVerified : (ℕ → ℕ → World) → ℕ → List VerifyCase → Type 0
  AllVerified w i [] = Unit
  AllVerified w i (v ∷ vs) = Verified (w i) v × AllVerified w (i + 1) vs

  -- The same as a test.
  unfoldable pub passes : (ℕ → World) → VerifyCase → Bool
  passes w v =
      not (is_empty (get_expected st v))
      && is_some (first_success (attempt_error w v) (suc info.retry_count) 0)

  passes→Verified : (w : ℕ → World) (v : VerifyCase) → passes w v ≡ true → Verified w v
  unfolding passes
  passes→Verified w v h =
      elim (Option-cases (first_success (attempt_error w v) (suc info.retry_count) 0)) [
        | inl none_left ↦ absurd (ground arith)
        | inr (k, found) ↦
            let (good, small) =
              first_success-some (attempt_error w v) (suc info.retry_count) 0 found in
            (ground arith, (k, omega arith, good))
      ]

  Verified→passes : (w : ℕ → World) (v : VerifyCase) → Verified w v → passes w v ≡ true
  unfolding passes
  Verified→passes w v (named, (k, small, good)) =
      elim (Option-cases (first_success (attempt_error w v) (suc info.retry_count) 0)) [
        | inl none_left ↦
            let bad =
              first_success-none (attempt_error w v) (suc info.retry_count) 0 k none_left
                (omega arith) (omega arith) in
            cc (rw good at bad)
        | inr (j, found) ↦ rw (named, found)
      ]

  pub passes_iff : (w : ℕ → World) (v : VerifyCase) → (passes w v ≡ true) ↔ Verified w v
  passes_iff w v = (passes→Verified w v, Verified→passes w v)

  -- Which cases pass, from index i on.
  abbrev pub passing : (ℕ → ℕ → World) → ℕ → List VerifyCase → List Bool
  passing w i [] = []
  passing w i (v ∷ vs) = passes (w i) v ∷ passing w (i + 1) vs
