-- ===== src/Config/Load/Includes.antt =====
-- The cases that are taken from other files: what they are.
use skywalking_infra_e2e.Base.{
  ℕ, zero, suc, ◌≡◌, refl, ◌≢◌, ◌⊎◌, inl, inr, true, false, not, none, some, List, [], ◌∷◌, ◌++◌,
  arith, if◌then◌else◌, Bool-cases, All, All-append, Text, is_empty, Result, ok, err, is_ok,
  Result-cases,
}
use skywalking_infra_e2e.Paths.{resolve_abs_with_base, is_abs}
use skywalking_infra_e2e.Paths.Resolve.{AbsOrEmpty, resolve_abs_with_base-AbsOrEmpty}
use skywalking_infra_e2e.Config.{VerifyCase}
use skywalking_infra_e2e.Config.Load.{
  Disk, Cases, append_cases, collect, is_none, settle, load_include, convert_single_case,
}

pub All-cast {ℓ} :
    (P : VerifyCase → Type ℓ) (cs ds : List VerifyCase) → cs ≡ ds → All P cs → All P ds
All-cast P cs ds e h = rw e at h

append_cases-All {ℓ} :
    (P : VerifyCase → Type ℓ) (a b : Cases) {cs : List VerifyCase}
    → ((ds : List VerifyCase) → a ≡ some (ok ds) → All P ds)
    → ((ds : List VerifyCase) → b ≡ some (ok ds) → All P ds)
    → append_cases a b ≡ some (ok cs)
    → All P cs
unfolding append_cases
append_cases-All P none b h k e = cc
append_cases-All P (some (err x)) b h k e = cc
append_cases-All P (some (ok ds)) none h k e = cc
append_cases-All P (some (ok ds)) (some (err x)) h k e = cc
append_cases-All P (some (ok ds)) (some (ok es)) {cs} h k e =
    All-cast P (ds ++ es) cs (ground arith) (All-append P ds es (h ds refl) (k es refl))

module _ {ℓ κ} {A : Type ℓ} where
  pub collect-All :
      (P : VerifyCase → Type κ) (f : A → Cases) (xs : List A) {cs : List VerifyCase}
      → ((x : A) (ds : List VerifyCase) → f x ≡ some (ok ds) → All P ds)
      → collect f xs ≡ some (ok cs)
      → All P cs
  unfolding collect
  collect-All P f [] {cs} h e = All-cast P [] cs (ground arith) tt
  collect-All P f (x ∷ xs) h e =
      append_cases-All P (f x) (collect f xs) (h x) (λ ds k. collect-All P f xs h k) e

-- A case as the verify command takes it: no includes, and paths that are absolute or empty.
pub record Settled (v : VerifyCase) : Type 0 where
  pub own : v.includes ≡ []
  pub expected : AbsOrEmpty v.expected
  pub actual : AbsOrEmpty v.actual

is_none-nil : (l : List Text) → is_none l ≡ true → l ≡ []
is_none-nil [] h = refl
is_none-nil (x ∷ xs) h = cc

settle_path :
    (p base : Text)
    → is_abs base ≡ true
    → AbsOrEmpty (if not (is_empty p) then resolve_abs_with_base p base else p)
settle_path [] base h = inr refl
settle_path (c ∷ p) base h = resolve_abs_with_base-AbsOrEmpty (c ∷ p) base h

settle-Settled :
    (v : VerifyCase) (base : Text)
    → is_abs base ≡ true
    → is_none v.includes ≡ true
    → Settled (settle v base)
unfolding settle
settle-Settled v base h own = record {
  own = is_none-nil v.includes own;
  expected = settle_path v.expected base h;
  actual = settle_path v.actual base h;
}

module _ (d : Disk) where
  load_include-All :
      (convert : VerifyCase → Text → Cases) (path : Text) (cs : List VerifyCase)
      → ((v : VerifyCase) (ds : List VerifyCase) → convert v path ≡ some (ok ds) → All Settled ds)
      → load_include d convert path ≡ some (ok cs)
      → All Settled cs
  unfolding load_include
  load_include-All convert path cs h e = elim (Bool-cases (d.path_exist path)) [
    | inr gone ↦ absurd (ground arith)
    | inl there ↦ elim (Result-cases (d.read_file path)) [
      | inr (x, k) ↦ absurd (ground arith)
      | inl (data', k) ↦ elim (Result-cases (d.unmarshal_cases data')) [
        | inr (x, j) ↦ absurd (ground arith)
        | inl (cases, j) ↦
            collect-All Settled (λ c. convert c path) cases (λ c ds. h c ds) (ground arith)
      ]
    ]
  ]

  load_include_void :
      (convert : VerifyCase → Text → Cases) {ds : List VerifyCase}
      → d.path_exist [] ≡ false
      → load_include d convert [] ≢ some (ok ds)
  unfolding load_include
  load_include_void convert void k = ground arith

  -- The file of an include stands at an absolute path, or has no name and does not exist.
  included-Settled :
      (fuel : ℕ) (base inc : Text) (ds : List VerifyCase)
      → d.path_exist [] ≡ false
      → is_abs base ≡ true
      → ((v : VerifyCase) (path : Text) (cs : List VerifyCase)
          → is_abs path ≡ true
          → convert_single_case d fuel v path ≡ some (ok cs)
          → All Settled cs)
      → load_include d (convert_single_case d fuel) (resolve_abs_with_base inc base) ≡ some (ok ds)
      → All Settled ds
  included-Settled fuel base inc ds void h ih k =
      elim (resolve_abs_with_base-AbsOrEmpty inc base h) [
        | inl a ↦
            load_include-All (convert_single_case d fuel) (resolve_abs_with_base inc base) ds
              (λ v cs. ih v (resolve_abs_with_base inc base) cs a) k
        | inr empty ↦ absurd (load_include_void (convert_single_case d fuel) void (rw empty at k))
      ]

  convert_own :
      (fuel : ℕ) (v : VerifyCase) (base : Text)
      → is_none v.includes ≡ true
      → convert_single_case d (suc fuel) v base ≡ some (ok (settle v base ∷ []))
  unfolding convert_single_case
  convert_own fuel v base own = ground arith

  -- A case that includes others returns the cases of their files, or an error.
  convert_includes :
      (fuel : ℕ) (v : VerifyCase) (base : Text) {r : Result (List VerifyCase)}
      → is_none v.includes ≡ false
      → convert_single_case d (suc fuel) v base ≡ some r
      → (is_ok r ≡ false)
        ⊎ (collect
              (λ inc. load_include d (convert_single_case d fuel) (resolve_abs_with_base inc base))
              v.includes
            ≡ some r)
  unfolding convert_single_case
  convert_includes fuel v base inc h = ground arith

  -- Whatever is included, a case that is returned has no includes of its own, and its paths are
  -- absolute, or empty where they were empty, if the file that the case stands in is absolute.
  pub convert_single_case-Settled :
      d.path_exist [] ≡ false
      → (fuel : ℕ) (v : VerifyCase) (base : Text) (cs : List VerifyCase) → is_abs base ≡ true
      → convert_single_case d fuel v base ≡ some (ok cs)
      → All Settled cs
  unfolding convert_single_case
  convert_single_case-Settled void zero v base cs h e = cc
  convert_single_case-Settled void (suc fuel) v base cs h e =
      elim (Bool-cases (is_none v.includes)) [
        | inl own ↦
            All-cast Settled (settle v base ∷ []) cs (ground (arith, convert_own fuel v base own))
              (settle-Settled v base h own, tt)
        | inr more ↦ elim (convert_includes fuel v base more e) [
          | inl bad ↦ cc
          | inr all' ↦
              collect-All Settled _ v.includes
                (λ inc ds.
                  included-Settled fuel base inc ds void h
                    (λ w path es. convert_single_case-Settled void fuel w path es))
                all'
        ]
      ]
