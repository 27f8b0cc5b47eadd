-- ===== src/Config/Load/Ends.antt =====
-- Where the conversion of the included files ends (`convertSingleCase`).
use skywalking_infra_e2e.Base.{
  ℕ, zero, suc, ◌≤◌, ◌<◌, ◌≡◌, refl, ap, ◌∙◌, inl, inr, true, none, List, [], ◌∷◌, arith, is_some,
  All, All-mono, Text, is_empty, ok, Result-cases,
}
use skywalking_infra_e2e.Paths.{resolve_abs_with_base, is_abs}
use skywalking_infra_e2e.Paths.Resolve.{resolve_abs_with_base_settled}
use skywalking_infra_e2e.Config.{VerifyCase}
use skywalking_infra_e2e.Config.Load.{
  Disk, Cases, append_cases, collect, load_include, convert_single_case,
}

append_cases-total :
    (a b : Cases) → is_some a ≡ true → is_some b ≡ true → is_some (append_cases a b) ≡ true
unfolding append_cases
append_cases-total a b h k = ground arith

module _ {ℓ} {A : Type ℓ} where
  collect-total :
      (f : A → Cases) (xs : List A)
      → All (λ x. is_some (f x) ≡ true) xs
      → is_some (collect f xs) ≡ true
  unfolding collect
  collect-total f [] h = refl
  collect-total f (x ∷ xs) (h, hs) =
      append_cases-total (f x) (collect f xs) h (collect-total f xs hs)

  collect-none : (f : A → Cases) (x : A) (xs : List A) → f x ≡ none → collect f (x ∷ xs) ≡ none
  unfolding collect append_cases
  collect-none f x xs h = ground arith

module _ (d : Disk) where
  -- The files that a case includes, at some depth: each has a rank below that of its own file.
  abbrev pub Below : (Text → ℕ) → ℕ → Text → VerifyCase → Type 0
  Below rank n base v = All (λ inc. rank (resolve_abs_with_base inc base) < n) v.includes

  -- No file includes itself, at any depth.
  abbrev pub Acyclic : (Text → ℕ) → Type 0
  Acyclic rank =
      (path data' : Text) (cases : List VerifyCase)
      → d.read_file path ≡ ok data'
      → d.unmarshal_cases data' ≡ ok cases
      → All (Below rank (rank path) path) cases

  load_include-total :
      (convert : VerifyCase → Text → Cases) (path : Text)
      → ((data' : Text) (cases : List VerifyCase)
          → d.read_file path ≡ ok data'
          → d.unmarshal_cases data' ≡ ok cases
          → All (λ c. is_some (convert c path) ≡ true) cases)
      → is_some (load_include d convert path) ≡ true
  unfolding load_include
  load_include-total convert path h = elim (Result-cases (d.read_file path)) [
    | inr (x, k) ↦ ground arith
    | inl (data', k) ↦ elim (Result-cases (d.unmarshal_cases data')) [
      | inr (x, j) ↦ ground arith
      | inl (cases, j) ↦
          let total = collect-total (λ c. convert c path) cases (h data' cases k j) in ground arith
    ]
  ]

  convert_of_includes :
      (fuel : ℕ) (v : VerifyCase) (base : Text)
      → is_some (
          collect
            (λ inc. load_include d (convert_single_case d fuel) (resolve_abs_with_base inc base))
            v.includes)
        ≡ true
      → is_some (convert_single_case d (suc fuel) v base) ≡ true
  unfolding convert_single_case
  convert_of_includes fuel v base h = ground arith

  Below-mono :
      (rank : Text → ℕ) (m n : ℕ) (base : Text) (v : VerifyCase)
      → m ≤ n
      → Below rank m base v
      → Below rank n base v
  Below-mono rank m n base v h = All-mono _ _ v.includes (λ inc small. omega arith)

  included-total :
      (rank : Text → ℕ) (fuel : ℕ) (path : Text)
      → Acyclic rank
      → rank path < suc fuel
      → ((v : VerifyCase)
          → Below rank fuel path v
          → is_some (convert_single_case d (suc fuel) v path) ≡ true)
      → is_some (load_include d (convert_single_case d (suc fuel)) path) ≡ true
  included-total rank fuel path acyclic small ih =
      load_include-total (convert_single_case d (suc fuel)) path λ data' cases k j.
        All-mono _ _ cases
          (λ v below. ih v (Below-mono rank (rank path) fuel path v (omega arith) below))
          (acyclic path data' cases k j)

  -- If the includes have no cycle, fuel above the rank of the files that a case includes suffices:
  -- loading the case ends, with its cases or with an error.
  pub convert_single_case_total :
      (rank : Text → ℕ) (fuel : ℕ) (v : VerifyCase) (base : Text)
      → Acyclic rank
      → Below rank fuel base v
      → is_some (convert_single_case d (suc fuel) v base) ≡ true
  convert_single_case_total rank zero v base acyclic below = convert_of_includes zero v base (
      collect-total _ v.includes
        (All-mono _ _ v.includes (λ inc small. absurd (omega arith)) below))
  convert_single_case_total rank (suc fuel) v base acyclic below =
      convert_of_includes (suc fuel) v base (
        collect-total _ v.includes (
          All-mono _ _ v.includes
            (λ inc small.
              included-total rank fuel (resolve_abs_with_base inc base) acyclic small (λ w.
                convert_single_case_total rank fuel w (resolve_abs_with_base inc base) acyclic))
            below))

  load_include-none :
      (convert : VerifyCase → Text → Cases) (path data' : Text) (v : VerifyCase)
      (more : List VerifyCase)
      → d.path_exist path ≡ true
      → d.read_file path ≡ ok data'
      → d.unmarshal_cases data' ≡ ok (v ∷ more)
      → convert v path ≡ none
      → load_include d convert path ≡ none
  unfolding load_include
  load_include-none convert path data' v more b c e h =
      let stuck = collect-none (λ w. convert w path) v more h in ground arith

  convert_of_first_include :
      (fuel : ℕ) (path : Text) (v : VerifyCase) (rest : List Text)
      → v.includes ≡ path ∷ rest
      → is_empty v.expected ≡ true
      → is_empty v.query ≡ true
      → load_include d (convert_single_case d fuel) (resolve_abs_with_base path path) ≡ none
      → convert_single_case d (suc fuel) v path ≡ none
  unfolding convert_single_case
  convert_of_first_include fuel path v rest i x q h =
      let stuck =
        collect-none
          (λ inc. load_include d (convert_single_case d fuel) (resolve_abs_with_base inc path)) path
          rest h in
      rw (i, x, q) stuck

  no_fuel : (v : VerifyCase) (path : Text) → convert_single_case d 0 v path ≡ none
  unfolding convert_single_case
  no_fuel v path = refl

  -- A file that exists, can be read and whose first case includes the file itself, with no
  -- expected file and no query, is never loaded: no fuel suffices.
  pub convert_single_case_cyclic :
      (fuel : ℕ) (path data' : Text) (v : VerifyCase) (more : List VerifyCase) (rest : List Text)
      → is_abs path ≡ true
      → d.path_exist path ≡ true
      → d.read_file path ≡ ok data'
      → d.unmarshal_cases data' ≡ ok (v ∷ more)
      → v.includes ≡ path ∷ rest
      → is_empty v.expected ≡ true
      → is_empty v.query ≡ true
      → convert_single_case d fuel v path ≡ none
  convert_single_case_cyclic zero path data' v more rest a b c e i x q = no_fuel v path
  convert_single_case_cyclic (suc fuel) path data' v more rest a b c e i x q =
      convert_of_first_include fuel path v rest i x q (
        ap (load_include d (convert_single_case d fuel))
          (resolve_abs_with_base_settled path path (inl a))
        ∙ load_include-none (convert_single_case d fuel) path data' v more b c e
            (convert_single_case_cyclic fuel path data' v more rest a b c e i x q))
