-- ===== src/Config/Load/Results.antt =====
-- What is loaded: the cases, the error, and the timeout.
use skywalking_infra_e2e.Base.{
  ℕ, ◌≡◌, refl, sym, ap, ◌∙◌, ◌↔◌, inl, inr, true, false, Option, none, some, some-injective, List,
  [], arith, Bool-cases, Option-cases, All, All-mono, Text, Result, ok, err, Result-cases, ℤ,
}
use skywalking_infra_e2e.Paths.{Settings, is_abs}
use skywalking_infra_e2e.Paths.Resolve.{resolve_abs_settled, abs_path_known-is_abs}
use skywalking_infra_e2e.Config.{VerifyCase, Verify, E2EConfig, get_expected, get_actual}
use skywalking_infra_e2e.Config.Load.{
  Disk, GlobalE2EConfig, Cases, cfg_abs_path, convert_single_case, convert_verify, finish,
  read_global_config_file,
}
use skywalking_infra_e2e.Config.Load.Includes.{
  Settled, All-cast, collect-All, convert_single_case-Settled,
}

-- What the verify command takes of a case: `GetExpected` and `GetActual` give the stored paths.
pub record Ready (st : Settings) (v : VerifyCase) : Type 0 where
  pub own : v.includes ≡ []
  pub expected : get_expected st v ≡ v.expected
  pub actual : get_actual st v ≡ v.actual

Settled→Ready : (st : Settings) (v : VerifyCase) → Settled v → Ready st v
unfolding get_expected get_actual
Settled→Ready st v s = record {
  own = s.own;
  expected = resolve_abs_settled st v.expected s.expected;
  actual = resolve_abs_settled st v.actual s.actual;
}

cfg_abs_path-is_abs :
    (st : Settings) (wd : Text)
    → st.cwd ≡ some wd
    → is_abs wd ≡ true
    → is_abs (cfg_abs_path st) ≡ true
unfolding cfg_abs_path
cfg_abs_path-is_abs st wd c h = let (q, e, a) = abs_path_known-is_abs st wd c h in ground arith

-- What is stored once the cases were converted.
abbrev with_cases : (Text → Result ℤ) → E2EConfig → Cases → Option GlobalE2EConfig
with_cases parse_duration c none = none
with_cases parse_duration c (some (err x)) = some (record { error = some x; e2e_config = c })
with_cases parse_duration c (some (ok cases)) =
    some (finish parse_duration (record c { verify = record (c.verify) { cases = cases } }))

finish_cases :
    (parse_duration : Text → Result ℤ) (c : E2EConfig)
    → (finish parse_duration c).e2e_config.verify.cases ≡ c.verify.cases
unfolding finish
finish_cases parse_duration c = ground arith

module _ (d : Disk) (st : Settings) where
  convert_verify-Ready :
      (fuel : ℕ) (v : Verify) (wd : Text) (cs : List VerifyCase)
      → d.path_exist [] ≡ false
      → st.cwd ≡ some wd
      → is_abs wd ≡ true
      → convert_verify d st fuel v ≡ some (ok cs)
      → All (Ready st) cs
  unfolding convert_verify
  convert_verify-Ready fuel v wd cs void c h e = All-mono Settled (Ready st) cs (Settled→Ready st) (
      collect-All Settled (λ w. convert_single_case d fuel w (cfg_abs_path st)) v.cases
        (λ w ds.
          convert_single_case-Settled d void fuel w (cfg_abs_path st) ds
            (cfg_abs_path-is_abs st wd c h))
        e)

  read_of_cases :
      (parse_duration : Text → Result ℤ) (fuel : ℕ) (g : GlobalE2EConfig) {text : Text}
      {c : E2EConfig} {r : Cases}
      → d.path_exist st.cfg_file ≡ true
      → d.read_file st.cfg_file ≡ ok text
      → d.unmarshal g.e2e_config text ≡ ok c
      → convert_verify d st fuel c.verify ≡ r
      → read_global_config_file d st parse_duration fuel g ≡ with_cases parse_duration c r
  unfolding read_global_config_file
  read_of_cases parse_duration fuel g {r = none} b i j k = ground arith
  read_of_cases parse_duration fuel g {r = some (err x)} b i j k = ground arith
  read_of_cases parse_duration fuel g {r = some (ok cs)} b i j k = ground arith

  -- Where no error is stored the file was read, and its cases were replaced.
  read_inv :
      (parse_duration : Text → Result ℤ) (fuel : ℕ) (g : GlobalE2EConfig) {h : GlobalE2EConfig}
      → read_global_config_file d st parse_duration fuel g ≡ some h
      → h.error ≡ none
      → (c : E2EConfig) × (some h ≡ with_cases parse_duration c (convert_verify d st fuel c.verify))
  unfolding read_global_config_file
  read_inv parse_duration fuel g {h} e n = elim (Bool-cases (d.path_exist st.cfg_file)) [
    | inr gone ↦ absurd (ground arith)
    | inl there ↦ elim (Result-cases (d.read_file st.cfg_file)) [
      | inr (x, i) ↦ absurd (ground arith)
      | inl (text, i) ↦ elim (Result-cases (d.unmarshal g.e2e_config text)) [
        | inr (x, j) ↦ absurd (ground arith)
        | inl (c, j) ↦ (c, sym e ∙ read_of_cases parse_duration fuel g there i j refl)
      ]
    ]
  ]

  with_cases-Ready :
      (parse_duration : Text → Result ℤ) (c : E2EConfig) (r : Cases) {h : GlobalE2EConfig}
      → ((cs : List VerifyCase) → r ≡ some (ok cs) → All (Ready st) cs)
      → some h ≡ with_cases parse_duration c r
      → h.error ≡ none
      → All (Ready st) h.e2e_config.verify.cases
  with_cases-Ready parse_duration c none ready e n = cc
  with_cases-Ready parse_duration c (some (err x)) ready e n = absurd (ground arith)
  with_cases-Ready parse_duration c (some (ok cs)) {h} ready e n =
      All-cast (Ready st) cs h.e2e_config.verify.cases
        (sym (
          ap (λ (k : GlobalE2EConfig). k.e2e_config.verify.cases) (some-injective _ _ e)
          ∙ finish_cases parse_duration _))
        (ready cs refl)

  -- If the configuration was loaded without an error, from an absolute working directory, and no
  -- file has the empty name, no case has includes, and the verify command takes the stored paths
  -- of every case as they are.
  pub read_global_config_file-Ready :
      (parse_duration : Text → Result ℤ) (fuel : ℕ) (g : GlobalE2EConfig) (wd : Text)
      {h : GlobalE2EConfig}
      → d.path_exist [] ≡ false
      → st.cwd ≡ some wd
      → is_abs wd ≡ true
      → read_global_config_file d st parse_duration fuel g ≡ some h
      → h.error ≡ none
      → All (Ready st) h.e2e_config.verify.cases
  read_global_config_file-Ready parse_duration fuel g wd {h} void known a e n =
      let (c, from) = read_inv parse_duration fuel g e n in
      with_cases-Ready parse_duration c (convert_verify d st fuel c.verify)
        (λ cs k. convert_verify-Ready fuel c.verify wd cs void known a k) from n

  -- The file can be read and holds a configuration, and its cases can be converted.
  abbrev pub CanLoad : ℕ → E2EConfig → Type 0
  CanLoad fuel before =
      (d.path_exist st.cfg_file ≡ true)
      × ((text : Text) × ((d.read_file st.cfg_file ≡ ok text)
            × ((c : E2EConfig) × ((d.unmarshal before text ≡ ok c)
                  × ((cases : List VerifyCase) × (convert_verify d st fuel c.verify
                        ≡ some (ok cases)))))))

  finish_error :
      (parse_duration : Text → Result ℤ) (c : E2EConfig) → (finish parse_duration c).error ≡ none
  unfolding finish
  finish_error parse_duration c = ground arith

  read_CanLoad :
      (parse_duration : Text → Result ℤ) (fuel : ℕ) (g : GlobalE2EConfig) {h : GlobalE2EConfig}
      → read_global_config_file d st parse_duration fuel g ≡ some h
      → h.error ≡ none
      → CanLoad fuel g.e2e_config
  unfolding read_global_config_file
  read_CanLoad parse_duration fuel g {h} e n = elim (Bool-cases (d.path_exist st.cfg_file)) [
    | inr gone ↦ absurd (ground arith)
    | inl there ↦ elim (Result-cases (d.read_file st.cfg_file)) [
      | inr (x, i) ↦ absurd (ground arith)
      | inl (text, i) ↦ elim (Result-cases (d.unmarshal g.e2e_config text)) [
        | inr (x, j) ↦ absurd (ground arith)
        | inl (c, j) ↦ elim (Option-cases (convert_verify d st fuel c.verify)) [
          | inl k ↦ absurd (ground arith)
          | inr (result, k) ↦ elim (Result-cases result) [
            | inr (x, l) ↦ absurd (ground arith)
            | inl (cases, l) ↦ (there, (text, (i, (c, (j, (cases, k ∙ ap some l))))))
          ]
        ]
      ]
    ]
  ]

  -- Where the includes end, no error is stored exactly where the file can be read and holds a
  -- configuration, and its cases can be converted: whether the timeout of the setup can be read
  -- makes no difference.
  pub read_global_config_file_iff :
      (parse_duration : Text → Result ℤ) (fuel : ℕ) (g : GlobalE2EConfig) {h : GlobalE2EConfig}
      → read_global_config_file d st parse_duration fuel g ≡ some h
      → (h.error ≡ none) ↔ CanLoad fuel g.e2e_config
  read_global_config_file_iff parse_duration fuel g {h} e = (
    read_CanLoad parse_duration fuel g {h = h} e,
    λ (b, (text, (i, (c, (j, (cases, k)))))).
        let same = sym e ∙ read_of_cases parse_duration fuel g b i j k in
        ap (λ (s : GlobalE2EConfig). s.error) (some-injective _ _ same)
        ∙ finish_error parse_duration _,
  )
