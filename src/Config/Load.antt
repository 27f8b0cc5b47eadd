-- ===== src/Config/Load.antt =====
-- Loading the configuration (internal/config/globalConfig.go): the defaults, the file, and the
-- cases that it takes from other files. What the disk and the YAML library answer is a `Disk`.
pub mod Includes
pub mod Ends
pub mod Results
use skywalking_infra_e2e.Base.{
  ℕ, zero, suc, Bool, true, false, not, ◌&&◌, ◌||◌, Option, none, some, List, [], ◌∷◌, ◌++◌,
  if◌then◌else◌, Text, codes, is_empty, Result, ok, err, ℤ,
}
use skywalking_infra_e2e.Paths.{Settings, abs_path, resolve_abs_with_base}
use skywalking_infra_e2e.Config.{VerifyCase, Verify, E2EConfig, finalize}
use skywalking_infra_e2e.Run.{clean_up_always, clean_up_on_success}

-- `unmarshal` fills a configuration that has its defaults.
pub record Disk : Type 0 where
  pub path_exist : Text → Bool
  pub read_file : Text → Result Text
  pub unmarshal : E2EConfig → Text → Result E2EConfig
  pub unmarshal_cases : Text → Result (List VerifyCase)

pub record GlobalE2EConfig : Type 0 where
  pub error : Option Text
  pub e2e_config : E2EConfig

-- `init`: whether the variable CI is `true`, and the zero value of the configuration.
unfoldable pub init : Bool → E2EConfig → GlobalE2EConfig
init ci zero_config = record {
  error = none;
  e2e_config = record zero_config {
    cleanup = record { on = if ci then clean_up_always else clean_up_on_success };
    verify = record (zero_config.verify) { fail_fast = true };
  };
}

-- The cases that a call returns, or its error; `none` where the fuel does not suffice.
abbrev pub Cases : Type 0
Cases = Option (Result (List VerifyCase))

-- `result = append(result, cases...)` in a loop that an error leaves.
unfoldable pub append_cases : Cases → Cases → Cases
append_cases none rest = none
append_cases (some (err x)) rest = some (err x)
append_cases (some (ok cs)) none = none
append_cases (some (ok cs)) (some (err x)) = some (err x)
append_cases (some (ok cs)) (some (ok ds)) = some (ok (cs ++ ds))

unfoldable pub collect {ℓ} : {A : Type ℓ} → (A → Cases) → List A → Cases
unfolding append_cases
collect f [] = some (ok [])
collect f (x ∷ xs) = append_cases (f x) (collect f xs)

abbrev is_none : List Text → Bool
is_none [] = true
is_none (x ∷ xs) = false

-- A case of its own: the paths are resolved against the file that it stands in.
unfoldable pub settle : VerifyCase → Text → VerifyCase
settle v base = record v {
  expected =
      if not (is_empty v.expected) then resolve_abs_with_base v.expected base else v.expected;
  actual = if not (is_empty v.actual) then resolve_abs_with_base v.actual base else v.actual;
}

-- `cfgAbsPath, _ := filepath.Abs(util.CfgFile)`
unfoldable pub cfg_abs_path : Settings → Text
cfg_abs_path st = elim (abs_path st.cwd st.cfg_file) [ none ↦ [] | some p ↦ p ]

-- `Finalize`, and the assignment of nil behind it.
unfoldable pub finish : (Text → Result ℤ) → E2EConfig → GlobalE2EConfig
finish parse_duration c = elim (finalize parse_duration c.setup) [
  | err x ↦ record { error = none; e2e_config = c }
  | ok s ↦ record { error = none; e2e_config = record c { setup = s } }
]

module _ (d : Disk) where
  -- The body of the loop over the includes, with the call for a case of the included file.
  unfoldable pub load_include : (VerifyCase → Text → Cases) → Text → Cases
  load_include convert path =
      if not (d.path_exist path)
      then some (err (codes "reuse case config file " ++ (path ++ codes " not exist")))
      else elim (d.read_file path) [
        | err x ↦ some (err (codes "reuse case config file " ++ (path ++ (codes " error: " ++ x))))
        | ok data' ↦ elim (d.unmarshal_cases data') [
          | err x ↦
              some (
                err
                  (codes "unmarshal reuse case config file " ++ (path ++ (codes " error: " ++ x))))
          | ok cases ↦ collect (λ c. convert c path) cases
        ]
      ]

  -- `convertSingleCase`, with fuel above the depth of the includes.
  unfoldable pub convert_single_case : ℕ → VerifyCase → Text → Cases
  unfolding load_include collect
  convert_single_case zero v base = none
  convert_single_case (suc fuel) v base =
      let convert : VerifyCase → Text → Cases = convert_single_case fuel in
      if not (is_none v.includes) && (not (is_empty v.expected) || not (is_empty v.query))
      then some
          (err (codes "include and query/expected only support selecting one of them in a case"))
      else if is_none v.includes
      then some (ok (settle v base ∷ []))
      else collect (λ inc. load_include convert (resolve_abs_with_base inc base)) v.includes

  -- `convertVerify`: the cases that replace those of the configuration. The error of filepath.Abs
  -- is ignored, and its path is empty then.
  unfoldable pub convert_verify : Settings → ℕ → Verify → Cases
  convert_verify st fuel v =
      let base = cfg_abs_path st in collect (λ c. convert_single_case fuel c base) v.cases

  -- `ReadGlobalConfigFile`. Behind an error the configuration is not read, and stays as it was.
  unfoldable pub read_global_config_file :
      Settings → (Text → Result ℤ) → ℕ → GlobalE2EConfig → Option GlobalE2EConfig
  unfolding finish
  read_global_config_file st parse_duration fuel g =
      let f = st.cfg_file in
      if not (d.path_exist f)
      then some (record g { error = some (codes "e2e config file " ++ (f ++ codes " not exist")) })
      else elim (d.read_file f) [
        | err x ↦ some (record g {
          error = some (codes "read e2e config file " ++ (f ++ (codes " error: " ++ x)));
        })
        | ok data' ↦ elim (d.unmarshal g.e2e_config data') [
          | err x ↦ some (record g {
            error = some (codes "unmarshal e2e config file " ++ (f ++ (codes " error: " ++ x)));
          })
          | ok c ↦ elim (convert_verify st fuel c.verify) [
            | none ↦ none
            | some (err x) ↦ some (record { error = some x; e2e_config = c })
            | some (ok cases) ↦
                some (
                  finish parse_duration (record c { verify = record (c.verify) { cases = cases } }))
          ]
        ]
      ]
