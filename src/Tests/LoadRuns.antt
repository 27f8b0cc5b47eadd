-- ===== src/Tests/LoadRuns.antt =====
-- Loading the configuration at concrete inputs.
use skywalking_infra_e2e.Base.{
  String, ℕ, ◌≡◌, ◌↔◌, refl, true, false, not, Option, none, some, List, [], ◌∷◌, arith, is_some,
  All, Text, codes, is_empty, text_eq, ok, split, pos,
}
use skywalking_infra_e2e.Paths
use skywalking_infra_e2e.Paths.{resolve_abs_with_base}
use skywalking_infra_e2e.Config
use skywalking_infra_e2e.Config.{Any, VerifyCase, E2EConfig, finalize}
use skywalking_infra_e2e.Config.Load.{
  Disk, GlobalE2EConfig, collect, settle, convert_single_case, convert_verify, cfg_abs_path,
  read_global_config_file, finish,
}
use skywalking_infra_e2e.Config.Load.Ends.{
  Below, Acyclic, convert_single_case_total, convert_single_case_cyclic,
}
use skywalking_infra_e2e.Config.Load.Results.{
  Ready, read_global_config_file-Ready, CanLoad, read_global_config_file_iff,
}
use skywalking_infra_e2e.Tests.Data.{settings, one_second, case_of, setup_of, configuration}

-- A case that includes another file.
abbrev including : String → VerifyCase
including file = record {
  name = [];
  query = [];
  actual = [];
  expected = [];
  includes = codes file ∷ [];
}

-- Every included file holds one case.
abbrev disk : Disk
disk = record {
  path_exist = λ p. not (is_empty p);
  read_file = λ p. ok p;
  unmarshal = λ c t. ok c;
  unmarshal_cases = λ t. ok (case_of "a" ∷ []);
}

abbrev config_of : Any → E2EConfig
config_of timeout = record {
  setup = setup_of timeout;
  cleanup = record { on = codes "always" };
  trigger = record {
    action = [];
    interval = [];
    times = pos 0;
    url = [];
    method = [];
    body = [];
    headers = [];
  };
  verify = configuration false (including "sub/inc.yaml" ∷ case_of "b" ∷ []);
}

abbrev global_of : Any → GlobalE2EConfig
global_of timeout = record { error = none; e2e_config = config_of timeout }

abbrev loaded_of : Option GlobalE2EConfig → GlobalE2EConfig
loaded_of (some g) = g
loaded_of none = global_of Any.nil

abbrev load : Option GlobalE2EConfig
load = read_global_config_file disk settings one_second 2 (global_of (Any.string (codes "1s")))

load_run : load ≡ some (loaded_of load)
unfolding read_global_config_file convert_verify collect convert_single_case resolve_abs_with_base
    Paths.join_path Paths.dir Paths.clean cfg_abs_path Paths.abs_path
load_run = refl

no_error : (loaded_of load).error ≡ none
unfolding read_global_config_file convert_verify collect convert_single_case resolve_abs_with_base
    Paths.join_path Paths.dir Paths.clean cfg_abs_path Paths.abs_path finalize
no_error = refl

read_global_config_file-Ready_example :
    All (Ready settings) (loaded_of load).e2e_config.verify.cases
read_global_config_file-Ready_example =
    read_global_config_file-Ready disk settings one_second 2 (global_of (Any.string (codes "1s")))
      (codes "/w") refl refl refl load_run no_error

abbrev two : List VerifyCase
two =
    settle (case_of "a") (codes "/w/sub/inc.yaml") ∷ settle (case_of "b") (codes "/w/e2e.yaml") ∷ []

convert_run : convert_verify disk settings 2 (config_of Any.nil).verify ≡ some (ok two)
unfolding convert_verify collect convert_single_case resolve_abs_with_base Paths.join_path Paths.dir
    Paths.clean cfg_abs_path Paths.abs_path split text_eq
convert_run = refl

-- What is loaded where the timeout cannot be read.
abbrev loaded : GlobalE2EConfig
loaded = record {
  error = none;
  e2e_config = record (config_of Any.nil) {
    verify = record ((config_of Any.nil).verify) { cases = two };
  };
}

untimed_run : read_global_config_file disk settings one_second 2 (global_of Any.nil) ≡ some loaded
unfolding read_global_config_file finish finalize Config.bad_interval convert_verify collect
    convert_single_case resolve_abs_with_base Paths.join_path Paths.dir Paths.clean cfg_abs_path
    Paths.abs_path split text_eq
untimed_run = refl

read_global_config_file_iff_example :
    (loaded.error ≡ none) ↔ CanLoad disk settings 2 (global_of Any.nil).e2e_config
read_global_config_file_iff_example =
    read_global_config_file_iff disk settings one_second 2 (global_of Any.nil) untimed_run

abbrev rank : Text → ℕ
rank p = 0

cast : (P : List VerifyCase → Type 0) (xs ys : List VerifyCase) → xs ≡ ys → P xs → P ys
cast P xs ys e h = rw e at h

disk-Acyclic : Acyclic disk rank
disk-Acyclic path data' cases r u =
    cast (All (Below disk rank 0 path)) (case_of "a" ∷ []) cases (ground arith) (tt, tt)

convert_single_case_total_example :
    is_some (convert_single_case disk 2 (including "sub/inc.yaml") (codes "/w/e2e.yaml")) ≡ true
convert_single_case_total_example =
    convert_single_case_total disk rank 1 (including "sub/inc.yaml") (codes "/w/e2e.yaml")
      disk-Acyclic (omega arith, tt)

-- The file /w/x.yaml includes itself.
abbrev cyclic : Disk
cyclic = record disk { unmarshal_cases = λ t. ok (including "/w/x.yaml" ∷ []) }

convert_single_case_cyclic_example :
    convert_single_case cyclic 7 (including "/w/x.yaml") (codes "/w/x.yaml") ≡ none
convert_single_case_cyclic_example =
    convert_single_case_cyclic cyclic 7 (codes "/w/x.yaml") (codes "/w/x.yaml")
      (including "/w/x.yaml") [] [] refl refl refl refl refl refl refl
