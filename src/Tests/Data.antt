-- ===== src/Tests/Data.antt =====
-- Inputs that the tests share: an engine, answers of the outside, and a configuration.
use skywalking_infra_e2e.Base.{
  String, ℕ, zero, suc, ◌^◌, Bool, true, false, Option, none, some, List, [], ◌∷◌, ◌++◌, Text,
  codes, text_eq, Result, ok, ℤ, pos,
}
use skywalking_infra_e2e.Paths.{Settings}
use skywalking_infra_e2e.Config.{Setup, Any, VerifyCase, Verify}
use skywalking_infra_e2e.Output.{CaseResult, Printer}
use skywalking_infra_e2e.Verifier.{Engine}
use skywalking_infra_e2e.Verify.{World, VerifyInfo}
use skywalking_infra_e2e.Verify.Command.{Flags}
use skywalking_infra_e2e.Verify.Serial.{Outcome}

-- A value is its text, and a template is filled with itself.
abbrev pub plain : Engine
plain = record {
  Value = Text;
  Template = Text;
  unmarshal = λ s. ok s;
  parse = λ s. ok s;
  execute = λ t v. ok t;
  equal = text_eq;
  diff = λ a b. a ++ b;
}

abbrev pub settings : Settings
settings = record { cfg_file = codes "/w/e2e.yaml"; cwd = some (codes "/w") }

-- Every file holds the same text.
abbrev pub calm : World
calm = record {
  path_exist = λ p. true;
  read_file = λ p. ok (codes "x");
  hook = ok [];
  bash = λ c. record { stdout = codes "x"; stderr = []; error = none };
  now = codes "12:00";
}

-- No file is there.
abbrev pub empty_disk : World
empty_disk = record calm { path_exist = λ p. false }

abbrev pub case_of : String → VerifyCase
case_of name = record {
  name = codes name;
  query = [];
  actual = codes "a.yaml";
  expected = codes "e.yaml";
  includes = [];
}

-- The second case fails at its first attempt, the third one always.
abbrev pub worlds : ℕ → ℕ → World
worlds zero k = calm
worlds (suc zero) zero = empty_disk
worlds (suc zero) (suc k) = calm
worlds (suc (suc i)) k = empty_disk

abbrev pub two_cases : List VerifyCase
two_cases = case_of "a" ∷ case_of "b" ∷ []

abbrev pub four_cases : List VerifyCase
four_cases = case_of "a" ∷ case_of "b" ∷ case_of "c" ∷ case_of "d" ∷ []

abbrev pub one_retry : Bool → VerifyInfo
one_retry fail_fast = record {
  case_number = 4;
  retry_count = 1;
  interval = pos 0;
  fail_fast = fail_fast;
}

abbrev pub loud : Printer
loud = record { batch_output = false; summary_only = false }

abbrev pub configuration : Bool → List VerifyCase → Verify
configuration concurrency cases = record {
  retry_strategy = record { count = pos 1; interval = Any.string (codes "1s") };
  cases = cases;
  fail_fast = true;
  concurrency = concurrency;
}

abbrev pub one_second : Text → Result ℤ
one_second s = ok (pos (10 ^ 9))

abbrev pub flags : Bool → Flags
flags summary_only = record {
  summary_only = summary_only;
  format = codes "yaml";
  batch_mode = false;
}

-- The outcome of a run that has one.
abbrev pub outcome_of : Option Outcome → Outcome
outcome_of (some o) = o
outcome_of none = record { error = none; results = []; calls = []; yaml = none }

-- One result of each kind.
abbrev pub some_results : List CaseResult
some_results =
    record { name = codes "a"; msg = []; error = none; skip = false }
    ∷ record { name = codes "b"; msg = []; error = some (codes "no"); skip = false }
    ∷ record { name = codes "c"; msg = []; error = none; skip = true }
    ∷ []

abbrev pub setup_of : Any → Setup
setup_of timeout = record {
  env = codes "kind";
  file = codes "kind.yaml";
  kubeconfig = [];
  steps = none;
  timeout = timeout;
  init_system_environment = [];
  kind = record { import_images = []; expose_ports = []; no_wait = false };
  final_timeout = pos 0;
}
