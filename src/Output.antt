-- ===== src/Output.antt =====
-- The summary of a verification: `CaseResult`, the printer and its `PrintResult`
-- (pkg/output/printer.go), and the YAML summary (pkg/output/output.go).
-- What goes to the terminal library is a list of calls. The summary lines of `PrintResult` are
-- the three numbers that it returns.
pub mod Counts
use skywalking_infra_e2e.Base.{
  ℕ, ◌+◌, Bool, ◌||◌, Option, none, some, List, [], ◌∷◌, ◌++◌, Text, codes, text_eq, length,
  if◌then◌else◌,
}

-- The Go error is its message, `none` for nil.
pub record CaseResult : Type 0 where
  pub name : Text
  pub msg : Text
  pub error : Option Text
  pub skip : Bool

-- The two options of a printer.
pub record Printer : Type 0 where
  pub batch_output : Bool
  pub summary_only : Bool

-- What a printer asks of the spinner of the terminal library.
pub data SpinnerCall : Type 0 where
  start : SpinnerCall
  success warning fail update_text : Text → SpinnerCall

-- The guard that `Start`, `Success`, `Warning`, `Fail` and `UpdateText` share.
unfoldable pub emit : Printer → SpinnerCall → List SpinnerCall
emit p c = if p.batch_output || p.summary_only then [] else c ∷ []

pub record Summary : Type 0 where
  pub pass_num : ℕ
  pub fail_num : ℕ
  pub skip_num : ℕ
  pub calls : List SpinnerCall

-- The body of the loop of `PrintResult`.
count_case : Printer → CaseResult → Summary → Summary
count_case p cr s = if cr.skip then record s { skip_num = s.skip_num + 1 } else elim cr.error [
  | none ↦ record s {
    pass_num = s.pass_num + 1;
    calls = s.calls ++ (if p.batch_output then success cr.msg ∷ [] else []);
  }
  | some e ↦ record s {
    fail_num = s.fail_num + 1;
    calls = s.calls ++ (if p.batch_output then warning cr.msg ∷ fail e ∷ [] else []);
  }
]

count_cases : Printer → List CaseResult → Summary → Summary
unfolding count_case
count_cases p [] s = s
count_cases p (cr ∷ rest) s = count_cases p rest (count_case p cr s)

abbrev no_cases : Summary
no_cases = record { pass_num = 0; fail_num = 0; skip_num = 0; calls = [] }

-- `PrintResult` of the printer.
unfoldable pub print_result : Printer → List CaseResult → Summary
unfolding count_cases
print_result p res = count_cases p res no_cases

pub record YamlCaseResult : Type 0 where
  pub passed : List Text
  pub failed : List Text
  pub skipped : List Text
  pub passed_count : ℕ
  pub failed_count : ℕ
  pub skipped_count : ℕ

-- The body of the loop of `printResultInYAML`.
collect_case : CaseResult → YamlCaseResult → YamlCaseResult
collect_case cr y =
    if cr.skip then record y { skipped = y.skipped ++ cr.name ∷ [] } else elim cr.error [
      | none ↦ record y { passed = y.passed ++ cr.name ∷ [] }
      | some e ↦ record y { failed = y.failed ++ cr.name ∷ [] }
    ]

collect_cases : List CaseResult → YamlCaseResult → YamlCaseResult
unfolding collect_case
collect_cases [] y = y
collect_cases (cr ∷ rest) y = collect_cases rest (collect_case cr y)

abbrev no_names : YamlCaseResult
no_names = record {
  passed = [];
  failed = [];
  skipped = [];
  passed_count = 0;
  failed_count = 0;
  skipped_count = 0;
}

-- What `printResultInYAML` marshals.
unfoldable pub print_result_in_yaml : List CaseResult → YamlCaseResult
unfolding collect_cases
print_result_in_yaml res =
    let y = collect_cases res no_names in
    record y {
      passed_count = length y.passed;
      failed_count = length y.failed;
      skipped_count = length y.skipped;
    }

-- `HasFormat`: the map of supported formats has one key.
unfoldable pub has_format : Text → Bool
has_format format = text_eq format (codes "yaml")

-- `PrintResult` of the package: the value that is printed, if any is.
unfoldable pub print_result_summary : Text → List CaseResult → Option YamlCaseResult
print_result_summary format res =
    if text_eq format (codes "yaml") then some (print_result_in_yaml res) else none
