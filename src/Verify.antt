-- ===== src/Verify.antt =====
-- The verify command (commands/verify/verify.go): one case, and the command's own settings.
-- What the outside answers during an attempt (the files, the shell, the clock) is a `World`. The
-- verifier is an `Engine`.
pub mod Spec
pub mod Serial
pub mod Concurrent
pub mod Command
pub mod Contract
use skywalking_infra_e2e.Base.{
  ◌>>=◌, ℕ, ℤ, pos, negsuc, is_neg, wrap64, times, Bool, not, Option, none, some, [], ◌++◌, Text,
  codes, is_empty, itoa_nat, Result, ok, err, if◌then◌else◌,
}
use skywalking_infra_e2e.Config.{Any, int, string, nil, other, millisecond, second, VerifyCase}
use skywalking_infra_e2e.Verifier.{Engine, verify, error_text}

-- What a finished shell left: its two outputs and the error of Start or Wait.
pub record Process : Type 0 where
  pub stdout : Text
  pub stderr : Text
  pub error : Option Text

-- `now` is the formatted time, `hook` the rendered hook script.
pub record World : Type 0 where
  pub path_exist : Text → Bool
  pub read_file : Text → Result Text
  pub hook : Result Text
  pub bash : Text → Process
  pub now : Text

-- `ReadFileContent` (internal/util/utils.go)
unfoldable pub read_file_content : World → Text → Result Text
read_file_content w filename =
    if w.path_exist filename then w.read_file filename else err (codes "the file does not exist")

-- `ExecuteCommand` (internal/util/utils.go) as an attempt sees it: what bash answers, in the
-- environment as it is then. The variables that a command exports to the process behind it, for all
-- cases, show in what later commands are answered; `execute_command_in` of Environment/Shell is the
-- whole function, with the environment.
unfoldable pub execute_command : World → Text → Process
execute_command w cmd = elim w.hook [
  | err x ↦ record { stdout = []; stderr = []; error = some x }
  | ok script ↦ w.bash (script ++ (codes "\n" ++ cmd))
]

unfoldable pub query_failed : Text → Process → Text
query_failed query p =
    codes "failed to execute the query: "
    ++ (query ++ (codes ", output: " ++ (p.stdout ++ (codes ", error: " ++ p.stderr))))

unfoldable pub verify_failed : Text → Text → Text
verify_failed source x =
    codes "failed to verify the output: " ++ (source ++ (codes ", error:\n" ++ x))

-- The actual data and the name of their source: from the file, else by the query, else nothing.
unfoldable pub actual_data : World → Text → Text → Result (Text × Text)
unfolding read_file_content execute_command query_failed
actual_data w actual_file query =
    if not (is_empty actual_file)
    then elim (read_file_content w actual_file) [
      | err x ↦ err (codes "failed to read the actual data file: " ++ x)
      | ok d ↦ ok (d, actual_file)
    ]
    else if not (is_empty query)
    then (let p = execute_command w query in
        elim p.error [ some x ↦ err (query_failed query p) | none ↦ ok (p.stdout, query) ])
    else ok ([], [])

-- `verifySingleCase`: the actual data and the error.
unfoldable pub verify_single_case : Engine → World → Text → Text → Text → Text × Option Text
unfolding actual_data verify_failed
verify_single_case e w expected_file actual_file query = elim (read_file_content w expected_file) [
  | err x ↦ ([], some (codes "failed to read the expected data file: " ++ x))
  | ok expected ↦ elim (actual_data w actual_file query) [
    | err x ↦ ([], some x)
    | ok (actual, source) ↦ elim (verify e actual expected) [
      | none ↦ (actual, none)
      | some x ↦ (actual, some (verify_failed source (error_text x)))
    ]
  ]
]

-- `verifyInfo`
pub record VerifyInfo : Type 0 where
  pub case_number : ℕ
  pub retry_count : ℕ
  pub interval : ℤ
  pub fail_fast : Bool

-- `caseName`
unfoldable pub case_name : VerifyCase → Text
case_name v =
    if is_empty v.name
    then if not (is_empty v.actual)
      then codes "case[" ++ (v.actual ++ codes "]")
      else codes "case[" ++ (v.query ++ codes "]")
    else v.name

-- `the expected data file for ... is not specified`
unfoldable pub not_specified : VerifyCase → Text
not_specified v = codes "the expected data file for " ++ (case_name v ++ codes " is not specified")

-- `failed to verify %d case(s)`
unfoldable pub cases_failed : ℕ → Text
cases_failed n = codes "failed to verify " ++ (itoa_nat n ++ codes " case(s)")

-- The switch of `parseInterval`.
raw_interval : (Text → Result ℤ) → Any → Result ℤ
raw_interval parse_duration (int itv) = ok (wrap64 (times itv millisecond))
raw_interval parse_duration (string s) = parse_duration s
raw_interval parse_duration nil = ok (pos 0)
raw_interval parse_duration (other s) = err (codes "failed to parse verify.retry.interval: " ++ s)

-- `parseInterval`, with time.ParseDuration as an argument.
unfoldable pub parse_interval : (Text → Result ℤ) → Any → Result ℤ
unfolding raw_interval
parse_interval parse_duration v = do
  interval ← raw_interval parse_duration v
  ok (if is_neg interval then pos second else interval)

-- The retry count of the command: one that is not positive is 0.
unfoldable pub clamp_retries : ℤ → ℕ
clamp_retries (pos n) = n
clamp_retries (negsuc n) = 0
