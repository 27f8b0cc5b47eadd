-- ===== src/Config.antt =====
-- The configuration file e2e.yaml (internal/config/e2eConfig.go). A field of type `any` holds one
-- of the values that the YAML library puts there.
pub mod Interval
pub mod Load
use skywalking_infra_e2e.Base.{
  ◌>>=◌, ℕ, ◌*◌, ◌^◌, ℤ, pos, is_neg, is_nonpos, wrap64, times, Bool, Option, List, ◌++◌, Text,
  codes, Result, ok, err, if◌then◌else◌,
}
use skywalking_infra_e2e.Paths.{Settings, resolve_abs}

-- `any`: nil, an int, a string, or another value, given by the way in which it prints.
pub data Any : Type 0 where
  nil : Any
  int : ℤ → Any
  string : Text → Any
  other : Text → Any

pub record Wait : Type 0 where
  pub namespace : Text
  pub resource : Text
  pub label_selector : Text
  pub for : Text

pub record Step : Type 0 where
  pub name : Text
  pub path : Text
  pub command : Text
  pub waits : List Wait

pub record KindExposePort : Type 0 where
  pub namespace : Text
  pub resource : Text
  pub port : Text

pub record KindSetup : Type 0 where
  pub import_images : List Text
  pub expose_ports : List KindExposePort
  pub no_wait : Bool

-- `steps` is nil where the file has none. The last field is the private `timeout`.
pub record Setup : Type 0 where
  pub env : Text
  pub file : Text
  pub kubeconfig : Text
  pub steps : Option (List Step)
  pub timeout : Any
  pub init_system_environment : Text
  pub kind : KindSetup
  pub final_timeout : ℤ

pub record Cleanup : Type 0 where
  pub on : Text

pub record Trigger : Type 0 where
  pub action : Text
  pub interval : Text
  pub times : ℤ
  pub url : Text
  pub method : Text
  pub body : Text
  pub headers : List (Text × Text)

pub record VerifyCase : Type 0 where
  pub name : Text
  pub query : Text
  pub actual : Text
  pub expected : Text
  pub includes : List Text

pub record VerifyRetryStrategy : Type 0 where
  pub count : ℤ
  pub interval : Any

pub record Verify : Type 0 where
  pub retry_strategy : VerifyRetryStrategy
  pub cases : List VerifyCase
  pub fail_fast : Bool
  pub concurrency : Bool

pub record E2EConfig : Type 0 where
  pub setup : Setup
  pub cleanup : Cleanup
  pub trigger : Trigger
  pub verify : Verify

-- `GetActual`
unfoldable pub get_actual : Settings → VerifyCase → Text
get_actual st v = resolve_abs st v.actual

-- `GetExpected`
unfoldable pub get_expected : Settings → VerifyCase → Text
get_expected st v = resolve_abs st v.expected

-- `GetFile` and `GetKubeconfig`, with os.ExpandEnv of the process as an argument.
unfoldable pub get_file : Settings → (Text → Text) → Setup → Text
get_file st expand_env s = resolve_abs st (expand_env s.file)

unfoldable pub get_kubeconfig : Settings → (Text → Text) → Setup → Text
get_kubeconfig st expand_env s = resolve_abs st (expand_env s.kubeconfig)

-- Durations count nanoseconds.
abbrev pub second : ℕ
second = 10 ^ 9

abbrev pub millisecond : ℕ
millisecond = 10 ^ 6

abbrev pub default_wait_timeout : ℤ
default_wait_timeout = pos (600 * second)

-- fmt prints nil as `<nil>`; an int is printed by the library, as is another value.
unfoldable pub bad_interval : Text → Any → Text
bad_interval name (other v) = codes "failed to parse " ++ (name ++ (codes ": " ++ v))
bad_interval name _ = codes "failed to parse " ++ (name ++ codes ": <nil>")

-- The switch of `parseInterval`, with time.ParseDuration as an argument.
interval_of : (Text → Result ℤ) → Any → Text → Result ℤ
interval_of parse_duration (int itv) name = ok (wrap64 (times itv second))
interval_of parse_duration (string s) name = parse_duration s
interval_of parse_duration v name = err (bad_interval name v)

-- `parseInterval` of internal/config.
unfoldable pub parse_interval : (Text → Result ℤ) → Any → Text → Result ℤ
unfolding interval_of
parse_interval parse_duration v name = do
  interval ← interval_of parse_duration v name
  ok (if is_neg interval then default_wait_timeout else interval)

-- `Finalize` of the setup.
unfoldable pub finalize : (Text → Result ℤ) → Setup → Result Setup
unfolding parse_interval
finalize parse_duration s = do
  interval ← parse_interval parse_duration s.timeout (codes "setup.timeout")
  ok (record s { final_timeout = if is_nonpos interval then default_wait_timeout else interval })
