-- ===== src/Trigger.antt =====
-- The HTTP trigger (internal/components/trigger/http.go) and its creation
-- (commands/trigger/trigger.go). The ticker, the server and `Stop` are a list of events.
pub mod Reference
pub mod Command
pub mod Bounds
pub mod Request
use skywalking_infra_e2e.Base.{
  ◌>>=◌, ℕ, ◌+◌, ◌-◌, ◌^◌, Bool, true, false, not, ◌&&◌, ◌||◌, Option, none, some, List, [], ◌∷◌,
  ◌++◌, leb, ◌==◌, if◌then◌else◌, is_some, Text, codes, is_empty, text_eq, Result, ok, err, ℤ, pos,
  negsuc, is_nonpos, times, itoa_nat,
}
use skywalking_infra_e2e.Config.{Trigger}

abbrev pub max_int32 : ℕ
max_int32 = 2 ^ 31 - 1

-- The settings of an `httpAction`.
pub record HttpAction : Type 0 where
  pub interval : ℤ
  pub times : ℕ
  pub url : Text
  pub method : Text
  pub body : Text
  pub headers : List (Text × Text)

-- strings.ToUpper on ASCII.
unfoldable pub to_upper : Text → Text
to_upper [] = []
to_upper (c ∷ s) = (if leb b'a' c && leb c b'z' then c - 32 else c) ∷ to_upper s

-- A number of times that is not positive stands for a very large one.
unfoldable pub normalize_times : ℤ → ℕ
normalize_times (pos n) = if n == 0 then max_int32 else n
normalize_times (negsuc n) = max_int32

-- `NewHTTPAction`, with time.ParseDuration, the printing of a duration and os.ExpandEnv as arguments.
unfoldable pub new_http_action :
    (Text → Result ℤ) → (ℤ → Text) → (Text → Text) → Trigger → Result HttpAction
unfolding normalize_times
new_http_action parse_duration show_duration expand_env t = do
  interval ← parse_duration t.interval
  if is_nonpos interval
      then err (codes "trigger interval should be > 0, but was " ++ show_duration interval)
      else ok (record {
        interval = interval;
        times = normalize_times t.times;
        url = expand_env t.url;
        method = to_upper t.method;
        body = t.body;
        headers = t.headers;
      })

-- `CreateTriggerAction`: no action, an action, or an error.
unfoldable pub create_trigger_action :
    (Text → Result ℤ)
    → (ℤ → Text)
    → (Text → Text)
    → Option Text
    → Trigger
    → Result (Option HttpAction)
unfolding new_http_action
create_trigger_action parse_duration show_duration expand_env config_error t = elim config_error [
  | some x ↦ err x
  | none ↦
      if is_empty t.action
      then ok none
      else if text_eq t.action (codes "http")
      then elim (new_http_action parse_duration show_duration expand_env t) [
        | err x ↦ err x
        | ok a ↦ ok (some a)
      ]
      else err (codes "unsupported trigger action: " ++ t.action)
]

-- How a request ends: it cannot be built, it is not answered, or it is answered with a status.
pub data Response : Type 0 where
  bad_request failed : Text → Response
  answered : ℕ → Response

pub data Event : Type 0 where
  tick : Response → Event
  stop : Event

-- The state of the goroutine: the requests executed, what was sent on the channel (an error or
-- nil), and whether it still runs.
pub record Worker : Type 0 where
  pub executed_count : ℕ
  pub sent : Option (Option Text)
  pub running : Bool

-- `execute`: the new count and the error.
unfoldable pub execute : ℕ → Response → ℕ × Option Text
execute n (bad_request x) = (n, some x)
execute n (failed x) = (n + 1, some x)
execute n (answered status) = (
  n + 1,
  if status == 200
      then none
      else some (codes "do request failed, response status code: " ++ itoa_nat status),
)

-- The case of the ticker in the loop of `Do`.
on_tick : ℕ → Worker → Response → Worker
on_tick times w r =
    let (n, error) = execute w.executed_count r in
    record {
      executed_count = n;
      sent =
          if not (is_some w.sent) && (not (is_some error) || times == n)
          then some error
          else w.sent;
      running = not (not (times == max_int32) && leb times n);
    }

step_running : ℕ → Worker → Event → Worker
unfolding on_tick
step_running times w (tick r) = on_tick times w r
step_running times w stop = record w { running = false }

-- A goroutine that has returned does nothing more.
unfoldable pub step : ℕ → Worker → Event → Worker
unfolding step_running
step times w e = if w.running then step_running times w e else w

-- The goroutine of `Do` over the events that it sees.
unfoldable pub run : ℕ → Worker → List Event → Worker
run times w [] = w
run times w (e ∷ es) = run times (step times w e) es

abbrev pub started : Worker
started = record { executed_count = 0; sent = none; running = true }
