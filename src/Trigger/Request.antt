-- ===== src/Trigger/Request.antt =====
-- The requests of the trigger (`request` and `execute`, internal/components/trigger/http.go): how the
-- answers to the ticks come from the settings of the action. What net/http answers is an `HttpWorld`.
use mathlib.Core.Path.{subst}
use skywalking_infra_e2e.Base.{
  ℕ, zero, suc, ◌+◌, ◌<◌, ◌≡◌, sym, inl, inr, Option, none, some, List, [], ◌∷◌, map, arith, All,
  Text, Result, ok, err, Result-cases,
}
use skywalking_infra_e2e.Trigger.{
  HttpAction, Response, bad_request, failed, answered, tick, run, started,
}
use skywalking_infra_e2e.Trigger.Reference.{IsBuilt, IsBad, reference, run_sends, run_bad_waits}

pub record HttpRequest : Type 0 where
  pub method : Text
  pub url : Text
  pub body : Text
  pub headers : List (Text × List Text)

-- `new_request` is the error of http.NewRequest with a method, a URL and a body, and `send` the status
-- of the i-th answer, or an error.
pub record HttpWorld : Type 0 where
  pub new_request : Text → Text → Text → Option Text
  pub send : ℕ → HttpRequest → Result ℕ

abbrev pub single : Text × Text → Text × List Text
single (k, v) = (k, v ∷ [])

-- `request`
unfoldable pub request : HttpWorld → HttpAction → Result HttpRequest
request w a = elim (w.new_request a.method a.url a.body) [
  | some x ↦ err x
  | none ↦
      ok (record { method = a.method; url = a.url; body = a.body; headers = map single a.headers })
]

-- The response that `execute` works on, at the i-th tick.
unfoldable pub respond : HttpWorld → HttpAction → ℕ → Response
respond w a i = elim (request w a) [
  | err x ↦ bad_request x
  | ok r ↦ elim (w.send i r) [ err x ↦ failed x | ok status ↦ answered status ]
]

-- The responses to a number of ticks.
unfoldable pub responses : HttpWorld → HttpAction → ℕ → ℕ → List Response
responses w a i zero = []
responses w a i (suc n) = respond w a i ∷ responses w a (i + 1) n

module _ (w : HttpWorld) (a : HttpAction) where
  respond-IsBad :
      (i : ℕ) {x : Text} → w.new_request a.method a.url a.body ≡ some x → IsBad (respond w a i)
  unfolding respond request
  respond-IsBad i {x} h =
      let same : respond w a i ≡ bad_request x = ground arith in subst IsBad (sym same) tt

  responses-IsBad :
      (i n : ℕ) {x : Text}
      → w.new_request a.method a.url a.body ≡ some x
      → All IsBad (responses w a i n)
  unfolding responses
  responses-IsBad i zero h = tt
  responses-IsBad i (suc n) h = (respond-IsBad i h, responses-IsBad (i + 1) n h)

  built_request : HttpRequest
  built_request = record {
    method = a.method;
    url = a.url;
    body = a.body;
    headers = map single a.headers;
  }

  respond-IsBuilt : (i : ℕ) → w.new_request a.method a.url a.body ≡ none → IsBuilt (respond w a i)
  unfolding respond request built_request
  respond-IsBuilt i h = elim (Result-cases (w.send i built_request)) [
    | inl (status, e) ↦
        let same : respond w a i ≡ answered status = ground arith in subst IsBuilt (sym same) tt
    | inr (x, e) ↦ let same : respond w a i ≡ failed x = ground arith in subst IsBuilt (sym same) tt
  ]

  responses-IsBuilt :
      (i n : ℕ) → w.new_request a.method a.url a.body ≡ none → All IsBuilt (responses w a i n)
  unfolding responses
  responses-IsBuilt i zero h = tt
  responses-IsBuilt i (suc n) h = (respond-IsBuilt i h, responses-IsBuilt (i + 1) n h)

  -- If the method, the URL and the body of the action make no request and the number of times is
  -- positive, its goroutine sends nothing and never returns by itself, however many ticks pass:
  -- the caller waits for ever.
  pub refused_request_waits :
      (n : ℕ) {x : Text}
      → 0 < a.times
      → w.new_request a.method a.url a.body ≡ some x
      → run a.times started (map tick (responses w a 0 n)) ≡ started
  refused_request_waits n some_times h =
      run_bad_waits a.times (responses w a 0 n) some_times (responses-IsBad 0 n h)

  -- Where the request can be made, the channel gets what the reference of the answers says.
  pub requests_send :
      (n : ℕ)
      → 0 < a.times
      → w.new_request a.method a.url a.body ≡ none
      → (run a.times started (map tick (responses w a 0 n))).sent
        ≡ reference a.times (responses w a 0 n)
  requests_send n some_times h =
      run_sends a.times (responses w a 0 n) some_times (responses-IsBuilt 0 n h)
