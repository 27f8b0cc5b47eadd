-- ===== src/Trigger/Reference.antt =====
-- What the trigger sends on its channel, by the answers alone.
use skywalking_infra_e2e.Base.{
  ℕ, zero, suc, ◌+◌, ◌<◌, ◌≡◌, refl, ap, ◌∙◌, ◌⊎◌, inl, inr, true, Option, none, some, List, [],
  ◌∷◌, map, arith, ◌==◌, if◌then◌else◌, Bool-cases, Option-cases, is_some, All, Text, times,
}
use skywalking_infra_e2e.Trigger.{
  Response, bad_request, failed, answered, tick, Worker, execute, step, run, started,
}
use skywalking_infra_e2e.Trigger.Bounds.{run_sent_once}

-- The request could be built.
abbrev pub IsBuilt : Response → Type 0
IsBuilt (bad_request x) = ⊥
IsBuilt _ = Unit

-- The error of an answer, nil for the status 200.
abbrev pub error_of : Response → Option Text
unfolding execute
error_of r = (execute 0 r).1

-- The first success if it comes within so many requests, else the error of the last of them.
abbrev pub reference : ℕ → List Response → Option (Option Text)
reference zero rs = none
reference (suc left) [] = none
reference (suc left) (r ∷ rs) =
    let later = reference left rs in
    if is_some (error_of r) then (if left == 0 then some (error_of r) else later) else some none

abbrev at : ℕ → Worker
at n = record { executed_count = n; sent = none; running = true }

tick_sends :
    (times n : ℕ) (r : Response)
    → IsBuilt r
    → (error_of r ≡ none) ⊎ (n + 1 ≡ times)
    → (step times (at n) (tick r)).sent ≡ some (error_of r)
unfolding step execute
tick_sends times n (bad_request x) b h = absurd b
tick_sends times n (failed x) b h = ground arith
tick_sends times n (answered status) b h = ground arith

tick_goes_on :
    (times n : ℕ) (r : Response)
    → IsBuilt r
    → is_some (error_of r) ≡ true
    → n + 1 < times
    → step times (at n) (tick r) ≡ at (n + 1)
unfolding step execute
tick_goes_on times n (bad_request x) b h k = absurd b
tick_goes_on times n (failed x) b h k = ground arith
tick_goes_on times n (answered status) b h k = ground arith

run-reference :
    (left n times : ℕ) (rs : List Response)
    → n + left ≡ times
    → 0 < left
    → All IsBuilt rs
    → (run times (at n) (map tick rs)).sent ≡ reference left rs
unfolding run
run-reference zero n times rs e h b = absurd (omega arith)
run-reference (suc left) n times [] e h b = refl
run-reference (suc left) n times (r ∷ rs) e h (b, bs) = elim (Option-cases (error_of r)) [
  | inl good ↦
      run_sent_once times (map tick rs) (step times (at n) (tick r))
        (tick_sends times n r b (inl good))
      ∙ rw good
  | inr (x, bad) ↦ elim (Bool-cases (left == 0)) [
    | inl last ↦
        run_sent_once times (map tick rs) (step times (at n) (tick r))
          (tick_sends times n r b (inr (ground arith)))
        ∙ rw (bad, last)
    | inr more ↦
        ap (λ w. (run times w (map tick rs)).sent)
          (tick_goes_on times n r b (rw bad refl) (ground arith))
        ∙ run-reference left (n + 1) times rs (omega arith) (ground arith) bs
        ∙ rw (bad, more)
  ]
]

-- If every request can be built and the number of times is positive, the channel gets nil at the
-- first answer with the status 200 among the first `times` answers, the last error if none of
-- these is a 200, and nothing while fewer answers have come and none of them is a 200.
pub run_sends :
    (times : ℕ) (rs : List Response)
    → 0 < times
    → All IsBuilt rs
    → (run times started (map tick rs)).sent ≡ reference times rs
run_sends times rs h b = run-reference times 0 times rs (omega arith) h b

-- The response is a request that could not be built.
abbrev pub IsBad : Response → Type 0
IsBad (bad_request x) = Unit
IsBad _ = ⊥

step_bad : (times : ℕ) (r : Response) → 0 < times → IsBad r → step times started (tick r) ≡ started
unfolding step execute
step_bad times (bad_request x) h b = ground arith
step_bad times (failed x) h b = absurd b
step_bad times (answered n) h b = absurd b

-- If no request can be built and the number of times is positive, nothing is ever sent and the
-- goroutine never returns by itself, however many ticks pass: the caller waits for ever.
pub run_bad_waits :
    (times : ℕ) (rs : List Response)
    → 0 < times
    → All IsBad rs
    → run times started (map tick rs) ≡ started
unfolding run
run_bad_waits times [] h b = refl
run_bad_waits times (r ∷ rs) h (b, bs) =
    ap (λ w. run times w (map tick rs)) (step_bad times r h b) ∙ run_bad_waits times rs h bs
