-- ===== src/Steps/WaitSet.antt =====
-- The goroutines that share a `WaitSet` (internal/util/waitSet.go, and `createManifestAndWait` and
-- `concurrentlyWait`, internal/components/setup/common.go and kind.go): the waits, the goroutine
-- that closes `FinishChan`, and the select.
pub mod Verdicts
use skywalking_infra_e2e.Base.{ℕ, suc, ◌-◌, ◌<◌, ◌≡◌, Bool, true, false, Option, none, some, Text}
use skywalking_infra_e2e.Steps.{Select, finished, timed_out, errored}

-- `running` waits have not ended, `leaving` ones have still to leave the wait group. `err_chan`
-- holds one error at most. `failed` counts the errors that were sent, `verdict` is where the
-- select went.
pub record WaitSet : Type 0 where
  pub running : ℕ
  pub leaving : ℕ
  pub failed : ℕ
  pub err_chan : Option Text
  pub closed : Bool
  pub verdict : Option Select

-- `NewWaitSet`, behind the loop that adds n waits to the wait group.
unfoldable pub new_wait_set : ℕ → WaitSet
new_wait_set n = record {
  running = n;
  leaving = 0;
  failed = 0;
  err_chan = none;
  closed = false;
  verdict = none;
}

abbrev pub held : Option Text → ℕ
held none = 0
held (some x) = 1

abbrev pub is_errored : Option Select → Bool
is_errored (some (errored x)) = true
is_errored _ = false

-- `Fails x` says that a wait can fail with the error x.
module _ (Fails : Text → Type 0) where
  pub data Step (s : WaitSet) : WaitSet → Type 0 where
    met : 0 < s.running → Step s (record s { running = s.running - 1; leaving = suc s.leaving })
    fails :
        (x : Text)
        → Fails x
        → 0 < s.running
        → s.err_chan ≡ none
        → Step s (record s {
          running = s.running - 1;
          leaving = suc s.leaving;
          failed = suc s.failed;
          err_chan = some x;
        })
    leaves : 0 < s.leaving → Step s (record s { leaving = s.leaving - 1 })
    closes : s.running ≡ 0 → s.leaving ≡ 0 → Step s (record s { closed = true })
    selects_finish :
        s.closed ≡ true → s.verdict ≡ none → Step s (record s { verdict = some finished })
    selects_error :
        (x : Text)
        → s.err_chan ≡ some x
        → s.verdict ≡ none
        → Step s (record s { err_chan = none; verdict = some (errored x) })
    selects_timeout : s.verdict ≡ none → Step s (record s { verdict = some timed_out })

  pub data Reach (s : WaitSet) : WaitSet → Type 0 where
    here : Reach s s
    next : {t u : WaitSet} → Reach s t → Step t u → Reach s u

  -- A channel that is closed has no waits, an error in the channel or in the verdict is one of a
  -- wait, and no other verdict takes an error away.
  pub record Inv (s : WaitSet) : Type 0 where
    pub ended : s.closed ≡ true → (s.running ≡ 0) × (s.leaving ≡ 0)
    pub told_closed : s.verdict ≡ some finished → s.closed ≡ true
    pub in_channel : (x : Text) → s.err_chan ≡ some x → Fails x
    pub in_verdict : (x : Text) → s.verdict ≡ some (errored x) → Fails x
    pub kept : is_errored s.verdict ≡ false → s.failed ≡ held s.err_chan
