-- ===== src/Steps/Commands.antt =====
-- The commands of a step and the waits behind them (`executeCommandsAndWait`,
-- internal/components/setup/common.go). What the shell and kubectl answer is a `CommandWorld`.
use skywalking_infra_e2e.Base.{
  ◌>>=◌, contains_byte, is_empty, not, ◌&&◌, ◌≡◌, refl, ◌↔◌, inl, inr, Bool, true, false, Option,
  none, some, List, [], ◌∷◌, ◌++◌, arith, ◌==◌, if◌then◌else◌, Option-cases, All, Text, codes,
  Result, ok, err, Result-cases,
}
use skywalking_infra_e2e.Config.{Wait}
use skywalking_infra_e2e.Kind.{WaitFlags, get_wait_options}

-- How RunWait ends: with an error, or none, or a panic.
pub data Ran : Type 0 where
  returned : Option Text → Ran
  panicked : Ran

-- `execute` gives stderr where the command fails, and no value where it does not; `to_options` gives the
-- error of making options of flags, and `run_wait` is RunWait on the options of flags or on nil. A setup with compose has no cluster.
pub record CommandWorld : Type 0 where
  pub execute : Text → Option Text
  pub to_options : WaitFlags → Option Text
  pub run_wait : Option WaitFlags → Ran
  pub has_cluster : Bool

-- The errors that are sent, in order, and whether the goroutine returns.
abbrev pub Sent : Type 0
Sent = List Text × Bool

commands_error : Text → Text → Text → Text
commands_error commands what x = codes "commands: [" ++ (commands ++ (what ++ x))

-- strings.ReplaceAll of a line break by `\n`.
unfoldable pub one_line : Text → Text
one_line [] = []
one_line (c ∷ s) = (if c == 10 then codes "\\n" else c ∷ []) ++ one_line s

-- What follows RunWait: a panic ends the goroutine, an error is sent and ends it.
unfoldable pub after_wait : Text → Ran → Sent → Sent
unfolding commands_error
after_wait commands panicked rest = ([], false)
after_wait commands (returned (some x)) rest =
    (commands_error commands (codes "] waits error: ") x ∷ [], true)
after_wait commands (returned none) rest = rest

unfoldable pub send : Text → Sent → Sent
send x (xs, returns) = (x ∷ xs, returns)

module _ (w : CommandWorld) where
  -- `getWaitOptions`
  unfoldable pub options : Wait → Result WaitFlags
  options wait = do
    flags ← get_wait_options wait
    elim (w.to_options flags) [ some x ↦ err x | none ↦ ok flags ]

  -- `CopyClusterToNamespace` of no cluster, which `getWaitOptions` calls behind its first test.
  unfoldable pub lacks_cluster : Wait → Bool
  lacks_cluster wait =
      not w.has_cluster
      && not (contains_byte b'/' wait.resource && not (is_empty wait.label_selector))

  -- The loop over the waits. An error of the options is sent, and the options are nil then.
  unfoldable pub wait_for : Text → List Wait → Sent
  unfolding commands_error
  wait_for commands [] = ([], true)
  wait_for commands (wait ∷ waits) =
      let rest = wait_for commands waits in
      if lacks_cluster wait then ([], false) else elim (options wait) [
        | ok flags ↦ after_wait commands (w.run_wait (some flags)) rest
        | err x ↦
            send (commands_error commands (codes "] get wait options error: ") x)
              (after_wait commands (w.run_wait none) rest)
      ]

  -- `executeCommandsAndWait`: an error of the commands is sent, and the waits follow.
  unfoldable pub execute_commands_and_wait : Text → List Wait → Sent
  unfolding commands_error
  execute_commands_and_wait commands waits =
      let rest = wait_for commands waits in
      elim (w.execute commands) [
        | none ↦ rest
        | some stderr ↦
            send (commands_error (one_line commands) (codes "] runs error: ") stderr) rest
      ]

  -- The wait has a cluster and options, and is met.
  unfoldable pub IsMet : Wait → Type 0
  IsMet wait =
      (lacks_cluster wait ≡ false)
      × ((flags : WaitFlags) × ((options wait ≡ ok flags)
            × (w.run_wait (some flags) ≡ returned none)))

  after_wait_silent :
      (commands : Text) (r : Ran) (rest : Sent)
      → after_wait commands r rest ≡ ([], true)
      → (r ≡ returned none) × (rest ≡ ([], true))
  unfolding after_wait
  after_wait_silent commands r rest e = ground arith

  IsMet-head :
      (commands : Text) (wait : Wait) (waits : List Wait)
      → wait_for commands (wait ∷ waits) ≡ ([], true)
      → IsMet wait × (wait_for commands waits ≡ ([], true))
  unfolding wait_for IsMet send
  IsMet-head commands wait waits e = elim (Result-cases (options wait)) [
    | inl (flags, h) ↦
        let near : lacks_cluster wait ≡ false = ground arith in
        let (a, b) = after_wait_silent commands (w.run_wait (some flags)) _ (ground arith) in
        ((near, (flags, (h, a))), b)
    | inr (x, h) ↦ absurd (ground arith)
  ]

  wait_for-IsMet :
      (commands : Text) (waits : List Wait) → wait_for commands waits ≡ ([], true) → All IsMet waits
  wait_for-IsMet commands [] e = tt
  wait_for-IsMet commands (wait ∷ waits) e =
      let (a, b) = IsMet-head commands wait waits e in (a, wait_for-IsMet commands waits b)

  met-wait_for :
      (commands : Text) (waits : List Wait) → All IsMet waits → wait_for commands waits ≡ ([], true)
  unfolding wait_for IsMet after_wait
  met-wait_for commands [] h = refl
  met-wait_for commands (wait ∷ waits) ((c, (flags, (a, b))), hs) =
      let rest = met-wait_for commands waits hs in ground arith

  -- The goroutine of a command step returns without having sent an error exactly where the
  -- commands succeed, and every wait has options and is met.
  pub execute_commands_and_wait_silent :
      (commands : Text) (waits : List Wait)
      → (execute_commands_and_wait commands waits ≡ ([], true))
        ↔ ((w.execute commands ≡ none) × All IsMet waits)
  unfolding execute_commands_and_wait send
  execute_commands_and_wait_silent commands waits = elim (Option-cases (w.execute commands)) [
    | inl h ↦ (
      (λ e. (h, wait_for-IsMet commands waits (ground arith))),
      λ (a, b). let rest = met-wait_for commands waits b in ground arith,
    )
    | inr (x, h) ↦ ((λ e. absurd (ground arith)), λ (a, b). absurd (ground arith))
  ]
