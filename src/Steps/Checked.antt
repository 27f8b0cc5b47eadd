-- ===== src/Steps/Checked.antt =====
-- What `RunCommandsAndWait` knows of its goroutine (internal/components/setup/common.go).
use skywalking_infra_e2e.Base.{
  ◌≤◌, ◌≡◌, refl, ◌⊎◌, inl, inr, Bool, true, false, none, List, [], ◌∷◌, arith, ltb, length, All,
  Text,
}
use skywalking_infra_e2e.Config.{Wait}
use skywalking_infra_e2e.Steps.{
  Select, finished, timed_out, errored, select_error, run_commands_and_wait,
}
use skywalking_infra_e2e.Steps.Commands.{
  CommandWorld, Sent, execute_commands_and_wait, IsMet, execute_commands_and_wait_silent,
}

-- Where the select can go, by what the goroutine sends: the first error; the end of a goroutine that
-- returns, which has at most the one error unread for which the channel has room; or the timeout.
pub data Takes : Sent → Select → Type 0 where
  takes_error : (x : Text) (xs : List Text) (returns : Bool) → Takes (x ∷ xs, returns) (errored x)
  takes_finish : (xs : List Text) → length xs ≤ 1 → Takes (xs, true) finished
  takes_timeout : (s : Sent) → Takes s timed_out

-- The goroutine sent one error, which was not read.
abbrev pub OneUnread : Sent → Type 0
OneUnread s = (x : Text) × (s ≡ (x ∷ [], true))

few : (xs : List Text) → length xs ≤ 1 → (xs ≡ []) ⊎ ((x : Text) × (xs ≡ x ∷ []))
few [] h = inl refl
few (x ∷ []) h = inr (x, refl)
few (x ∷ y ∷ xs) h = absurd (omega (arith, h))

finish_only :
    (command seconds : Text) (s : Select)
    → ltb (length command) 1 ≡ false
    → run_commands_and_wait command seconds s ≡ none
    → s ≡ finished
unfolding run_commands_and_wait select_error
finish_only command seconds finished h e = refl
finish_only command seconds timed_out h e = absurd (ground arith)
finish_only command seconds (errored x) h e = absurd (ground arith)

sent_few : {s : Sent} {t : Select} → Takes s t → t ≡ finished → (s ≡ ([], true)) ⊎ OneUnread s
sent_few (takes_error x xs returns) h = absurd (ground arith)
sent_few (takes_finish xs l) h = elim (few xs l) [
  | inl e ↦ inl (ground arith)
  | inr (x, e) ↦ inr (x, ground arith)
]
sent_few (takes_timeout s) h = absurd (ground arith)

-- Where a step has commands and running them and waiting returns no error, with a select that can
-- go there by what the goroutine sends, the commands succeeded, and every wait has options and is
-- met, or the goroutine has returned with exactly one error sent, which was not read.
pub run_commands_and_wait_checked :
    (w : CommandWorld) (command seconds : Text) (waits : List Wait) (s : Select)
    → ltb (length command) 1 ≡ false
    → Takes (execute_commands_and_wait w command waits) s
    → run_commands_and_wait command seconds s ≡ none
    → ((w.execute command ≡ none) × All (IsMet w) waits)
      ⊎ OneUnread (execute_commands_and_wait w command waits)
run_commands_and_wait_checked w command seconds waits s h t e =
    elim (sent_few t (finish_only command seconds s h e)) [
      | inl silent ↦ inl ((execute_commands_and_wait_silent w command waits).0 silent)
      | inr one ↦ inr one
    ]
