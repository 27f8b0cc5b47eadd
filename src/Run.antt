-- ===== src/Run.antt =====
-- The run command (commands/run/run.go): setup, trigger, verify and cleanup in order, with the
-- deferred cleanup. What the stages return is an argument; what is done is a list of events.
pub mod Cleanup
pub mod Whole
use skywalking_infra_e2e.Base.{
  Bool, true, false, not, ◌&&◌, ◌||◌, Option, none, some, List, [], ◌∷◌, ◌++◌, if◌then◌else◌,
  is_some, Text, codes, text_eq,
}

-- The names of the cleanup strategies (internal/constant/cleanup.go).
abbrev pub clean_up_on_success : Text
clean_up_on_success = codes "success"

abbrev pub clean_up_on_failure : Text
clean_up_on_failure = codes "failure"

abbrev pub clean_up_always : Text
clean_up_always = codes "always"

-- The action of the trigger stage: its creation fails, there is none, or there is one, which sends
-- an error or nil on its channel, or never sends.
pub data ActionOutcome : Type 0 where
  create_failed : Text → ActionOutcome
  no_action : ActionOutcome
  never_sends : ActionOutcome
  sends : Option Text → ActionOutcome

-- What the configuration says and what the stages return.
pub record Stages : Type 0 where
  pub config_error : Option Text
  pub cleanup_on : Text
  pub setup_error : Option Text
  pub action : ActionOutcome
  pub verify_error : Option Text

pub data Event : Type 0 where
  set_up create_action do_action verify stop_action stop_setup clean_up : Event

-- What the function has done, and how it returns: `none` if it waits for ever, else its error.
pub record Run : Type 0 where
  pub events : List Event
  pub returned : Option (Option Text)

-- `doCleanup`, with the action that was started or none.
unfoldable pub do_cleanup : Bool → List Event
do_cleanup has_action =
    if has_action then stop_action ∷ stop_setup ∷ clean_up ∷ [] else stop_setup ∷ clean_up ∷ []

-- The deferred function behind a setup that succeeded.
unfoldable pub deferred : Text → Bool → Option Text → List Event
unfolding do_cleanup
deferred on has_action error =
    let should_cleanup =
      (text_eq on clean_up_on_success && not (is_some error))
      || (text_eq on clean_up_on_failure && is_some error) in
    if not should_cleanup then [] else do_cleanup has_action

-- The return with an error or nil behind a setup that succeeded: one of the deferred functions runs.
leave : Text → List Event → Bool → Option Text → Run
unfolding deferred
leave on events has_action error = record {
  events =
      events
      ++ (if text_eq on clean_up_always
          then do_cleanup has_action
          else deferred on has_action error);
  returned = some error;
}

-- The trigger and verify parts.
after_setup : Stages → Run
unfolding leave
after_setup s = elim s.action [
  | create_failed x ↦ leave s.cleanup_on (set_up ∷ create_action ∷ []) false (some x)
  | no_action ↦ leave s.cleanup_on (set_up ∷ create_action ∷ verify ∷ []) false s.verify_error
  | never_sends ↦ record { events = set_up ∷ create_action ∷ do_action ∷ []; returned = none }
  | sends error ↦ elim error [
    | some x ↦ leave s.cleanup_on (set_up ∷ create_action ∷ do_action ∷ []) true (some x)
    | none ↦
        leave s.cleanup_on (set_up ∷ create_action ∷ do_action ∷ verify ∷ []) true s.verify_error
  ]
]

-- `runAccordingE2E`
unfoldable pub run_according_e2e : Stages → Run
unfolding after_setup
run_according_e2e s = elim s.config_error [
  | some x ↦ record { events = []; returned = some (some x) }
  | none ↦ elim s.setup_error [
    | some x ↦ record {
      events = set_up ∷ (if text_eq s.cleanup_on clean_up_always then do_cleanup false else []);
      returned = some (some x);
    }
    | none ↦ after_setup s
  ]
]
