-- ===== src/Run/Whole.antt =====
-- The run command with its parts (commands/run/run.go): `runAccordingE2E` and `doCleanup` over the
-- setup, the trigger, the verification and the cleanup as they are modelled, with the variables that
-- these share.
pub mod Refines
pub mod Succeeds
pub mod Released
pub mod EndToEnd
pub mod Fresh
use skywalking_infra_e2e.Base.{
  ℕ, Bool, true, false, not, ◌&&◌, ◌||◌, Option, none, some, List, ◌∷◌, ◌++◌, map, if◌then◌else◌,
  is_some, Text, text_eq, Result, ok, err, ℤ, times,
}
use skywalking_infra_e2e.Config.{Trigger, Verify}
use skywalking_infra_e2e.Paths.{Settings}
use skywalking_infra_e2e.Verifier.{Engine}
use skywalking_infra_e2e.Verify.{World}
use skywalking_infra_e2e.Verify.Command.{Flags, do_verify_according_config}
use skywalking_infra_e2e.Kind.Forward.{Notified, returned, panicked}
use skywalking_infra_e2e.SetupCommand.{
  SetupState, SetupWorld, do_setup_according_e2e, do_stop_setup,
}
use skywalking_infra_e2e.Trigger.{
  HttpAction, Response, Event, Worker, create_trigger_action, tick, stop, run, started,
}
use skywalking_infra_e2e.Teardown.{KindConfigFile, do_cleanup_according_e2e}
use skywalking_infra_e2e.Run.{clean_up_on_success, clean_up_on_failure, clean_up_always}

-- What the parts are given. `until_sent` are the answers of the server up to the first message on
-- the channel of the action, `while_verifying` those up to its stop, and `behind_stop` those that
-- the goroutine of the trigger command could ask for behind the stop of that command. `kind_run` and
-- `compose_down` are the commands of the cleanup.
pub record RunWorld : Type 0 where
  pub setup : SetupWorld
  pub cleanup_on : Text
  pub trigger : Trigger
  pub parse_duration : Text → Result ℤ
  pub show_duration : ℤ → Text
  pub expand_env : Text → Text
  pub until_sent : List Response
  pub while_verifying : List Response
  pub behind_stop : List Response
  pub settings : Settings
  pub flags : Flags
  pub verify : Verify
  pub world : ℕ → ℕ → World
  pub schedule : List ℕ
  pub kubeconfig : Text
  pub compose_path : Text
  pub kind_config : KindConfigFile
  pub kind_run : List Text → ℕ → Option Text
  pub compose_down : Option Text

-- The variables: those of the setup, the action with its goroutine, whether the channel of the action
-- holds a stop, where the notification of the forwarders stands, and the error of the cleanup, which
-- is logged only.
pub record RunState : Type 0 where
  pub setup : SetupState
  pub action : Option (HttpAction × Worker)
  pub stopping : Bool
  pub notified : Option Notified
  pub cleaned : Option (Option Text)

-- `returned` is `none` for a run that waits for ever, or whose goroutines have not finished.
pub record Finished : Type 0 where
  pub state : RunState
  pub returned : Option (Option Text)

abbrev pub begun : SetupState → RunState
begun s = record { setup = s; action = none; stopping = false; notified = none; cleaned = none }

-- The goroutine of the action over answers to its ticks.
unfoldable pub ticked : List Response → RunState → RunState
ticked rs st = elim st.action [
  | none ↦ st
  | some (a, k) ↦ record st { action = some (a, run a.times k (map tick rs)) }
]

-- `stopAction`: `Stop` puts a message in the channel of the action, which holds one, and returns. The
-- goroutine may be at a request then, and takes the message later.
unfoldable pub stop_action : RunState → RunState
stop_action st = elim st.action [ none ↦ st | some (a, k) ↦ record st { stopping = true } ]

-- What the goroutine takes from then on: ticks, the stop if the channel holds it, and again ticks.
unfoldable pub taken_later : Bool → List Response → List Response → List Event
taken_later stopping before behind =
    map tick before ++ (if stopping then stop ∷ map tick behind else map tick behind)

module _ (w : RunWorld) where
  -- The environment is cleaned up, unless the notification has panicked. A notification that waits
  -- ends once the forwarders have sent their messages.
  unfoldable pub clean_environment : Notified → RunState → RunState
  clean_environment panicked st = record st { notified = some panicked }
  clean_environment n st = record st {
    notified = some n;
    cleaned = some (
        do_cleanup_according_e2e w.setup.env w.kubeconfig w.compose_path w.kind_config w.kind_run
          w.compose_down);
  }

  -- `doCleanup`
  unfoldable pub do_cleanup : RunState → RunState
  do_cleanup st =
      let stopped = stop_action st in
      let (s, n) = do_stop_setup stopped.setup in clean_environment n (record stopped { setup = s })

  -- Whether the deferred functions clean up behind a setup that succeeded.
  unfoldable pub should_cleanup : Option Text → Bool
  should_cleanup error =
      text_eq w.cleanup_on clean_up_always
      || (text_eq w.cleanup_on clean_up_on_success && not (is_some error))
      || (text_eq w.cleanup_on clean_up_on_failure && is_some error)

  -- The return with an error or nil behind a setup that succeeded.
  unfoldable pub leave : RunState → Option Text → Finished
  leave st error = record {
    state = if should_cleanup error then do_cleanup st else st;
    returned = some error;
  }

  -- The return with an error of the setup.
  unfoldable pub leave_setup : RunState → Text → Finished
  leave_setup st x = record {
    state = if text_eq w.cleanup_on clean_up_always then do_cleanup st else st;
    returned = some (some x);
  }

module _ (e : Engine) (w : RunWorld) where
  -- The verify part.
  unfoldable pub verify_part : RunState → Finished
  verify_part st =
      elim (do_verify_according_config e w.settings w.parse_duration w.flags none w.verify w.world
        w.schedule) [
          | none ↦ record { state = ticked w.while_verifying st; returned = none }
          | some o ↦ leave w (ticked w.while_verifying st) o.error
        ]

  -- The receipt from the channel of the action.
  unfoldable pub await_action : RunState → HttpAction → Finished
  await_action st a =
      let k = run a.times started (map tick w.until_sent) in
      let st' = record st { action = some (a, k) } in
      elim k.sent [
        | none ↦ record { state = st'; returned = none }
        | some (some x) ↦ leave w st' (some x)
        | some none ↦ verify_part st'
      ]

  -- What follows the creation of the action.
  unfoldable pub with_action : RunState → Result (Option HttpAction) → Finished
  with_action st (err x) = leave w st (some x)
  with_action st (ok none) = verify_part st
  with_action st (ok (some a)) = await_action st a

  -- The trigger part and the verify part.
  unfoldable pub trigger_part : RunState → Finished
  trigger_part st =
      with_action st
        (create_trigger_action w.parse_duration w.show_duration w.expand_env none w.trigger)

  -- `runAccordingE2E`
  unfoldable pub run_whole : SetupState → Finished
  run_whole s = elim w.setup.config_error [
    | some x ↦ record { state = begun s; returned = some (some x) }
    | none ↦
        let (s', setup_error) = do_setup_according_e2e w.setup s in
        elim setup_error [ some x ↦ leave_setup w (begun s') x | none ↦ trigger_part (begun s') ]
  ]
