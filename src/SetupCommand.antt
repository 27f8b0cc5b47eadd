-- ===== src/SetupCommand.antt =====
-- The setup command (commands/setup/setup.go), with the log follower that it starts and closes
-- (`InitLogFollower` and `CloseLogFollower`, internal/components/setup/common.go), and the check of
-- the docker daemon (internal/util/docker.go).
pub mod Forwarders
use mathlib.Core.Path.{subst}
use skywalking_infra_e2e.Base.{
  ◌≡◌, sym, ap, ◌∙◌, ◌⊎◌, inl, inr, true, false, ◌&&◌, Option, none, some, ◌++◌, arith,
  if◌then◌else◌, Option-cases, is_some, Text, codes, text_eq, text_eq_iff,
}
use skywalking_infra_e2e.Logs.{LogFollower, new_resource_log_follower, close}
use skywalking_infra_e2e.Kind.Forward.{
  ForwardContext, Notified, kind_should_wait_signal, kind_clean_notify,
}

-- The variables `logFollower` and `portForwardContext`.
pub record SetupState : Type 0 where
  pub log_follower : Option LogFollower
  pub forward : Option ForwardContext

-- `kind_setup` gives the context that is bound behind it, and its error.
pub record SetupWorld : Type 0 where
  pub client_error : Option Text
  pub ping_error : Option Text
  pub config_error : Option Text
  pub env : Text
  pub log_dir : Text
  pub kind_setup : Option ForwardContext → Option ForwardContext × Option Text
  pub compose_setup : Option Text

-- `CheckDockerDaemon`
unfoldable pub check_docker_daemon : SetupWorld → Option Text
check_docker_daemon w = elim w.client_error [ some x ↦ some x | none ↦ w.ping_error ]

-- `InitLogFollower`
unfoldable pub init_log_follower : Text → SetupState → SetupState
init_log_follower log_dir s = record s { log_follower = some (new_resource_log_follower log_dir) }

-- `CloseLogFollower`
unfoldable pub close_log_follower : SetupState → SetupState
close_log_follower s = elim s.log_follower [
  | none ↦ s
  | some l ↦ record s { log_follower = some (close l) }
]

no_such_env : Text → Text
no_such_env env =
    codes "no such env for setup: [" ++ (env ++ codes "]. should use kind or compose instead")

-- `DoSetupAccordingE2E`
unfoldable pub do_setup_according_e2e : SetupWorld → SetupState → SetupState × Option Text
unfolding no_such_env
do_setup_according_e2e w s = elim w.config_error [
  | some x ↦ (s, some x)
  | none ↦
      let s' = init_log_follower w.log_dir s in
      let (forward, error) = w.kind_setup s'.forward in
      if text_eq w.env (codes "kind")
      then (record s' { forward = forward }, error)
      else if text_eq w.env (codes "compose")
      then (s', w.compose_setup)
      else (s', some (no_such_env w.env))
]

-- The channel of the forwarders is closed by `KindCleanNotify`.
unfoldable pub stop_forward : SetupState → SetupState
stop_forward s = elim s.forward [
  | none ↦ s
  | some c ↦ record s { forward = some (record c { stopped = true }) }
]

-- `DoStopSetup`: the state, and where `KindCleanNotify` stands.
unfoldable pub do_stop_setup : SetupState → SetupState × Notified
do_stop_setup s = (stop_forward (close_log_follower s), kind_clean_notify s.forward)

-- How the command ends: with an error or nil, with whether it waited for a signal and notified the
-- forwarders then.
pub record Ended : Type 0 where
  pub state : SetupState
  pub error : Option Text
  pub notified : Option Notified

-- `RunE`
unfoldable pub run_setup : SetupWorld → SetupState → Ended
run_setup w s = elim (check_docker_daemon w) [
  | some x ↦ record { state = s; error = some x; notified = none }
  | none ↦
      let (s', setup_error) = do_setup_according_e2e w s in
      let closed = close_log_follower s' in
      elim setup_error [
        | some x ↦ record { state = closed; error = some (codes "[Setup] " ++ x); notified = none }
        | none ↦
            if text_eq w.env (codes "kind") && kind_should_wait_signal s'.forward
            then record {
              state = stop_forward closed;
              error = none;
              notified = some (kind_clean_notify s'.forward);
            }
            else record { state = closed; error = none; notified = none }
      ]
]

-- The follower is closed, or was never made.
abbrev pub IsQuiet : SetupState → Type 0
IsQuiet s = (l : LogFollower) → s.log_follower ≡ some l → l.cancelled ≡ true

pub close_log_follower-IsQuiet : (s : SetupState) → IsQuiet (close_log_follower s)
unfolding close_log_follower close
close_log_follower-IsQuiet s l h = elim (Option-cases s.log_follower) [
  | inl e ↦ absurd (ground arith)
  | inr (k, e) ↦
      let same : close k ≡ l = ground arith in ap (λ (m : LogFollower). m.cancelled) (sym same)
]

pub stop_forward-IsQuiet : (s : SetupState) → IsQuiet s → IsQuiet (stop_forward s)
unfolding stop_forward
stop_forward-IsQuiet s h l e = h l (ground arith)

-- Where the docker daemon runs, the setup command leaves no log follower open, whether the setup
-- succeeds, fails, or cannot begin.
pub run_setup-IsQuiet :
    (w : SetupWorld) (s : SetupState) → check_docker_daemon w ≡ none → IsQuiet (run_setup w s).state
unfolding run_setup
run_setup-IsQuiet w s h =
    let after = (do_setup_according_e2e w s).0 in
    let same : ((run_setup w s).state ≡ close_log_follower after)
        ⊎ ((run_setup w s).state ≡ stop_forward (close_log_follower after)) =
      ground arith in
    elim same [
      | inl e ↦ subst IsQuiet (sym e) (close_log_follower-IsQuiet after)
      | inr e ↦
          subst IsQuiet (sym e)
            (stop_forward-IsQuiet (close_log_follower after) (close_log_follower-IsQuiet after))
    ]

-- The command waits for a signal only behind a setup with kind that returned no error, and it
-- notifies the context that this setup has bound.
notified_by :
    (w : SetupWorld) (s : SetupState)
    → is_some (run_setup w s).notified ≡ true
    → (text_eq w.env (codes "kind") ≡ true)
      × ((run_setup w s).error ≡ none)
      × (kind_should_wait_signal (do_setup_according_e2e w s).0.forward ≡ true)
      × ((do_setup_according_e2e w s).1 ≡ none)
      × ((run_setup w s).notified ≡ some (kind_clean_notify (do_setup_according_e2e w s).0.forward))
unfolding run_setup
notified_by w s h = ground arith

-- Where the environment is kind, the setup is that of kind.
pub kind_done :
    (w : SetupWorld) (s : SetupState)
    → text_eq w.env (codes "kind") ≡ true
    → (do_setup_according_e2e w s).1 ≡ none
    → (w.config_error ≡ none)
      × ((w.kind_setup s.forward).1 ≡ none)
      × ((do_setup_according_e2e w s).0.forward ≡ (w.kind_setup s.forward).0)
unfolding do_setup_according_e2e init_log_follower
kind_done w s h e = ground arith

-- Where it is compose, that of compose.
pub compose_done :
    (w : SetupWorld) (s : SetupState)
    → w.env ≡ codes "compose"
    → (do_setup_according_e2e w s).1 ≡ none
    → w.compose_setup ≡ none
unfolding do_setup_according_e2e text_eq
compose_done w s h e =
    let is_compose = (text_eq_iff w.env (codes "compose")).1 h in
    let not_kind : text_eq w.env (codes "kind") ≡ false = ap (λ t. text_eq t (codes "kind")) h in
    ground arith

-- The forwarders are notified behind a setup with kind only that returned no error.
pub run_setup_waits :
    (w : SetupWorld) (s : SetupState)
    → is_some (run_setup w s).notified ≡ true
    → (w.env ≡ codes "kind")
      × ((run_setup w s).error ≡ none)
      × ((w.kind_setup s.forward).1 ≡ none)
      × (kind_should_wait_signal (w.kind_setup s.forward).0 ≡ true)
      × ((run_setup w s).notified ≡ some (kind_clean_notify (w.kind_setup s.forward).0))
run_setup_waits w s h =
    let (a, b, c, d, e) = notified_by w s h in
    let (x, y, z) = kind_done w s a d in
    (
      (text_eq_iff w.env (codes "kind")).0 a,
      b,
      y,
      ap kind_should_wait_signal (sym z) ∙ c,
      e ∙ ap (λ f. some (kind_clean_notify f)) z,
    )
