-- ===== src/Run/Whole/Fresh.antt =====
-- The cleanup of a run that begins without a context of forwarders, as the process does: the channel
-- is never closed twice.
use mathlib.Core.Path.{subst}
use skywalking_infra_e2e.Base.{
  ◌≡◌, refl, sym, ap, ◌∙◌, ◌⊎◌, inl, inr, Bool, true, false, Option, none, some, List, arith,
  if◌then◌else◌, Option-cases, Text, ℤ,
}
use skywalking_infra_e2e.Config.{Setup, KindExposePort}
use skywalking_infra_e2e.Verifier.{Engine}
use skywalking_infra_e2e.Kind.Forward.{
  ForwardContext, ForwardWorld, Notified, returned, panicked, waits, kind_clean_notify,
  expose_kind_service,
}
use skywalking_infra_e2e.Kind.Whole.{KindParts, kind_setup_parts}
use skywalking_infra_e2e.Kind.Whole.Done.{forwarded}
use skywalking_infra_e2e.SetupCommand.{
  SetupState, SetupWorld, init_log_follower, do_setup_according_e2e, do_stop_setup,
}
use skywalking_infra_e2e.Run.Cleanup.{asked}
use skywalking_infra_e2e.Run.Whole.{
  RunWorld, RunState, stop_action, clean_environment, do_cleanup, run_whole,
}
use skywalking_infra_e2e.Run.Whole.Released.{
  IsReleased, cleanup_error, do_cleanup-IsReleased, run_whole-Cleans,
}
use skywalking_infra_e2e.Run.Whole.EndToEnd.{Environments, in_environments}

-- The channel of a bound context is open.
abbrev IsOpen : Option ForwardContext → Type 0
IsOpen none = Unit
IsOpen (some c) = c.stopped ≡ false

unbound :
    (f : ForwardWorld) (client_error : Option Text) (exports : List KindExposePort) (timeout : ℤ)
    {x : Text}
    → (expose_kind_service f client_error exports timeout none).1.1 ≡ some x
    → (expose_kind_service f client_error exports timeout none).0 ≡ none
unfolding expose_kind_service
unbound f none exports timeout e = ground arith
unbound f (some y) exports timeout e = refl

expose-IsOpen :
    (f : ForwardWorld) (client_error : Option Text) (exports : List KindExposePort) (timeout : ℤ)
    → IsOpen (expose_kind_service f client_error exports timeout none).0
expose-IsOpen f client_error exports timeout =
    elim (Option-cases (expose_kind_service f client_error exports timeout none).1.1) [
      | inl e ↦ subst IsOpen (sym (forwarded f client_error exports timeout none e)) refl
      | inr (x, e) ↦ subst IsOpen (sym (unbound f client_error exports timeout e)) tt
    ]

if-IsOpen :
    (b : Bool) (x y : Option ForwardContext) → IsOpen x → IsOpen y → IsOpen (if b then x else y)
if-IsOpen true x y h k = h
if-IsOpen false x y h k = k

kind_setup_parts-IsOpen : (p : KindParts) (s : Setup) → IsOpen (kind_setup_parts p s none).0
unfolding kind_setup_parts
kind_setup_parts-IsOpen p s =
    if-IsOpen _ _ none (expose-IsOpen p.forward p.client_error s.kind.expose_ports s.final_timeout)
      tt

do_setup_forward :
    (w : SetupWorld) (s : SetupState)
    → ((do_setup_according_e2e w s).0.forward ≡ s.forward)
      ⊎ ((do_setup_according_e2e w s).0.forward ≡ (w.kind_setup s.forward).0)
unfolding do_setup_according_e2e init_log_follower
do_setup_forward w s = ground arith

do_setup-IsOpen :
    (w : SetupWorld) (s : SetupState)
    → s.forward ≡ none
    → IsOpen (w.kind_setup none).0
    → IsOpen (do_setup_according_e2e w s).0.forward
do_setup-IsOpen w s h k = elim (do_setup_forward w s) [
  | inl same ↦ subst IsOpen (sym (same ∙ h)) tt
  | inr same ↦ subst IsOpen (sym (same ∙ ap (λ f. (w.kind_setup f).0) h)) k
]

notify_open : (f : Option ForwardContext) → IsOpen f → kind_clean_notify f ≡ panicked → ⊥
unfolding kind_clean_notify
notify_open none h e = absurd (ground arith)
notify_open (some c) h e = absurd (ground arith)

module _ (w : RunWorld) where
  cleaned_where_open :
      (n : Notified) (st : RunState)
      → (n ≡ panicked → ⊥)
      → (clean_environment w n st).cleaned ≡ some (cleanup_error w)
  unfolding clean_environment
  cleaned_where_open returned st h = refl
  cleaned_where_open panicked st h = absurd (h refl)
  cleaned_where_open (waits n) st h = refl

  stop_action_keeps : (st : RunState) → (stop_action st).setup ≡ st.setup
  unfolding stop_action
  stop_action_keeps st = ground arith

  do_cleanup_cleans :
      (st : RunState) → IsOpen st.setup.forward → (do_cleanup w st).cleaned ≡ some (cleanup_error w)
  unfolding do_cleanup do_stop_setup
  do_cleanup_cleans st h =
      let stopped = stop_action st in
      let (s, n) = do_stop_setup stopped.setup in
      let opened = subst (λ (t : SetupState). IsOpen t.forward) (sym (stop_action_keeps st)) h in
      cleaned_where_open n (record stopped { setup = s }) (notify_open stopped.setup.forward opened)

-- Where the run command over the modelled setups begins without a context of forwarders, as the
-- process does, and returns, with an error or without one, the configuration was loaded and the
-- strategy asks for a cleanup, the environment was cleaned up, also where notifying the forwarders
-- waits; the log follower is closed or was never made; the channel of the forwarders, if one is
-- bound, is closed; and the channel of the trigger, if there is one, holds a stop: whatever ticks
-- its goroutine takes before the stop, it has ended with it and executes no request behind it.
pub run_whole-IsReleased :
    (e : Engine) (q : Environments) (s : Setup) (w : RunWorld) (start : SetupState)
    {error : Option Text}
    → start.forward ≡ none
    → w.setup.config_error ≡ none
    → (run_whole e (in_environments q s w) start).returned ≡ some error
    → asked w.cleanup_on (do_setup_according_e2e (in_environments q s w).setup start).1 error ≡ true
    → IsReleased (in_environments q s w) (run_whole e (in_environments q s w) start).state
      × ((run_whole e (in_environments q s w) start).state.cleaned
          ≡ some (cleanup_error (in_environments q s w)))
run_whole-IsReleased e q s w start {error} fresh loaded ended due =
    let w' = in_environments q s w in
    let (st, same, kept) = run_whole-Cleans e w' start {error = error} loaded ended due in
    let opened = do_setup-IsOpen w'.setup start fresh (kind_setup_parts-IsOpen q.kind s) in
    (
      subst (IsReleased w') (sym same) (do_cleanup-IsReleased w' st),
      ap (λ (t : RunState). t.cleaned) same
          ∙ do_cleanup_cleans w' st
              (subst (λ (t : SetupState). IsOpen t.forward) (sym kept) opened),
    )
