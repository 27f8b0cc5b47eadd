-- ===== src/SetupCommand/Forwarders.antt =====
-- The setup command with kind and its forwarders: from the last call of `KindSetup` to the end of
-- `KindCleanNotify`.
use skywalking_infra_e2e.Base.{
  ℕ, ◌*◌, ◌≤◌, ◌≡◌, refl, ap, ◌∙◌, ◌⊎◌, inl, inr, true, false, Option, none, some, List, arith,
  Option-cases, is_some, length, Text, ℤ,
}
use skywalking_infra_e2e.SetupCommand.{SetupState, SetupWorld, run_setup, run_setup_waits}
use skywalking_infra_e2e.Config.{KindExposePort}
use skywalking_infra_e2e.Kind.Forward.{
  ForwardContext, ForwardWorld, expose_kind_service, Notifying, waits, kind_clean_notify, Step,
  Reach,
}
use skywalking_infra_e2e.Kind.Forward.Service.{expose_kind_service_starts}
use skywalking_infra_e2e.Kind.Forward.Notify.{steps, notify_ends}

-- `KindSetup` as the setup command sees it: an error of what comes before, or the services.
unfoldable pub expose_last :
    ForwardWorld
    → List KindExposePort
    → ℤ
    → Option Text
    → Option ForwardContext
    → Option ForwardContext × Option Text
expose_last f exports timeout before bound = elim before [
  | some x ↦ (bound, some x)
  | none ↦
      let (context, (vars, error)) = expose_kind_service f none exports timeout bound in
      (context, error)
]

-- The command in an environment of kind.
abbrev pub with_kind :
    SetupWorld → ForwardWorld → List KindExposePort → ℤ → Option Text → SetupWorld
with_kind w f exports timeout before = record w {
  kind_setup = expose_last f exports timeout before;
}

-- Where the wait of `KindCleanNotify` begins. A forwarder that has ended before the signal, with its
-- message in the channel, is one that takes its step first.
abbrev pub begin : ℕ → Notifying
begin count = record {
  context = record { stopped = true; resource_count = count; running = count; finished = 0 };
  received = 0;
}

module _ (f : ForwardWorld) (exports : List KindExposePort) (timeout : ℤ)
    (before : Option Text) where
  bound_behind :
      (bound : Option ForwardContext)
      → (expose_last f exports timeout before bound).1 ≡ none
      → (expose_last f exports timeout before bound).0
        ≡ some (record {
          stopped = false;
          resource_count = length exports;
          running = length exports;
          finished = 0;
        })
  unfolding expose_last
  bound_behind bound h = elim (Option-cases before) [
    | inr (x, e) ↦ absurd (ground arith)
    | inl e ↦
        let started = expose_kind_service_starts f exports timeout bound (ground arith) in
        ground arith
  ]

  begins :
      (bound : Option ForwardContext)
      → (expose_last f exports timeout before bound).1 ≡ none
      → kind_clean_notify (expose_last f exports timeout before bound).0
        ≡ waits (begin (length exports))
  unfolding kind_clean_notify
  begins bound h = ap kind_clean_notify (bound_behind bound h)

  -- Where the setup command with kind, whose setup ends with exposing the services, comes to wait
  -- for a signal and notifies the forwarders, the wait begins with one running forwarder for each
  -- service, takes at most twice as many steps as there are services, and in every state that it
  -- reaches all messages were received or a step can be taken.
  pub run_setup_ends :
      (w : SetupWorld) (s : SetupState) {m : Notifying}
      → is_some (run_setup (with_kind w f exports timeout before) s).notified ≡ true
      → (r : Reach (begin (length exports)) m)
      → ((run_setup (with_kind w f exports timeout before) s).notified
          ≡ some (waits (begin (length exports))))
        × (steps r ≤ 2 * length exports)
        × ((m.received ≡ length exports) ⊎ ((k : Notifying) × Step m k))
  run_setup_ends w s {m} h r =
      let (a, b, c, d, e) = run_setup_waits (with_kind w f exports timeout before) s h in
      let (few, next) = notify_ends r (omega arith) refl in
      (e ∙ ap some (begins s.forward c), few, next)
