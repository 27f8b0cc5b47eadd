-- ===== src/Kind/Forward.antt =====
-- The forwarding of ports (`exposePerKindService`, `exposeKindService` and `KindCleanNotify`,
-- internal/components/setup/kind.go). What kubernetes answers for a resource is a `ForwardWorld`.
pub mod Service
pub mod Notify
use skywalking_infra_e2e.Base.{
  ◌>>=◌, ℕ, suc, ◌-◌, ◌<◌, Bool, true, false, not, Option, none, some, List, [], ◌∷◌, ◌++◌, map,
  ltb, if◌then◌else◌, length, set, Text, codes, Result, ok, err, split, ℤ, is_nonpos,
}
use skywalking_infra_e2e.Config.{KindExposePort, default_wait_timeout}
use skywalking_infra_e2e.Kind.{KindPort, PortLookup, build_kind_port, resource_exports}

-- `kindPortForwardContext` and the goroutines that it counts: those that run, and the messages
-- that wait in `resourceFinishedChannel`, whose capacity is the number of resources.
pub record ForwardContext : Type 0 where
  pub stopped : Bool
  pub resource_count : ℕ
  pub running : ℕ
  pub finished : ℕ

-- How the select ends: the forwarder is ready and gives its ports, as local and remote ones, or it
-- fails, with what it wrote to stderr.
pub data Ready : Type 0 where
  ready : Result (List (ℤ × ℤ)) → Ready
  broken : Text → Text → Ready

-- `object` says whether the resource is a service; `pod` and `forwarder` give their error.
pub record ForwardWorld : Type 0 where
  pub object : KindExposePort → Result Bool
  pub pod : KindExposePort → ℤ → Option Text
  pub look_up : KindExposePort → PortLookup
  pub forwarder : List Text → Option Text
  pub select : KindExposePort → Ready
  pub set_env : Text → Text → Option Text

-- The loop over the ports of a resource.
unfoldable pub convert_ports : PortLookup → Bool → List Text → Result (List KindPort)
convert_ports l is_service [] = ok []
convert_ports l is_service (p ∷ ps) = do
  k ← build_kind_port l is_service p
  ks ← convert_ports l is_service ps
  ok (k ∷ ks)

-- What was exported, and the error.
abbrev pub Exports : Type 0
Exports = List (Text × Text) × Option Text

-- `exportKindEnv` for one variable after another, up to the first error.
unfoldable pub export_kind_envs : (Text → Text → Option Text) → Text → List (Text × Text) → Exports
export_kind_envs set_env res [] = ([], none)
export_kind_envs set_env res ((key, value) ∷ rest) =
    let more = export_kind_envs set_env res rest in
    elim (set_env key value) [
      | some x ↦ ([], some (codes "could not set env for " ++ (res ++ (codes ", " ++ x))))
      | none ↦ ((key, value) ∷ more.0, more.1)
    ]

module _ (w : ForwardWorld) where
  -- The branches of the select.
  unfoldable pub export_ready : KindExposePort → List KindPort → Ready → Exports
  export_ready port ks (broken stderr x) =
      ([], some (codes "create forward error, " ++ (stderr ++ (codes " : " ++ x))))
  export_ready port ks (ready (err x)) = ([], some x)
  export_ready port ks (ready (ok exported)) =
      export_kind_envs w.set_env port.resource (resource_exports port.resource exported ks)

  -- What comes before the goroutine: the converted ports, or an error.
  unfoldable pub before_forward : KindExposePort → ℤ → Result (List KindPort)
  before_forward port timeout = do
    is_service ← w.object port
    ks ← elim (w.pod port timeout) [
      | some x ↦ err x
      | none ↦ convert_ports (w.look_up port) is_service (split b',' port.port)
    ]
    elim (w.forwarder (map (λ (k : KindPort). k.wait_expose) ks)) [ some x ↦ err x | none ↦ ok ks ]

  -- `exposePerKindService`: the context behind it, what is exported, and the error.
  unfoldable pub expose_per_kind_service :
      KindExposePort → ℤ → ForwardContext → ForwardContext × Exports
  expose_per_kind_service port timeout c = elim (before_forward port timeout) [
    | err x ↦ (c, ([], some x))
    | ok ks ↦ (record c { running = suc c.running }, export_ready port ks (w.select port))
  ]

  -- The loop over the exports.
  unfoldable pub expose_services :
      List KindExposePort → ℤ → ForwardContext → ForwardContext × Exports
  expose_services [] timeout c = (c, ([], none))
  expose_services (p ∷ ps) timeout c =
      let (c', (exports, error)) = expose_per_kind_service p timeout c in
      let (c'', (more, last)) = expose_services ps timeout c' in
      elim error [ some x ↦ (c', (exports, some x)) | none ↦ (c'', (exports ++ more, last)) ]

  -- `exposeKindService`, with the error of building the client: the variable `portForwardContext`
  -- behind it, which is bound where no error is returned, and what is exported.
  unfoldable pub expose_kind_service :
      Option Text
      → List KindExposePort
      → ℤ
      → Option ForwardContext
      → Option ForwardContext × Exports
  expose_kind_service client_error exports timeout bound = elim client_error [
    | some x ↦ (bound, ([], some x))
    | none ↦
        let wait_timeout = if is_nonpos timeout then default_wait_timeout else timeout in
        let start : ForwardContext = record {
          stopped = false;
          resource_count = length exports;
          running = 0;
          finished = 0;
        } in
        let (c, (exported, error)) = expose_services exports wait_timeout start in
        elim error [ some x ↦ (bound, (exported, some x)) | none ↦ (some c, (exported, none)) ]
  ]

-- `KindShouldWaitSignal`
unfoldable pub kind_should_wait_signal : Option ForwardContext → Bool
kind_should_wait_signal none = false
kind_should_wait_signal (some c) = ltb 0 c.resource_count

-- Where `KindCleanNotify` stands behind the close of the channel: how many messages it received.
pub record Notifying : Type 0 where
  pub context : ForwardContext
  pub received : ℕ

-- `KindCleanNotify` starts: it returns at once, or panics on a channel that is closed, or waits.
pub data Notified : Type 0 where
  returned panicked : Notified
  waits : Notifying → Notified

unfoldable pub kind_clean_notify : Option ForwardContext → Notified
kind_clean_notify none = returned
kind_clean_notify (some c) =
    if c.stopped
    then panicked
    else waits (record { context = record c { stopped = true }; received = 0 })

-- A goroutine ends and sends, or the loop receives.
pub data Step : Notifying → Notifying → Type 0 where
  ends :
      (n : Notifying)
      → 0 < n.context.running
      → n.context.finished < n.context.resource_count
      → Step n (record n {
        context = record (n.context) {
          running = n.context.running - 1;
          finished = suc n.context.finished;
        };
      })
  receives :
      (n : Notifying)
      → 0 < n.context.finished
      → n.received < n.context.resource_count
      → Step n (record n {
        context = record (n.context) { finished = n.context.finished - 1 };
        received = suc n.received;
      })

pub data Reach (s : Notifying) : Notifying → Type 0 where
  here : Reach s s
  next : {t u : Notifying} → Reach s t → Step t u → Reach s u
