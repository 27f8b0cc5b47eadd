-- ===== src/Compose/Listener.antt =====
-- The listener of the containers of compose (internal/components/setup/compose_listener.go): what it
-- is made of, and its end.
use skywalking_infra_e2e.Base.{
  ◌≡◌, refl, Bool, true, false, List, [], ◌∷◌, ◌++◌, arith, if◌then◌else◌, Text,
}
use skywalking_infra_e2e.Compose.{ComposeService}
use skywalking_infra_e2e.Compose.Setup.{Selected, message, docker_error, stopped, listen}

-- `ComposeContainerListener`: its context is done or not.
pub record ComposeContainerListener : Type 0 where
  pub services : List ComposeService
  pub done : Bool

-- `NewComposeContainerListener`
unfoldable pub new_compose_container_listener : List ComposeService → ComposeContainerListener
new_compose_container_listener services = record { services = services; done = false }

-- `Stop`
unfoldable pub stop_compose_listener : ComposeContainerListener → ComposeContainerListener
stop_compose_listener l = record l { done = true }

-- What the consumer gets of a listener: it selects the messages and errors of docker, and then the
-- end of its context where that is done.
unfoldable pub listen_to :
    ComposeContainerListener → List Selected → List Selected → List (ComposeService × Text)
listen_to l before behind =
    listen l.services (before ++ (if l.done then stopped ∷ behind else behind))

listen_stopped :
    (services : List ComposeService) (es later : List Selected)
    → listen services (es ++ (stopped ∷ later)) ≡ listen services (es ++ (stopped ∷ []))
unfolding listen
listen_stopped services [] later = refl
listen_stopped services (message m ∷ es) later =
    let rest = listen_stopped services es later in ground arith
listen_stopped services (docker_error x ∷ es) later = listen_stopped services es later
listen_stopped services (stopped ∷ es) later = refl

-- A listener that was stopped gives the consumer nothing more.
pub listen_to-stop_compose_listener :
    (l : ComposeContainerListener) (before behind : List Selected)
    → listen_to (stop_compose_listener l) before behind
      ≡ listen_to (stop_compose_listener l) before []
unfolding listen_to stop_compose_listener
listen_to-stop_compose_listener l before behind = listen_stopped l.services before behind
