-- ===== src/Compose/Setup.antt =====
-- The setup with docker compose from start to end (`ComposeSetup`,
-- internal/components/setup/compose.go) and the listener that follows the containers
-- (internal/components/setup/compose_listener.go). What docker and the process answer is a
-- `ComposeWorld`.
pub mod Order
use skywalking_infra_e2e.Base.{
  and_then, true, not, Option, none, some, List, [], ◌∷◌, ◌++◌, if◌then◌else◌, Text, codes,
  is_empty, text_eq, ok, err,
}
use skywalking_infra_e2e.Config.{Setup, Any, get_file}
use skywalking_infra_e2e.Paths.{Settings, resolve_abs}
use skywalking_infra_e2e.Compose.{
  ComposeService, Docker, build_compose_services, expose_compose_service,
}

-- A message of docker: the service that its container has as an attribute, and its id.
pub record Message : Type 0 where
  pub service_name : Text
  pub id : Text

-- `foundMessage`: the service of a message.
unfoldable pub found_message : List ComposeService → Message → Option ComposeService
found_message [] m = none
found_message (s ∷ ss) m =
    let rest = found_message ss m in if text_eq s.name m.service_name then some s else rest

-- What the goroutine of `Listen` selects.
pub data Selected : Type 0 where
  message : Message → Selected
  docker_error : Text → Selected
  stopped : Selected

-- The goroutine of `Listen`: the services and the ids that the consumer gets.
unfoldable pub listen : List ComposeService → List Selected → List (ComposeService × Text)
listen services [] = []
listen services (message m ∷ rest) =
    let later = listen services rest in
    elim (found_message services m) [ none ↦ later | some s ↦ (s, m.id) ∷ later ]
listen services (docker_error x ∷ rest) = listen services rest
listen services (stopped ∷ rest) = []

-- `Listen` returns the first error that docker has told already.
unfoldable pub start_listen : List Text → Option Text
start_listen [] = none
start_listen (x ∷ errors) = some x

-- The consumer: the service whose log can be followed counts as followed. The services are told
-- apart by their names, which are the keys of a map.
follow : Text → List ComposeService → List ComposeService
follow name [] = []
follow name (s ∷ ss) =
    if text_eq s.name name then record s { been_follow_log = true } ∷ ss else s ∷ follow name ss

unfoldable pub consume :
    (Text → Text → Option Text)
    → List (ComposeService × Text)
    → List ComposeService
    → List ComposeService
unfolding follow
consume follow_log [] services = services
consume follow_log ((s, id) ∷ rest) services = elim (follow_log s.name id) [
  | none ↦ consume follow_log rest (follow s.name services)
  | some x ↦ consume follow_log rest services
]

-- The variable `err` that the consumer shares with `ComposeSetup`: each run of the consumer between
-- a call and the test behind it writes its own error, or nil, over that of the call.
unfoldable pub tested :
    (Text → Text → Option Text) → List (ComposeService × Text) → Option Text → Option Text
tested follow_log [] error = error
tested follow_log ((s, id) ∷ rest) error = tested follow_log rest (follow_log s.name id)

-- `GetIdentity`, with the variable GITHUB_RUN_ID.
unfoldable pub get_identity : Text → Text
get_identity run_id = if is_empty run_id then codes "skywalking_e2e" else run_id

-- `services` is the compose file, `invoke` the error of docker-compose with a command, `told` the
-- errors of docker at the start of the listener, and `selected` what the listener selects before
-- the ports are exposed. `at_listen`, `at_expose` and `at_steps` are what it selects between the
-- call, of the listener, of the ports and of the steps, and the test of its error.
pub record ComposeWorld : Type 0 where
  pub expand_env : Text → Text
  pub run_id : Text
  pub new_client : Option Text
  pub services : List (Text × Option (List Any))
  pub told : List Text
  pub at_listen : List Selected
  pub selected : List Selected
  pub at_expose : List Selected
  pub at_steps : List Selected
  pub invoke : List Text → Option Text
  pub docker : Docker
  pub steps_error : Option Text

pub data ComposeEvent : Type 0 where
  export_env_vars : Text → ComposeEvent
  listens run_steps : ComposeEvent
  invokes : List Text → ComposeEvent
  exports : Text → Text → ComposeEvent

abbrev pub Calls : Type 0
Calls = List ComposeEvent × Option Text

-- The environment file: its call, and the arguments of the command.
unfoldable pub env_file : Settings → Text → List ComposeEvent × List Text
env_file st f =
    if not (is_empty f)
    then (export_env_vars (resolve_abs st f) ∷ [], codes "--env-file" ∷ resolve_abs st f ∷ [])
    else ([], [])

abbrev exported : List (Text × Text) → List ComposeEvent
exported [] = []
exported ((key, value) ∷ rest) = exports key value ∷ exported rest

module _ (w : ComposeWorld) where
  -- The test of the error of a call, with what the listener selects before it.
  unfoldable pub tested_behind : List ComposeService → List Selected → Option Text → Option Text
  tested_behind services events error = tested w.docker.follow_log (listen services events) error

  -- The services, with the followed logs that the listener has marked before.
  unfoldable pub followed : List ComposeService → List ComposeService
  followed services =
      consume w.docker.follow_log (listen services (w.at_listen ++ w.selected)) services

  -- The variables of the services.
  unfoldable pub exposed : List ComposeService → Calls
  unfolding followed tested_behind
  exposed services =
      let (vars, error) =
        expose_compose_service w.docker (get_identity w.run_id) (followed services) in
      (exported vars, tested_behind services w.at_expose error)

  -- The start of the listener: its goroutine runs where it returns no error.
  unfoldable pub started : List ComposeService → Option Text
  unfolding tested_behind
  started services = elim (start_listen w.told) [
    | some x ↦ some x
    | none ↦ tested_behind services w.at_listen none
  ]

module _ (st : Settings) (w : ComposeWorld) where
  -- What follows the services: the listener, the command, the ports and the steps.
  unfoldable pub with_services : Setup → List ComposeService → Calls
  unfolding started tested_behind
  with_services s services =
      let (export_file, file_args) = env_file st s.init_system_environment in
      let cmd = file_args ++ (codes "up" ∷ codes "-d" ∷ []) in
      and_then (export_file, none)
        (and_then (listens ∷ [], started w services)
          (and_then (invokes cmd ∷ [], w.invoke cmd)
            (and_then (exposed w services)
              (run_steps ∷ [], tested_behind w services w.at_steps w.steps_error))))

  -- `ComposeSetup`
  unfoldable pub compose_setup : Setup → Calls
  compose_setup s =
      if is_empty (get_file st w.expand_env s)
      then ([], some (codes "no compose config file was provided"))
      else elim w.new_client [
        | some x ↦ ([], some x)
        | none ↦ elim (build_compose_services w.services) [
          | err x ↦ ([], some (codes "bind wait ports error: " ++ x))
          | ok services ↦ with_services s services
        ]
      ]
