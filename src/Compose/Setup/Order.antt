-- ===== src/Compose/Setup/Order.antt =====
-- The order of the setup with docker compose, and the error that it shares with the listener.
use skywalking_infra_e2e.Base.{
  and_then, ◌≡◌, sym, ap, ◌∙◌, Option, none, List, [], ◌∷◌, ◌++◌, arith, Text, codes, ok,
}
use skywalking_infra_e2e.Config.{Setup}
use skywalking_infra_e2e.Paths.{Settings}
use skywalking_infra_e2e.Compose.{ComposeService, build_compose_services, expose_compose_service}
use skywalking_infra_e2e.Compose.Setup.{
  Selected, get_identity, tested_behind, followed, started, listen, start_listen, tested,
  ComposeWorld, ComposeEvent, listens, run_steps, invokes, Calls, env_file, exported, exposed,
  with_services, compose_setup,
}

module _ (st : Settings) (w : ComposeWorld) where
  -- The command for docker-compose.
  abbrev pub command : Setup → List Text
  command s = (env_file st s.init_system_environment).1 ++ (codes "up" ∷ codes "-d" ∷ [])

  -- What is exported for the services, and the error.
  abbrev pub service_exports : List ComposeService → List (Text × Text) × Option Text
  service_exports services =
      expose_compose_service w.docker (get_identity w.run_id) (followed w services)

  -- The calls behind the environment file.
  abbrev pub main_events : Setup → List ComposeService → List ComposeEvent
  main_events s services =
      listens ∷ invokes (command s) ∷ (exported (service_exports services).0 ++ (run_steps ∷ []))

  -- The listener finds no container of a service between a call and the test of its error.
  abbrev pub IsQuiet : List ComposeService → Type 0
  IsQuiet services =
      (listen services w.at_listen ≡ [])
      × (listen services w.at_expose ≡ [])
      × (listen services w.at_steps ≡ [])

  quiet_tested :
      (services : List ComposeService) (events : List Selected) (error : Option Text)
      → listen services events ≡ []
      → tested_behind w services events error ≡ error
  unfolding tested_behind tested
  quiet_tested services events error h = ground arith

  with_services-events :
      (s : Setup) (services : List ComposeService)
      → IsQuiet services
      → (with_services st w s services).1 ≡ none
      → (start_listen w.told ≡ none)
        × (w.invoke (command s) ≡ none)
        × ((service_exports services).1 ≡ none)
        × (w.steps_error ≡ none)
        × ((with_services st w s services).0
            ≡ (env_file st s.init_system_environment).0 ++ main_events s services)
  unfolding with_services exposed started and_then
  with_services-events s services (a, b, c) h =
      let x = quiet_tested services w.at_listen none a in
      let y = quiet_tested services w.at_expose (service_exports services).1 b in
      let z = quiet_tested services w.at_steps w.steps_error c in ground arith

  file_accepted :
      (s : Setup) (services : List ComposeService)
      → build_compose_services w.services ≡ ok services
      → (compose_setup st w s).1 ≡ none
      → compose_setup st w s ≡ with_services st w s services
  unfolding compose_setup
  file_accepted s services e h = ground arith

  -- Where the listener finds no start of a container of a service between a call and the test of
  -- its error, a setup with compose whose services can be built and that returns no error has done
  -- everything, in order: the environment file, the listener, docker-compose with the file, the
  -- variables of the services, and the steps; and docker-compose, the ports and the steps returned
  -- no error.
  pub compose_setup-events :
      (s : Setup) (services : List ComposeService)
      → build_compose_services w.services ≡ ok services
      → IsQuiet services
      → (compose_setup st w s).1 ≡ none
      → (w.invoke (command s) ≡ none)
        × ((service_exports services).1 ≡ none)
        × (w.steps_error ≡ none)
        × ((compose_setup st w s).0
            ≡ (env_file st s.init_system_environment).0 ++ main_events s services)
  compose_setup-events s services e q h =
      let same = file_accepted s services e h in
      let (a, b, c, d, f) =
        with_services-events s services q (ap (λ (k : Calls). k.1) (sym same) ∙ h) in
      (b, c, d, ap (λ (k : Calls). k.0) same ∙ f)

  -- The same setup with steps that return no error, behind which the listener selects nothing.
  abbrev pub steps_done : ComposeWorld
  steps_done = record w { at_steps = []; steps_error = none }

module _ (st : Settings) (w : ComposeWorld) where
  overwritten :
      (services : List ComposeService) {v : ComposeService} {id : Text}
      → listen services w.at_steps ≡ (v, id) ∷ []
      → w.docker.follow_log v.name id ≡ none
      → tested_behind w services w.at_steps w.steps_error ≡ none
  unfolding tested_behind tested
  overwritten services h f = ground arith

  with_services_lost :
      (s : Setup) (services : List ComposeService) {v : ComposeService} {id : Text}
      → (with_services st (steps_done st w) s services).1 ≡ none
      → listen services w.at_steps ≡ (v, id) ∷ []
      → w.docker.follow_log v.name id ≡ none
      → (with_services st w s services).1 ≡ none
  unfolding with_services and_then exposed started
  with_services_lost s services h l f = let x = overwritten services l f in ground arith

  -- Where the services can be built, the setup with compose would return no error if its steps
  -- returned none and the listener found nothing behind them, and the listener finds the start of
  -- one container of a service, whose log can be followed, between the steps and the test of their
  -- error, the setup returns no error, whatever the steps returned.
  pub compose_setup_loses_error :
      (s : Setup) (services : List ComposeService) {v : ComposeService} {id : Text}
      → build_compose_services w.services ≡ ok services
      → (compose_setup st (steps_done st w) s).1 ≡ none
      → listen services w.at_steps ≡ (v, id) ∷ []
      → w.docker.follow_log v.name id ≡ none
      → (compose_setup st w s).1 ≡ none
  unfolding compose_setup
  compose_setup_loses_error s services {v} {id} e h l f =
      let same = file_accepted st (steps_done st w) s services e h in
      let lost =
        with_services_lost s services {v = v} {id = id} (ap (λ (k : Calls). k.1) (sym same) ∙ h) l
          f in
      ground arith
