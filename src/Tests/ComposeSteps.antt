-- ===== src/Tests/ComposeSteps.antt =====
-- The setup with compose with its steps at a concrete input.
use skywalking_infra_e2e.Base.{
  ◌≡◌, refl, none, some, List, [], ◌∷◌, codes, text_eq, split, contains_byte, pos, ◌-ℤ◌, itoa,
  itoa_nat, atoi, parse_int,
}
use skywalking_infra_e2e.Base.{and_then}
use skywalking_infra_e2e.Config.{Step, Setup, get_file}
use skywalking_infra_e2e.Paths.{resolve_abs, resolve_abs_with_base, abs_path, join_path, clean, dir}
use skywalking_infra_e2e.Steps.{
  run_steps_and_wait, step_error, new_timeout, select_error, run_commands_and_wait,
}
use skywalking_infra_e2e.Steps.Parts.{command_step}
use skywalking_infra_e2e.Steps.Commands.{execute_commands_and_wait, wait_for}
use skywalking_infra_e2e.Compose.{
  build_compose_services, expect_ports_of, get_expect_port, expose_compose_service,
  expose_compose_port, export_compose_env, expose_port, expose_ports_from, expose_service_log,
  find_container, get_instance_name, service_container, then_export, whole_match, last_line,
  ends_numbered,
}
use skywalking_infra_e2e.Compose.Setup.{
  compose_setup, with_services, tested, exposed, consume, listen, env_file, found_message,
  start_listen,
}
use skywalking_infra_e2e.Compose.Setup.Order.{command, service_exports}
use skywalking_infra_e2e.Compose.Whole.{
  compose_setup_parts, run_compose_steps, CommandsDone, compose_setup_parts-CommandsDone,
}
use skywalking_infra_e2e.Tests.Data.{settings}
use skywalking_infra_e2e.Tests.ComposeRuns.{
  calm_run, compose_yaml, web_service, one_service, calm-IsQuiet,
}
use skywalking_infra_e2e.Tests.KindParts.{quick_steps}

-- Commands only, with compose.
abbrev make_only : List Step
make_only = record { name = codes "b"; path = []; command = codes "make"; waits = [] } ∷ []

abbrev compose_with_steps : Setup
compose_with_steps = record compose_yaml { steps = some make_only; final_timeout = pos 10 }

compose_run : compose_setup_parts settings quick_steps calm_run compose_with_steps ≡ none
unfolding compose_setup_parts run_compose_steps compose_setup get_file resolve_abs abs_path
    resolve_abs_with_base join_path dir clean build_compose_services expect_ports_of get_expect_port
    with_services and_then tested exposed expose_compose_service consume listen atoi itoa itoa_nat
    parse_int contains_byte split text_eq env_file found_message start_listen export_compose_env
    expose_compose_port expose_port expose_ports_from expose_service_log find_container
    get_instance_name service_container then_export whole_match last_line ends_numbered
    run_steps_and_wait step_error new_timeout ◌-ℤ◌ command_step run_commands_and_wait
    execute_commands_and_wait wait_for select_error
compose_run = refl

compose_setup_parts-CommandsDone_example :
    (calm_run.invoke (command settings calm_run compose_with_steps) ≡ none)
    × ((service_exports settings calm_run (web_service ∷ [])).1 ≡ none)
    × CommandsDone quick_steps 0 make_only
compose_setup_parts-CommandsDone_example =
    compose_setup_parts-CommandsDone settings quick_steps calm_run compose_with_steps
      (web_service ∷ []) refl one_service calm-IsQuiet compose_run
