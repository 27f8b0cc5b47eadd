-- ===== src/Tests/ComposeRuns.antt =====
-- The setup with docker compose and the wait for a port at concrete inputs.
use skywalking_infra_e2e.Compose.{Container}
use skywalking_infra_e2e.Base.{and_then}
use skywalking_infra_e2e.Compose.{
  expose_compose_port, expose_port, expose_ports_from, export_compose_env, then_export,
}
use skywalking_infra_e2e.Paths.{dir}
use skywalking_infra_e2e.Compose.{export_compose_env}
use skywalking_infra_e2e.Paths.{abs_path}
use skywalking_infra_e2e.Paths.{join_path}
use skywalking_infra_e2e.Compose.{expose_compose_port}
use skywalking_infra_e2e.Compose.{expose_ports_from}
use skywalking_infra_e2e.Paths.{resolve_abs_with_base}
use skywalking_infra_e2e.Paths.{resolve_abs}
use skywalking_infra_e2e.Compose.{expose_port}
use skywalking_infra_e2e.Compose.{then_export}
use skywalking_infra_e2e.Paths.{clean}
use skywalking_infra_e2e.Base.{
  ℕ, ◌≡◌, refl, true, false, Option, none, some, List, [], ◌∷◌, ◌++◌, arith, ltb, if◌then◌else◌,
  is_some, Text, codes, text_eq, ok, err, split, contains_byte, pos, itoa, itoa_nat, atoi,
  parse_int,
}
use skywalking_infra_e2e.Config.{Setup, Any, get_file}
use skywalking_infra_e2e.Compose.{
  ComposeService, Docker, build_compose_services, expect_ports_of, get_expect_port,
  expose_compose_service, expose_service_log, service_container, find_container, get_instance_name,
}
use skywalking_infra_e2e.Compose.Provider.{NatPort}
use skywalking_infra_e2e.Compose.WaitPort.{
  connected, refused, dial_failed, Probe, wait_port, find_mapped_port, external_check,
  internal_check, then_check, checks, dialled, build_internal_check_command, hex4,
}
use skywalking_infra_e2e.Compose.WaitPort.Ends.{IsDoneAt, wait_port_ends}
use skywalking_infra_e2e.Compose.Setup.{
  Selected, ComposeWorld, message, compose_setup, with_services, exposed, consume, listen,
  found_message, start_listen, tested, env_file,
}
use skywalking_infra_e2e.Compose.Setup.Order.{
  IsQuiet, service_exports, command, main_events, compose_setup-events, compose_setup_loses_error,
}
use skywalking_infra_e2e.Tests.Data.{settings, setup_of}

abbrev http : NatPort
http = record { number = codes "80"; proto = codes "tcp" }

-- The port is mapped at the second attempt, the second dial is answered, and the third command
-- succeeds. The context is done from the fifth attempt on.
abbrev late : ℕ → Option Text
late n = if ltb n 4 then none else some (codes "deadline")

-- 0 for the empty text, 80 for two digits, else 3280.
abbrev number_of : Text → ℕ
number_of [] = 0
number_of (a ∷ b ∷ []) = 80
number_of _ = 3280

abbrev slow : Probe
slow = record {
  host = ok (codes "localhost");
  mapped = λ i.
      if ltb i 1 then err (codes "port not found") else ok (record http { number = codes "3280" });
  done = late;
  int = λ p. number_of p.number;
  int_no_port = refl;
  dial = λ proto address i.
      if ltb 3 i
      then dial_failed (codes "timeout")
      else if ltb i 1
      then refused
      else connected none;
  ctx_err = late;
  exec = λ c i. ok (if ltb i 2 then 1 else 0);
}

slow_done : IsDoneAt slow 4
slow_done = record { select_ends = refl; dial_ends = λ proto address. refl; check_ends = refl }

wait_port_ends_example : is_some (wait_port slow 5 http) ≡ true
wait_port_ends_example = wait_port_ends slow 4 5 http slow_done (omega arith)

slow_ready : wait_port slow 5 http ≡ some none
unfolding wait_port find_mapped_port checks external_check internal_check then_check dialled text_eq
slow_ready = refl

port_command :
    build_internal_check_command 3280
    ≡ codes
        "true && (\n\t\t\t\t\tcat /proc/net/tcp* | awk '{print $2}' | grep -i :0cd0 ||\n\t\t\t\t\tnc -vz -w 1 localhost 3280 ||\n\t\t\t\t\t/bin/sh -c '</dev/tcp/localhost/3280'\n\t\t\t\t)\n\t\t\t\t"
unfolding build_internal_check_command hex4 itoa_nat
port_command = refl

abbrev calm_docker : Docker
calm_docker = record {
  daemon_host = ok (codes "localhost");
  container_list = λ v1 v2. ok (record { id = codes "1"; ports = (80, 3280) ∷ [] } ∷ []);
  wait_port = λ c p. none;
  follow_log = λ name id. none;
  set_env = λ k v. none;
}

-- The container of a service starts behind the steps, which end with an error or none.
abbrev web_starts : Selected
web_starts = message (record { service_name = codes "web"; id = codes "1" })

abbrev composed : List Selected → Option Text → ComposeWorld
composed at_steps steps_error = record {
  expand_env = λ s. s;
  run_id = [];
  new_client = none;
  services = (codes "web", some (Any.int (pos 80) ∷ [])) ∷ [];
  told = [];
  at_listen = [];
  selected = [];
  at_expose = [];
  at_steps = at_steps;
  invoke = λ c. none;
  docker = calm_docker;
  steps_error = steps_error;
}

abbrev pub compose_yaml : Setup
compose_yaml = record (setup_of (Any.int (pos 5))) { env = codes "compose" }

abbrev pub web_service : ComposeService
web_service = record { name = codes "web"; expect_ports = pos 80 ∷ []; been_follow_log = false }

abbrev pub calm_run : ComposeWorld
calm_run = composed [] none

abbrev lost_run : ComposeWorld
lost_run = composed (web_starts ∷ []) (some (codes "setup timeout"))

pub one_service : build_compose_services calm_run.services ≡ ok (web_service ∷ [])
unfolding build_compose_services expect_ports_of get_expect_port
one_service = refl

pub calm-IsQuiet : IsQuiet settings calm_run (web_service ∷ [])
unfolding listen
calm-IsQuiet = (refl, refl, refl)

set_up : (compose_setup settings calm_run compose_yaml).1 ≡ none
unfolding compose_setup get_file resolve_abs abs_path resolve_abs_with_base join_path dir clean
    build_compose_services expect_ports_of get_expect_port with_services and_then tested exposed
    expose_compose_service consume listen atoi itoa itoa_nat parse_int contains_byte split text_eq
    env_file found_message start_listen export_compose_env expose_compose_port expose_port
    expose_ports_from expose_service_log find_container get_instance_name service_container
    then_export skywalking_infra_e2e.Compose.whole_match skywalking_infra_e2e.Compose.last_line
    skywalking_infra_e2e.Compose.ends_numbered
set_up = refl

compose_setup-events_example :
    (calm_run.invoke (command settings calm_run compose_yaml) ≡ none)
    × ((service_exports settings calm_run (web_service ∷ [])).1 ≡ none)
    × (calm_run.steps_error ≡ none)
    × ((compose_setup settings calm_run compose_yaml).0
        ≡ (env_file settings compose_yaml.init_system_environment).0
          ++ main_events settings calm_run compose_yaml (web_service ∷ []))
compose_setup-events_example =
    compose_setup-events settings calm_run compose_yaml (web_service ∷ []) one_service calm-IsQuiet
      set_up

web_started : listen (web_service ∷ []) lost_run.at_steps ≡ (web_service, codes "1") ∷ []
unfolding listen found_message text_eq
web_started = refl

compose_setup_loses_error_example : (compose_setup settings lost_run compose_yaml).1 ≡ none
compose_setup_loses_error_example =
    compose_setup_loses_error settings lost_run compose_yaml (web_service ∷ []) {v = web_service}
      {id = codes "1"} one_service set_up web_started refl

abbrev web_container : Container
web_container = record { id = codes "1"; ports = (80, 3280) ∷ [] }
