-- ===== src/Tests/SetupRuns.antt =====
-- The environments at concrete inputs: compose, kind, steps and cleanup.
use skywalking_infra_e2e.Base.{
  and_then, err, Result, String, ℕ, ◌≡◌, refl, Bool, true, false, Option, none, some, List, [], ◌∷◌,
  ◌++◌, ltb, if◌then◌else◌, Text, codes, text_eq, ok, split, contains_byte, pos, ◌-ℤ◌, itoa,
  parse_int,
}
use skywalking_infra_e2e.Config.{Any, Step, Setup}
use skywalking_infra_e2e.Compose.{
  Container, Docker, ComposeService, get_expect_port, build_compose_services, expect_ports_of,
  service_container, find_container, host_key, expose_compose_port, expose_port, expose_ports_from,
  export_compose_env, then_export,
}
use skywalking_infra_e2e.Compose.Exports.{published, port_entries, expose_compose_port-published}
use skywalking_infra_e2e.Compose.Provider.{
  DockerProvider, Daemon, NatPort, daemon_host, by_scheme, by_socket, get_gateway_ip,
  get_default_network, gateway_of, first_gateway, ip_or_fallback, mapped_port, find_mapped,
  port_matches,
}
use skywalking_infra_e2e.Steps.{StepWorld, run_steps_and_wait, new_timeout, step_error}
use skywalking_infra_e2e.Teardown.{KindConfigFile, get_kind_cluster_name}
use skywalking_infra_e2e.Kind.{
  KindPort, PortLookup, build_kind_port, need_expose, expose_real, check_kube_config,
}
use skywalking_infra_e2e.Kind.Ports.{remote_part, RefersTo, build_kind_port-forwards}
use skywalking_infra_e2e.Kind.Setup.{
  call_beside, overwritten, KindEvent, KindWorld, kind_setup, kind_cluster, import_images, env_file,
  after_images, connect_path,
}
use skywalking_infra_e2e.Kind.Order.{kind_setup-events}
use skywalking_infra_e2e.Tests.Data.{setup_of}

abbrev compose_file : List (Text × Option (List Any))
compose_file = (codes "oap", some (Any.int (pos 11800) ∷ [])) ∷ (codes "db", none) ∷ []

abbrev oap : ComposeService
oap = record { name = codes "oap"; expect_ports = pos 11800 ∷ []; been_follow_log = false }

abbrev db : ComposeService
db = record { name = codes "db"; expect_ports = []; been_follow_log = false }

build_run : build_compose_services compose_file ≡ ok (oap ∷ db ∷ [])
unfolding build_compose_services expect_ports_of get_expect_port
build_run = refl

abbrev container : Container
container = record { id = codes "1f"; ports = (12800, 40000) ∷ (11800, 40001) ∷ [] }

abbrev docker : Docker
docker = record {
  daemon_host = ok (codes "localhost");
  container_list = λ a b. ok (container ∷ []);
  wait_port = λ c n. none;
  follow_log = λ s i. none;
  set_env = λ k v. none;
}

found : service_container docker oap (codes "e2e") ≡ ok container
unfolding service_container find_container
found = refl

exposed : (expose_compose_port docker (codes "e2e") oap).1 ≡ none
unfolding expose_compose_port service_container find_container then_export export_compose_env
    expose_ports_from expose_port
exposed = refl

expose_compose_port-published_example :
    (expose_compose_port docker (codes "e2e") oap).0
    ≡ (host_key docker oap, codes "localhost")
      ∷ port_entries docker oap (published oap.expect_ports container.ports)
expose_compose_port-published_example =
    expose_compose_port-published docker (codes "e2e") oap refl refl found exposed

abbrev one_step : List Step
one_step = record { name = codes "s"; path = []; command = codes "ls"; waits = [] } ∷ []

abbrev quick : ℕ → StepWorld
quick i = record {
  create_manifest = λ p ws t. none;
  run_commands = λ c ws t. none;
  elapsed = pos 3;
  show_step = λ s. s.name;
}

steps_run : run_steps_and_wait false quick 0 one_step (pos 10) ≡ none
unfolding run_steps_and_wait step_error new_timeout ◌-ℤ◌
steps_run = refl

abbrev pub kind_file : KindConfigFile
kind_file = record { content = ok []; decode_name = λ t. ok t }

-- The third run succeeds.
abbrev pub third : List Text → ℕ → Option Text
third args k = if ltb k 2 then some (codes "no") else none

named : get_kind_cluster_name kind_file ≡ ok (codes "kind")
unfolding get_kind_cluster_name
named = refl

abbrev is_oap : Text → Bool
is_oap t = text_eq t (codes "oap")

abbrev look_up : PortLookup
look_up = record {
  container_by_name = λ t. ok (pos 1);
  service_by_name = λ t. ok (pos 80);
  container_by_service = λ n. ok (pos 8080);
}

abbrev kind_port : KindPort
kind_port = record {
  input_port = codes "80";
  real_port = pos 8080;
  wait_expose = codes "9090:8080";
}

port_run : build_kind_port look_up true (codes "9090:80") ≡ ok kind_port
unfolding build_kind_port parse_int need_expose contains_byte split expose_real text_eq itoa
port_run = refl

build_kind_port-forwards_example :
    RefersTo look_up (codes "80") (pos 8080)
    × (remote_part (codes "9090:8080") ≡ itoa (pos 8080))
    × (codes "80" ≡ (need_expose (codes "9090:80")).1)
build_kind_port-forwards_example = build_kind_port-forwards look_up (codes "9090:80") port_run

abbrev pub fine : KindWorld
fine = record {
  kind_config_path = codes "/w/kind.yaml";
  kube_config_path = [];
  created_config_path = codes "/tmp/e2e-k8s.config";
  resolve = λ t. t;
  expand_env = λ t. t;
  timeout_text = codes "10m";
  cluster_name = ok (codes "kind");
  answer = λ e. none;
  written = λ e. [];
}

abbrev pub kind_setting : Setup
kind_setting = record (setup_of Any.nil) {
  steps = some one_step;
  kind = record { import_images = codes "oap" ∷ []; expose_ports = []; no_wait = false };
}

config_checked : check_kube_config fine.kind_config_path fine.kube_config_path ≡ none
unfolding check_kube_config
config_checked = refl

kind_run : (kind_setup fine kind_setting).1 ≡ none
unfolding kind_setup check_kube_config and_then env_file kind_cluster import_images after_images
    call_beside overwritten
kind_run = refl

kind_setup-events_example :
    ((kind_cluster fine false).1 ≡ none)
    × ((import_images fine (codes "oap" ∷ [])).1 ≡ none)
    × (fine.answer (KindEvent.connect (connect_path fine)) ≡ none)
    × (fine.answer KindEvent.run_steps ≡ none)
    × (fine.answer KindEvent.expose_logs ≡ none)
    × (fine.answer KindEvent.expose_ports ≡ none)
    × ((kind_setup fine kind_setting).0
        ≡ (env_file fine []).0
          ++ ((kind_cluster fine false).0
              ++ ((import_images fine (codes "oap" ∷ [])).0
                  ++ KindEvent.connect (connect_path fine)
                    ∷ KindEvent.listen
                    ∷ KindEvent.run_steps
                    ∷ KindEvent.expose_logs
                    ∷ KindEvent.expose_ports
                    ∷ [])))
kind_setup-events_example =
    kind_setup-events fine kind_setting refl config_checked (refl, refl, refl) kind_run

-- A daemon behind a socket, seen from a container.
abbrev daemon : Daemon
daemon = record {
  tc_host = none;
  daemon_url = ok (codes "unix", []);
  in_a_container = true;
  networks = ok (codes "bridge" ∷ []);
  create_network = none;
  gateways = λ n. ok (codes "172.17.0.1" ∷ []);
  default_gateway = err (codes "no");
}

-- A daemon that does not answer.
abbrev silent : Daemon
silent = record daemon { daemon_url = err (codes "no") }

abbrev fresh_provider : DockerProvider
fresh_provider = record { host_cache = []; default_network = [] }

host_run : (daemon_host daemon fresh_provider).1 ≡ ok (codes "172.17.0.1")
unfolding daemon_host by_scheme text_eq by_socket ip_or_fallback get_gateway_ip get_default_network
    gateway_of first_gateway
host_run = refl

abbrev tcp : String → NatPort
tcp number = record { number = codes number; proto = codes "tcp" }

abbrev plain_port : Text → Text → Result NatPort
plain_port proto number = ok (record { number = number; proto = proto })

abbrev udp_and_tcp : List (NatPort × List Text)
udp_and_tcp =
    (record { number = codes "80"; proto = codes "udp" }, codes "5000" ∷ [])
    ∷ (record { number = codes "80"; proto = codes "tcp" }, codes "5001" ∷ [])
    ∷ []

mapped_run : mapped_port plain_port (ok (codes "bridge", udp_and_tcp)) (tcp "80") ≡ ok (tcp "5001")
unfolding mapped_port text_eq find_mapped port_matches
mapped_run = refl
