-- ===== src/Tests/LogRuns.antt =====
-- Log files, forwarders, the setup command and the template functions at concrete inputs.
use skywalking_infra_e2e.Base.{List}
use skywalking_infra_e2e.Base.{length}
use skywalking_infra_e2e.SetupCommand.{SetupState}
use skywalking_infra_e2e.Base.{text_eq}
use skywalking_infra_e2e.Base.{
  ◌*◌, ◌≤◌, ℕ, ◌-◌, ◌^◌, ◌≡◌, refl, ◌⊎◌, true, false, none, some, [], ◌∷◌, ◌++◌, arith, Text, codes,
  ok, err, split, contains_byte, ℤ, pos, negsuc, wrap64, IsInt64, atoi,
}
use skywalking_infra_e2e.Config.{KindExposePort}
use skywalking_infra_e2e.Logs.{LogFollower, is_followed, consume_log}
use skywalking_infra_e2e.Logs.Streams.{IsLines, consume_log_copies}
use skywalking_infra_e2e.Kind
use skywalking_infra_e2e.Kind.Forward.{
  ForwardWorld, ready, expose_kind_service, expose_services, expose_per_kind_service,
  before_forward, export_ready, convert_ports, export_kind_envs, Notifying, Step, Reach, here, next,
  ends, receives,
}
use skywalking_infra_e2e.Kind.Forward.Notify.{steps}
use skywalking_infra_e2e.SetupCommand.{
  SetupWorld, run_setup, check_docker_daemon, IsQuiet, run_setup-IsQuiet,
}
use skywalking_infra_e2e.SetupCommand.Forwarders.{with_kind, begin, run_setup_ends, expose_last}
use skywalking_infra_e2e.SetupCommand.{do_setup_according_e2e, init_log_follower}
use skywalking_infra_e2e.Kind.Forward.{waits, kind_should_wait_signal}
use skywalking_infra_e2e.Base.{is_some}
use skywalking_infra_e2e.Verifier.Functions.{subtractor, difference, subtractor_wraps}

abbrev follower : LogFollower
follower = record { base_path = codes "/log"; cancelled = false; following = [] }

abbrev two_lines : Text
two_lines = 97 ∷ 10 ∷ 98 ∷ 10 ∷ 99 ∷ []

not_yet : is_followed follower (codes "a.log") ≡ false
unfolding is_followed
not_yet = refl

consume_log_copies_example :
    (written : Text) × (rest : Text) × ((consume_log
        (λ k. true)
        follower
        (codes "a.log")
        two_lines).1
      ≡ some written)
    × (written ++ rest ≡ two_lines)
    × IsLines written
    × (contains_byte 10 rest ≡ false)
consume_log_copies_example =
    consume_log_copies (λ k. true) follower (codes "a.log") two_lines (λ k. refl) not_yet

-- A pod with one port, which is forwarded to the local port 4000.
abbrev pub forwarding : ForwardWorld
forwarding = record {
  object = λ p. ok false;
  pod = λ p t. none;
  look_up = λ p. record {
    container_by_name = λ n. err [];
    service_by_name = λ n. err [];
    container_by_service = λ n. err [];
  };
  forwarder = λ ports. none;
  select = λ p. ready (ok ((pos 4000, pos 80) ∷ []));
  set_env = λ k v. none;
}

abbrev pub web : KindExposePort
web = record { namespace = []; resource = codes "pod/web"; port = codes "80" }

web_exported : (expose_kind_service forwarding none (web ∷ web ∷ []) (pos 0) none).1.1 ≡ none
unfolding expose_kind_service expose_services expose_per_kind_service before_forward export_ready
    convert_ports export_kind_envs split Kind.build_kind_port atoi Kind.need_expose contains_byte
    Kind.resource_exports Kind.all_port_exports Kind.port_exports
web_exported = refl

abbrev waiting : ℕ → ℕ → ℕ → Notifying
waiting running finished received = record {
  context = record { stopped = true; resource_count = 2; running = running; finished = finished };
  received = received;
}

one_received : Reach (waiting 2 0 0) (waiting 1 0 1)
one_received =
    next (next here (ends (waiting 2 0 0) (omega arith) (omega arith)))
      (receives (waiting 1 1 0) (omega arith) (omega arith))

abbrev pub kind_world : SetupWorld
kind_world = record {
  client_error = none;
  ping_error = none;
  config_error = none;
  env = codes "kind";
  log_dir = codes "/log";
  kind_setup = λ c. (c, some (codes "no steps"));
  compose_setup = none;
}

docker_runs : check_docker_daemon kind_world ≡ none
unfolding check_docker_daemon
docker_runs = refl

run_setup-IsQuiet_example :
    IsQuiet (run_setup kind_world (record { log_follower = none; forward = none })).state
run_setup-IsQuiet_example =
    run_setup-IsQuiet kind_world (record { log_follower = none; forward = none }) docker_runs

abbrev lowest : ℤ
lowest = negsuc (2 ^ 63 - 1)

subtractor_wraps_example :
    (subtractor lowest (pos 2 ∷ pos 3 ∷ []) ≡ wrap64 (difference lowest (pos 2 ∷ pos 3 ∷ [])))
    × IsInt64 (subtractor lowest (pos 2 ∷ pos 3 ∷ []))
subtractor_wraps_example = subtractor_wraps lowest (pos 2 ∷ pos 3 ∷ []) (omega arith)

abbrev two_webs : List KindExposePort
two_webs = web ∷ web ∷ []

abbrev no_context : SetupState
no_context = record { log_follower = none; forward = none }

forwarded :
    is_some (run_setup (with_kind kind_world forwarding two_webs (pos 0) none) no_context).notified
    ≡ true
unfolding run_setup check_docker_daemon do_setup_according_e2e init_log_follower expose_last
    expose_kind_service expose_services expose_per_kind_service before_forward export_ready
    convert_ports export_kind_envs split Kind.build_kind_port atoi Kind.need_expose contains_byte
    Kind.resource_exports Kind.all_port_exports Kind.port_exports kind_should_wait_signal text_eq
forwarded = refl

one_ended : Reach (begin 2) (waiting 1 1 0)
one_ended = next here (ends (begin 2) (omega arith) (omega arith))

run_setup_ends_example :
    ((run_setup (with_kind kind_world forwarding two_webs (pos 0) none) no_context).notified
      ≡ some (waits (begin 2)))
    × (steps one_ended ≤ 2 * 2)
    × (((waiting 1 1 0).received ≡ length two_webs) ⊎ ((k : Notifying) × Step (waiting 1 1 0) k))
run_setup_ends_example =
    run_setup_ends forwarding two_webs (pos 0) none kind_world no_context {m = waiting 1 1 0}
      forwarded one_ended
