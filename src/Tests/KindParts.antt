-- ===== src/Tests/KindParts.antt =====
-- The parts of a setup with kind at concrete inputs.
use skywalking_infra_e2e.Base.{
  ◌≡◌, refl, true, false, none, some, List, [], ◌∷◌, arith, Text, codes, text_eq, ok, split,
  contains_byte, has_suffix, pos, ◌-ℤ◌, atoi,
}
use skywalking_infra_e2e.Config.{Step, Setup}
use skywalking_infra_e2e.Steps.{Select, finished, timed_out, errored}
use skywalking_infra_e2e.Steps.Commands.{Sent}
use skywalking_infra_e2e.Steps.Checked.{Takes, takes_error, takes_finish, takes_timeout}
use skywalking_infra_e2e.Base.{length, ℕ}
use skywalking_infra_e2e.Config.{Wait}
use skywalking_infra_e2e.Kind.Whole.{Chosen, WaitFails}
use skywalking_infra_e2e.Kind.{list_local_images}
use skywalking_infra_e2e.Steps.WaitSet.{
  WaitSet, Reach, new_wait_set, here, next, met, leaves, closes, selects_finish, selects_timeout,
}
use skywalking_infra_e2e.Steps.Parts.{StepParts}
use skywalking_infra_e2e.Kind.Cluster.{ClientWorld}
use skywalking_infra_e2e.Kind.Whole.{KindParts, kind_setup_parts}
use skywalking_infra_e2e.Logs.{new_resource_log_follower}
use skywalking_infra_e2e.Tests.Data.{settings}
use skywalking_infra_e2e.Tests.SetupRuns.{fine, kind_setting}
use skywalking_infra_e2e.Tests.StepRuns.{all_ended, pods, obedient, manifest_disk, manifest_api}
use skywalking_infra_e2e.Tests.LogRuns.{forwarding, web}
use skywalking_infra_e2e.Base.{and_then}
use skywalking_infra_e2e.Kind.Whole.{kind_answer, run_kind_steps, create_step}
use skywalking_infra_e2e.Kind.Setup.{
  kind_setup, env_file, kind_cluster, import_images, after_images, call_beside, overwritten,
}
use skywalking_infra_e2e.Steps.{
  run_steps_and_wait, step_error, new_timeout, create_manifest_and_wait, options_error,
  select_error, run_commands_and_wait,
}
use skywalking_infra_e2e.Steps.Parts.{command_step}
use skywalking_infra_e2e.Steps.Commands.{
  execute_commands_and_wait, wait_for, lacks_cluster, options, after_wait,
}
use skywalking_infra_e2e.Kind.{
  get_wait_options, check_kube_config, pull_images, missing_images, pulled, build_kind_port,
  need_expose, resource_exports, all_port_exports, port_exports,
}
use skywalking_infra_e2e.Kind.Manifests.{
  create_by_manifest, create_files, operate_manifest, operate_documents, operate_document,
  target_of, target, with_namespace, ask, get_manifests, manifest_files, files_of, walked, is_yaml,
}
use skywalking_infra_e2e.Kind.Cluster.{connect_to_k8s_cluster}
use skywalking_infra_e2e.Kind.Logs.{
  get_all_pods, pods_of, expose_logs, expose_pods, expose_per_container_log, log_file,
  start_streams,
}
use skywalking_infra_e2e.Logs.{build_log_writer, build_log_filename, is_followed}
use skywalking_infra_e2e.Paths.{join_path, clean, dir}
use skywalking_infra_e2e.Kind.Forward.{
  expose_kind_service, expose_services, expose_per_kind_service, before_forward, export_ready,
  convert_ports, export_kind_envs,
}

-- The select takes the first error, else the end of a goroutine that returns.
abbrev prompt : (s : Sent) → (t : Select) × Takes s t
prompt ([], true) = (finished, takes_finish [] (omega arith))
prompt ([], false) = (timed_out, takes_timeout _)
prompt (x ∷ xs, returns) = (errored x, takes_error x xs returns)

abbrev pub quick_steps : StepParts
quick_steps = record {
  command = λ i. obedient;
  choose = λ i. prompt;
  elapsed = λ i. pos 1;
  seconds = λ t. [];
  show_step = λ s. [];
}

-- Manifests, and commands with a wait.
abbrev pub both_steps : List Step
both_steps =
    record { name = codes "a"; path = codes "/m"; command = []; waits = pods ∷ [] }
    ∷ record { name = codes "b"; path = []; command = codes "make"; waits = pods ∷ [] }
    ∷ []

pub no_wait : (Fails : Text → Type 0) → Reach Fails (new_wait_set 0) all_ended
unfolding new_wait_set
no_wait Fails = next (next here (closes refl refl)) (selects_finish refl refl)

pub one_wait : (Fails : Text → Type 0) → Reach Fails (new_wait_set 1) all_ended
unfolding new_wait_set
one_wait Fails =
    next (next (next (next here (met (omega arith))) (leaves (omega arith))) (closes refl refl))
      (selects_finish refl refl)

-- The select takes the timeout of n waits.
abbrev late : ℕ → WaitSet
late n = record {
  running = n;
  leaving = 0;
  failed = 0;
  err_chan = none;
  closed = false;
  verdict = some timed_out;
}

pub waits_late : (Fails : Text → Type 0) (n : ℕ) → Reach Fails (new_wait_set n) (late n)
unfolding new_wait_set
waits_late Fails n = next here (selects_timeout refl)

-- The select takes the end of no wait or of one wait, and else the timeout.
abbrev waits_end :
    (waits : List Wait) → Chosen (WaitFails (λ w. []) (λ w. none) waits) (length waits)
waits_end [] = record { set = all_ended; select = finished; reached = no_wait _; verdict = refl }
waits_end (w ∷ []) = record {
  set = all_ended;
  select = finished;
  reached = one_wait _;
  verdict = refl;
}
waits_end (w ∷ v ∷ ws) = record {
  set = late (length (w ∷ v ∷ ws));
  select = timed_out;
  reached = waits_late _ _;
  verdict = refl;
}

abbrev answering : ClientWorld
answering = record {
  Config = Text;
  Clients = Text;
  Dynamic = Text;
  build_config = λ p. ok p;
  new_clients = λ c. ok c;
  new_dynamic = λ c. ok c;
  read_file = λ p. ok p;
  rest_config = λ t. ok t;
}

abbrev pub kind_parts : KindParts
kind_parts = record {
  outside = fine;
  client = answering;
  docker_error = none;
  image_summary = ok ((codes "db" ∷ []) ∷ []);
  pull = λ i. true;
  settings = settings;
  disk = manifest_disk;
  api = manifest_api;
  steps = quick_steps;
  run_wait = λ i w. none;
  show_wait = λ w. [];
  choose = λ i. waits_end;
  pod_logs = record { logs_for = λ p. ok (ok (codes "s") ∷ []) };
  log_disk = record {
    mkdir_all = λ p. none;
    is_exist = λ p. false;
    remove = λ p. none;
    create = λ p. none;
  };
  follower = λ i. new_resource_log_follower (codes "/l");
  infos = ok (ok (record { namespace = codes "n"; name = codes "p"; running = true }) ∷ []);
  client_error = none;
  forward = forwarding;
}

abbrev pub kind_yaml : Setup
kind_yaml = record kind_setting {
  env = codes "kind";
  steps = some both_steps;
  final_timeout = pos 10;
  kind = record {
    import_images = codes "oap" ∷ [];
    expose_ports = web ∷ web ∷ [];
    no_wait = false;
  };
}

pub kind_parts_run : (kind_setup_parts kind_parts kind_yaml none).1 ≡ none
unfolding kind_setup_parts kind_answer run_kind_steps create_step kind_setup check_kube_config
    and_then env_file kind_cluster import_images after_images call_beside overwritten
    run_steps_and_wait step_error new_timeout ◌-ℤ◌ create_manifest_and_wait options_error
    select_error command_step run_commands_and_wait execute_commands_and_wait wait_for lacks_cluster
    options after_wait get_wait_options contains_byte create_by_manifest create_files
    operate_manifest operate_documents operate_document target_of target with_namespace ask
    get_manifests manifest_files files_of walked is_yaml split has_suffix text_eq pull_images
    missing_images pulled connect_to_k8s_cluster get_all_pods pods_of expose_logs expose_pods
    list_local_images expose_per_container_log log_file join_path clean build_log_writer
    build_log_filename is_followed dir start_streams expose_kind_service expose_services
    expose_per_kind_service before_forward export_ready convert_ports export_kind_envs
    build_kind_port atoi need_expose resource_exports all_port_exports port_exports
    new_resource_log_follower
kind_parts_run = refl
