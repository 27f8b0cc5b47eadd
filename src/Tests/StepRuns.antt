-- ===== src/Tests/StepRuns.antt =====
-- The commands, the waits and the manifests of steps at concrete inputs.
use skywalking_infra_e2e.Base.{◌⊎◌}
use skywalking_infra_e2e.Steps.{run_commands_and_wait, select_error}
use skywalking_infra_e2e.Steps.Checked.{
  Takes, takes_finish, OneUnread, run_commands_and_wait_checked,
}
use skywalking_infra_e2e.Base.{
  ◌≤◌, ◌≡◌, refl, true, false, none, some, [], ◌∷◌, arith, All, Text, codes, ok, contains_byte,
}
use skywalking_infra_e2e.Config.{Wait}
use skywalking_infra_e2e.Kind.{get_wait_options}
use skywalking_infra_e2e.Steps.{finished}
use skywalking_infra_e2e.Steps.Commands.{
  returned, panicked, CommandWorld, execute_commands_and_wait, wait_for, lacks_cluster, options,
  after_wait, send, IsMet,
}
use skywalking_infra_e2e.Steps.WaitSet.{
  WaitSet, new_wait_set, Reach, here, next, met, leaves, closes, selects_finish, held,
}
use skywalking_infra_e2e.Steps.WaitSet.Verdicts.{finish_means_ended, select_misses_error}
use skywalking_infra_e2e.Kind.Manifests.{ManifestDisk, directory, ManifestApi}

abbrev pub pods : Wait
pods = record {
  namespace = [];
  resource = codes "pods";
  label_selector = codes "app=oap";
  for = codes "condition=Ready";
}

abbrev pub obedient : CommandWorld
obedient = record {
  execute = λ c. none;
  to_options = λ f. none;
  run_wait = λ o. elim o [ none ↦ panicked | some f ↦ returned none ];
  has_cluster = true;
}

make_silent : execute_commands_and_wait obedient (codes "make") (pods ∷ []) ≡ ([], true)
unfolding execute_commands_and_wait wait_for lacks_cluster options after_wait get_wait_options
    contains_byte
make_silent = refl

make_finishes : Takes (execute_commands_and_wait obedient (codes "make") (pods ∷ [])) finished
unfolding execute_commands_and_wait wait_for lacks_cluster options after_wait get_wait_options
    contains_byte
make_finishes = takes_finish [] (omega arith)

make_ends : run_commands_and_wait (codes "make") (codes "60") finished ≡ none
unfolding run_commands_and_wait select_error
make_ends = refl

run_commands_and_wait_checked_example :
    ((obedient.execute (codes "make") ≡ none) × All (IsMet obedient) (pods ∷ []))
    ⊎ OneUnread (execute_commands_and_wait obedient (codes "make") (pods ∷ []))
run_commands_and_wait_checked_example =
    run_commands_and_wait_checked obedient (codes "make") (codes "60") (pods ∷ []) finished refl
      make_finishes make_ends

-- Options that cannot be made: the error is sent, and RunWait panics on nil.
options_refused :
    execute_commands_and_wait obedient (codes "make") (record pods { resource = [] } ∷ []) ≡ (
      codes "commands: [make] get wait options error: resource must be provided in wait block" ∷ [],
      false,
    )
unfolding execute_commands_and_wait wait_for lacks_cluster options send after_wait get_wait_options
    contains_byte
options_refused = refl

abbrev Anything : Text → Type 0
Anything x = Unit

abbrev pub all_ended : WaitSet
all_ended = record {
  running = 0;
  leaving = 0;
  failed = 0;
  err_chan = none;
  closed = true;
  verdict = some finished;
}

one_wait : Reach Anything (new_wait_set 1) all_ended
unfolding new_wait_set
one_wait =
    next (next (next (next here (met (omega arith))) (leaves (omega arith))) (closes refl refl))
      (selects_finish refl refl)

finish_means_ended_example :
    (all_ended.running ≡ 0)
    × (all_ended.leaving ≡ 0)
    × (all_ended.failed ≤ 1)
    × (all_ended.failed ≡ held all_ended.err_chan)
finish_means_ended_example = finish_means_ended Anything 1 one_wait refl

select_misses_error_example :
    (s : WaitSet) × (Reach Anything (new_wait_set 2) s
      × (s.verdict ≡ some finished)
      × (s.failed ≡ 1))
select_misses_error_example = select_misses_error Anything 1 (codes "not met") tt

-- A directory with two files, of which one is a manifest with two documents.
abbrev pub manifest_disk : ManifestDisk
manifest_disk = record {
  stat = λ f. ok directory;
  walk = λ f. ok (codes "/m/a.yaml") ∷ ok (codes "/m/b.txt") ∷ [];
  read_file = λ f. ok (codes "two");
}

abbrev pub manifest_api : ManifestApi
manifest_api = record {
  documents = λ b. codes "x" ∷ codes "y" ∷ [];
  decode = λ t. ok (record { kind = codes "Pod"; name = t; namespace = [] });
  group_resources = none;
  rest_mapping = λ k. ok true;
  answer = λ t. none;
}
