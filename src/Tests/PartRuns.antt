-- ===== src/Tests/PartRuns.antt =====
-- The other parts at concrete inputs: the run command, the trigger, the configuration, and paths.
use skywalking_infra_e2e.Trigger.{Worker}
use skywalking_infra_e2e.Base.{false}
use skywalking_infra_e2e.Trigger.{step}
use skywalking_infra_e2e.Trigger.Command.{trigger_command, run_action, stopped}
use skywalking_infra_e2e.Base.{
  ◌*◌, ◌^◌, ◌≤◌, ◌≡◌, refl, none, some, List, [], ◌∷◌, map, arith, if◌then◌else◌, Text, codes, ok,
  ℤ, pos, negsuc, wrap64, times,
}
use skywalking_infra_e2e.Config
use skywalking_infra_e2e.Config.{Any, finalize}
use skywalking_infra_e2e.Run.{Stages, ActionOutcome, run_according_e2e}
use skywalking_infra_e2e.Run.Cleanup.{cleanups, asked, cleanups-run_according_e2e}
use skywalking_infra_e2e.Trigger
use skywalking_infra_e2e.Trigger.{
  Response, HttpAction, new_http_action, tick, run, started, max_int32,
}
use skywalking_infra_e2e.Trigger.Bounds.{run_count_bounded}
use skywalking_infra_e2e.Trigger.Reference.{reference, run_sends}
use skywalking_infra_e2e.Tests.Data.{setup_of, one_second}

-- The setup and the trigger succeed, and the verification fails.
abbrev failing : Stages
failing = record {
  config_error = none;
  cleanup_on = codes "failure";
  setup_error = none;
  action = ActionOutcome.sends none;
  verify_error = some (codes "no");
}

failing_run : (run_according_e2e failing).returned ≡ some (some (codes "no"))
unfolding run_according_e2e
failing_run = refl

cleanups-run_according_e2e_example :
    cleanups (run_according_e2e failing).events
    ≡ (if asked (codes "failure") none (some (codes "no")) then 1 else 0)
cleanups-run_according_e2e_example = cleanups-run_according_e2e failing refl failing_run

-- Two errors, then a success.
abbrev pub answers : List Response
answers = Response.failed (codes "no") ∷ Response.answered 500 ∷ Response.answered 200 ∷ []

run_sends_example : (run 3 started (map tick answers)).sent ≡ reference 3 answers
run_sends_example = run_sends 3 answers (omega arith) (tt, (tt, (tt, tt)))

run_count_bounded_example : (run 2 started (map tick answers)).executed_count ≤ 2
run_count_bounded_example = run_count_bounded 2 (map tick answers) (omega arith) (omega arith)

abbrev http : Config.Trigger
http = record {
  action = codes "http";
  interval = codes "1s";
  times = pos 0;
  url = codes "http://h";
  method = codes "get";
  body = [];
  headers = [];
}

abbrev same : Text → Text
same s = s

abbrev no_text : ℤ → Text
no_text z = []

abbrev pub http_action : HttpAction
http_action = record {
  interval = pos (10 ^ 9);
  times = max_int32;
  url = codes "http://h";
  method = codes "GET";
  body = [];
  headers = [];
}

http_run : new_http_action one_second no_text same http ≡ ok http_action
unfolding new_http_action Trigger.to_upper
http_run = refl

-- A negative timeout becomes the default one.
finalize_run :
    finalize one_second (setup_of (Any.int (negsuc 4)))
    ≡ ok (record (setup_of (Any.int (negsuc 4))) { final_timeout = pos (600 * 10 ^ 9) })
unfolding finalize wrap64 times
finalize_run = refl

abbrev at_rest : Worker
at_rest = record { executed_count = 3; sent = some none; running = false }

triggered :
    trigger_command (ok (some http_action)) answers (Response.answered 200 ∷ []) ≡ stopped at_rest
unfolding trigger_command run_action run step Trigger.execute
triggered = refl
