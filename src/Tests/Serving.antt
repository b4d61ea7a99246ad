-- ===== src/Tests/Serving.antt =====
-- The manager's calls at a store with two published tasks.
use mathlib.Core.Logic.{◌↔◌}
use neorc.Prelude.{String, ℕ, ◌≡◌, ◌≤◌, ◌⊎◌, refl, none, some, [], ◌∷◌, nat_eq, string_eq, pair_eq}
use neorc.Prelude.Dict
use neorc.Prelude.Dict.{Dict}
use neorc.Errors.{ok, err, invalid_value, task_not_found}
use neorc.Json.{null, pos, JsonValue}
use neorc.Runs.{Run, RunStatus, StoredFlow, Task}
use neorc.Store.{Store}
use neorc.Store.Flows
use neorc.Store.Port.{memory}
use neorc.Store.Requests.{receive, perform}
use neorc.Store.Runs
use neorc.Store.Tasks
use neorc.Store.Tasks.{success}
use neorc.Task.{TaskStatus}
use neorc.Values.{Value, decode, encode, max_value_depth, utf8_length}
use neorc.Flow.Walk
use neorc.Manager.Checks
use neorc.Manager.Checks.{Services, check_inputs, max_payload_bytes}
use neorc.Manager.Flows.{start_run}
use neorc.Manager.Inputs.{IsAttempt, IsStarted, start_run-checked}
use neorc.Manager.Checks.Fitting.{IsAccepted, check_inputs_iff}
use neorc.Flow.Definition.{InputType, FlowDefinition}
use neorc.Manager.Queues.{other_queue-refused}
use neorc.Manager.Reports.{report_finished_bounds}
use neorc.Manager.Serving.{claims, publishes, serve}
use neorc.Manager.Admitted.{IsAdmitted, serve-IsAdmitted}
use neorc.Manager.Unchanged.{serve-unchanged}
use neorc.Manager.Working.{report_finished, claim_task, extend_lease}
use neorc.Tests.Samples.{libraries, two_tasks, top, letters}
use neorc.Tests.Values.{written}

abbrev pub services : Services
services = record {
  written = written;
  dumps_json = λ v. 110 ∷ 117 ∷ 108 ∷ 108 ∷ [];
  id_text = λ n. n ∷ [];
  invalid_result = λ v. [];
}

abbrev alone : ℕ → Store → Store
alone n s = s

abbrev pub new_run : Run
new_run = record {
  id = 9;
  flow = "letters";
  version = record { major = 1; minor = 0; patch = 0 };
  inputs = [];
  status = RunStatus.active;
  root_id = 9;
  parent_id = none;
  parent_address = none;
  output = null;
  reason = none;
  created_at = some 5;
  finished_at = none;
}

abbrev started : Store
started = (start_run (memory libraries) services "letters" [] 9 5 alone two_tasks).1

start_run-checked_example :
    (left : ℕ) × (t : Store) × (stored : StoredFlow) × IsAttempt alone two_tasks left t
    × ((Flows.get_flow "letters" none t).0 ≡ ok stored)
    × IsAccepted written stored.definition []
    × IsStarted "letters" stored.definition.version [] new_run (alone left t) started
unfolding perform start_run Runs.start_run Dict.get Dict.set Flows.get_flow Tasks.publish_task
    Flows.store_flows
start_run-checked_example =
    start_run-checked libraries services "letters" [] 9 5 alone two_tasks started new_run refl

abbrev with_input : FlowDefinition
with_input = record letters { inputs = ("guesses", InputType.number) ∷ [] }

abbrev one_input : Dict String JsonValue
one_input = ("guesses", JsonValue.int (pos 3)) ∷ []

check_inputs_iff_example :
    (check_inputs written with_input one_input ≡ ok tt) ↔ IsAccepted written with_input one_input
check_inputs_iff_example = check_inputs_iff written with_input one_input

abbrev pub received : Store
received = perform libraries (receive "words" 30) 5 two_tasks

abbrev done : Task
done = record {
  id = 20;
  run_id = 7;
  address = top "pick";
  queue = "words";
  handler = "pick_word";
  params = [];
  fixed_params = [];
  status = TaskStatus.succeeded;
  attempts = 1;
  lease_expires_at = none;
  result = null;
  error = none;
  created_at = some 3;
  started_at = none;
  finished_at = some 6;
}

abbrev reported : Store
reported =
    (report_finished (memory libraries) services 10 20 (success null) (some "words") 6 received).1

report_finished_bounds_example :
    (Dict.get 20 reported.tasks ≡ some done)
    × ((done.status ≡ TaskStatus.failed)
        ⊎ ((value : Value) × (size : ℕ) × (decode written null max_value_depth ≡ ok value)
            × (encode written value ≡ ok done.result)
            × (utf8_length (services.dumps_json done.result) ≡ some size)
            × (size ≤ max_payload_bytes)))
unfolding perform report_finished Tasks.receive_task Tasks.finish_task Dict.get Dict.set
    Tasks.get_task Tasks.publish_task Runs.start_run Flows.store_flows
report_finished_bounds_example =
    report_finished_bounds libraries services 10 20 null (some "words") 6 received reported done
      refl

serve-unchanged_example :
    (serve libraries services 10 (publishes 7 (top "rounds") 30) 5 two_tasks).1 ≡ two_tasks
unfolding perform serve Dict.get Dict.set Runs.get_run Tasks.publish_task Runs.start_run
    Flows.store_flows Flows.get_flow Runs.run_state Walk.index
serve-unchanged_example =
    serve-unchanged libraries services 10 (publishes 7 (top "rounds") 30) 5 two_tasks invalid_value
      refl refl

abbrev pub waiting : Task
waiting = record done { status = TaskStatus.pending; attempts = 0; finished_at = none }

other_queue-refused_example :
    (claim_task (memory libraries) services 10 20 (some "news") [] 5 two_tasks
      ≡ (err task_not_found, two_tasks))
    × (extend_lease (memory libraries) services 10 20 60 (some "news") 5 two_tasks
        ≡ (err task_not_found, two_tasks))
    × (report_finished (memory libraries) services 10 20 (success null) (some "news") 5 two_tasks
        ≡ (err task_not_found, two_tasks))
unfolding perform Tasks.publish_task Dict.get Dict.set Runs.start_run Flows.store_flows
    Checks.check_lease_seconds
other_queue-refused_example =
    other_queue-refused libraries services 10 20 "news" [] 60 (success null) 5 two_tasks waiting
      refl refl refl

serve-IsAdmitted_example : IsAdmitted (claims 20 (some "words") []) received
unfolding serve perform claim_task Tasks.claim_task Tasks.receive_task Tasks.get_task Dict.get
    Dict.set Tasks.publish_task Runs.start_run Flows.store_flows
serve-IsAdmitted_example =
    serve-IsAdmitted libraries services 10 (claims 20 (some "words") []) 6 received
      (serve libraries services 10 (claims 20 (some "words") []) 6 received).1 refl
