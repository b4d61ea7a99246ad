-- ===== src/Tests/Stores.antt =====
-- The store's theorems at a store with two published tasks.
use neorc.Prelude.{
  ℕ, ◌≡◌, ◌≢◌, refl, arith, String, nat_eq, string_eq, pair_eq, none, some, List, [], ◌++◌, take,
  Option,
}
use neorc.Prelude.Dict
use neorc.Errors.{ok, err, task_state, run_state}
use neorc.Json.{null}
use neorc.Runs.{Run, RunStatus, Task, Event}
use neorc.Store.{Store}
use neorc.Store.Changes.{Trace}
use neorc.Store.Flows.{store_flows}
use neorc.Store.Runs.{
  start_run, fail_run_tree, cancel_run_tree, events_after, last_sequence, succeed_run,
}
use neorc.Store.Tasks.{
  publish_task, receive_task, claim_task, extend_task_lease, finish_task, success, failure, leased,
}
use neorc.Store.Sound.{IsSound}
use neorc.Store.Requests.{
  receive, finish, succeed, perform, Later, now_itself, after, perform-Trace,
}
use neorc.Store.Requests.Lasting.{Later-IsSound, Later-task_kept, Later-run_kept, Later-Reads}
use neorc.Store.Leases.{receive_task-IsOldest, IsOldest, Receives, receive_task-exclusive}
use neorc.Store.Trees.{end, run_tree-ended}
use neorc.Store.Publishing.{publish_task-again, finished_task-refused, claim_task-ended}
use neorc.Task.{TaskStatus}
use neorc.Tests.Samples.{libraries, one_run, two_tasks, two_tasks-IsSound, top}

-- A worker has received the first task and finished it.
abbrev one_finished : Store
one_finished =
    perform libraries (finish 20 (success null)) 6
      (perform libraries (receive "words" 30) 5 two_tasks)

one_finished-Later : Later libraries two_tasks one_finished
one_finished-Later =
    after (finish 20 (success null)) 6 (after (receive "words" 30) 5 now_itself tt) tt

-- The run ends while a worker has the first task.
abbrev ended : Store
ended = perform libraries (succeed 7 null) 6 (perform libraries (receive "words" 30) 5 two_tasks)

ended-Later : Later libraries two_tasks ended
ended-Later = after (succeed 7 null) 6 (after (receive "words" 30) 5 now_itself tt) tt

perform-Trace_example : Trace two_tasks (perform libraries (receive "words" 30) 5 two_tasks)
perform-Trace_example =
    perform-Trace libraries (receive "words" 30) 5 two_tasks two_tasks-IsSound tt

Later-IsSound_example : IsSound one_finished
Later-IsSound_example = Later-IsSound libraries one_finished-Later two_tasks-IsSound

abbrev published : String → ℕ → ℕ → Task
published name id time = record {
  id = id;
  run_id = 7;
  address = top name;
  queue = "words";
  handler = "pick_word";
  params = [];
  fixed_params = [];
  status = TaskStatus.pending;
  attempts = 0;
  lease_expires_at = none;
  result = null;
  error = none;
  created_at = some time;
  started_at = none;
  finished_at = none;
}

abbrev finished_task : Task
finished_task = record (leased (published "pick" 20 3) 30 5) {
  status = TaskStatus.succeeded;
  lease_expires_at = none;
  finished_at = some 6;
}

abbrev the_run : Run
the_run = record {
  id = 7;
  flow = "letters";
  version = record { major = 1; minor = 0; patch = 0 };
  inputs = [];
  status = RunStatus.active;
  root_id = 7;
  parent_id = none;
  parent_address = none;
  output = null;
  reason = none;
  created_at = some 2;
  finished_at = none;
}

abbrev ended_run : Run
ended_run = record the_run { status = RunStatus.succeeded; finished_at = some 6 }

-- A second worker receives the other task.
receive_task-exclusive_example : (published "other" 21 4).id ≢ (published "pick" 20 3).id
unfolding perform store_flows start_run publish_task receive_task leased Dict.get Dict.set
receive_task-exclusive_example =
    receive_task-exclusive "words" "words" 30 30 5 10 two_tasks
      (leased (published "pick" 20 3) 30 5) (leased (published "other" 21 4) 30 10)
      two_tasks-IsSound refl refl (ground arith)

Later-task_kept_example :
    Dict.get 20 (perform libraries (receive "words" 30) 7 one_finished).tasks ≡ some finished_task
unfolding perform store_flows start_run publish_task receive_task leased finish_task Dict.get
    Dict.set
Later-task_kept_example =
    Later-task_kept libraries 20 finished_task (after (receive "words" 30) 7 now_itself tt)
      Later-IsSound_example refl refl

Later-run_kept_example :
    Dict.get 7 (perform libraries (receive "words" 30) 7 ended).runs ≡ some ended_run
unfolding perform store_flows start_run publish_task receive_task succeed_run Dict.get Dict.set
Later-run_kept_example =
    Later-run_kept libraries 7 ended_run (after (receive "words" 30) 7 now_itself tt)
      (Later-IsSound libraries ended-Later two_tasks-IsSound) refl refl

Later-Reads_example :
    (more : List Event) × (one_finished.events ≡ two_tasks.events ++ more)
    × ((events_after 1 5 one_finished).0 ≡ ok (take 5 more))
unfolding perform store_flows start_run publish_task last_sequence Dict.get Dict.set
Later-Reads_example = Later-Reads libraries 1 5 one_finished-Later two_tasks-IsSound refl

receive_task-IsOldest_example :
    (o : Option Task) × IsOldest "words" 5 (Dict.values two_tasks.tasks) o
    × Receives "words" 30 5 two_tasks o
receive_task-IsOldest_example = receive_task-IsOldest "words" 30 5 two_tasks

run_tree-ended_example :
    ((fail_run_tree 7 [] 9 two_tasks).0 ≡ ok tt)
    × (Dict.get 7 (fail_run_tree 7 [] 9 two_tasks).1.runs
        ≡ some (end 7 RunStatus.failed [] 9 the_run))
    × ((cancel_run_tree 7 [] 9 two_tasks).0 ≡ ok tt)
    × (Dict.get 7 (cancel_run_tree 7 [] 9 two_tasks).1.runs
        ≡ some (end 7 RunStatus.cancelled [] 9 the_run))
unfolding perform store_flows start_run publish_task Dict.get Dict.set
run_tree-ended_example =
    run_tree-ended two_tasks 7 7 the_run the_run [] 9 two_tasks-IsSound refl refl

publish_task-again_example :
    publish_task 7
      (top "pick")
      "words"
      "another"
      []
      []
      22
      4
      (publish_task 7 (top "pick") "words" "pick_word" [] [] 20 3 one_run).1
    ≡ (
      ok (published "pick" 20 3),
      (publish_task 7 (top "pick") "words" "pick_word" [] [] 20 3 one_run).1,
    )
unfolding perform store_flows start_run publish_task Dict.get Dict.set
publish_task-again_example =
    publish_task-again 7 (top "pick") "words" "words" "pick_word" "another" [] [] [] [] 20 22 3 4
      one_run (published "pick" 20 3) refl

finished_task-refused_example :
    (finish_task 20 (failure []) 8 one_finished ≡ (err task_state, one_finished))
    × (claim_task 20 [] 8 one_finished ≡ (err task_state, one_finished))
    × (extend_task_lease 20 30 8 one_finished ≡ (err task_state, one_finished))
unfolding perform store_flows start_run publish_task receive_task leased finish_task Dict.get
    Dict.set
finished_task-refused_example =
    finished_task-refused 20 (failure []) [] 30 8 one_finished finished_task refl refl

claim_task-ended_example :
    ((claim_task 20 [] 8 ended).0 ≡ err run_state)
    × ((t' : Task) × (Dict.get 20
            (perform libraries (receive "words" 30) 99 (claim_task 20 [] 8 ended).1).tasks
          ≡ some t')
        × (t'.status ≡ TaskStatus.failed)
        × (t'.error ≡ some []))
unfolding perform store_flows start_run publish_task receive_task leased succeed_run Dict.get
    Dict.set
claim_task-ended_example =
    claim_task-ended libraries 20 [] 8 ended
      (perform libraries (receive "words" 30) 99 (claim_task 20 [] 8 ended).1)
      (leased (published "pick" 20 3) 30 5) ended_run
      (Later-IsSound libraries ended-Later two_tasks-IsSound) refl refl refl refl
      (after (receive "words" 30) 99 now_itself tt)
