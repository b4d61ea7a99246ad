-- ===== src/Store/Tasks.antt =====
-- neorc_core/local/_memory_store.py: publishing tasks, leasing them, claiming and finishing them.
-- A random id and the clock are arguments; a lease is a length of time.
use neorc.Prelude.{
  ℕ, ◌+◌, String, string_eq, nat_eq, pair_eq, ◌==◌, ◌&&◌, Bool, true, false, Option, none, some,
  List, [], ◌∷◌, leb, if◌then◌else◌,
}
use neorc.Prelude.Dict
use neorc.Prelude.Dict.{Dict}
use neorc.Errors.{ok, err, task_state, key_error}
use neorc.Json.{JsonValue, null, Text}
use neorc.Flow.Definition.{Reference}
use neorc.Flow.RunState.{Address, address_eq}
use neorc.Runs.{RunId, Time, Run, is_active, Task, task_finished, storable_text, ensure_active}
use neorc.Store.{Op, found, ◌>>=◌, ◌>>◌, pure, lift, gets, run_of, task_of, put_task, append}
use neorc.Task.{TaskId, TaskStatus, is_leased, ensure_transition}

unfoldable pub add_task :
    TaskId
    → RunId
    → Address
    → String
    → String
    → Dict String Reference
    → Dict String JsonValue
    → Time
    → Op Task
add_task task_id run_id address queue handler params fixed_params now s =
    let task : Task = record {
      id = task_id;
      run_id = run_id;
      address = address;
      queue = queue;
      handler = handler;
      params = params;
      fixed_params = fixed_params;
      status = TaskStatus.pending;
      attempts = 0;
      lease_expires_at = none;
      result = null;
      error = none;
      created_at = some now;
      started_at = none;
      finished_at = none;
    } in
    (
      ok task,
      record s {
        tasks = Dict.set task_id task s.tasks;
        task_ids = Dict.set (run_id, address) task_id s.task_ids;
      },
    )

unfoldable pub publish_task :
    RunId
    → Address
    → String
    → String
    → Dict String Reference
    → Dict String JsonValue
    → TaskId
    → Time
    → Op Task
unfolding run_of ensure_active task_of add_task
publish_task run_id address queue handler params fixed_params fresh now = do
  run ← run_of run_id
  lift (ensure_active run)
  existing ← gets (λ s. Dict.get (run_id, address) s.task_ids)
  elim existing [
    | some existing_id ↦ (λ s. (found key_error (Dict.get existing_id s.tasks), s))
    | none ↦ add_task fresh run_id address queue handler params fixed_params now
  ]

unfoldable pub is_receivable : Task → Time → Bool
is_receivable task now = elim task.status [
  | TaskStatus.pending ↦ true
  | TaskStatus.received ↦ elim task.lease_expires_at [ none ↦ false | some t ↦ leb t now ]
  | TaskStatus.running ↦ elim task.lease_expires_at [ none ↦ false | some t ↦ leb t now ]
  | _ ↦ false
]

-- The first task, in publishing order, that the queue can hand out.
unfoldable pub next_task : String → Time → List Task → Option Task
unfolding is_receivable
next_task queue now [] = none
next_task queue now (task ∷ rest) =
    let later = next_task queue now rest in
    if (task.queue == queue) && is_receivable task now then some task else later

unfoldable pub leased : Task → ℕ → Time → Task
leased task lease now = record task {
  status = TaskStatus.received;
  attempts = task.attempts + 1;
  lease_expires_at = some (now + lease);
}

unfoldable pub receive_task : String → ℕ → Time → Op (Option Task)
unfolding next_task leased
receive_task queue lease now s = elim (next_task queue now (Dict.values s.tasks)) [
  | none ↦ (ok none, s)
  | some task ↦ (
    ok (some (leased task lease now)),
    record s { tasks = Dict.set task.id (leased task lease now) s.tasks },
  )
]

unfoldable pub or_now : Option Time → Time → Option Time
or_now none now = some now
or_now (some t) now = some t

-- The rest of `claim_task`. The message of an error is an argument.
claim : TaskId → Task → Run → Text → Time → Op Task
unfolding ensure_active or_now
claim task_id task run why now =
    if is_active run.status
    then (do
      let claimed = record task {
        status = TaskStatus.running;
        started_at = or_now task.started_at now;
      }
      put_task task_id claimed
      pure claimed)
    else (do
      put_task task_id (record task {
        status = TaskStatus.failed;
        lease_expires_at = none;
        error = some why;
        finished_at = some now;
      })
      lift (ensure_active run)
      pure task)

unfoldable pub claim_task : TaskId → Text → Time → Op Task
unfolding task_of run_of ensure_transition claim
claim_task task_id why now = do
  task ← task_of task_id
  lift (ensure_transition task.status TaskStatus.running)
  run ← run_of task.run_id
  claim task_id task run why now

unfoldable pub extend_task_lease : TaskId → ℕ → Time → Op Time
unfolding task_of
extend_task_lease task_id lease now = do
  task ← task_of task_id
  if is_leased task.status
      then (do
        put_task task_id (record task { lease_expires_at = some (now + lease) })
        pure (now + lease))
      else lift (err task_state)

-- How a report ends a task: with a result, or with an error.
pub data Report : Type 0 where
  success : JsonValue → Report
  failure : Text → Report

abbrev pub final_status : Report → TaskStatus
final_status (success _) = TaskStatus.succeeded
final_status (failure _) = TaskStatus.failed

unfoldable pub finished_by : Report → Task → Time → Task
unfolding storable_text
finished_by (success value) task now = record task {
  status = TaskStatus.succeeded;
  lease_expires_at = none;
  result = value;
  error = none;
  finished_at = some now;
}
finished_by (failure why) task now = record task {
  status = TaskStatus.failed;
  lease_expires_at = none;
  result = null;
  error = some (storable_text why);
  finished_at = some now;
}

unfoldable pub finish_task : TaskId → Report → Time → Op Task
unfolding task_of ensure_transition finished_by append
finish_task task_id report now = do
  task ← task_of task_id
  lift (ensure_transition task.status (final_status report))
  let finished = finished_by report task now
  put_task task_id finished
  append task.run_id task_finished
  pure finished

unfoldable pub get_task : TaskId → Op Task
unfolding task_of
get_task = task_of
