-- ===== src/Manager/Working.antt =====
-- neorc_core/_manager.py: what workers ask for. A worker's token may bind it to one queue.
use neorc.Prelude.{
  ℕ, String, string_eq, ◌==◌, Bool, true, false, Option, none, some, List, [], ◌∷◌, ◌++◌, keep,
  if◌then◌else◌,
}
use neorc.Prelude.Dict.{Dict}
use neorc.Errors.{Error, Result, ok, err, task_not_found, invalid_value, payload_too_large}
use neorc.Json.{JsonValue, Text}
use neorc.Flow.Definition.{TaskStep}
use neorc.Flow.Walk.{tasks}
use neorc.Runs.{Time, StoredFlow, Task}
use neorc.Store.Port.{Port}
use neorc.Store.Tasks.{Report, success, failure}
use neorc.Task.{TaskId}
use neorc.Manager.Calls.{Op, ◌>>=◌, ◌>>◌, pure, lift, raise}
use neorc.Manager.Checks.{
  Services, check_queue, check_lease_seconds, filled_in, merge, checked_result,
}
use neorc.Manager.Scheduling.{context}

pub record TaskDelivery : Type 0 where
  pub task : Task
  pub inputs : Dict String JsonValue

-- `isinstance(error, InvalidValueError)`
abbrev pub is_invalid_value : Error → Bool
is_invalid_value invalid_value = true
is_invalid_value payload_too_large = true
is_invalid_value _ = false

-- One turn of a wait for a task: whether the caller has gone, the clock, and how the wait goes on
-- after a receive that found nothing: it ends, or something wakes the waiter.
pub record Turn (S : Type 0) : Type 0 where
  pub gone : Bool
  pub now : Time
  pub woken : Option (S → S)

queue_tasks : String → List StoredFlow → List TaskStep
unfolding tasks
queue_tasks queue [] = []
queue_tasks queue (flow ∷ flows) =
    keep (λ t. t.queue == queue) (tasks flow.definition) ++ queue_tasks queue flows

-- What is recorded of a report: a result that is not a value, or too large, is a failure.
unfoldable pub recorded : Services → Report → Result Report
unfolding checked_result
recorded services (failure why) = ok (failure why)
recorded services (success result) = elim (checked_result services result) [
  | ok encoded ↦ ok (success encoded)
  | err e ↦ if is_invalid_value e then ok (failure (services.invalid_result result)) else err e
]

module _ (p : Port) (services : Services) (fuel : ℕ) where
  unfoldable pub task_definitions : String → Op p.State (List TaskStep)
  unfolding check_queue queue_tasks
  task_definitions queue = do
    lift (check_queue queue)
    flows ← p.latest_flows
    pure (queue_tasks queue flows)

  -- `_delivery`
  unfoldable pub delivery : Task → Op p.State TaskDelivery
  unfolding context filled_in merge
  delivery task = do
    (run, definition, state) ← context p services fuel task.run_id
    inputs ← lift (filled_in services fuel run definition state task.address task.id task.params [])
    pure (record { task = task; inputs = merge task.fixed_params inputs })

  -- What follows a receive: `rest` is the turns after a waiter has been woken.
  unfoldable pub received :
      Option (p.State → p.State)
      → Op p.State (Option TaskDelivery)
      → Option Task
      → Op p.State (Option TaskDelivery)
  unfolding delivery
  received woken rest (some task) = do d ← delivery task; pure (some d)
  received none rest none = pure none
  received (some others) rest none = λ s. rest (others s)

  -- The loop of `receive_task`.
  unfoldable pub receive_turns : String → ℕ → List (Turn p.State) → Op p.State (Option TaskDelivery)
  unfolding received
  receive_turns queue lease [] s = (ok none, s)
  receive_turns queue lease (turn ∷ turns) s =
      let next = received turn.woken (receive_turns queue lease turns) in
      if turn.gone then (ok none, s) else (p.receive_task queue lease turn.now >>= next) s

  unfoldable pub receive_task : String → ℕ → List (Turn p.State) → Op p.State (Option TaskDelivery)
  unfolding check_queue check_lease_seconds receive_turns
  receive_task queue lease turns = do
    lift (check_queue queue)
    lift (check_lease_seconds lease)
    receive_turns queue lease turns

  -- `_ensure_on_queue`
  unfoldable pub ensure_on_queue : TaskId → Option String → Op p.State (Unit {0})
  ensure_on_queue task_id none = pure tt
  ensure_on_queue task_id (some queue) = do
    task ← p.get_task task_id
    if task.queue == queue then pure tt else raise task_not_found

  unfoldable pub claim_task : TaskId → Option String → Text → Time → Op p.State (Unit {0})
  unfolding ensure_on_queue
  claim_task task_id queue why now = do
    ensure_on_queue task_id queue
    claimed ← p.claim_task task_id why now
    pure tt

  unfoldable pub extend_lease : TaskId → ℕ → Option String → Time → Op p.State Time
  unfolding check_lease_seconds ensure_on_queue
  extend_lease task_id lease queue now = do
    lift (check_lease_seconds lease)
    ensure_on_queue task_id queue
    p.extend_task_lease task_id lease now

  unfoldable pub report_finished : TaskId → Report → Option String → Time → Op p.State Task
  unfolding ensure_on_queue recorded
  report_finished task_id report queue now = do
    ensure_on_queue task_id queue
    kept ← lift (recorded services report)
    p.finish_task task_id kept now
