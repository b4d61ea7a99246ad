-- ===== src/Manager/Scheduling.antt =====
-- neorc_core/_manager.py: the scheduler's requests.
use neorc.Prelude.{ℕ, Option, none, some, List, [], ◌∷◌}
use neorc.Errors.{Error, Result, ok, err, invalid_value}
use neorc.Json.{JsonValue, null, Text}
use neorc.Flow.Definition.{Reference, FlowDefinition}
use neorc.Flow.RunState.{Address, RunState}
use neorc.Flow.References.Resolve.{resolve}
use neorc.Flow.Validation.{check_output}
use neorc.Runs.{RunId, Time, Run, Task, Event, ensure_active}
use neorc.Store.Port.{Port}
use neorc.Task.{TaskId}
use neorc.Values.{ensure_fits}
use neorc.Manager.Calls.{Op, ◌>>=◌, ◌>>◌, pure, lift, raise}
use neorc.Manager.Checks.{
  Services, task_at, sub_flow_at, inputs_of, encoded_delivery, max_payload_bytes,
}
use neorc.Manager.Flows.{start_latest}

-- How a wait goes on: it ends, or something wakes the waiter.
pub data Wait (S : Type 0) : Type 0 where
  ended : Wait S
  woken : (others : S → S) → Wait S

unfoldable pub allowed_output : FlowDefinition → Reference → Result (Unit {0})
unfolding check_output
allowed_output definition output = elim (check_output definition output) [
  | [] ↦ ok tt
  | problem ∷ problems ↦ err invalid_value
]

module _ (p : Port) (services : Services) (fuel : ℕ) where
  -- `_context`
  unfoldable pub context : RunId → Op p.State (Run × FlowDefinition × RunState)
  context run_id = do
    run ← p.get_run run_id
    stored ← p.get_flow run.flow (some run.version)
    state ← p.run_state run_id
    pure (run, stored.definition, state)

  unfoldable pub fail_run : RunId → Text → Time → Op p.State (Unit {0})
  fail_run = p.fail_run_tree

  unfoldable pub available : Option JsonValue → Op p.State JsonValue
  available none = raise Error.run_state
  available (some value) = pure value

  -- The value that a run succeeds with.
  unfoldable pub output_value : Option Reference → RunId → Op p.State JsonValue
  unfolding context allowed_output available resolve
  output_value none run_id = pure null
  output_value (some output) run_id = do
    (run, definition, state) ← context run_id
    lift (allowed_output definition output)
    resolved ← lift (resolve definition state fuel none output)
    available resolved

  unfoldable pub succeed_run : RunId → Option Reference → Time → Op p.State Run
  unfolding output_value
  succeed_run run_id output now = do
    value ← output_value output run_id
    p.succeed_run run_id value now

  unfoldable pub publish_task : RunId → Address → TaskId → Time → Op p.State Task
  unfolding context ensure_active task_at inputs_of encoded_delivery ensure_fits
  publish_task run_id address fresh now = do
    (run, definition, state) ← context run_id
    lift (ensure_active run)
    t ← lift (task_at definition address)
    inputs ← lift (inputs_of services fuel run definition state t.params t.fixed_params address)
    lift (ensure_fits (encoded_delivery services inputs) max_payload_bytes)
    p.publish_task run_id address t.queue t.handler t.params t.fixed_params fresh now

  unfoldable pub start_sub_run :
      RunId → Address → RunId → Time → (ℕ → p.State → p.State) → Op p.State Run
  unfolding context ensure_active sub_flow_at inputs_of start_latest
  start_sub_run parent_id address fresh now others = do
    (run, definition, state) ← context parent_id
    lift (ensure_active run)
    step ← lift (sub_flow_at definition address)
    inputs ←
        lift (inputs_of services fuel run definition state step.params step.fixed_params address)
    start_latest p services step.flow inputs (some parent_id) (some address) fresh now others

  -- What follows a look at the log: `rest` is the loop after a waiter has been woken.
  unfoldable pub waited :
      List Event → Wait p.State → Op p.State (List Event) → Op p.State (List Event)
  waited (event ∷ events) wait rest = pure (event ∷ events)
  waited [] ended rest = pure []
  waited [] (woken others) rest = λ s. rest (others s)

  -- `wait_for_events`, by how its waits go on.
  unfoldable pub wait_for_events : ℕ → ℕ → List (Wait p.State) → Op p.State (List Event)
  unfolding waited
  wait_for_events after limit [] = p.events_after after limit
  wait_for_events after limit (wait ∷ waits) = do
    events ← p.events_after after limit
    waited events wait (wait_for_events after limit waits)

  unfoldable pub last_sequence : Op p.State ℕ
  last_sequence = p.last_sequence
