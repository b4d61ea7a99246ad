-- ===== src/Store/Port.antt =====
-- neorc_core/ports/_store.py: what every store offers, and neorc_core/local/_memory_store.py as one.
-- An operation takes the clock, the random id and the messages that it uses as arguments, and gives
-- its result, or what it raises, with the store it leaves.
pub mod Promises
use neorc.Prelude.{ℕ, String, Bool, Option, List}
use neorc.Prelude.Dict.{Dict}
use neorc.Errors.{Result}
use neorc.Json.{JsonValue, Text}
use neorc.Flow.Definition.{Version, Reference}
use neorc.Flow.RunState.{Address, RunState}
use neorc.Runs.{RunId, Time, StoredFlow, Run, RunStatus, Task, Event, Libraries}
use neorc.Store
use neorc.Store.Flows
use neorc.Store.Runs
use neorc.Store.Tasks
use neorc.Store.Tasks.{Report}
use neorc.Task.{TaskId}

pub record Port : Type 1 where
  pub State : Type 0
  pub new : State
  pub store_flows :
      (StoredFlow → Text) → Time → List StoredFlow → State → Result (List Bool) × State
  pub get_flow : String → Option Version → State → Result StoredFlow × State
  pub latest_flows : State → Result (List StoredFlow) × State
  pub flow_versions : String → State → Result (List StoredFlow) × State
  pub list_runs :
      Option String → Option RunStatus → Bool → Option RunId → ℕ → State → Result (List Run) × State
  pub run_tasks : RunId → State → Result (List Task) × State
  pub sub_runs : RunId → State → Result (List Run) × State
  pub start_run :
      String
      → Version
      → Dict String JsonValue
      → Option RunId
      → Option Address
      → RunId
      → Time
      → State
      → Result Run × State
  pub get_run : RunId → State → Result Run × State
  pub run_state : RunId → State → Result RunState × State
  pub succeed_run : RunId → JsonValue → Time → State → Result Run × State
  pub fail_run_tree : RunId → Text → Time → State → Result (Unit {0}) × State
  pub cancel_run_tree : RunId → Text → Time → State → Result (Unit {0}) × State
  pub publish_task :
      RunId
      → Address
      → String
      → String
      → Dict String Reference
      → Dict String JsonValue
      → TaskId
      → Time
      → State
      → Result Task × State
  pub receive_task : String → ℕ → Time → State → Result (Option Task) × State
  pub claim_task : TaskId → Text → Time → State → Result Task × State
  pub extend_task_lease : TaskId → ℕ → Time → State → Result Time × State
  pub finish_task : TaskId → Report → Time → State → Result Task × State
  pub get_task : TaskId → State → Result Task × State
  pub events_after : ℕ → ℕ → State → Result (List Event) × State
  pub last_sequence : State → Result ℕ × State

-- The in-memory store.
abbrev pub memory : Libraries → Port
memory l = record {
  State = Store.Store;
  new = Store.init;
  store_flows = Flows.store_flows l;
  get_flow = Flows.get_flow;
  latest_flows = Flows.latest_flows;
  flow_versions = Flows.flow_versions;
  list_runs = Runs.list_runs;
  run_tasks = Runs.run_tasks;
  sub_runs = Runs.sub_runs;
  start_run = Runs.start_run l;
  get_run = Runs.get_run;
  run_state = Runs.run_state;
  succeed_run = Runs.succeed_run;
  fail_run_tree = Runs.fail_run_tree;
  cancel_run_tree = Runs.cancel_run_tree;
  publish_task = Tasks.publish_task;
  receive_task = Tasks.receive_task;
  claim_task = Tasks.claim_task;
  extend_task_lease = Tasks.extend_task_lease;
  finish_task = Tasks.finish_task;
  get_task = Tasks.get_task;
  events_after = Runs.events_after;
  last_sequence = Runs.last_sequence;
}
