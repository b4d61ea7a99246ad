-- ===== src/Store/Requests.antt =====
-- What a store is asked over its life: each request is one call of an operation that may write, with
-- the clock and the random id of the call. Calls hold the store's lock, so they come one by one.
pub mod Lasting
use neorc.Prelude.{ℕ, String, nat_eq, ◌≡◌, Option, none, List}
use neorc.Prelude.Dict
use neorc.Prelude.Dict.{Dict}
use neorc.Json.{JsonValue, Text}
use neorc.Flow.Definition.{Version, Reference}
use neorc.Flow.RunState.{Address}
use neorc.Runs.{RunId, Time, StoredFlow, Libraries}
use neorc.Store.{Store, init}
use neorc.Store.Flows.{store_flows}
use neorc.Store.Runs.{start_run, succeed_run, fail_run_tree, cancel_run_tree}
use neorc.Store.Tasks.{
  publish_task, receive_task, claim_task, extend_task_lease, finish_task, Report,
}
use neorc.Store.Changes.{Trace}
use neorc.Store.Sound.{IsSound}
use neorc.Store.Refines.Flows.{store_flows-Trace}
use neorc.Store.Refines.Runs.{
  start_run-Trace, succeed_run-Trace, fail_run_tree-Trace, cancel_run_tree-Trace,
}
use neorc.Store.Refines.Tasks.{
  publish_task-Trace, receive_task-Trace, claim_task-Trace, extend_task_lease-Trace,
  finish_task-Trace,
}
use neorc.Task.{TaskId}

pub data Request : Type 0 where
  upload : (reason : StoredFlow → Text) (uploads : List StoredFlow) → Request
  start :
      (flow : String) (version : Version) (inputs : Dict String JsonValue) (parent : Option RunId)
      (a : Option Address) (fresh : RunId)
      → Request
  succeed : (run_id : RunId) (output : JsonValue) → Request
  fail_tree : (run_id : RunId) (reason : Text) → Request
  cancel_tree : (run_id : RunId) (reason : Text) → Request
  publish :
      (run_id : RunId) (a : Address) (queue handler : String) (params : Dict String Reference)
      (fixed_params : Dict String JsonValue) (fresh : TaskId)
      → Request
  receive : (queue : String) (duration : ℕ) → Request
  claim : (task_id : TaskId) (why : Text) → Request
  heartbeat : (task_id : TaskId) (duration : ℕ) → Request
  finish : (task_id : TaskId) (report : Report) → Request

unfoldable pub perform : Libraries → Request → Time → Store → Store
perform l (upload reason uploads) now s = (store_flows l reason now uploads s).1
perform l (start flow version inputs parent a fresh) now s =
    (start_run l flow version inputs parent a fresh now s).1
perform l (succeed run_id output) now s = (succeed_run run_id output now s).1
perform l (fail_tree run_id reason) now s = (fail_run_tree run_id reason now s).1
perform l (cancel_tree run_id reason) now s = (cancel_run_tree run_id reason now s).1
perform l (publish run_id a queue handler params fixed_params fresh) now s =
    (publish_task run_id a queue handler params fixed_params fresh now s).1
perform l (receive queue duration) now s = (receive_task queue duration now s).1
perform l (claim task_id why) now s = (claim_task task_id why now s).1
perform l (heartbeat task_id duration) now s = (extend_task_lease task_id duration now s).1
perform l (finish task_id report) now s = (finish_task task_id report now s).1

-- `uuid.uuid4()` gives an id that no run or task has.
abbrev pub IsFresh : Request → Store → Type 0
IsFresh (start _ _ _ _ _ fresh) s = Dict.get fresh s.runs ≡ none
IsFresh (publish _ _ _ _ _ _ fresh) s = Dict.get fresh s.tasks ≡ none
IsFresh _ s = Unit

-- The stores that follow a store, whatever is asked of it.
pub data Later (l : Libraries) (s : Store) : Store → Type 0 where
  now_itself : Later l s s
  after :
      {t : Store} (r : Request) (now : Time)
      → Later l s t
      → IsFresh r t
      → Later l s (perform l r now t)

-- Each operation on a sound store, its random id new, makes only changes of the abstract machine: the
-- store that it leaves, whether it returns or raises, is reached by the machine's changes.
pub perform-Trace :
    (l : Libraries) (r : Request) (now : Time) (s : Store)
    → IsSound s
    → IsFresh r s
    → Trace s (perform l r now s)
unfolding perform
perform-Trace l (upload reason uploads) now s k f = store_flows-Trace k l reason now uploads
perform-Trace l (start flow version inputs parent a fresh) now s k f =
    start_run-Trace k l flow version inputs parent a fresh now f
perform-Trace l (succeed run_id output) now s k f = succeed_run-Trace k run_id output now
perform-Trace l (fail_tree run_id reason) now s k f = fail_run_tree-Trace k run_id reason now
perform-Trace l (cancel_tree run_id reason) now s k f = cancel_run_tree-Trace k run_id reason now
perform-Trace l (publish run_id a queue handler params fixed_params fresh) now s k f =
    publish_task-Trace k run_id a queue handler params fixed_params fresh now f
perform-Trace l (receive queue duration) now s k f = receive_task-Trace k queue duration now
perform-Trace l (claim task_id why) now s k f = claim_task-Trace k task_id why now
perform-Trace l (heartbeat task_id duration) now s k f =
    extend_task_lease-Trace k task_id duration now
perform-Trace l (finish task_id report) now s k f = finish_task-Trace k task_id report now
