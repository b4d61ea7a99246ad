-- ===== src/Store.antt =====
-- neorc_core/local/_memory_store.py: the state of `MemoryStore` and what its operations share. Each
-- operation holds the store's lock throughout, so it is one step on this state. What it wrote before
-- it raised stays written, so the state comes back beside an error too.
pub mod Flows
pub mod Runs
pub mod Tasks
pub mod Changes
pub mod Sound
pub mod Refines
pub mod Requests
pub mod Leases
pub mod Trees
pub mod Publishing
pub mod Port
pub mod Raising
use neorc.Prelude.{
  ℕ, suc, String, string_eq, nat_eq, pair_eq, ◌==◌, ◌&&◌, Option, none, some, List, [], ◌∷◌, ◌++◌,
  length, if◌then◌else◌,
}
use neorc.Prelude.Dict
use neorc.Prelude.Dict.{Dict}
use neorc.Errors.{Error, Result, ok, err, flow_not_found, run_not_found, task_not_found}
use neorc.Json.{Text}
use neorc.Flow.Definition.{Version}
use neorc.Flow.RunState.{Address, address_eq}
use neorc.Runs.{
  RunId, Time, StoredFlow, Run, RunStatus, is_active, Task, Event, EventKind, run_finished,
  storable_text,
}
use neorc.Runs.Uploads.{version_key, max_version}
use neorc.Task.{TaskId}

pub record Store : Type 0 where
  pub flows : Dict String (Dict Version StoredFlow)
  pub runs : Dict RunId Run
  pub tasks : Dict TaskId Task
  pub task_ids : Dict (RunId × Address) TaskId
  pub events : List Event

-- `__init__`
abbrev pub init : Store
init = record { flows = []; runs = []; tasks = []; task_ids = []; events = [] }

abbrev pub Op : Type 0 → Type 0
Op A = Store → Result A × Store

abbrev pub continue : {A B : Type 0} → Result A → (A → Op B) → Op B
continue (ok a) f s = f a s
continue (err e) f s = (err e, s)

infixl 5 ◌>>=◌ ◌>>◌
abbrev pub ◌>>=◌ : {A B : Type 0} → Op A → (A → Op B) → Op B
◌>>=◌ m f s = let (r, s') = m s in continue r f s'

abbrev pub ◌>>◌ : {B : Type 0} → Op (Unit {0}) → Op B → Op B
m >> n = m >>= λ _. n

abbrev pub pure : {A : Type 0} → A → Op A
pure a s = (ok a, s)

abbrev pub lift : {A : Type 0} → Result A → Op A
lift r s = (r, s)

abbrev pub gets : {A : Type 0} → (Store → A) → Op A
gets f s = (ok (f s), s)

abbrev pub found {ℓ} : {A : Type ℓ} → Error → Option A → Result A
found e none = err e
found e (some a) = ok a

-- `_run` and `_task`
unfoldable pub run_of : RunId → Op Run
run_of run_id s = (found run_not_found (Dict.get run_id s.runs), s)

unfoldable pub task_of : TaskId → Op Task
task_of task_id s = (found task_not_found (Dict.get task_id s.tasks), s)

abbrev pub put_run : Run → Op (Unit {0})
put_run run s = (ok tt, record s { runs = Dict.set run.id run s.runs })

abbrev pub put_task : TaskId → Task → Op (Unit {0})
put_task task_id task s = (ok tt, record s { tasks = Dict.set task_id task s.tasks })

-- `_append`
unfoldable pub append : RunId → EventKind → Op (Unit {0})
append run_id kind s = (
  ok tt,
  record s {
    events =
        s.events ++ record { sequence = suc (length s.events); run_id = run_id; kind = kind } ∷ [];
  },
)

unfoldable pub version_of : Option Version → Dict Version StoredFlow → Option StoredFlow
version_of (some version) versions = Dict.get version versions
version_of none versions = elim (max_version none (Dict.keys versions)) [
  | none ↦ none
  | some v ↦ Dict.get v versions
]

-- `_flow`: a flow with no versions is not found either.
unfoldable pub flow_of : String → Option Version → Op StoredFlow
unfolding version_of
flow_of name version s = (
  elim (Dict.get name s.flows) [
    | none ↦ err flow_not_found
    | some versions ↦ found flow_not_found (version_of version versions)
  ],
  s,
)

-- The body of the loop of `_finish_tree`.
unfoldable pub finish_run : RunId → RunStatus → Text → Time → Run → Store → Store
unfolding append storable_text
finish_run root_id status reason now run s =
    if (run.root_id == root_id) && is_active run.status
    then ((put_run (record run {
      status = status;
      reason = some (storable_text reason);
      finished_at = some now;
    })
          >> append run.id run_finished)
        s).1
    else s

unfoldable pub finish_runs : RunId → RunStatus → Text → Time → List Run → Store → Store
unfolding finish_run
finish_runs root_id status reason now [] s = s
finish_runs root_id status reason now (run ∷ rest) s =
    finish_runs root_id status reason now rest (finish_run root_id status reason now run s)

-- `_finish_tree`
unfoldable pub finish_tree : RunId → RunStatus → Text → Time → Store → Store
unfolding finish_runs
finish_tree root_id status reason now s =
    finish_runs root_id status reason now (Dict.values s.runs) s
