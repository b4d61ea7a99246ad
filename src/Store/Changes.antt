-- ===== src/Store/Changes.antt =====
-- The abstract machine that every store is to implement: what may happen to one task or run at a
-- time. It knows nothing of queues' order, of callers or of which operation is under way.
pub mod Kept
use mathlib.Core.List.{◌++◌}
use neorc.Prelude.{
  ℕ, suc, String, string_eq, nat_eq, pair_eq, ◌≡◌, true, Option, none, some, [], ◌∷◌, length,
}
use neorc.Prelude.Dict
use neorc.Prelude.Dict.{Dict}
use neorc.Json.{JsonValue, Text}
use neorc.Flow.Definition.{Version}
use neorc.Flow.RunState.{Address, address_eq}
use neorc.Runs.{RunId, Time, StoredFlow, Run, RunStatus, is_active, Task, EventKind}
use neorc.Store.{Store}
use neorc.Store.Tasks.{is_receivable, leased, or_now, Report, finished_by}
use neorc.Task.{TaskStatus, is_leased}

-- What may become of a task.
pub data TaskChange (old : Task) : Task → Type 0 where
  lease :
      (duration : ℕ) (now : Time)
      → is_receivable old now ≡ true
      → TaskChange old (leased old duration now)
  start :
      (now : Time)
      → is_leased old.status ≡ true
      → TaskChange old
          (record old { status = TaskStatus.running; started_at = or_now old.started_at now })
  extend :
      (expiry : Time)
      → is_leased old.status ≡ true
      → TaskChange old (record old { lease_expires_at = some expiry })
  finish :
      (report : Report) (now : Time)
      → is_leased old.status ≡ true
      → TaskChange old (finished_by report old now)
  discard :
      (why : Text) (now : Time)
      → is_leased old.status ≡ true
      → TaskChange old (record old {
        status = TaskStatus.failed;
        lease_expires_at = none;
        error = some why;
        finished_at = some now;
      })

-- What may become of an active run.
pub data RunChange (old : Run) : Run → Type 0 where
  succeed :
      (output : JsonValue) (now : Time)
      → RunChange old
          (record old { status = RunStatus.succeeded; output = output; finished_at = some now })
  fail :
      (why : Text) (now : Time)
      → RunChange old
          (record old { status = RunStatus.failed; reason = some why; finished_at = some now })
  cancel :
      (why : Text) (now : Time)
      → RunChange old
          (record old { status = RunStatus.cancelled; reason = some why; finished_at = some now })

-- A task that was published just now.
pub record IsNewTask (t : Task) : Type 0 where
  pub is_pending : t.status ≡ TaskStatus.pending
  pub untried : t.attempts ≡ 0
  pub unleased : t.lease_expires_at ≡ none
  pub unstarted : t.started_at ≡ none
  pub unfinished : t.finished_at ≡ none

-- A run that was started just now: at the root of its own tree, or in its parent's tree.
pub record IsNewRun (s : Store) (r : Run) : Type 0 where
  pub starts_active : r.status ≡ RunStatus.active
  pub unfinished : r.finished_at ≡ none
  pub root : Run
  pub rooted : Dict.get r.root_id (Dict.set r.id r s.runs) ≡ some root
  pub root_of_itself : root.root_id ≡ r.root_id

pub data Change (s : Store) : Store → Type 0 where
  on_flows : (flows : Dict String (Dict Version StoredFlow)) → Change s (record s { flows = flows })
  on_task :
      (old new : Task)
      → Dict.get old.id s.tasks ≡ some old
      → TaskChange old new
      → Change s (record s { tasks = Dict.set old.id new s.tasks })
  new_task :
      (t : Task) (run : Run)
      → Dict.get t.id s.tasks ≡ none
      → Dict.get (t.run_id, t.address) s.task_ids ≡ none
      → Dict.get t.run_id s.runs ≡ some run
      → is_active run.status ≡ true
      → IsNewTask t
      → Change s (record s {
        tasks = Dict.set t.id t s.tasks;
        task_ids = Dict.set (t.run_id, t.address) t.id s.task_ids;
      })
  on_run :
      (old new : Run)
      → Dict.get old.id s.runs ≡ some old
      → is_active old.status ≡ true
      → RunChange old new
      → Change s (record s { runs = Dict.set old.id new s.runs })
  new_run :
      (r : Run)
      → Dict.get r.id s.runs ≡ none
      → IsNewRun s r
      → Change s (record s { runs = Dict.set r.id r s.runs })
  new_event :
      (run_id : RunId) (kind : EventKind) (run : Run)
      → Dict.get run_id s.runs ≡ some run
      → Change s (record s {
        events =
            s.events
            ++ record { sequence = suc (length s.events); run_id = run_id; kind = kind } ∷ [];
      })

-- Any number of changes.
pub data Trace (s : Store) : Store → Type 0 where
  here : Trace s s
  next : {t u : Store} → Trace s t → Change t u → Trace s u
