-- ===== src/Store/Changes/Kept.antt =====
-- What no change undoes: finished tasks, finished runs, the log of events, and who owns a task.
use neorc.Prelude.{ℕ, nat_eq, nat_beq_iff, ◌≡◌, true, false, some, arith}
use neorc.Prelude.Dict
use neorc.Prelude.Dict.{get-set}
use neorc.Runs.{Task, Run, is_active}
use neorc.Store.{Store}
use neorc.Store.Tasks.{is_receivable}
use neorc.Store.Changes.{
  TaskChange, lease, start, extend, finish, discard, Change, on_flows, on_task, new_task, on_run,
  new_run, new_event, Trace, here, next,
}
use neorc.Task.{is_terminal}

-- A task that changes has not finished.
pub TaskChange-unfinished : {old new : Task} → TaskChange old new → is_terminal old.status ≡ false
unfolding is_receivable
TaskChange-unfinished (lease _ now h) = ground arith
TaskChange-unfinished (start now h) = ground arith
TaskChange-unfinished (extend t h) = ground arith
TaskChange-unfinished (finish r now h) = ground arith
TaskChange-unfinished (discard w now h) = ground arith

pub Change-task_kept :
    {s t : Store} (id : ℕ) (task : Task)
    → Change s t
    → Dict.get id s.tasks ≡ some task
    → is_terminal task.status ≡ true
    → Dict.get id t.tasks ≡ some task
Change-task_kept id task (on_flows f) h e = h
Change-task_kept {s} id task (on_task old new g c) h e =
    ground (arith, get-set old.id id new s.tasks, TaskChange-unfinished c, nat_beq_iff old.id id)
Change-task_kept {s} id task (new_task t run g _ _ _ _) h e =
    ground (arith, get-set t.id id t s.tasks, nat_beq_iff t.id id)
Change-task_kept id task (on_run _ _ _ _ _) h e = h
Change-task_kept id task (new_run _ _ _) h e = h
Change-task_kept id task (new_event _ _ _ _) h e = h

pub Change-run_kept :
    {s t : Store} (id : ℕ) (run : Run)
    → Change s t
    → Dict.get id s.runs ≡ some run
    → is_active run.status ≡ false
    → Dict.get id t.runs ≡ some run
Change-run_kept id run (on_flows f) h e = h
Change-run_kept id run (on_task _ _ _ _) h e = h
Change-run_kept id run (new_task _ _ _ _ _ _ _) h e = h
Change-run_kept {s} id run (on_run old new g a c) h e =
    ground (arith, get-set old.id id new s.runs, nat_beq_iff old.id id)
Change-run_kept {s} id run (new_run r g _) h e =
    ground (arith, get-set r.id id r s.runs, nat_beq_iff r.id id)
Change-run_kept id run (new_event _ _ _ _) h e = h

pub Trace-task_kept :
    {s t : Store} (id : ℕ) (task : Task)
    → Trace s t
    → Dict.get id s.tasks ≡ some task
    → is_terminal task.status ≡ true
    → Dict.get id t.tasks ≡ some task
Trace-task_kept id task here h e = h
Trace-task_kept id task (next r c) h e =
    Change-task_kept id task c (Trace-task_kept id task r h e) e

pub Trace-run_kept :
    {s t : Store} (id : ℕ) (run : Run)
    → Trace s t
    → Dict.get id s.runs ≡ some run
    → is_active run.status ≡ false
    → Dict.get id t.runs ≡ some run
Trace-run_kept id run here h e = h
Trace-run_kept id run (next r c) h e = Change-run_kept id run c (Trace-run_kept id run r h e) e
