-- ===== src/Manager/Queues.antt =====
-- A worker whose token binds it to a queue reaches no task of another.
use neorc.Prelude.{ℕ, String, string_eq, nat_eq, ◌==◌, ◌≡◌, refl, false, some}
use neorc.Prelude.Dict
use neorc.Errors.{ok, err, task_not_found}
use neorc.Json.{Text}
use neorc.Runs.{Time, Task, Libraries}
use neorc.Store.{Store}
use neorc.Store.Port.{memory}
use neorc.Store.Tasks.{Report, get_task}
use neorc.Task.{TaskId}
use neorc.Manager.Checks.{Services, check_lease_seconds}
use neorc.Manager.Working.{claim_task, extend_lease, report_finished}

-- A claim, a heartbeat of any allowed length and a report that name a queue the task is not on each
-- raise TaskNotFoundError, as for a task that does not exist, and change nothing.
pub other_queue-refused :
    (l : Libraries) (services : Services) (fuel : ℕ) (id : TaskId) (queue : String) (why : Text)
    (lease : ℕ) (report : Report) (now : Time) (s : Store) (t : Task)
    → Dict.get id s.tasks ≡ some t
    → (t.queue == queue) ≡ false
    → check_lease_seconds lease ≡ ok tt
    → (claim_task (memory l) services fuel id (some queue) why now s ≡ (err task_not_found, s))
      × (extend_lease (memory l) services fuel id lease (some queue) now s
          ≡ (err task_not_found, s))
      × (report_finished (memory l) services fuel id report (some queue) now s
          ≡ (err task_not_found, s))
unfolding claim_task extend_lease report_finished get_task
other_queue-refused l services fuel id queue why lease report now s t known other checked =
    (rw (known, other) refl, rw (checked, known, other) refl, rw (known, other) refl)
