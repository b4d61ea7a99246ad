-- ===== src/Worker/Managed.antt =====
-- A manager as a worker's client, without the wire between them, while others use the store.
use neorc.Prelude.{ℕ, String, some}
use neorc.Json.{Text}
use neorc.Runs.{Time, Libraries}
use neorc.Store.{Store}
use neorc.Store.Port.{memory}
use neorc.Store.Tasks.{Report}
use neorc.Task.{TaskId}
use neorc.Manager.Calls.{Op}
use neorc.Manager.Checks.{Services}
use neorc.Manager.Working
use neorc.Manager.Working.{TaskDelivery}
use neorc.Scheduler.Managed.{Surroundings, Served, call, dropped}
use neorc.Worker.{QueueClient}

module _ (l : Libraries) (services : Services) (fuel : ℕ) (around : ℕ → Surroundings)
    (queue : String) (lease : ℕ) (why : Text) where
  abbrev claiming : TaskId → Surroundings → Op Store (Unit {0})
  claiming id u = Working.claim_task (memory l) services fuel id (some queue) why u.now

  abbrev extending : TaskId → Surroundings → Op Store Time
  extending id u = Working.extend_lease (memory l) services fuel id lease (some queue) u.now

  abbrev reporting : TaskId → Report → Surroundings → Op Store (Unit {0})
  reporting id report u =
      dropped l services fuel around
        (Working.report_finished (memory l) services fuel id report (some queue) u.now)

  -- The calls of a worker whose token is bound to the queue.
  abbrev pub bound : QueueClient
  bound = record {
    State = Served;
    claim_task = λ id. call l services fuel around (claiming id);
    extend_lease = λ id. call l services fuel around (extending id);
    report_finished = λ id report. call l services fuel around (reporting id report);
  }
