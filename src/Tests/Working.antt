-- ===== src/Tests/Working.antt =====
-- A worker's report on a value that holds a datetime, and its execution of a task.
use neorc.Prelude.{◌≡◌, ◌⊎◌, refl, some, nat_eq, none, []}
use neorc.Errors.{ok, err}
use neorc.Manager.Working.{recorded, TaskDelivery}
use neorc.Worker.{Handlers, QueueClient, returned, report_of, called}
use neorc.Worker.Kept.{recorded-report_of}
use neorc.Worker
use neorc.Manager.Working
use neorc.Store.Tasks
use neorc.Store.Runs
use neorc.Store.Flows
use neorc.Store.Requests
use neorc.Worker.Managed.{bound}
use neorc.Worker.Recorded.{IsOutcome, execute-recorded}
use neorc.Scheduler.Managed.{Served}
use neorc.Errors
use neorc.Prelude.Dict
use neorc.Runs.{Task}
use neorc.Flow.Definition.{codes}
use neorc.Values.{str}
use neorc.Tests.Samples.{libraries}
use neorc.Tests.Scheduling.{quiet}
use neorc.Tests.Serving.{services, waiting, received}
use neorc.Tests.Values.{read-iso, sample}

abbrev handlers : Handlers
handlers = record {
  resolve = λ name. none;
  unresolved = λ name. [];
  exception = λ e. [];
  invalid_result = λ e. [];
}

recorded-report_of_example :
    recorded services (report_of services handlers (returned sample))
    ≡ ok (report_of services handlers (returned sample))
recorded-report_of_example = recorded-report_of services handlers read-iso (returned sample)

abbrev delivered : TaskDelivery
delivered = record { task = waiting; inputs = [] }

abbrev picks : Handlers
picks = record handlers { resolve = λ name. some (λ arguments. returned (str (codes "word"))) }

abbrev client : QueueClient
client = bound libraries services 10 quiet "words" 60 []

abbrev executed : Served
executed = (Worker.execute services picks client 2 delivered (received, 0)).1

execute-recorded_example :
    (client.claim_task 20 (received, 0) ≡ (err Errors.run_state, executed))
    ⊎ (((client.claim_task 20 (received, 0)).0 ≡ ok tt)
        × ((t : Task) × (Dict.get 20 executed.0.tasks ≡ some t)
            × IsOutcome services (called services picks delivered) t))
unfolding Worker.execute Working.claim_task Tasks.get_task Dict.get Requests.perform
    Tasks.receive_task Tasks.publish_task Runs.start_run Flows.store_flows Dict.set Tasks.claim_task
    Working.extend_lease Tasks.extend_task_lease Working.report_finished Tasks.finish_task
execute-recorded_example =
    execute-recorded services picks libraries 10 quiet "words" 60 [] read-iso 2 delivered
      (received, 0) executed refl
