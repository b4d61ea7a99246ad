-- ===== src/Manager/Unchanged.antt =====
-- A call of the manager that raises changes nothing, where it does one thing to the store.
use neorc.Prelude.{
  ℕ, String, nat_eq, string_eq, ◌≡◌, refl, inl, inr, true, Option, Bool-cases, arith,
}
use neorc.Errors.{Error, Result, err}
use neorc.Json.{Text}
use neorc.Flow.Definition.{Reference}
use neorc.Flow.RunState.{Address}
use neorc.Runs.{RunId, Time, Libraries, is_active, ensure_active}
use neorc.Store.{Store}
use neorc.Store.Port.{memory}
use neorc.Store.Runs.{get_run}
use neorc.Store.Tasks.{Report}
use neorc.Task.{TaskId}
use neorc.Values.{ensure_fits}
use neorc.Manager.Calls.{Op, ◌>>=◌, lift}
use neorc.Manager.Checks.{
  Services, check_lease_seconds, task_at, inputs_of, encoded_delivery, max_payload_bytes,
}
use neorc.Manager.Flows.{cancel_run}
use neorc.Manager.Scheduling.{context, fail_run, succeed_run, publish_task, output_value}
use neorc.Manager.Working.{ensure_on_queue, extend_lease, recorded, report_finished}
use neorc.Manager.Reading.{
  IsCleanAt, read-IsCleanAt, get_run-Reads, context-Reads, output_value-Reads,
  ensure_on_queue-Reads,
}
use neorc.Store.Raising.{
  publish_task-raises, succeed_run-raises, extend_task_lease-raises, finish_task-raises,
  cancel_run_tree-raises, fail_run_tree-raises,
}
use neorc.Manager.Serving.{
  Call, starts, cancels, fails, succeeds, publishes, starts_sub_run, receives, claims, extends,
  reports, serve, is_atomic, answer-raises,
}

module _ (l : Libraries) (services : Services) (fuel : ℕ) where
  lifted :
      {A B : Type 0} (r : Result A) (f : A → Op Store B) (s : Store)
      → ((a : A) → IsCleanAt s (f a))
      → IsCleanAt s (lift r >>= f)
  lifted r f s = read-IsCleanAt (lift r) f s (λ t. refl)

  cancel_run-IsCleanAt :
      (run_id : RunId) (reason : Text) (now : Time) (s : Store)
      → IsCleanAt s (cancel_run (memory l) services run_id reason now)
  unfolding cancel_run
  cancel_run-IsCleanAt run_id reason now s =
      read-IsCleanAt (get_run run_id) _ s (get_run-Reads run_id) (λ run.
        elim (Bool-cases (is_active run.status)) [
          | inl active ↦ rw active (cancel_run_tree-raises run_id reason now s)
          | inr inactive ↦ rw inactive (λ e h. refl)
        ])

  succeed_run-IsCleanAt :
      (run_id : RunId) (output : Option Reference) (now : Time) (s : Store)
      → IsCleanAt s (succeed_run (memory l) services fuel run_id output now)
  unfolding succeed_run
  succeed_run-IsCleanAt run_id output now s =
      read-IsCleanAt (output_value (memory l) services fuel output run_id) _ s
        (output_value-Reads l services fuel output run_id)
        (λ value. succeed_run-raises run_id value now s)

  publish_task-IsCleanAt :
      (run_id : RunId) (a : Address) (fresh : TaskId) (now : Time) (s : Store)
      → IsCleanAt s (publish_task (memory l) services fuel run_id a fresh now)
  unfolding publish_task
  publish_task-IsCleanAt run_id a fresh now s =
      read-IsCleanAt (context (memory l) services fuel run_id) _ s
        (context-Reads l services fuel run_id)
        (λ (run, definition, state). lifted (ensure_active run) _ s (λ active.
          lifted (task_at definition a) _ s (λ t.
            lifted (inputs_of services fuel run definition state t.params t.fixed_params a) _ s
              (λ inputs.
                lifted (ensure_fits (encoded_delivery services inputs) max_payload_bytes) _ s
                  (λ fits.
                    publish_task-raises run_id a t.queue t.handler t.params t.fixed_params fresh now
                      s)))))

  extend_lease-IsCleanAt :
      (task_id : TaskId) (lease : ℕ) (queue : Option String) (now : Time) (s : Store)
      → IsCleanAt s (extend_lease (memory l) services fuel task_id lease queue now)
  unfolding extend_lease
  extend_lease-IsCleanAt task_id lease queue now s =
      lifted (check_lease_seconds lease) _ s (λ checked.
        read-IsCleanAt (ensure_on_queue (memory l) services fuel task_id queue) _ s
          (ensure_on_queue-Reads l services fuel task_id queue)
          (λ same. extend_task_lease-raises task_id lease now s))

  report_finished-IsCleanAt :
      (task_id : TaskId) (report : Report) (queue : Option String) (now : Time) (s : Store)
      → IsCleanAt s (report_finished (memory l) services fuel task_id report queue now)
  unfolding report_finished
  report_finished-IsCleanAt task_id report queue now s =
      read-IsCleanAt (ensure_on_queue (memory l) services fuel task_id queue) _ s
        (ensure_on_queue-Reads l services fuel task_id queue)
        (λ same.
          lifted (recorded services report) _ s (λ kept. finish_task-raises task_id kept now s))

  -- A cancel, a fail, a succeed, a publish, a heartbeat and a report each leave the store exactly as
  -- it was where they raise.
  pub serve-unchanged :
      (call : Call) (now : Time) (s : Store) (e : Error)
      → is_atomic call ≡ true
      → (serve l services fuel call now s).0 ≡ err e
      → (serve l services fuel call now s).1 ≡ s
  unfolding serve fail_run
  serve-unchanged (cancels run_id reason) now s e atomic =
      answer-raises l s _ (cancel_run-IsCleanAt run_id reason now s) e
  serve-unchanged (fails run_id reason) now s e atomic =
      answer-raises l s _ (fail_run_tree-raises run_id reason now s) e
  serve-unchanged (succeeds run_id output) now s e atomic =
      answer-raises l s _ (succeed_run-IsCleanAt run_id output now s) e
  serve-unchanged (publishes run_id a fresh) now s e atomic =
      answer-raises l s _ (publish_task-IsCleanAt run_id a fresh now s) e
  serve-unchanged (extends task_id lease queue) now s e atomic =
      answer-raises l s _ (extend_lease-IsCleanAt task_id lease queue now s) e
  serve-unchanged (reports task_id report queue) now s e atomic =
      answer-raises l s _ (report_finished-IsCleanAt task_id report queue now s) e
  serve-unchanged (starts _ _ _ _) now s e atomic = absurd (ground arith)
  serve-unchanged (starts_sub_run _ _ _ _) now s e atomic = absurd (ground arith)
  serve-unchanged (receives _ _ _) now s e atomic = absurd (ground arith)
  serve-unchanged (claims _ _ _) now s e atomic = absurd (ground arith)
