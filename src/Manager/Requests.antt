-- ===== src/Manager/Requests.antt =====
-- What each call of the manager makes of the in-memory store is what requests to the store make of
-- it.
use neorc.Prelude.{
  ℕ, String, nat_eq, string_eq, ◌≡◌, refl, inl, inr, Option, none, some, [], Bool-cases,
}
use neorc.Prelude.Dict
use neorc.Prelude.Dict.{Dict}
use neorc.Errors.{Result, ok, err}
use neorc.Json.{JsonValue, Text}
use neorc.Flow.Definition.{Reference}
use neorc.Flow.RunState.{Address}
use neorc.Runs.{RunId, Time, Task, Libraries, is_active, ensure_active}
use neorc.Store.{Store}
use neorc.Store.Port.{memory}
use neorc.Store.Requests.{
  Later, now_itself, after, perform, cancel_tree, fail_tree, succeed, publish, claim, heartbeat,
  finish,
}
use neorc.Store.Runs.{get_run}
use neorc.Store.Tasks.{Report}
use neorc.Task.{TaskId}
use neorc.Values.{ensure_fits}
use neorc.Manager.Calls.{Op, continue, ◌>>=◌, lift}
use neorc.Manager.Checks.{
  Services, check_lookup, check_lease_seconds, task_at, sub_flow_at, inputs_of, encoded_delivery,
  max_payload_bytes, filled_in,
}
use neorc.Manager.Flows.{cancel_run, start_run}
use neorc.Manager.Scheduling.{
  context, fail_run, succeed_run, publish_task, start_sub_run, output_value,
}
use neorc.Manager.Working.{
  delivery, ensure_on_queue, claim_task, extend_lease, recorded, report_finished,
}
use neorc.Manager.Reading.{
  Reads, >>=-Reads, read-after, get_run-Reads, context-Reads, output_value-Reads,
  ensure_on_queue-Reads,
}
use neorc.Manager.Starting.{Later-trans, IsHarmless, start_latest-Later}

module _ (l : Libraries) where
  pub continue-Later :
      {A B : Type 0} (r : Result A) (f : A → Op Store B) (s t : Store)
      → Later l s t
      → ((a : A) → Later l t (f a t).1)
      → Later l s (continue r f t).1
  continue-Later (ok a) f s t before h = Later-trans before (h a)
  continue-Later (err e) f s t before h = before

  -- What follows a read is done to the store as it was.
  pub reads :
      {A B : Type 0} (m : Op Store A) (f : A → Op Store B) (s : Store)
      → Reads m
      → ((a : A) → Later l s (f a s).1)
      → Later l s ((m >>= f) s).1
  reads m f s h k = read-after (λ t. Later l s t) m f s h now_itself (λ a e. k a)

  pub lifts :
      {A B : Type 0} (r : Result A) (f : A → Op Store B) (s : Store)
      → ((a : A) → Later l s (f a s).1)
      → Later l s ((lift r >>= f) s).1
  lifts r f s k = reads (lift r) f s (λ t. refl) k

module _ (l : Libraries) (services : Services) (fuel : ℕ) where
  pub start_run-Later :
      (flow : String) (inputs : Dict String JsonValue) (fresh : RunId) (now : Time)
      (others : ℕ → Store → Store) (s : Store)
      → Dict.get fresh s.runs ≡ none
      → IsHarmless l fresh others
      → Later l s (start_run (memory l) services flow inputs fresh now others s).1
  unfolding start_run
  start_run-Later flow inputs fresh now others s absent harmless =
      lifts l (check_lookup flow) _ s (λ checked.
        start_latest-Later l services flow inputs none none fresh now others harmless s absent)

  pub cancel_run-Later :
      (run_id : RunId) (reason : Text) (now : Time) (s : Store)
      → Later l s (cancel_run (memory l) services run_id reason now s).1
  unfolding cancel_run perform
  cancel_run-Later run_id reason now s = reads l (get_run run_id) _ s (get_run-Reads run_id) (λ run.
      elim (Bool-cases (is_active run.status)) [
        | inl active ↦ rw active (after (cancel_tree run_id reason) now now_itself tt)
        | inr inactive ↦ rw inactive now_itself
      ])

  pub succeed_run-Later :
      (run_id : RunId) (output : Option Reference) (now : Time) (s : Store)
      → Later l s (succeed_run (memory l) services fuel run_id output now s).1
  unfolding succeed_run perform
  succeed_run-Later run_id output now s =
      reads l (output_value (memory l) services fuel output run_id) _ s
        (output_value-Reads l services fuel output run_id)
        (λ value. after (succeed run_id value) now now_itself tt)

  pub publish_task-Later :
      (run_id : RunId) (a : Address) (fresh : TaskId) (now : Time) (s : Store)
      → Dict.get fresh s.tasks ≡ none
      → Later l s (publish_task (memory l) services fuel run_id a fresh now s).1
  unfolding publish_task perform
  publish_task-Later run_id a fresh now s absent =
      reads l (context (memory l) services fuel run_id) _ s (context-Reads l services fuel run_id)
        (λ (run, definition, state). lifts l (ensure_active run) _ s (λ active.
          lifts l (task_at definition a) _ s (λ t.
            lifts l (inputs_of services fuel run definition state t.params t.fixed_params a) _ s
              (λ inputs.
                lifts l (ensure_fits (encoded_delivery services inputs) max_payload_bytes) _ s
                  (λ fits.
                    after (publish run_id a t.queue t.handler t.params t.fixed_params fresh) now
                      now_itself absent)))))

  pub start_sub_run-Later :
      (parent : RunId) (a : Address) (fresh : RunId) (now : Time) (others : ℕ → Store → Store)
      (s : Store)
      → Dict.get fresh s.runs ≡ none
      → IsHarmless l fresh others
      → Later l s (start_sub_run (memory l) services fuel parent a fresh now others s).1
  unfolding start_sub_run
  start_sub_run-Later parent a fresh now others s absent harmless =
      reads l (context (memory l) services fuel parent) _ s (context-Reads l services fuel parent)
        (λ (run, definition, state). lifts l (ensure_active run) _ s (λ active.
          lifts l (sub_flow_at definition a) _ s (λ step.
            lifts l (inputs_of services fuel run definition state step.params step.fixed_params a) _
              s
              (λ inputs.
                start_latest-Later l services step.flow inputs (some parent) (some a) fresh now
                  others harmless s absent))))

  pub delivery-Reads : (t : Task) → Reads (delivery (memory l) services fuel t)
  unfolding delivery
  delivery-Reads t =
      >>=-Reads (context (memory l) services fuel t.run_id) _
        (context-Reads l services fuel t.run_id)
        (λ (run, definition, state).
          >>=-Reads (lift (filled_in services fuel run definition state t.address t.id t.params []))
            _ (λ s. refl) (λ inputs s. refl))

  ensured :
      {B : Type 0} (task_id : TaskId) (queue : Option String) (f : Unit {0} → Op Store B)
      (s : Store)
      → Later l s (f tt s).1
      → Later l s ((ensure_on_queue (memory l) services fuel task_id queue >>= f) s).1
  ensured task_id queue f s k =
      reads l (ensure_on_queue (memory l) services fuel task_id queue) f s
        (ensure_on_queue-Reads l services fuel task_id queue) (λ _. k)

  pub claim_task-Later :
      (task_id : TaskId) (queue : Option String) (why : Text) (now : Time) (s : Store)
      → Later l s (claim_task (memory l) services fuel task_id queue why now s).1
  unfolding claim_task perform
  claim_task-Later task_id queue why now s = ensured task_id queue _ s (
      continue-Later l ((memory l).claim_task task_id why now s).0 _ s
        ((memory l).claim_task task_id why now s).1 (after (claim task_id why) now now_itself tt)
        (λ claimed. now_itself))

  pub extend_lease-Later :
      (task_id : TaskId) (lease : ℕ) (queue : Option String) (now : Time) (s : Store)
      → Later l s (extend_lease (memory l) services fuel task_id lease queue now s).1
  unfolding extend_lease perform
  extend_lease-Later task_id lease queue now s =
      lifts l (check_lease_seconds lease) _ s
        (λ checked. ensured task_id queue _ s (after (heartbeat task_id lease) now now_itself tt))

  pub report_finished-Later :
      (task_id : TaskId) (report : Report) (queue : Option String) (now : Time) (s : Store)
      → Later l s (report_finished (memory l) services fuel task_id report queue now s).1
  unfolding report_finished perform
  report_finished-Later task_id report queue now s = ensured task_id queue _ s (
      lifts l (recorded services report) _ s
        (λ kept. after (finish task_id kept) now now_itself tt))

  pub fail_run-Later :
      (run_id : RunId) (reason : Text) (now : Time) (s : Store)
      → Later l s (fail_run (memory l) services fuel run_id reason now s).1
  unfolding fail_run perform
  fail_run-Later run_id reason now s = after (fail_tree run_id reason) now now_itself tt
