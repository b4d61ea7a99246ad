-- ===== src/Worker/Recorded.antt =====
-- What the store holds of a task that a worker has executed.
use neorc.Prelude.{
  ℕ, String, nat_eq, string_eq, ◌≡◌, ◌⊎◌, ◌≤◌, refl, sym, ◌∙◌, ap, subst, inl, inr, none, some,
  take, arith,
}
use neorc.Prelude.Dict
use neorc.Errors.{Error, Result, ok, err, ok-injective, >>=-eq-ok}
use neorc.Errors
use neorc.Json.{Text, JsonValue, null}
use neorc.Runs.{Time, Task, Libraries, storable_text}
use neorc.Store.{Store}
use neorc.Store.Port.{memory}
use neorc.Store.Tasks.{finished_by}
use neorc.Task.{TaskId, TaskStatus}
use neorc.Values.{Datetime, encode, ensure_fits, utf8_length}
use neorc.Values.Sizes.{ensure_fits_bounds}
use neorc.Manager.Calls.{continue, pure, lift}
use neorc.Manager.Checks.{Services, max_payload_bytes}
use neorc.Manager.Reading.{read-returns, ensure_on_queue-Reads}
use neorc.Manager.Reports.{finish_task-returns}
use neorc.Manager.Working
use neorc.Manager.Working.{TaskDelivery, recorded, ensure_on_queue}
use neorc.Scheduler.Managed.{Surroundings, Served}
use neorc.Worker
use neorc.Worker.{
  Called, returned, raised, Handlers, QueueClient, encoded, report_checked, report_of, called,
  max_error_length, is_run_state,
}
use neorc.Worker.Kept.{recorded-report_of}
use neorc.Worker.Managed.{bound}

-- The task stands as the handler's outcome: failed with the text of what the handler raised, cut to
-- length, or succeeded with the encoding of the value that it returned, or failed since that value
-- has no encoding that fits.
pub IsOutcome : Services → Called → Task → Type 0
IsOutcome services (raised text) t =
    (t.status ≡ TaskStatus.failed)
    × (t.result ≡ null)
    × (t.error ≡ some (storable_text (take max_error_length (storable_text text))))
IsOutcome services (returned value) t =
    ((json : JsonValue) × (size : ℕ) × (encode services.written value ≡ ok json)
      × (utf8_length (services.dumps_json json) ≡ some size)
      × (size ≤ max_payload_bytes)
      × (t.status ≡ TaskStatus.succeeded)
      × (t.result ≡ json)
      × (t.error ≡ none))
    ⊎ (((json : JsonValue)
          → encode services.written value ≡ ok json
          → ensure_fits (services.dumps_json json) max_payload_bytes ≡ ok tt
          → ⊥)
        × (t.status ≡ TaskStatus.failed)
        × (t.result ≡ null))

module _ (services : Services) (handlers : Handlers) where
  finished_by-IsOutcome :
      (outcome : Called) (task : Task) (now : Time)
      → IsOutcome services outcome (finished_by (report_of services handlers outcome) task now)
  unfolding IsOutcome finished_by report_of report_checked encoded
  finished_by-IsOutcome (raised text) task now = (refl, refl, refl)
  finished_by-IsOutcome (returned value) task now = go (encoded services handlers value) refl
    where
      refused :
          (x : Error)
          → encoded services handlers value ≡ err x
          → (json : JsonValue) → encode services.written value ≡ ok json
          → ensure_fits (services.dumps_json json) max_payload_bytes ≡ ok tt
          → ⊥
      refused x e json written fits =
          let p : encoded services handlers value ≡ ok json = rw (written, fits, encoded) refl in
          let q : err x ≡ ok json = sym e ∙ p in absurd (ground arith)

      go :
          (r : Result JsonValue)
          → encoded services handlers value ≡ r
          → IsOutcome services
              (returned value)
              (finished_by (report_checked services handlers r) task now)
      go (ok json) e =
          let (first, written, e') = >>=-eq-ok _ _ e in
          let (fits, small, same) = >>=-eq-ok _ _ e' in
          let (size, known, bounded) =
            ensure_fits_bounds (services.dumps_json json) max_payload_bytes (
              subst (λ j. ensure_fits (services.dumps_json j) max_payload_bytes ≡ ok tt)
                (ok-injective same) small) in
          inl (
            json,
            size,
            subst (λ j. encode services.written value ≡ ok j) (ok-injective same) written,
            known,
            bounded,
            refl,
            refl,
            refl,
          )
      go (err x) e = inr ((λ json written fits. refused x e json written fits), refl, refl)

  -- What follows a report that returns.
  returned_task :
      (r : Result Task) (u v : Store)
      → continue r (λ a. pure tt) u ≡ (ok tt, v)
      → (t : Task) × (r ≡ ok t) × (u ≡ v)
  returned_task (ok t) u v h = (t, refl, ap (λ x. x.1) h)
  returned_task (err e) u v h = absurd (ground arith)

  module _ (l : Libraries) (fuel : ℕ) (around : ℕ → Surroundings) (queue : String) (lease : ℕ)
      (why : Text)
      (reads : (d : Datetime)
        → services.written.fromisoformat (services.written.isoformat d) ≡ some d) where
    abbrev client : QueueClient
    client = bound l services fuel around queue lease why

    -- The store holds the task, as the handler's outcome.
    IsRecorded : TaskDelivery → Served → Type 0
    IsRecorded delivery s =
        (t : Task) × (Dict.get delivery.task.id s.0.tasks ≡ some t)
        × IsOutcome services (called services handlers delivery) t

    report_finished-IsOutcome :
        (id : TaskId) (outcome : Called) (now : Time) (s s' : Store) (t : Task)
        → Working.report_finished
            (memory l)
            services
            fuel
            id
            (report_of services handlers outcome)
            (some queue)
            now
            s
          ≡ (ok t, s')
        → (Dict.get id s'.tasks ≡ some t) × IsOutcome services outcome t
    unfolding Working.report_finished
    report_finished-IsOutcome id outcome now s s' t h =
        let report = report_of services handlers outcome in
        let (same, e, h') =
          read-returns (ensure_on_queue (memory l) services fuel id (some queue)) _ s s' t
            (ensure_on_queue-Reads l services fuel id (some queue)) h in
        let (kept, e', h'') =
          read-returns (lift (recorded services report)) _ s s' t (λ u. refl) h' in
        let sent : kept ≡ report =
          ok-injective (sym e' ∙ recorded-report_of services handlers reads outcome) in
        let (task, finished, found) = finish_task-returns id kept now s s' t h'' in
        (
          found,
          subst (IsOutcome services outcome)
              (sym (finished ∙ ap (λ k. finished_by k task now) sent))
              (finished_by-IsOutcome outcome task now),
        )

    -- The report that the manager is given.
    abbrev reporting : TaskDelivery → Served → Result Task × Store
    reporting delivery (s, n) =
        Working.report_finished (memory l) services fuel delivery.task.id
          (report_of services handlers (called services handlers delivery)) (some queue)
          (around n).now ((around n).before s)

    reported :
        (delivery : TaskDelivery) (s s' : Served)
        → client.report_finished delivery.task.id
            (report_of services handlers (called services handlers delivery))
            s
          ≡ (ok tt, s')
        → IsRecorded delivery s'
    unfolding IsRecorded
    reported delivery (s, n) s' h =
        let (outcome, left) = reporting delivery (s, n) in
        let (t, e, e') = returned_task outcome left s'.0 (ap (λ r. (r.0, r.1.0)) h) in
        let (found, outcome) =
          report_finished-IsOutcome delivery.task.id (called services handlers delivery)
            (around n).now ((around n).before s) s'.0 t
            (ap (λ x. (x, left)) e ∙ ap (λ x. (ok t, x)) e') in
        (t, found, outcome)

    worked :
        (beats : ℕ) (delivery : TaskDelivery) (s s' : Served)
        → Worker.work services handlers client beats delivery s ≡ (ok tt, s')
        → IsRecorded delivery s'
    unfolding Worker.work
    worked beats delivery s s' h = go _ _ h
      where
        go :
            (r : Result (Unit {0})) (t : Served)
            → continue r
                (λ done.
                  client.report_finished delivery.task.id
                    (report_of services handlers (called services handlers delivery)))
                t
              ≡ (ok tt, s')
            → IsRecorded delivery s'
        go (ok done) t p = reported delivery t s' p
        go (err e) t p = absurd (ground arith)

    -- Where a worker's execution of a task returns, either the claim was refused since the run has
    -- ended, and the worker asked for nothing more, or the task was claimed and the store then holds it
    -- as the handler's outcome: failed with the text that the handler raised, cut to length, succeeded
    -- with the encoding of the value that it returned, which fits, or failed since there is no such
    -- encoding; whatever others did and whatever befell the heartbeats, given that fromisoformat reads
    -- back what isoformat writes.
    pub execute-recorded :
        (beats : ℕ) (delivery : TaskDelivery) (s s' : Served)
        → Worker.execute services handlers client beats delivery s ≡ (ok tt, s')
        → (client.claim_task delivery.task.id s ≡ (err Errors.run_state, s'))
          ⊎ (((client.claim_task delivery.task.id s).0 ≡ ok tt)
              × ((t : Task) × (Dict.get delivery.task.id s'.0.tasks ≡ some t)
                  × IsOutcome services (called services handlers delivery) t))
    unfolding Worker.execute Worker.claimed IsRecorded
    execute-recorded beats delivery s s' h =
        go (client.claim_task delivery.task.id s).0 (client.claim_task delivery.task.id s).1 refl h
      where
        go :
            (r : Result (Unit {0})) (t : Served)
            → client.claim_task delivery.task.id s ≡ (r, t)
            → Worker.claimed services handlers client beats delivery r t ≡ (ok tt, s')
            → (client.claim_task delivery.task.id s ≡ (err Errors.run_state, s'))
              ⊎ (((client.claim_task delivery.task.id s).0 ≡ ok tt) × IsRecorded delivery s')
        go (ok done) t e p = inr (ap (λ x. x.0) e, worked beats delivery t s' p)
        go (err Errors.run_state) t e p = inl (e ∙ ap (λ x. (err Errors.run_state, x.1)) p)
        go (err x) t e p = absurd (ground arith)
