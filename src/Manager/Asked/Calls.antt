-- ===== src/Manager/Asked/Calls.antt =====
-- What each call of the manager asks for, where it returns.
use neorc.Prelude.{
  ℕ, String, nat_eq, string_eq, ◌==◌, ==_iff, ◌≡◌, refl, ◌∙◌, ap, subst, inl, inr, true, Option,
  none, some, Bool-cases, Option-cases, arith,
}
use neorc.Prelude.Dict
use neorc.Errors.{ok}
use neorc.Flow.Definition.{Reference, FlowDefinition, is_queue_name, is_name}
use neorc.Flow.RunState.{Address, RunState}
use neorc.Runs.{RunId, Time, Run, is_active, Task, Libraries, ensure_active}
use neorc.Store.{Store}
use neorc.Store
use neorc.Store.Port.{memory}
use neorc.Store.Runs
use neorc.Store.Tasks
use neorc.Store.Flows
use neorc.Json.{Text, JsonValue}
use neorc.Errors.{ok-injective}
use neorc.Prelude.{List}
use neorc.Prelude.Dict.{Dict}
use neorc.Manager.Working.{Turn, TaskDelivery, recorded}
use neorc.Manager.Reading.{get_flow-Reads, run_state-Reads}
use neorc.Store.Tasks.{Report, success, failure, final_status}
use neorc.Task.{TaskId, TaskStatus, allowed, is_leased}
use neorc.Manager.Calls.{Op, ◌>>=◌, ◌>>◌, lift}
use neorc.Manager.Checks.{Services, check_lookup, check_queue, check_lease_seconds}
use neorc.Manager.Flows.{cancel_run, start_run}
use neorc.Manager.Scheduling.{
  fail_run, succeed_run, publish_task, start_sub_run, context, output_value,
}
use neorc.Manager.Working.{receive_task, claim_task, extend_lease, report_finished, ensure_on_queue}
use neorc.Manager.Reading.{
  read-returns, get_run-Reads, context-Reads, output_value-Reads, ensure_on_queue-Reads,
}
use neorc.Manager.Asked.{
  IsActive, IsOn, IsHandedOut, IsLease, IsHeld, is_active-active, ensure_active-IsActive,
  allowed-out, is_leased-out, final_status-is_received, check_lease_seconds-IsLease, get_run-known,
}

module _ (l : Libraries) (services : Services) (fuel : ℕ) where
  ensure_on_queue-IsOn :
      (id : TaskId) (queue : Option String) (s : Store) (t : Task) (checked : Unit {0})
      → (ensure_on_queue (memory l) services fuel id queue s).0 ≡ ok checked
      → Dict.get id s.tasks ≡ some t
      → IsOn queue t
  unfolding ensure_on_queue Tasks.get_task Store.task_of
  ensure_on_queue-IsOn id none s t checked h known = tt
  ensure_on_queue-IsOn id (some queue) s t checked h known = elim (Bool-cases (t.queue == queue)) [
    | inl same ↦ (==_iff t.queue queue).0 same
    | inr other ↦ absurd (ground (arith, h, known, other))
  ]

  context-known :
      (id : RunId) (s : Store) (run : Run) (definition : FlowDefinition) (state : RunState)
      → (context (memory l) services fuel id s).0 ≡ ok (run, definition, state)
      → Dict.get id s.runs ≡ some run
  unfolding context
  context-known id s run definition state h =
      let value : Run × FlowDefinition × RunState = (run, definition, state) in
      let whole : context (memory l) services fuel id s ≡ (ok value, s) =
        ap (λ r. (r, (context (memory l) services fuel id s).1)) h
        ∙ ap (λ u. (ok value, u)) (context-Reads l services fuel id s) in
      let (first, read, h') = read-returns (Runs.get_run id) _ s s value (get_run-Reads id) whole in
      let (stored, read', h'') =
        read-returns (Flows.get_flow first.flow (some first.version)) _ s s value
          (get_flow-Reads first.flow (some first.version)) h' in
      let (found, read'', last) =
        read-returns (Runs.run_state id) _ s s value (run_state-Reads l id) h'' in
      let same : first ≡ run = ap (λ v. v.0) (ok-injective (ap (λ r. r.0) last)) in
      subst (λ r. Dict.get id s.runs ≡ some r) same (get_run-known id s first read)

  -- A call on a run's context, which asks that the run be active.
  in_context :
      {A : Type 0} (id : RunId) (more : Run → FlowDefinition → RunState → Op Store A) (s s' : Store)
      (a : A)
      → (context (memory l) services fuel id >>= λ (run, definition, state).
            (lift (ensure_active run) >> more run definition state))
          s
        ≡ (ok a, s')
      → IsActive id s
  unfolding IsActive
  in_context id more s s' a h =
      let ((run, definition, state), read, h') =
        read-returns (context (memory l) services fuel id) _ s s' a
          (context-Reads l services fuel id) h in
      let (checked, going, h'') = read-returns (lift (ensure_active run)) _ s s' a (λ u. refl) h' in
      (run, context-known id s run definition state read, ensure_active-IsActive run checked going)

  pub publish_task-IsActive :
      (id : RunId) (a : Address) (fresh : TaskId) (now : Time) (s s' : Store) (t : Task)
      → publish_task (memory l) services fuel id a fresh now s ≡ (ok t, s')
      → IsActive id s
  unfolding publish_task
  publish_task-IsActive id a fresh now s s' t h = in_context id _ s s' t h

  pub start_sub_run-IsActive :
      (parent : RunId) (a : Address) (fresh : RunId) (now : Time) (others : ℕ → Store → Store)
      (s s' : Store) (run : Run)
      → start_sub_run (memory l) services fuel parent a fresh now others s ≡ (ok run, s')
      → IsActive parent s
  unfolding start_sub_run
  start_sub_run-IsActive parent a fresh now others s s' run h = in_context parent _ s s' run h

  pub succeed_run-IsActive :
      (id : RunId) (output : Option Reference) (now : Time) (s s' : Store) (run : Run)
      → succeed_run (memory l) services fuel id output now s ≡ (ok run, s')
      → IsActive id s
  unfolding succeed_run IsActive Runs.succeed_run
  succeed_run-IsActive id output now s s' run h =
      let (value, read, h') =
        read-returns (output_value (memory l) services fuel output id) _ s s' run
          (output_value-Reads l services fuel output id) h in
      elim (Option-cases (Dict.get id s.runs)) [
        | inl unknown ↦ absurd (ground arith)
        | inr (found, known) ↦ elim (Bool-cases (is_active found.status)) [
          | inl going ↦ (found, known, is_active-active found.status going)
          | inr over ↦ absurd (ground arith)
        ]
      ]

  pub cancel_run-IsActive :
      (id : RunId) (reason : Text) (now : Time) (s s' : Store) (done : Unit {0})
      → cancel_run (memory l) services id reason now s ≡ (ok done, s')
      → IsActive id s
  unfolding cancel_run IsActive
  cancel_run-IsActive id reason now s s' done h =
      let (run, read, h') = read-returns (Runs.get_run id) _ s s' done (get_run-Reads id) h in
      elim (Bool-cases (is_active run.status)) [
        | inl going ↦ (run, get_run-known id s run read, is_active-active run.status going)
        | inr over ↦ absurd (ground arith)
      ]

  pub fail_run-known :
      (id : RunId) (reason : Text) (now : Time) (s s' : Store) (done : Unit {0})
      → fail_run (memory l) services fuel id reason now s ≡ (ok done, s')
      → (run : Run) × (Dict.get id s.runs ≡ some run)
  unfolding fail_run Runs.fail_run_tree
  fail_run-known id reason now s s' done h = elim (Option-cases (Dict.get id s.runs)) [
    | inl unknown ↦ absurd (ground arith)
    | inr known ↦ known
  ]

  pub claim_task-admitted :
      (id : TaskId) (queue : Option String) (why : Text) (now : Time) (s s' : Store)
      (done : Unit {0})
      → claim_task (memory l) services fuel id queue why now s ≡ (ok done, s')
      → (t : Task) × (Dict.get id s.tasks ≡ some t)
        × IsOn queue t
        × IsHandedOut t
        × IsActive t.run_id s
  unfolding claim_task Tasks.claim_task IsHandedOut IsActive
  claim_task-admitted id queue why now s s' done h =
      let (checked, e, h') =
        read-returns (ensure_on_queue (memory l) services fuel id queue) _ s s' done
          (ensure_on_queue-Reads l services fuel id queue) h in
      elim (Option-cases (Dict.get id s.tasks)) [
        | inl unknown ↦ absurd (ground arith)
        | inr (t, known) ↦ elim (Bool-cases (allowed t.status TaskStatus.running)) [
          | inr refused ↦ absurd (ground arith)
          | inl fine ↦ elim (Option-cases (Dict.get t.run_id s.runs)) [
            | inl lost ↦ absurd (ground arith)
            | inr (run, found) ↦ elim (Bool-cases (is_active run.status)) [
              | inr over ↦ absurd (ground arith)
              | inl going ↦ (
                t,
                known,
                ensure_on_queue-IsOn id queue s t checked e known,
                allowed-out t.status TaskStatus.running refl fine,
                (run, found, is_active-active run.status going),
              )
            ]
          ]
        ]
      ]

  pub extend_lease-admitted :
      (id : TaskId) (lease : ℕ) (queue : Option String) (now : Time) (s s' : Store) (until : Time)
      → extend_lease (memory l) services fuel id lease queue now s ≡ (ok until, s')
      → IsLease lease × IsHeld id queue s
  unfolding extend_lease Tasks.extend_task_lease IsHandedOut IsHeld
  extend_lease-admitted id lease queue now s s' until h =
      let (fine, e, h') =
        read-returns (lift (check_lease_seconds lease)) _ s s' until (λ u. refl) h in
      let (checked, e', h'') =
        read-returns (ensure_on_queue (memory l) services fuel id queue) _ s s' until
          (ensure_on_queue-Reads l services fuel id queue) h' in
      (
        check_lease_seconds-IsLease lease fine e,
        elim (Option-cases (Dict.get id s.tasks)) [
          | inl unknown ↦ absurd (ground arith)
          | inr (t, known) ↦ elim (Bool-cases (is_leased t.status)) [
            | inr free ↦ absurd (ground arith)
            | inl held ↦ (
              t,
              known,
              ensure_on_queue-IsOn id queue s t checked e' known,
              is_leased-out t.status held,
            )
          ]
        ],
      )

  finish_task-handed :
      (id : TaskId) (report : Report) (now : Time) (s s' : Store) (done : Task)
      → Tasks.finish_task id report now s ≡ (ok done, s')
      → (t : Task) × (Dict.get id s.tasks ≡ some t) × IsHandedOut t
  unfolding Tasks.finish_task IsHandedOut
  finish_task-handed id report now s s' done h = elim (Option-cases (Dict.get id s.tasks)) [
    | inl unknown ↦ absurd (ground arith)
    | inr (t, known) ↦ elim (Bool-cases (allowed t.status (final_status report))) [
      | inr refused ↦ absurd (ground arith)
      | inl fine ↦ (
        t,
        known,
        allowed-out t.status (final_status report) (final_status-is_received report) fine,
      )
    ]
  ]

  pub report_finished-admitted :
      (id : TaskId) (report : Report) (queue : Option String) (now : Time) (s s' : Store)
      (done : Task)
      → report_finished (memory l) services fuel id report queue now s ≡ (ok done, s')
      → IsHeld id queue s
  unfolding report_finished IsHeld
  report_finished-admitted id report queue now s s' done h =
      let (checked, e, h') =
        read-returns (ensure_on_queue (memory l) services fuel id queue) _ s s' done
          (ensure_on_queue-Reads l services fuel id queue) h in
      let (kept, e', h'') =
        read-returns (lift (recorded services report)) _ s s' done (λ u. refl) h' in
      let (t, known, handed) = finish_task-handed id kept now s s' done h'' in
      (t, known, ensure_on_queue-IsOn id queue s t checked e known, handed)

  pub receive_task-admitted :
      (queue : String) (lease : ℕ) (turns : List (Turn Store)) (s s' : Store)
      (delivered : Option TaskDelivery)
      → receive_task (memory l) services fuel queue lease turns s ≡ (ok delivered, s')
      → (is_queue_name queue ≡ true) × IsLease lease
  unfolding receive_task check_queue
  receive_task-admitted queue lease turns s s' delivered h =
      let (named, e, h') = read-returns (lift (check_queue queue)) _ s s' delivered (λ u. refl) h in
      let (fine, e', h'') =
        read-returns (lift (check_lease_seconds lease)) _ s s' delivered (λ u. refl) h' in
      (ground (arith, e), check_lease_seconds-IsLease lease fine e')

  pub start_run-named :
      (flow : String) (inputs : Dict String JsonValue) (fresh : RunId) (now : Time)
      (others : ℕ → Store → Store) (s s' : Store) (run : Run)
      → start_run (memory l) services flow inputs fresh now others s ≡ (ok run, s')
      → is_name flow ≡ true
  unfolding start_run check_lookup
  start_run-named flow inputs fresh now others s s' run h =
      let (named, e, h') = read-returns (lift (check_lookup flow)) _ s s' run (λ u. refl) h in
      ground (arith, e)
