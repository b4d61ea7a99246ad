-- ===== src/Store/Refines/Tasks.antt =====
-- The operations on tasks are sequences of changes of the abstract machine.
use neorc.Prelude.{
  ℕ, ◌+◌, String, string_eq, nat_eq, pair_eq, ◌==◌, ◌&&◌, ◌≡◌, sym, ap, subst, inl, inr, true, none,
  some, List, All, [], ◌∷◌, arith, Bool-cases, &&-eq-true, ==_iff, Option-cases,
}
use mathlib.Core.Option.{some-injective, none-ne-some}
use neorc.Prelude.Dict
use neorc.Prelude.Dict.{Dict}
use neorc.Prelude.Dict.Keyed.{key-get, get-values}
use neorc.Errors.{ok, ok-injective}
use neorc.Json.{JsonValue, Text}
use neorc.Flow.Definition.{Reference}
use neorc.Flow.RunState.{Address, address_eq}
use neorc.Runs.{RunId, Time, is_active, Task, task_finished}
use neorc.Store.{Store}
use neorc.Store.Tasks.{
  publish_task, receive_task, claim_task, extend_task_lease, finish_task, Report, success, failure,
  next_task, is_receivable, final_status, leased,
}
use neorc.Store.Changes.{
  TaskChange, lease, start, extend, finish, discard, on_task, new_task, new_event, Trace, here,
  next,
}
use neorc.Store.Sound.{IsSound}
use neorc.Task.{TaskId, TaskStatus, is_leased, allowed}

-- A leased task is the only one that may end.
allowed-final :
    (status : TaskStatus) (report : Report)
    → allowed status (final_status report) ≡ true
    → is_leased status ≡ true
unfolding allowed
allowed-final status (success v) h = ground arith
allowed-final status (failure w) h = ground arith

allowed-running :
    (status : TaskStatus) → allowed status TaskStatus.running ≡ true → is_leased status ≡ true
unfolding allowed
allowed-running status h = ground arith

module _ {s : Store} (k : IsSound s) where
  -- One change of a task that is found under an id.
  changed :
      (id : TaskId) (task new : Task)
      → Dict.get id s.tasks ≡ some task
      → TaskChange task new
      → Trace s (record s { tasks = Dict.set id new s.tasks })
  changed id task new e c =
      let same = key-get (λ t. t.id) id task s.tasks k.tasks_keyed e in
      subst (λ i. Trace s (record s { tasks = Dict.set i new s.tasks })) same
        (next here (on_task task new (subst (λ i. Dict.get i s.tasks ≡ some task) (sym same) e) c))

  pub publish_task-Trace :
      (run_id : RunId) (a : Address) (queue handler : String) (params : Dict String Reference)
      (fixed : Dict String JsonValue) (fresh : TaskId) (now : Time)
      → Dict.get fresh s.tasks ≡ none
      → Trace s (publish_task run_id a queue handler params fixed fresh now s).1
  unfolding publish_task
  publish_task-Trace run_id a queue handler params fixed fresh now absent =
      elim (Option-cases (Dict.get run_id s.runs)) [
        | inl e ↦ rw e here
        | inr (run, e) ↦ rw e (elim (Bool-cases (is_active run.status)) [
          | inl active ↦ rw active (elim (Option-cases (Dict.get (run_id, a) s.task_ids)) [
            | inl free ↦ rw free (next here (new_task _ run absent free e active (ground arith)))
            | inr (old, taken) ↦ rw taken here
          ])
          | inr ended ↦ rw ended here
        ])
      ]

  -- What `next_task` picks is one of the tasks, and may be handed out.
  next_task-found :
      (queue : String) (now : Time) (ts : List Task) (task : Task)
      → All (λ t. Dict.get t.id s.tasks ≡ some t) ts
      → next_task queue now ts ≡ some task
      → (Dict.get task.id s.tasks ≡ some task)
        × (is_receivable task now ≡ true)
        × (task.queue ≡ queue)
  unfolding next_task
  next_task-found queue now [] task h e = cc
  next_task-found queue now (t ∷ ts) task h e =
      elim (Bool-cases ((t.queue == queue) && is_receivable t now)) [
        | inl picked ↦
            let (at, receivable) = &&-eq-true (t.queue == queue) (is_receivable t now) picked in
            let same : t ≡ task = some-injective t task (rw picked at e) in
            subst
              (λ u.
                (Dict.get u.id s.tasks ≡ some u) × (is_receivable u now ≡ true) × (u.queue ≡ queue))
              same (h.0, receivable, (==_iff t.queue queue).0 at)
        | inr passed ↦ next_task-found queue now ts task h.1 (rw passed at e)
      ]

  -- What a receive returns is a task of the store, leased; the store has it in place of the old one.
  pub receive_task-found :
      (queue : String) (duration : ℕ) (now : Time) (u : Task)
      → (receive_task queue duration now s).0 ≡ ok (some u)
      → (task : Task) × (u ≡ leased task duration now)
        × (Dict.get task.id s.tasks ≡ some task)
        × (is_receivable task now ≡ true)
        × ((receive_task queue duration now s).1 ≡ record s { tasks = Dict.set task.id u s.tasks })
  unfolding receive_task
  receive_task-found queue duration now u h =
      elim (Option-cases (next_task queue now (Dict.values s.tasks))) [
        | inl e ↦ absurd (none-ne-some u (ok-injective (rw (e, receive_task) at h)))
        | inr (task, e) ↦
            let all = get-values (λ t. t.id) s.tasks k.tasks_keyed in
            let (found, receivable, at) =
              next_task-found queue now (Dict.values s.tasks) task all e in
            let same : leased task duration now ≡ u =
              some-injective _ u (ok-injective (rw (e, receive_task) at h)) in
            (
              task,
              sym same,
              found,
              receivable,
              rw (e, receive_task)
                  (ap (λ (v : Task). record s { tasks = Dict.set task.id v s.tasks }) same),
            )
      ]

  pub receive_task-Trace :
      (queue : String) (duration : ℕ) (now : Time) → Trace s (receive_task queue duration now s).1
  unfolding receive_task
  receive_task-Trace queue duration now =
      elim (Option-cases (next_task queue now (Dict.values s.tasks))) [
        | inl e ↦ rw (e, receive_task) here
        | inr (task, e) ↦
            rw (e, receive_task)
              (let all = get-values (λ t. t.id) s.tasks k.tasks_keyed in
                let (found, receivable, at) =
                  next_task-found queue now (Dict.values s.tasks) task all e in
                next here (on_task task _ found (lease duration now receivable)))
      ]

  pub claim_task-Trace :
      (id : TaskId) (why : Text) (now : Time) → Trace s (claim_task id why now s).1
  unfolding claim_task
  claim_task-Trace id why now = elim (Option-cases (Dict.get id s.tasks)) [
    | inl e ↦ rw e here
    | inr (task, e) ↦ rw e (elim (Bool-cases (allowed task.status TaskStatus.running)) [
      | inl a ↦ rw a (elim (Option-cases (Dict.get task.run_id s.runs)) [
        | inl r ↦ rw r here
        | inr (run, r) ↦ rw r (elim (Bool-cases (is_active run.status)) [
          | inl active ↦ rw active (changed id task _ e (start now (allowed-running task.status a)))
          | inr ended ↦
              rw ended (changed id task _ e (discard why now (allowed-running task.status a)))
        ])
      ])
      | inr a ↦ rw a here
    ])
  ]

  pub extend_task_lease-Trace :
      (id : TaskId) (duration : ℕ) (now : Time) → Trace s (extend_task_lease id duration now s).1
  unfolding extend_task_lease
  extend_task_lease-Trace id duration now = elim (Option-cases (Dict.get id s.tasks)) [
    | inl e ↦ rw e here
    | inr (task, e) ↦ rw e (elim (Bool-cases (is_leased task.status)) [
      | inl held ↦ rw held (changed id task _ e (extend (now + duration) held))
      | inr free ↦ rw free here
    ])
  ]

  pub finish_task-Trace :
      (id : TaskId) (report : Report) (now : Time) → Trace s (finish_task id report now s).1
  unfolding finish_task
  finish_task-Trace id report now = elim (Option-cases (Dict.get id s.tasks)) [
    | inl e ↦ rw e here
    | inr (task, e) ↦ rw e (elim (Bool-cases (allowed task.status (final_status report))) [
      | inl a ↦
          let (run, r) = k.has_run id task e in
          rw a (
            next (changed id task _ e (finish report now (allowed-final task.status report a)))
              (new_event task.run_id task_finished run r))
      | inr a ↦ rw a here
    ])
  ]
