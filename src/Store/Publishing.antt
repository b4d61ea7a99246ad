-- ===== src/Store/Publishing.antt =====
-- What publishing, claiming and reporting do beyond the single change.
use neorc.Prelude.{
  ℕ, String, nat_eq, pair_eq, ◌≡◌, refl, ◌∙◌, ap, inl, inr, true, false, none, some, arith,
  Bool-cases, Option-cases,
}
use neorc.Prelude.Dict
use neorc.Prelude.Dict.{Dict}
use neorc.Prelude.Dict.Keyed.{get-set_self}
use neorc.Errors.{ok, err, run_state, task_state, ok-injective}
use neorc.Json.{JsonValue, Text}
use neorc.Flow.Definition.{Reference}
use neorc.Flow.RunState.{Address, address_eq}
use neorc.Runs.{RunId, Time, Run, is_active, Task, Libraries}
use neorc.Store.{Store}
use neorc.Store.Tasks.{
  publish_task, claim_task, extend_task_lease, finish_task, final_status, Report,
}
use neorc.Store.Sound.{IsSound}
use neorc.Store.Sound.Changes.{Trace-IsSound}
use neorc.Store.Refines.Tasks.{claim_task-Trace}
use neorc.Store.Requests.{Later}
use neorc.Store.Requests.Lasting.{Later-task_kept}
use neorc.Task.{TaskId, TaskStatus, allowed, is_terminal, is_leased}

-- The address of an active run names a task.
record IsPublished (run_id : RunId) (a : Address) (t : Task) (s : Store) : Type 0 where
  run : Run
  known : Dict.get run_id s.runs ≡ some run
  active : is_active run.status ≡ true
  id : TaskId
  taken : Dict.get (run_id, a) s.task_ids ≡ some id
  there : Dict.get id s.tasks ≡ some t

publish_task-there :
    (run_id : RunId) (a : Address) (queue handler : String) (params : Dict String Reference)
    (fixed : Dict String JsonValue) (fresh : TaskId) (now : Time) (s : Store) (t : Task)
    → IsPublished run_id a t s
    → publish_task run_id a queue handler params fixed fresh now s ≡ (ok t, s)
unfolding publish_task
publish_task-there run_id a queue handler params fixed fresh now s t p =
    rw (p.known, p.active, p.taken, p.there)

publish_task-IsPublished :
    (run_id : RunId) (a : Address) (queue handler : String) (params : Dict String Reference)
    (fixed : Dict String JsonValue) (fresh : TaskId) (now : Time) (s : Store) (t : Task)
    → (publish_task run_id a queue handler params fixed fresh now s).0 ≡ ok t
    → IsPublished run_id a t (publish_task run_id a queue handler params fixed fresh now s).1
unfolding publish_task
publish_task-IsPublished run_id a queue handler params fixed fresh now s t h =
    elim (Option-cases (Dict.get run_id s.runs)) [
      | inl e ↦ absurd (ground arith)
      | inr (run, e) ↦ elim (Bool-cases (is_active run.status)) [
        | inr ended ↦ absurd (ground arith)
        | inl active ↦ elim (Option-cases (Dict.get (run_id, a) s.task_ids)) [
          | inl free ↦
              rw (e, active, free)
                (record {
                  run = run;
                  known = e;
                  active = active;
                  id = fresh;
                  taken = get-set_self (run_id, a) fresh s.task_ids;
                  there =
                      get-set_self fresh _ s.tasks
                      ∙ ap some (ok-injective (rw (e, active, free) at h));
                })
          | inr (old, taken) ↦ elim (Option-cases (Dict.get old s.tasks)) [
            | inl lost ↦ absurd (ground arith)
            | inr (t', there) ↦
                rw (e, active, taken)
                  (record {
                    run = run;
                    known = e;
                    active = active;
                    id = old;
                    taken = taken;
                    there = there ∙ ap some (ok-injective (rw (e, active, taken, there) at h));
                  })
          ]
        ]
      ]
    ]

not-allowed :
    (current target : TaskStatus) → is_terminal current ≡ true → allowed current target ≡ false
unfolding allowed
not-allowed current target h = ground arith

not-allowed-final :
    (current : TaskStatus) (report : Report)
    → is_terminal current ≡ true
    → allowed current (final_status report) ≡ false
not-allowed-final current report h = not-allowed current (final_status report) h

terminal-not-leased : (status : TaskStatus) → is_terminal status ≡ true → is_leased status ≡ false
terminal-not-leased status h = ground arith

leased-allowed :
    (status : TaskStatus) → is_leased status ≡ true → allowed status TaskStatus.running ≡ true
unfolding allowed
leased-allowed status h = ground arith

-- Publishing an address again, with whatever content, returns the task that is there and changes
-- nothing.
pub publish_task-again :
    (run_id : RunId) (a : Address) (queue queue' handler handler' : String)
    (params params' : Dict String Reference) (fixed fixed' : Dict String JsonValue)
    (fresh fresh' : TaskId) (now now' : Time) (s : Store) (t : Task)
    → (publish_task run_id a queue handler params fixed fresh now s).0 ≡ ok t
    → publish_task run_id a queue' handler' params' fixed' fresh' now'
        (publish_task run_id a queue handler params fixed fresh now s).1
      ≡ (ok t, (publish_task run_id a queue handler params fixed fresh now s).1)
publish_task-again run_id a queue queue' handler handler' params params' fixed fixed' fresh fresh'
      now now' s t h =
    publish_task-there run_id a queue' handler' params' fixed' fresh' now' _ t
      (publish_task-IsPublished run_id a queue handler params fixed fresh now s t h)

-- A worker's report on a task that has finished is refused, and changes nothing; so are its claim
-- and its heartbeat.
pub finished_task-refused :
    (id : TaskId) (report : Report) (why : Text) (duration : ℕ) (now : Time) (s : Store) (t : Task)
    → Dict.get id s.tasks ≡ some t
    → is_terminal t.status ≡ true
    → (finish_task id report now s ≡ (err task_state, s))
      × (claim_task id why now s ≡ (err task_state, s))
      × (extend_task_lease id duration now s ≡ (err task_state, s))
unfolding finish_task claim_task extend_task_lease
finished_task-refused id report why duration now s t e done = (
  rw (e, not-allowed-final t.status report done),
  rw (e, not-allowed t.status TaskStatus.running done),
  rw (e, terminal-not-leased t.status done),
)

-- In a sound store, a claim of a leased task in a run that has ended raises, and fails the task for
-- good: whatever happens later, the task stays failed, with the reason given.
pub claim_task-ended :
    (l : Libraries) (id : TaskId) (why : Text) (now : Time) (s later : Store) (t : Task) (run : Run)
    → IsSound s
    → Dict.get id s.tasks ≡ some t
    → is_leased t.status ≡ true
    → Dict.get t.run_id s.runs ≡ some run
    → is_active run.status ≡ false
    → Later l (claim_task id why now s).1 later
    → ((claim_task id why now s).0 ≡ err run_state)
      × ((t' : Task) × (Dict.get id later.tasks ≡ some t')
          × (t'.status ≡ TaskStatus.failed)
          × (t'.error ≡ some why))
unfolding claim_task
claim_task-ended l id why now s later t run k e leased known ended reached =
    let a = leased-allowed t.status leased in
    let k' = Trace-IsSound (claim_task-Trace k id why now) k in
    let failed : Task = record t {
      status = TaskStatus.failed;
      lease_expires_at = none;
      error = some why;
      finished_at = some now;
    } in
    let found : Dict.get id (claim_task id why now s).1.tasks ≡ some failed =
      rw (e, a, known, ended) (get-set_self id failed s.tasks) in
    (
      rw (e, a, known, ended),
      (failed, Later-task_kept l id failed reached k' found refl, refl, refl),
    )
