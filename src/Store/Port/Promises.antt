-- ===== src/Store/Port/Promises.antt =====
-- What the docstrings of neorc_core/ports/_store.py promise, and that the in-memory store keeps it.
use neorc.Prelude.{
  ℕ, ◌+◌, ◌<◌, String, nat_eq, ◌≡◌, ◌≢◌, refl, sym, subst, true, false, none, some, arith,
}
use neorc.Prelude.Dict
use neorc.Prelude.Dict.{Dict}
use neorc.Errors.{ok, err, task_state, run_state, run_not_found, task_not_found}
use neorc.Json.{JsonValue, Text}
use neorc.Flow.Definition.{Reference}
use neorc.Flow.RunState.{Address}
use neorc.Runs.{RunId, Time, Run, RunStatus, is_active, Task, Libraries}
use neorc.Store.{Store}
use neorc.Store.Runs.{get_run, fail_run_tree, cancel_run_tree}
use neorc.Store.Tasks.{get_task, Report, publish_task}
use neorc.Store.Port.{Port, memory}
use neorc.Store.Sound.{IsSound}
use neorc.Store.Trees.{end, run_tree-ended}
use neorc.Store.Leases.{receive_task-exclusive}
use neorc.Store.Publishing.{publish_task-again, finished_task-refused}
use neorc.Store.Sound.Changes.{Trace-IsSound}
use neorc.Store.Requests.{
  Request, upload, start, succeed, fail_tree, cancel_tree, publish, receive, claim, heartbeat,
  finish, perform, IsFresh, perform-Trace,
}
use neorc.Store.Requests.Lasting.{init-IsSound}
use neorc.Task.{TaskId, is_terminal}

-- The store that a request leaves.
abbrev pub asked : (p : Port) → Request → Time → p.State → p.State
asked p (upload reason uploads) now s = (p.store_flows reason now uploads s).1
asked p (start flow version inputs parent a fresh) now s =
    (p.start_run flow version inputs parent a fresh now s).1
asked p (succeed run_id output) now s = (p.succeed_run run_id output now s).1
asked p (fail_tree run_id reason) now s = (p.fail_run_tree run_id reason now s).1
asked p (cancel_tree run_id reason) now s = (p.cancel_run_tree run_id reason now s).1
asked p (publish run_id a queue handler params fixed fresh) now s =
    (p.publish_task run_id a queue handler params fixed fresh now s).1
asked p (receive queue duration) now s = (p.receive_task queue duration now s).1
asked p (claim task_id why) now s = (p.claim_task task_id why now s).1
asked p (heartbeat task_id duration) now s = (p.extend_task_lease task_id duration now s).1
asked p (finish task_id report) now s = (p.finish_task task_id report now s).1

-- A random id is no run's, and no task's.
abbrev pub IsNew : (p : Port) → Request → p.State → Type 0
IsNew p (start _ _ _ _ _ fresh) s = (p.get_run fresh s).0 ≡ err run_not_found
IsNew p (publish _ _ _ _ _ _ fresh) s = (p.get_task fresh s).0 ≡ err task_not_found
IsNew p _ s = Unit

pub record Promises (p : Port) : Type 1 where
  -- The states that a store is ever in.
  IsValid : p.State → Type 0
  new_valid : IsValid p.new
  valid_kept :
      (r : Request) (now : Time) (s : p.State) → IsValid s → IsNew p r s → IsValid (asked p r now s)
  -- `publish_task`: an address that is published again has its first task, unchanged.
  published_once :
      (run_id : RunId) (a : Address) (queue queue' handler handler' : String)
      (params params' : Dict String Reference) (fixed fixed' : Dict String JsonValue)
      (fresh fresh' : TaskId) (now now' : Time) (s : p.State) (t : Task)
      → (p.publish_task run_id a queue handler params fixed fresh now s).0 ≡ ok t
      → p.publish_task run_id a queue' handler' params' fixed' fresh' now'
          (p.publish_task run_id a queue handler params fixed fresh now s).1
        ≡ (ok t, (p.publish_task run_id a queue handler params fixed fresh now s).1)
  -- `publish_task`: a run that is not active is refused.
  published_active :
      (run_id : RunId) (a : Address) (queue handler : String) (params : Dict String Reference)
      (fixed : Dict String JsonValue) (fresh : TaskId) (now : Time) (s : p.State) (run : Run)
      → (p.get_run run_id s).0 ≡ ok run
      → is_active run.status ≡ false
      → p.publish_task run_id a queue handler params fixed fresh now s ≡ (err run_state, s)
  -- `receive_task`: no two callers are given the same task while its lease holds.
  received_alone :
      (queue queue' : String) (duration duration' : ℕ) (now later : Time) (s : p.State) (t u : Task)
      → IsValid s
      → (p.receive_task queue duration now s).0 ≡ ok (some t)
      → (p.receive_task queue' duration' later (p.receive_task queue duration now s).1).0
        ≡ ok (some u)
      → later < now + duration
      → u.id ≢ t.id
  -- `finish_task`, `claim_task` and `extend_task_lease`: a finished task is never changed.
  finished_for_good :
      (id : TaskId) (report : Report) (why : Text) (duration : ℕ) (now : Time) (s : p.State)
      (t : Task)
      → (p.get_task id s).0 ≡ ok t
      → is_terminal t.status ≡ true
      → (p.finish_task id report now s ≡ (err task_state, s))
        × (p.claim_task id why now s ≡ (err task_state, s))
        × (p.extend_task_lease id duration now s ≡ (err task_state, s))
  -- `fail_run_tree` and `cancel_run_tree`: every active run of the tree ends.
  tree_ends :
      (s : p.State) (run_id id : RunId) (run other : Run) (reason : Text) (now : Time)
      → IsValid s
      → (p.get_run run_id s).0 ≡ ok run
      → (p.get_run id s).0 ≡ ok other
      → ((p.get_run id (p.fail_run_tree run_id reason now s).1).0
          ≡ ok (end run.root_id RunStatus.failed reason now other))
        × ((p.get_run id (p.cancel_run_tree run_id reason now s).1).0
            ≡ ok (end run.root_id RunStatus.cancelled reason now other))

get_run-found :
    (id : RunId) (s : Store) (run : Run) → (get_run id s).0 ≡ ok run → Dict.get id s.runs ≡ some run
unfolding get_run
get_run-found id s run h = ground arith

found-get_run :
    (id : RunId) (s : Store) (run : Run) → Dict.get id s.runs ≡ some run → (get_run id s).0 ≡ ok run
unfolding get_run
found-get_run id s run h = rw h

get_task-found :
    (id : TaskId) (s : Store) (t : Task) → (get_task id s).0 ≡ ok t → Dict.get id s.tasks ≡ some t
unfolding get_task
get_task-found id s t h = ground arith

no_run : (id : RunId) (s : Store) → (get_run id s).0 ≡ err run_not_found → Dict.get id s.runs ≡ none
unfolding get_run
no_run id s h = ground arith

no_task :
    (id : TaskId) (s : Store) → (get_task id s).0 ≡ err task_not_found → Dict.get id s.tasks ≡ none
unfolding get_task
no_task id s h = ground arith

asked-perform :
    (l : Libraries) (r : Request) (now : Time) (s : Store)
    → asked (memory l) r now s ≡ perform l r now s
unfolding perform
asked-perform l (upload _ _) now s = refl
asked-perform l (start _ _ _ _ _ _) now s = refl
asked-perform l (succeed _ _) now s = refl
asked-perform l (fail_tree _ _) now s = refl
asked-perform l (cancel_tree _ _) now s = refl
asked-perform l (publish _ _ _ _ _ _ _) now s = refl
asked-perform l (receive _ _) now s = refl
asked-perform l (claim _ _) now s = refl
asked-perform l (heartbeat _ _) now s = refl
asked-perform l (finish _ _) now s = refl

IsNew-IsFresh : (l : Libraries) (r : Request) (s : Store) → IsNew (memory l) r s → IsFresh r s
IsNew-IsFresh l (start _ _ _ _ _ fresh) s h = no_run fresh s h
IsNew-IsFresh l (publish _ _ _ _ _ _ fresh) s h = no_task fresh s h
IsNew-IsFresh l (upload _ _) s h = tt
IsNew-IsFresh l (succeed _ _) s h = tt
IsNew-IsFresh l (fail_tree _ _) s h = tt
IsNew-IsFresh l (cancel_tree _ _) s h = tt
IsNew-IsFresh l (receive _ _) s h = tt
IsNew-IsFresh l (claim _ _) s h = tt
IsNew-IsFresh l (heartbeat _ _) s h = tt
IsNew-IsFresh l (finish _ _) s h = tt

publish_task-ended :
    (run_id : RunId) (a : Address) (queue handler : String) (params : Dict String Reference)
    (fixed : Dict String JsonValue) (fresh : TaskId) (now : Time) (s : Store) (run : Run)
    → (get_run run_id s).0 ≡ ok run
    → is_active run.status ≡ false
    → publish_task run_id a queue handler params fixed fresh now s ≡ (err run_state, s)
unfolding publish_task
publish_task-ended run_id a queue handler params fixed fresh now s run h ended =
    rw (get_run-found run_id s run h, ended)

-- The in-memory store keeps what the port promises: a new store is sound and every request keeps a
-- store sound, whose random ids are new; it publishes an address once and only in an
-- active run, hands no leased task to a second worker, never changes a finished task, and ends every
-- active run of a tree.
pub memory-Promises : (l : Libraries) → Promises (memory l)
memory-Promises l = record {
  IsValid = IsSound;
  new_valid = init-IsSound;
  valid_kept = λ r now s k new.
      subst IsSound (sym (asked-perform l r now s))
        (Trace-IsSound (perform-Trace l r now s k (IsNew-IsFresh l r s new)) k);
  published_once = publish_task-again;
  published_active = publish_task-ended;
  received_alone = receive_task-exclusive;
  finished_for_good = λ id report why duration now s t h e.
      finished_task-refused id report why duration now s t (get_task-found id s t h) e;
  tree_ends = λ s run_id id run other reason now k h g.
      let (_, failed, _, cancelled) =
        run_tree-ended s run_id id run other reason now k (get_run-found run_id s run h)
          (get_run-found id s other g) in
      (
        found-get_run id (fail_run_tree run_id reason now s).1 _ failed,
        found-get_run id (cancel_run_tree run_id reason now s).1 _ cancelled,
      );
}
