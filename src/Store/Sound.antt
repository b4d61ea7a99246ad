-- ===== src/Store/Sound.antt =====
-- When a store's tables agree with one another and with the lifecycles of tasks and runs.
pub mod Changes
use neorc.Prelude.{
  ℕ, suc, nat_eq, pair_eq, ◌<◌, ◌≡◌, Bool, true, false, not, Option, none, some, List, [], ◌∷◌,
  length,
}
use neorc.Prelude.Dict
use neorc.Prelude.Dict.Keyed.{IsKeyed}
use neorc.Flow.RunState.{Address, address_eq}
use neorc.Runs.{RunId, Run, RunStatus, is_active, Task, Event}
use neorc.Store.{Store}
use neorc.Task.{TaskId, TaskStatus, is_leased, is_terminal}

abbrev pub is_some {ℓ} : {A : Type ℓ} → Option A → Bool
is_some none = false
is_some (some a) = true

abbrev pub is_pending : TaskStatus → Bool
is_pending TaskStatus.pending = true
is_pending _ = false

abbrev pub is_running : TaskStatus → Bool
is_running TaskStatus.running = true
is_running _ = false

abbrev pub is_zero : ℕ → Bool
is_zero ℕ.zero = true
is_zero (suc n) = false

-- A lease is held exactly while a worker has the task, the time of finishing stands exactly in a
-- finished task, and only a task that was never handed out has no attempts.
pub record IsTaskSound (t : Task) : Type 0 where
  pub lease_held : is_some t.lease_expires_at ≡ is_leased t.status
  pub finish_time : is_some t.finished_at ≡ is_terminal t.status
  pub tried : is_zero t.attempts ≡ is_pending t.status
  pub start_time : is_running t.status ≡ true → is_some t.started_at ≡ true

pub record IsRunSound (r : Run) : Type 0 where
  pub finish_time : is_some r.finished_at ≡ not (is_active r.status)

-- The sequences count from `n`.
abbrev pub IsNumbered : ℕ → List Event → Type 0
IsNumbered n [] = Unit
IsNumbered n (e ∷ es) = (e.sequence ≡ n) × IsNumbered (suc n) es

pub record IsSound (s : Store) : Type 0 where
  pub tasks_keyed : IsKeyed (λ t. t.id) s.tasks
  pub runs_keyed : IsKeyed (λ r. r.id) s.runs
  pub task_sound : (id : TaskId) (t : Task) → Dict.get id s.tasks ≡ some t → IsTaskSound t
  pub run_sound : (id : RunId) (r : Run) → Dict.get id s.runs ≡ some r → IsRunSound r
  -- The table of addresses and the tasks name one another, so an address has one task at most.
  pub owned :
      (id : TaskId) (t : Task)
      → Dict.get id s.tasks ≡ some t
      → Dict.get (t.run_id, t.address) s.task_ids ≡ some id
  pub named :
      (run_id : RunId) (a : Address) (id : TaskId)
      → Dict.get (run_id, a) s.task_ids ≡ some id
      → (t : Task) × (Dict.get id s.tasks ≡ some t) × (t.run_id ≡ run_id) × (t.address ≡ a)
  pub has_run :
      (id : TaskId) (t : Task)
      → Dict.get id s.tasks ≡ some t
      → (r : Run) × (Dict.get t.run_id s.runs ≡ some r)
  pub rooted :
      (id : RunId) (r : Run)
      → Dict.get id s.runs ≡ some r
      → (root : Run) × (Dict.get r.root_id s.runs ≡ some root) × (root.root_id ≡ r.root_id)
  pub numbered : IsNumbered 1 s.events
