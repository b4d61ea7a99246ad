-- ===== src/Store/Leases.antt =====
-- What `receive_task` hands out: the oldest task that is free, and none that a worker holds.
use mathlib.Core.Option.{some-injective}
use neorc.Prelude.{
  ℕ, ◌+◌, ◌<◌, ◌≤◌, String, string_eq, nat_eq, ◌==◌, ==_iff, ◌&&◌, ◌≡◌, ◌≢◌, refl, sym, ◌∙◌, ap,
  subst, inl, inr, true, Option, none, some, List, All, [], ◌∷◌, ◌++◌, arith, Bool-cases,
  &&-eq-true,
}
use neorc.Prelude.Dict
use neorc.Prelude.Dict.Keyed.{get-set_self}
use neorc.Errors.{ok}
use neorc.Runs.{Time, Task}
use neorc.Store.{Store}
use neorc.Store.Tasks.{receive_task, next_task, is_receivable, leased}
use neorc.Store.Sound.{IsSound}
use neorc.Store.Sound.Changes.{Trace-IsSound}
use neorc.Store.Refines.Tasks.{receive_task-Trace, receive_task-found}
use neorc.Task.{TaskStatus, is_leased}

-- The task was never handed out, or the worker that has it has let its lease lapse.
pub data IsFree (now : Time) (t : Task) : Type 0 where
  unreceived : t.status ≡ TaskStatus.pending → IsFree now t
  lapsed :
      (expiry : Time)
      → is_leased t.status ≡ true
      → t.lease_expires_at ≡ some expiry
      → expiry ≤ now
      → IsFree now t

-- The task is the queue's, and free.
abbrev pub IsReady : String → Time → Task → Type 0
IsReady queue now t = (t.queue ≡ queue) × IsFree now t

is_receivable-IsFree : (now : Time) (t : Task) → is_receivable t now ≡ true → IsFree now t
unfolding is_receivable
is_receivable-IsFree now t h = go t.status t.lease_expires_at refl refl
  where
    go : (st : TaskStatus) (e : Option Time) → t.status ≡ st → t.lease_expires_at ≡ e → IsFree now t
    go TaskStatus.pending e p q = unreceived p
    go TaskStatus.received (some x) p q = lapsed x (ground arith) q (ground arith)
    go TaskStatus.running (some x) p q = lapsed x (ground arith) q (ground arith)
    go TaskStatus.received none p q = absurd (ground arith)
    go TaskStatus.running none p q = absurd (ground arith)
    go TaskStatus.succeeded e p q = absurd (ground arith)
    go TaskStatus.failed e p q = absurd (ground arith)

IsFree-is_receivable : (now : Time) (t : Task) → IsFree now t → is_receivable t now ≡ true
unfolding is_receivable
IsFree-is_receivable now t (unreceived p) = ground arith
IsFree-is_receivable now t (lapsed x p q h) = ground arith

-- The first of the tasks that is ready, and where it stands.
abbrev pub IsOldest : String → Time → List Task → Option Task → Type 0
IsOldest queue now ts none = All (λ t. ¬ IsReady queue now t) ts
IsOldest queue now ts (some t) =
    (before : List Task) × (later : List Task) × (ts ≡ before ++ t ∷ later)
    × IsReady queue now t
    × All (λ u. ¬ IsReady queue now u) before

IsOldest-cons :
    (queue : String) (now : Time) (t : Task) (ts : List Task) (o : Option Task)
    → ¬ IsReady queue now t
    → IsOldest queue now ts o
    → IsOldest queue now (t ∷ ts) o
IsOldest-cons queue now t ts none h k = (h, k)
IsOldest-cons queue now t ts (some u) h (before, later, e, ready, none_before) =
    (t ∷ before, later, ap (λ (l : List Task). t ∷ l) e, ready, (h, none_before))

next_task-IsOldest :
    (queue : String) (now : Time) (ts : List Task) → IsOldest queue now ts (next_task queue now ts)
unfolding next_task
next_task-IsOldest queue now [] = tt
next_task-IsOldest queue now (t ∷ ts) =
    elim (Bool-cases ((t.queue == queue) && is_receivable t now)) [
      | inl picked ↦
          let (at, free) = &&-eq-true (t.queue == queue) (is_receivable t now) picked in
          rw picked
            ([], ts, refl, ((==_iff t.queue queue).0 at, is_receivable-IsFree now t free), tt)
      | inr passed ↦ rw passed (
          IsOldest-cons queue now t ts (next_task queue now ts)
            (λ (at, free).
              ground (arith, (==_iff t.queue queue).1 at, IsFree-is_receivable now t free))
            (next_task-IsOldest queue now ts))
    ]

-- What `receive_task` does with the task it picked, or with none.
abbrev pub Receives : String → ℕ → Time → Store → Option Task → Type 0
Receives queue duration now s none = receive_task queue duration now s ≡ (ok none, s)
Receives queue duration now s (some t) = receive_task queue duration now s ≡ (
  ok (some (leased t duration now)),
  record s { tasks = Dict.set t.id (leased t duration now) s.tasks },
)

next_task-Receives :
    (queue : String) (duration : ℕ) (now : Time) (s : Store) (o : Option Task)
    → next_task queue now (Dict.values s.tasks) ≡ o
    → Receives queue duration now s o
unfolding receive_task
next_task-Receives queue duration now s none e = rw (e, receive_task)
next_task-Receives queue duration now s (some t) e = rw (e, receive_task)

-- `receive_task` leases the oldest task of the queue that is free: the first in publishing order
-- that no worker received, or whose lease has lapsed. It gives `none`, and changes nothing, exactly
-- when the queue has no such task; otherwise the one task changes, by the lease that it returns.
pub receive_task-IsOldest :
    (queue : String) (duration : ℕ) (now : Time) (s : Store)
    → (o : Option Task) × IsOldest queue now (Dict.values s.tasks) o
      × Receives queue duration now s o
receive_task-IsOldest queue duration now s = (
  next_task queue now (Dict.values s.tasks),
  next_task-IsOldest queue now (Dict.values s.tasks),
  next_task-Receives queue duration now s (next_task queue now (Dict.values s.tasks)) refl,
)

not_yet :
    (now : Time) (duration : ℕ) (later : Time) (task : Task)
    → later < now + duration
    → ¬ (is_receivable (leased task duration now) later ≡ true)
unfolding is_receivable leased
not_yet now duration later task held free = ground arith

-- A task that was received from a sound store is not handed out by the next receive, on any queue,
-- before its lease lapses.
pub receive_task-exclusive :
    (queue queue' : String) (duration duration' : ℕ) (now later : Time) (s : Store) (t u : Task)
    → IsSound s
    → (receive_task queue duration now s).0 ≡ ok (some t)
    → (receive_task queue' duration' later (receive_task queue duration now s).1).0 ≡ ok (some u)
    → later < now + duration
    → u.id ≢ t.id
unfolding leased
receive_task-exclusive queue queue' duration duration' now later s t u k first second held same =
    let (task, leases, found, _, after) = receive_task-found k queue duration now t first in
    let k' = Trace-IsSound (receive_task-Trace k queue duration now) k in
    let (task', leases', found', free, _) = receive_task-found k' queue' duration' later u second in
    let id₁ : t.id ≡ task.id = ap (λ (v : Task). v.id) leases in
    let id₂ : u.id ≡ task'.id = ap (λ (v : Task). v.id) leases' in
    let ids : task'.id ≡ task.id = sym id₂ ∙ (same ∙ id₁) in
    let now_there : Dict.get task'.id (Dict.set task.id t s.tasks) ≡ some task' =
      subst (λ (x : Store). Dict.get task'.id x.tasks ≡ some task') after found' in
    let there : Dict.get task.id (Dict.set task.id t s.tasks) ≡ some task' =
      subst (λ i. Dict.get i (Dict.set task.id t s.tasks) ≡ some task') ids now_there in
    let one : leased task duration now ≡ task' =
      sym leases ∙ some-injective t task' (sym (get-set_self task.id t s.tasks) ∙ there) in
    not_yet now duration later task held (subst (λ x. is_receivable x later ≡ true) (sym one) free)
