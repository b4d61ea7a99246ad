-- ===== src/Store/Sound/Changes.antt =====
-- Every change of the abstract machine keeps a store sound.
use neorc.Prelude.{
  ℕ, suc, ◌+◌, nat_eq, pair_eq, nat_beq_iff, ◌==◌, ◌≡◌, refl, sym, ◌∙◌, ap, subst, inl, inr, none,
  some, List, [], ◌∷◌, ◌++◌, arith, length, Bool-cases,
}
use neorc.Prelude.Dict
use neorc.Prelude.Dict.{get-set}
use neorc.Prelude.Dict.Keyed.{IsKeyed-set, get-set_self, get-set_ne, get-set_cases}
use neorc.Flow.RunState.{Address, address_eq}
use neorc.Runs.{RunId, Run, Task, Event}
use neorc.Store.{Store}
use neorc.Store.Tasks.{is_receivable, leased, finished_by, or_now, success, failure}
use neorc.Store.Changes.{
  TaskChange, lease, start, extend, finish, discard, RunChange, succeed, fail, cancel, Change,
  on_flows, on_task, new_task, on_run, new_run, new_event, Trace, here, next, IsNewTask,
}
use neorc.Store.Sound.{IsSound, IsTaskSound, IsRunSound, IsNumbered}

pub TaskChange-IsTaskSound :
    {old new : Task} → TaskChange old new → IsTaskSound old → IsTaskSound new
unfolding is_receivable leased finished_by or_now
TaskChange-IsTaskSound (lease d now h) k = ground arith
TaskChange-IsTaskSound (start now h) k = ground arith
TaskChange-IsTaskSound (extend t h) k = ground arith
TaskChange-IsTaskSound (finish (success v) now h) k = ground arith
TaskChange-IsTaskSound (finish (failure w) now h) k = ground arith
TaskChange-IsTaskSound (discard w now h) k = ground arith

-- Who a task belongs to, and where, never changes.
pub record IsSameTask (old new : Task) : Type 0 where
  pub id : new.id ≡ old.id
  pub run_id : new.run_id ≡ old.run_id
  pub address : new.address ≡ old.address
  pub queue : new.queue ≡ old.queue
  pub handler : new.handler ≡ old.handler

pub TaskChange-IsSameTask : {old new : Task} → TaskChange old new → IsSameTask old new
unfolding leased finished_by
TaskChange-IsSameTask (lease d now h) = ground arith
TaskChange-IsSameTask (start now h) = ground arith
TaskChange-IsSameTask (extend t h) = ground arith
TaskChange-IsSameTask (finish (success v) now h) = ground arith
TaskChange-IsSameTask (finish (failure w) now h) = ground arith
TaskChange-IsSameTask (discard w now h) = ground arith

pub record IsSameRun (old new : Run) : Type 0 where
  pub id : new.id ≡ old.id
  pub root_id : new.root_id ≡ old.root_id

pub RunChange-IsSameRun : {old new : Run} → RunChange old new → IsSameRun old new
RunChange-IsSameRun (succeed v now) = ground arith
RunChange-IsSameRun (fail w now) = ground arith
RunChange-IsSameRun (cancel w now) = ground arith

pub RunChange-IsRunSound : {old new : Run} → RunChange old new → IsRunSound new
RunChange-IsRunSound (succeed v now) = ground arith
RunChange-IsRunSound (fail w now) = ground arith
RunChange-IsRunSound (cancel w now) = ground arith

IsNewTask-IsTaskSound : (t : Task) → IsNewTask t → IsTaskSound t
IsNewTask-IsTaskSound t h = ground arith

module _ {s : Store} (k : IsSound s) where
  module _ (old new : Task) (g : Dict.get old.id s.tasks ≡ some old) (c : TaskChange old new) where
    on_task-IsSound : IsSound (record s { tasks = Dict.set old.id new s.tasks })
    on_task-IsSound =
        let same = TaskChange-IsSameTask c in
        record {
          tasks_keyed = IsKeyed-set (λ t. t.id) old.id new s.tasks k.tasks_keyed same.id;
          runs_keyed = k.runs_keyed;
          task_sound = λ id t h. elim (get-set_cases old.id id new t s.tasks h) [
            | inl (p, q) ↦
                subst IsTaskSound q (TaskChange-IsTaskSound c (k.task_sound old.id old g))
            | inr (p, q) ↦ k.task_sound id t q
          ];
          run_sound = k.run_sound;
          owned = λ id t h. elim (get-set_cases old.id id new t s.tasks h) [
            | inl (p, q) ↦ cc (k.owned old.id old g, same.run_id, same.address)
            | inr (p, q) ↦ k.owned id t q
          ];
          named = λ run_id a id h.
              let (t, found, of_run, at) = k.named run_id a id h in
              elim (Bool-cases (old.id == id)) [
                | inl p ↦
                    let e = (nat_beq_iff old.id id).0 p in
                    (
                      new,
                      subst (λ i. Dict.get i (Dict.set old.id new s.tasks) ≡ some new) e
                          (get-set_self old.id new s.tasks),
                      ground (arith, same.run_id),
                      ground (arith, same.address),
                    )
                | inr p ↦ (
                  t,
                  get-set_ne new s.tasks (λ e. ground (arith, nat_beq_iff old.id id)) ∙ found,
                  of_run,
                  at,
                )
              ];
          has_run = λ id t h. elim (get-set_cases old.id id new t s.tasks h) [
            | inl (p, q) ↦
                let (r, found) = k.has_run old.id old g in (r, ground (arith, same.run_id))
            | inr (p, q) ↦ k.has_run id t q
          ];
          rooted = k.rooted;
          numbered = k.numbered;
        }

  module _ (t : Task) (run : Run) (absent : Dict.get t.id s.tasks ≡ none)
      (free : Dict.get (t.run_id, t.address) s.task_ids ≡ none)
      (g : Dict.get t.run_id s.runs ≡ some run) (n : IsNewTask t) where
    new_task-IsSound : IsSound (record s {
      tasks = Dict.set t.id t s.tasks;
      task_ids = Dict.set (t.run_id, t.address) t.id s.task_ids;
    })
    new_task-IsSound = record {
      tasks_keyed = IsKeyed-set (λ u. u.id) t.id t s.tasks k.tasks_keyed refl;
      runs_keyed = k.runs_keyed;
      task_sound = λ id u h. elim (get-set_cases t.id id t u s.tasks h) [
        | inl (p, q) ↦ subst IsTaskSound q (IsNewTask-IsTaskSound t n)
        | inr (p, q) ↦ k.task_sound id u q
      ];
      run_sound = k.run_sound;
      owned = λ id u h. elim (get-set_cases t.id id t u s.tasks h) [
        | inl (p, q) ↦ cc (get-set_self (t.run_id, t.address) t.id s.task_ids)
        | inr (p, q) ↦ get-set_ne t.id s.task_ids (λ e. cc (k.owned id u q)) ∙ k.owned id u q
      ];
      named = λ run_id a id h.
          elim (get-set_cases (t.run_id, t.address) (run_id, a) t.id id s.task_ids h) [
            | inl (p, q) ↦ (
              t,
              subst (λ i. Dict.get i (Dict.set t.id t s.tasks) ≡ some t) q
                  (get-set_self t.id t s.tasks),
              ap (λ (x : RunId × Address). x.0) p,
              ap (λ (x : RunId × Address). x.1) p,
            )
            | inr (p, q) ↦
                let (u, found, of_run, at) = k.named run_id a id q in
                (u, get-set_ne t s.tasks (λ e. cc) ∙ found, of_run, at)
          ];
      has_run = λ id u h. elim (get-set_cases t.id id t u s.tasks h) [
        | inl (p, q) ↦ (run, cc)
        | inr (p, q) ↦ k.has_run id u q
      ];
      rooted = k.rooted;
      numbered = k.numbered;
    }

  -- A run that was found is found again, changed or not, under the same root.
  still_run :
      (id : RunId) (new : Run) (j : RunId) (r : Run)
      → ((old : Run) → Dict.get id s.runs ≡ some old → new.root_id ≡ old.root_id)
      → Dict.get j s.runs ≡ some r
      → (r' : Run) × (Dict.get j (Dict.set id new s.runs) ≡ some r') × (r'.root_id ≡ r.root_id)
  still_run id new j r keeps h = elim (Bool-cases (id == j)) [
    | inl p ↦
        (new, ground (arith, get-set id j new s.runs), keeps r (ground (arith, nat_beq_iff id j)))
    | inr p ↦ (r, ground (arith, get-set id j new s.runs), refl)
  ]

  set_run-IsSound :
      (new : Run)
      → ((old : Run) → Dict.get new.id s.runs ≡ some old → new.root_id ≡ old.root_id)
      → IsRunSound new
      → ((root : Run) × (Dict.get new.root_id (Dict.set new.id new s.runs) ≡ some root)
          × (root.root_id ≡ new.root_id))
      → IsSound (record s { runs = Dict.set new.id new s.runs })
  set_run-IsSound new keeps ok_run has_root = record {
    tasks_keyed = k.tasks_keyed;
    runs_keyed = IsKeyed-set (λ r. r.id) new.id new s.runs k.runs_keyed refl;
    task_sound = k.task_sound;
    run_sound = λ id r h. elim (get-set_cases new.id id new r s.runs h) [
      | inl (p, q) ↦ subst IsRunSound q ok_run
      | inr (p, q) ↦ k.run_sound id r q
    ];
    owned = k.owned;
    named = k.named;
    has_run = λ id t h.
        let (r, found) = k.has_run id t h in
        let (r', found', same) = still_run new.id new t.run_id r keeps found in (r', found');
    rooted = λ id r h. elim (get-set_cases new.id id new r s.runs h) [
      | inl (p, q) ↦
          subst
            (λ (x : Run).
              (root : Run) × (Dict.get x.root_id (Dict.set new.id new s.runs) ≡ some root)
              × (root.root_id ≡ x.root_id))
            q has_root
      | inr (p, q) ↦
          let (root, found, own) = k.rooted id r q in
          let (root', found', same) = still_run new.id new r.root_id root keeps found in
          (root', found', same ∙ own)
    ];
    numbered = k.numbered;
  }

  on_run-IsSound :
      (old new : Run)
      → Dict.get old.id s.runs ≡ some old
      → RunChange old new
      → IsSound (record s { runs = Dict.set old.id new s.runs })
  on_run-IsSound old new g c =
      let same = RunChange-IsSameRun c in
      let keeps : (o : Run) → Dict.get new.id s.runs ≡ some o → new.root_id ≡ o.root_id =
        λ o h. let h' = rw same.id at h in cc (g, h', same.root_id) in
      let (root, found, own) = k.rooted old.id old g in
      let (root', found', own') = still_run new.id new old.root_id root keeps found in
      subst (λ i. IsSound (record s { runs = Dict.set i new s.runs })) same.id
        (set_run-IsSound new keeps (RunChange-IsRunSound c) (
          root',
          subst (λ i. Dict.get i (Dict.set new.id new s.runs) ≡ some root') (sym same.root_id)
              found',
          own' ∙ (own ∙ sym same.root_id),
        ))

IsNumbered-append :
    (n : ℕ) (es : List Event) (e : Event)
    → IsNumbered n es
    → e.sequence ≡ length es + n
    → IsNumbered n (es ++ e ∷ [])
IsNumbered-append n [] e h p = (omega arith, tt)
IsNumbered-append n (x ∷ es) e h p = (h.0, IsNumbered-append (suc n) es e h.1 (omega arith))

pub Change-IsSound : {s t : Store} → Change s t → IsSound s → IsSound t
Change-IsSound (on_flows f) k = record {
  tasks_keyed = k.tasks_keyed;
  runs_keyed = k.runs_keyed;
  task_sound = k.task_sound;
  run_sound = k.run_sound;
  owned = k.owned;
  named = k.named;
  has_run = k.has_run;
  rooted = k.rooted;
  numbered = k.numbered;
}
Change-IsSound (on_task old new g c) k = on_task-IsSound k old new g c
Change-IsSound (new_task t run absent free g a n) k = new_task-IsSound k t run absent free g n
Change-IsSound (on_run old new g a c) k = on_run-IsSound k old new g c
Change-IsSound {s} (new_run r absent n) k =
    set_run-IsSound k r (λ old h. cc) (ground (arith, n.starts_active, n.unfinished))
      (n.root, n.rooted, n.root_of_itself)
Change-IsSound {s} (new_event run_id kind run g) k = record {
  tasks_keyed = k.tasks_keyed;
  runs_keyed = k.runs_keyed;
  task_sound = k.task_sound;
  run_sound = k.run_sound;
  owned = k.owned;
  named = k.named;
  has_run = k.has_run;
  rooted = k.rooted;
  numbered = IsNumbered-append 1 s.events _ k.numbered (omega arith);
}

pub Trace-IsSound : {s t : Store} → Trace s t → IsSound s → IsSound t
Trace-IsSound here k = k
Trace-IsSound (next r c) k = Change-IsSound c (Trace-IsSound r k)
