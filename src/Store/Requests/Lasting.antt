-- ===== src/Store/Requests/Lasting.antt =====
-- What holds of a store over its whole life.
use neorc.Prelude.{
  ℕ, nat_eq, ◌≡◌, refl, sym, ◌∙◌, ap, subst, take, drop, length, true, false, some, List, [], ◌∷◌,
  ◌++◌,
}
use mathlib.Core.List.{append_assoc, append-nil}
use neorc.Prelude.Dict
use neorc.Errors.{ok, ok-injective}
use neorc.Store.Runs.{events_after, last_sequence}
use neorc.Runs.{RunId, Run, Task, Event, Libraries, is_active}
use neorc.Store.{Store, init}
use neorc.Store.Changes.{
  Change, on_flows, on_task, new_task, on_run, new_run, new_event, Trace, here, next,
}
use neorc.Store.Changes.Kept.{Trace-task_kept, Trace-run_kept}
use neorc.Store.Sound.{IsSound}
use neorc.Store.Sound.Changes.{Trace-IsSound}
use neorc.Store.Requests.{Later, now_itself, after, perform-Trace}
use neorc.Task.{TaskId, is_terminal}

pub init-IsSound : IsSound init
unfolding Dict.get
init-IsSound = record {
  tasks_keyed = tt;
  runs_keyed = tt;
  task_sound = λ id t h. cc;
  run_sound = λ id t h. cc;
  owned = λ id t h. cc;
  named = λ r a id h. cc;
  has_run = λ id t h. cc;
  rooted = λ id t h. cc;
  numbered = tt;
}

module _ (l : Libraries) where
  -- Whatever is asked of a store that is sound, it stays sound.
  pub Later-IsSound : {s t : Store} → Later l s t → IsSound s → IsSound t
  Later-IsSound now_itself k = k
  Later-IsSound (after {t = t} r now before fresh) k =
      let k' = Later-IsSound before k in Trace-IsSound (perform-Trace l r now t k' fresh) k'

  -- A task of a sound store that has succeeded or failed stays exactly as it is, whatever is asked.
  pub Later-task_kept :
      {s t : Store} (id : TaskId) (task : Task)
      → Later l s t
      → IsSound s
      → Dict.get id s.tasks ≡ some task
      → is_terminal task.status ≡ true
      → Dict.get id t.tasks ≡ some task
  Later-task_kept id task now_itself k h e = h
  Later-task_kept id task (after {t = t} r now before fresh) k h e =
      let k' = Later-IsSound before k in
      Trace-task_kept id task (perform-Trace l r now t k' fresh)
        (Later-task_kept id task before k h e) e

  -- A run of a sound store that has ended stays exactly as it is, whatever is asked.
  pub Later-run_kept :
      {s t : Store} (id : RunId) (run : Run)
      → Later l s t
      → IsSound s
      → Dict.get id s.runs ≡ some run
      → is_active run.status ≡ false
      → Dict.get id t.runs ≡ some run
  Later-run_kept id run now_itself k h e = h
  Later-run_kept id run (after {t = t} r now before fresh) k h e =
      let k' = Later-IsSound before k in
      Trace-run_kept id run (perform-Trace l r now t k' fresh) (Later-run_kept id run before k h e)
        e

-- The log holds what it held, and more behind it.
abbrev pub Extends : List Event → List Event → Type 0
Extends es fs = (more : List Event) × (fs ≡ es ++ more)

Extends-refl : (es : List Event) → Extends es es
Extends-refl es = ([], sym (append-nil es))

Change-Extends : {s t : Store} → Change s t → Extends s.events t.events
Change-Extends {s} (on_flows _) = Extends-refl s.events
Change-Extends {s} (on_task _ _ _ _) = Extends-refl s.events
Change-Extends {s} (new_task _ _ _ _ _ _ _) = Extends-refl s.events
Change-Extends {s} (on_run _ _ _ _ _) = Extends-refl s.events
Change-Extends {s} (new_run _ _ _) = Extends-refl s.events
Change-Extends (new_event run_id kind _ _) = (_, refl)

Extends-trans : (es fs gs : List Event) → Extends es fs → Extends fs gs → Extends es gs
Extends-trans es fs gs (xs, p) (ys, q) =
    (xs ++ ys, q ∙ (ap (λ l. l ++ ys) p ∙ append_assoc es xs ys))

Trace-Extends : {s t : Store} → Trace s t → Extends s.events t.events
Trace-Extends {s} here = Extends-refl s.events
Trace-Extends (next r c) = Extends-trans _ _ _ (Trace-Extends r) (Change-Extends c)

drop-append : (es fs : List Event) → drop (length es) (es ++ fs) ≡ fs
drop-append [] fs = refl
drop-append (e ∷ es) fs = drop-append es fs

module _ (l : Libraries) where
  Later-Extends : {s t : Store} → Later l s t → IsSound s → Extends s.events t.events
  Later-Extends {s} now_itself k = Extends-refl s.events
  Later-Extends (after {t = t} r now before fresh) k =
      Extends-trans _ _ _ (Later-Extends before k)
        (Trace-Extends (perform-Trace l r now t (Later-IsSound l before k) fresh))

  -- A reader that begins after the last sequence of a sound store reads, later on, exactly the events
  -- appended since, oldest first and up to its limit: the log only grows at its end.
  pub Later-Reads :
      {s t : Store} (last limit : ℕ)
      → Later l s t
      → IsSound s
      → (last_sequence s).0 ≡ ok last
      → (more : List Event) × (t.events ≡ s.events ++ more)
        × ((events_after last limit t).0 ≡ ok (take limit more))
  unfolding last_sequence events_after
  Later-Reads {s} {t} last limit later k h =
      let (more, e) = Later-Extends later k in
      let same : length s.events ≡ last = ok-injective h in
      (
        more,
        e,
        ap ok (
            ap (take limit)
              (subst (λ n. drop n t.events ≡ more) same (rw e (drop-append s.events more)))),
      )
