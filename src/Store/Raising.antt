-- ===== src/Store/Raising.antt =====
-- An operation of the store that raises changes nothing; only a claim in a run that has ended does.
use neorc.Prelude.{
  ℕ, String, nat_eq, pair_eq, string_eq, Bool, if◌then◌else◌, ◌≡◌, refl, inl, inr, true, false,
  Option, none, some, arith, Option-cases, Bool-cases,
}
use neorc.Prelude.Dict
use neorc.Prelude.Dict.{Dict}
use neorc.Errors.{Error, Result, ok, err, flow_version}
use neorc.Json.{JsonValue, Text}
use neorc.Flow.Definition.{Reference, Version, version_eq}
use neorc.Flow.RunState.{Address, address_eq}
use neorc.Runs.{RunId, Time, is_active, Libraries, sub_run_id_for}
use neorc.Store.{Store, Op, continue, lift, flow_of}
use neorc.Store.Runs.{
  add_run, start_run, start_sub_run, succeed_run, fail_run_tree, cancel_run_tree,
}
use neorc.Store.Tasks.{publish_task, extend_task_lease, finish_task, Report, final_status}
use neorc.Task.{TaskId, is_leased, allowed}

abbrev Clean : {A : Type 0} → Store → Op A → Type 0
Clean s m = (e : Error) → (m s).0 ≡ err e → (m s).1 ≡ s

continue-Clean :
    {A B : Type 0} (r : Result A) (f : A → Op B) (s : Store)
    → ((a : A) → Clean s (f a))
    → Clean s (λ t. continue r f t)
continue-Clean (ok a) f s h = h a
continue-Clean (err x) f s h = λ e p. refl

if-Clean :
    {A : Type 0} (b : Bool) (m n : Op A) (s : Store)
    → Clean s m
    → Clean s n
    → Clean s (if b then m else n)
if-Clean true m n s h k = h
if-Clean false m n s h k = k

pub publish_task-raises :
    (run_id : RunId) (a : Address) (queue handler : String) (params : Dict String Reference)
    (fixed : Dict String JsonValue) (fresh : TaskId) (now : Time) (s : Store) (e : Error)
    → (publish_task run_id a queue handler params fixed fresh now s).0 ≡ err e
    → (publish_task run_id a queue handler params fixed fresh now s).1 ≡ s
unfolding publish_task
publish_task-raises run_id a queue handler params fixed fresh now s e h =
    elim (Option-cases (Dict.get run_id s.runs)) [
      | inl unknown ↦ rw unknown
      | inr (run, known) ↦ elim (Bool-cases (is_active run.status)) [
        | inr ended ↦ rw (known, ended)
        | inl active ↦ elim (Option-cases (Dict.get (run_id, a) s.task_ids)) [
          | inl free ↦ absurd (ground arith)
          | inr (id, taken) ↦ rw (known, active, taken)
        ]
      ]
    ]

pub succeed_run-raises :
    (run_id : RunId) (output : JsonValue) (now : Time) (s : Store) (e : Error)
    → (succeed_run run_id output now s).0 ≡ err e
    → (succeed_run run_id output now s).1 ≡ s
unfolding succeed_run
succeed_run-raises run_id output now s e h = elim (Option-cases (Dict.get run_id s.runs)) [
  | inl unknown ↦ rw unknown
  | inr (run, known) ↦ elim (Bool-cases (is_active run.status)) [
    | inr ended ↦ rw (known, ended)
    | inl active ↦ absurd (ground arith)
  ]
]

pub extend_task_lease-raises :
    (id : TaskId) (lease : ℕ) (now : Time) (s : Store) (e : Error)
    → (extend_task_lease id lease now s).0 ≡ err e
    → (extend_task_lease id lease now s).1 ≡ s
unfolding extend_task_lease
extend_task_lease-raises id lease now s e h = elim (Option-cases (Dict.get id s.tasks)) [
  | inl unknown ↦ rw unknown
  | inr (t, known) ↦ elim (Bool-cases (is_leased t.status)) [
    | inr free ↦ rw (known, free)
    | inl leased ↦ absurd (ground arith)
  ]
]

pub finish_task-raises :
    (id : TaskId) (report : Report) (now : Time) (s : Store) (e : Error)
    → (finish_task id report now s).0 ≡ err e
    → (finish_task id report now s).1 ≡ s
unfolding finish_task
finish_task-raises id report now s e h = elim (Option-cases (Dict.get id s.tasks)) [
  | inl unknown ↦ rw unknown
  | inr (t, known) ↦ elim (Bool-cases (allowed t.status (final_status report))) [
    | inr refused ↦ rw (known, refused)
    | inl fine ↦ absurd (ground arith)
  ]
]

pub cancel_run_tree-raises :
    (id : RunId) (reason : Text) (now : Time) (s : Store) (e : Error)
    → (cancel_run_tree id reason now s).0 ≡ err e
    → (cancel_run_tree id reason now s).1 ≡ s
unfolding cancel_run_tree
cancel_run_tree-raises id reason now s e h = elim (Option-cases (Dict.get id s.runs)) [
  | inl unknown ↦ rw unknown
  | inr (run, known) ↦ absurd (ground arith)
]

pub fail_run_tree-raises :
    (id : RunId) (reason : Text) (now : Time) (s : Store) (e : Error)
    → (fail_run_tree id reason now s).0 ≡ err e
    → (fail_run_tree id reason now s).1 ≡ s
unfolding fail_run_tree
fail_run_tree-raises id reason now s e h = elim (Option-cases (Dict.get id s.runs)) [
  | inl unknown ↦ rw unknown
  | inr (run, known) ↦ absurd (ground arith)
]

module _ (l : Libraries) where
  start_sub_run-raises :
      (flow : String) (version : Version) (inputs : Dict String JsonValue) (parent : RunId)
      (a : Address) (now : Time) (s : Store) (e : Error)
      → (start_sub_run l flow version inputs parent a now s).0 ≡ err e
      → (start_sub_run l flow version inputs parent a now s).1 ≡ s
  unfolding start_sub_run
  start_sub_run-raises flow version inputs parent a now s e h =
      elim (Option-cases (Dict.get parent s.runs)) [
        | inl unknown ↦ rw unknown
        | inr (run, known) ↦ elim (Bool-cases (is_active run.status)) [
          | inr ended ↦ rw (known, ended)
          | inl active ↦ elim (Option-cases (Dict.get (sub_run_id_for l parent a) s.runs)) [
            | inl free ↦ absurd (ground arith)
            | inr (old, taken) ↦ rw (known, active, taken)
          ]
        ]
      ]

  add_run-returns :
      (flow : String) (version : Version) (inputs : Dict String JsonValue) (fresh : RunId)
      (now : Time) (s : Store) (e : Error)
      → ¬ ((add_run fresh fresh flow version inputs none none now s).0 ≡ err e)
  unfolding add_run
  add_run-returns flow version inputs fresh now s e h = ground arith

  pub start_run-raises :
      (flow : String) (version : Version) (inputs : Dict String JsonValue) (parent : Option RunId)
      (a : Option Address) (fresh : RunId) (now : Time) (s : Store) (e : Error)
      → (start_run l flow version inputs parent a fresh now s).0 ≡ err e
      → (start_run l flow version inputs parent a fresh now s).1 ≡ s
  unfolding start_run
  start_run-raises flow version inputs none (some a) fresh now s = λ e h. refl
  start_run-raises flow version inputs (some parent) none fresh now s = λ e h. refl
  start_run-raises flow version inputs none none fresh now s =
      let go = add_run fresh fresh flow version inputs none none now in
      continue-Clean (flow_of flow none s).0
        (λ latest.
          if version_eq version latest.definition.version then go else lift (err flow_version))
        s
        (λ latest.
          if-Clean (version_eq version latest.definition.version) go (lift (err flow_version)) s
            (λ e h. absurd (add_run-returns flow version inputs fresh now s e h)) (λ e h. refl))
  start_run-raises flow version inputs (some parent) (some a) fresh now s =
      let go = start_sub_run l flow version inputs parent a now in
      continue-Clean (flow_of flow none s).0
        (λ latest.
          if version_eq version latest.definition.version then go else lift (err flow_version))
        s
        (λ latest.
          if-Clean (version_eq version latest.definition.version) go (lift (err flow_version)) s
            (start_sub_run-raises flow version inputs parent a now s) (λ e h. refl))
