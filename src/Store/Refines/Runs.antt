-- ===== src/Store/Refines/Runs.antt =====
-- The operations on runs, and uploads, are sequences of changes of the abstract machine.
use neorc.Prelude.{
  String, string_eq, nat_eq, pair_eq, ◌==◌, ◌&&◌, ◌≡◌, ◌≢◌, refl, sym, ◌∙◌, subst, inl, inr, true,
  false, Option, none, some, List, All, [], ◌∷◌, Bool, Bool-cases, Option-cases, if◌then◌else◌,
  &&-eq-true,
}
use neorc.Prelude.Dict
use neorc.Prelude.Dict.{Dict}
use neorc.Prelude.Dict.Keyed.{
  key-get, get-values, values-IsDistinct, IsDistinct, get-set_self, get-set_ne,
}
use neorc.Errors.{Result, ok, err, run_not_found, flow_version}
use neorc.Json.{JsonValue, Text}
use neorc.Flow.Definition.{Version, version_eq}
use neorc.Flow.RunState.{Address, address_eq}
use neorc.Runs.{
  RunId, Time, Run, RunStatus, is_active, run_started, run_finished, Libraries, sub_run_id_for,
  storable_text,
}
use neorc.Store.{
  Store, Op, continue, lift, run_of, found, flow_of, finish_run, finish_runs, finish_tree,
}
use neorc.Store.Runs.{
  start_run, start_sub_run, add_run, succeed_run, finish_run_tree, fail_run_tree, cancel_run_tree,
}
use neorc.Store.Changes.{
  RunChange, succeed, fail, cancel, on_run, new_run, new_event, Trace, here, next,
}
use neorc.Store.Sound.{IsSound}

-- How a tree may end.
pub data IsEnding : RunStatus → Type 0 where
  failing : IsEnding RunStatus.failed
  cancelling : IsEnding RunStatus.cancelled

module _ (s : Store) where
  -- A run is added, and its start is logged.
  add_run-Trace :
      (id root_id : RunId) (flow : String) (version : Version) (inputs : Dict String JsonValue)
      (parent : Option RunId) (a : Option Address) (now : Time)
      → Dict.get id s.runs ≡ none
      → ((r : Run)
          → r.id ≡ id
          → r.root_id ≡ root_id
          → (root : Run) × (Dict.get root_id (Dict.set id r s.runs) ≡ some root)
            × (root.root_id ≡ root_id))
      → Trace s (add_run id root_id flow version inputs parent a now s).1
  unfolding add_run
  add_run-Trace id root_id flow version inputs parent a now absent rooted =
      let (root, found, own) = rooted _ refl refl in
      next
        (next here (
          new_run _ absent (record {
            starts_active = refl;
            unfinished = refl;
            root = root;
            rooted = found;
            root_of_itself = own;
          })))
        (new_event id run_started _ (get-set_self id _ s.runs))

-- Values found under their keys are found still when another key is set.
All-set :
    (id : RunId) (new : Run) (runs : Dict RunId Run) (rest : List Run)
    → All (λ r. id ≢ r.id) rest
    → All (λ r. Dict.get r.id runs ≡ some r) rest
    → All (λ r. Dict.get r.id (Dict.set id new runs) ≡ some r) rest
All-set id new runs [] other h = tt
All-set id new runs (r ∷ rest) other h =
    (get-set_ne new runs other.0 ∙ h.0, All-set id new runs rest other.1 h.1)

ended : RunStatus → Text → Time → Run → Run
ended status reason now run = record run {
  status = status;
  reason = some (storable_text reason);
  finished_at = some now;
}

ended-RunChange :
    {status : RunStatus} (reason : Text) (now : Time) (run : Run)
    → IsEnding status
    → RunChange run (ended status reason now run)
unfolding ended
ended-RunChange reason now run failing = fail (storable_text reason) now
ended-RunChange reason now run cancelling = cancel (storable_text reason) now

module _ {s : Store} (root_id : RunId) (status : RunStatus) (reason : Text) (now : Time)
    (ending : IsEnding status) where
  finish_runs-Trace :
      (rest : List Run) (t : Store)
      → All (λ r. Dict.get r.id t.runs ≡ some r) rest
      → IsDistinct (λ r. r.id) rest
      → Trace s t
      → Trace s (finish_runs root_id status reason now rest t)
  unfolding finish_runs ended
  finish_runs-Trace [] t found distinct trace = trace
  finish_runs-Trace (run ∷ rest) t found distinct trace =
      elim (Bool-cases ((run.root_id == root_id) && is_active run.status)) [
        | inr other ↦ rw (other, finish_run) (finish_runs-Trace rest t found.1 distinct.1 trace)
        | inl tree ↦
            let (_, active) = &&-eq-true (run.root_id == root_id) (is_active run.status) tree in
            let new = ended status reason now run in
            let change =
              next trace (on_run run new found.0 active (ended-RunChange reason now run ending)) in
            let logged =
              next change (new_event run.id run_finished new (get-set_self run.id new t.runs)) in
            rw (tree, finish_run)
              (finish_runs-Trace rest _ (All-set run.id new t.runs rest distinct.0 found.1)
                distinct.1 logged)
      ]

  pub finish_tree-Trace :
      (t : Store) → IsSound t → Trace s t → Trace s (finish_tree root_id status reason now t)
  unfolding finish_tree
  finish_tree-Trace t k trace =
      finish_runs-Trace (Dict.values t.runs) t (get-values (λ r. r.id) t.runs k.runs_keyed)
        (values-IsDistinct (λ r. r.id) t.runs k.runs_keyed) trace

-- A chain whose first part changes nothing, and a choice of two operations.
continue-Trace :
    {A B : Type 0} {s : Store} (r : Result A) (f : A → Op B)
    → ((a : A) → Trace s (f a s).1)
    → Trace s (continue r f s).1
continue-Trace (ok a) f h = h a
continue-Trace (err e) f h = here

if-Trace :
    {A : Type 0} {s : Store} (b : Bool) (m n : Op A)
    → Trace s (m s).1
    → Trace s (n s).1
    → Trace s ((if b then m else n) s).1
if-Trace true m n hm hn = hm
if-Trace false m n hm hn = hn

module _ {s : Store} (k : IsSound s) where
  start_sub_run-Trace :
      (libraries : Libraries) (flow : String) (version : Version) (inputs : Dict String JsonValue)
      (parent_id : RunId) (a : Address) (now : Time)
      → Trace s (start_sub_run libraries flow version inputs parent_id a now s).1
  unfolding start_sub_run
  start_sub_run-Trace libraries flow version inputs parent_id a now =
      elim (Option-cases (Dict.get parent_id s.runs)) [
        | inl e ↦ rw e here
        | inr (parent, e) ↦ rw e (elim (Bool-cases (is_active parent.status)) [
          | inr over ↦ rw over here
          | inl active ↦
              rw active
                (elim (Option-cases (Dict.get (sub_run_id_for libraries parent_id a) s.runs)) [
                  | inr (run, there) ↦ rw there here
                  | inl absent ↦
                      let (root, found, own) = k.rooted parent_id parent e in
                      rw absent (
                        add_run-Trace s _ _ flow version inputs _ _ now absent
                          (λ r _ _. (root, get-set_ne r s.runs (λ p. cc) ∙ found, own)))
                ])
        ])
      ]

  pub start_run-Trace :
      (libraries : Libraries) (flow : String) (version : Version) (inputs : Dict String JsonValue)
      (parent_id : Option RunId) (a : Option Address) (fresh : RunId) (now : Time)
      → Dict.get fresh s.runs ≡ none
      → Trace s (start_run libraries flow version inputs parent_id a fresh now s).1
  unfolding start_run
  start_run-Trace libraries flow version inputs none none fresh now absent =
      let go = add_run fresh fresh flow version inputs none none now in
      continue-Trace (flow_of flow none s).0
        (λ latest.
          if version_eq version latest.definition.version then go else lift (err flow_version))
        λ latest.
          if-Trace (version_eq version latest.definition.version) go (lift (err flow_version))
            (add_run-Trace s fresh fresh flow version inputs none none now absent λ r p q. (
              r,
              subst (λ i. Dict.get i (Dict.set i r s.runs) ≡ some r) p (get-set_self r.id r s.runs),
              q,
            ))
            here
  start_run-Trace libraries flow version inputs none (some a) fresh now absent = here
  start_run-Trace libraries flow version inputs (some p) none fresh now absent = here
  start_run-Trace libraries flow version inputs (some p) (some a) fresh now absent =
      let go = start_sub_run libraries flow version inputs p a now in
      continue-Trace (flow_of flow none s).0
        (λ latest.
          if version_eq version latest.definition.version then go else lift (err flow_version))
        λ latest.
          if-Trace (version_eq version latest.definition.version) go (lift (err flow_version))
            (start_sub_run-Trace libraries flow version inputs p a now) here

  pub succeed_run-Trace :
      (run_id : RunId) (output : JsonValue) (now : Time)
      → Trace s (succeed_run run_id output now s).1
  unfolding succeed_run
  succeed_run-Trace run_id output now = elim (Option-cases (Dict.get run_id s.runs)) [
    | inl e ↦ rw e here
    | inr (run, e) ↦ rw e (elim (Bool-cases (is_active run.status)) [
      | inr over ↦ rw over here
      | inl active ↦
          let same = key-get (λ r. r.id) run_id run s.runs k.runs_keyed e in
          let found = subst (λ i. Dict.get i s.runs ≡ some run) (sym same) e in
          let new : Run = record run {
            status = RunStatus.succeeded;
            output = output;
            finished_at = some now;
          } in
          rw active (
            next (next here (on_run run new found active (succeed output now))) (
              new_event run_id run_finished new (
                subst (λ i. Dict.get i (Dict.set run.id new s.runs) ≡ some new) same
                  (get-set_self run.id new s.runs))))
    ])
  ]

  tree-Trace :
      (status : RunStatus) (run_id : RunId) (reason : Text) (now : Time)
      → IsEnding status
      → Trace s (finish_run_tree status run_id reason now s).1
  unfolding run_of
  tree-Trace status run_id reason now ending =
      continue-Trace (found run_not_found (Dict.get run_id s.runs)) _
        λ run. finish_tree-Trace run.root_id status reason now ending s k here

  pub fail_run_tree-Trace :
      (run_id : RunId) (reason : Text) (now : Time) → Trace s (fail_run_tree run_id reason now s).1
  unfolding fail_run_tree
  fail_run_tree-Trace run_id reason now = tree-Trace RunStatus.failed run_id reason now failing

  pub cancel_run_tree-Trace :
      (run_id : RunId) (reason : Text) (now : Time)
      → Trace s (cancel_run_tree run_id reason now s).1
  unfolding cancel_run_tree
  cancel_run_tree-Trace run_id reason now =
      tree-Trace RunStatus.cancelled run_id reason now cancelling
