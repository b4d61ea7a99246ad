-- ===== src/Store/Trees.antt =====
-- What finishing a tree of runs does to every run of the store.
use neorc.Prelude.{
  nat_eq, ◌==◌, ◌&&◌, ◌≡◌, ◌≢◌, refl, sym, ◌∙◌, subst, inl, inr, some, List, All, In, [], ◌∷◌,
  Bool-cases, if◌then◌else◌,
}
use neorc.Prelude.Dict
use neorc.Prelude.Dict.{Dict}
use neorc.Prelude.Dict.Keyed.{
  key-get, get-values, values-IsDistinct, IsDistinct, get-set_self, get-set_ne, In-values,
}
use neorc.Errors.{ok}
use neorc.Json.{Text}
use neorc.Runs.{RunId, Time, Run, RunStatus, is_active, storable_text}
use neorc.Store.{Store, finish_run, finish_runs, finish_tree}
use neorc.Store.Runs.{fail_run_tree, cancel_run_tree}
use neorc.Store.Sound.{IsSound}

module _ (root_id : RunId) (status : RunStatus) (reason : Text) (now : Time) where
  -- What becomes of a run: it ends, if it is an active run of the tree.
  abbrev pub end : Run → Run
  end run =
      if (run.root_id == root_id) && is_active run.status
      then record run {
        status = status;
        reason = some (storable_text reason);
        finished_at = some now;
      }
      else run

  finish_run-other :
      (run : Run) (id : RunId) (s : Store)
      → run.id ≢ id
      → Dict.get id (finish_run root_id status reason now run s).runs ≡ Dict.get id s.runs
  unfolding finish_run
  finish_run-other run id s other =
      elim (Bool-cases ((run.root_id == root_id) && is_active run.status)) [
        | inl tree ↦ rw tree (get-set_ne _ s.runs other)
        | inr no_tree ↦ rw no_tree
      ]

  finish_run_self :
      (run : Run) (s : Store)
      → Dict.get run.id s.runs ≡ some run
      → Dict.get run.id (finish_run root_id status reason now run s).runs ≡ some (end run)
  unfolding finish_run
  finish_run_self run s found =
      elim (Bool-cases ((run.root_id == root_id) && is_active run.status)) [
        | inl tree ↦ rw tree (get-set_self run.id _ s.runs)
        | inr no_tree ↦ rw no_tree found
      ]

  finish_runs-other :
      (rest : List Run) (id : RunId) (s : Store)
      → All (λ r. id ≢ r.id) rest
      → Dict.get id (finish_runs root_id status reason now rest s).runs ≡ Dict.get id s.runs
  unfolding finish_runs
  finish_runs-other [] id s other = refl
  finish_runs-other (run ∷ rest) id s other =
      finish_runs-other rest id _ other.1 ∙ finish_run-other run id s (λ p. other.0 (sym p))

  All-found-after :
      (run : Run) (rest : List Run) (s : Store)
      → All (λ r. run.id ≢ r.id) rest
      → All (λ r. Dict.get r.id s.runs ≡ some r) rest
      → All (λ r. Dict.get r.id (finish_run root_id status reason now run s).runs ≡ some r) rest
  All-found-after run [] s other found = tt
  All-found-after run (r ∷ rest) s other found =
      (finish_run-other run r.id s other.0 ∙ found.0, All-found-after run rest s other.1 found.1)

  finish_runs_self :
      (rest : List Run) (run : Run) (s : Store)
      → In run rest
      → All (λ r. Dict.get r.id s.runs ≡ some r) rest
      → IsDistinct (λ r. r.id) rest
      → Dict.get run.id (finish_runs root_id status reason now rest s).runs ≡ some (end run)
  unfolding finish_runs
  finish_runs_self [] run s h found distinct = elim h [ ]
  finish_runs_self (r ∷ rest) run s (inl same) found distinct =
      subst
        (λ x.
          Dict.get x.id
            (finish_runs root_id status reason now rest
              (finish_run root_id status reason now r s)).runs
          ≡ some (end x))
        same (finish_runs-other rest r.id _ distinct.0 ∙ finish_run_self r s found.0)
  finish_runs_self (r ∷ rest) run s (inr later) found distinct =
      finish_runs_self rest run _ later (All-found-after r rest s distinct.0 found.1) distinct.1

  finish_tree-get :
      (s : Store) (id : RunId) (run : Run)
      → IsSound s
      → Dict.get id s.runs ≡ some run
      → Dict.get id (finish_tree root_id status reason now s).runs ≡ some (end run)
  unfolding finish_tree
  finish_tree-get s id run k found =
      subst
        (λ i.
          Dict.get i (finish_runs root_id status reason now (Dict.values s.runs) s).runs
          ≡ some (end run))
        (key-get (λ r. r.id) id run s.runs k.runs_keyed found)
        (finish_runs_self (Dict.values s.runs) run s (In-values id run s.runs found)
          (get-values (λ r. r.id) s.runs k.runs_keyed)
          (values-IsDistinct (λ r. r.id) s.runs k.runs_keyed))

-- In a sound store, failing, or cancelling, a known run's tree succeeds: every active run of the tree
-- ends with that status and the storable reason, and every other run of the store is as it was.
pub run_tree-ended :
    (s : Store) (run_id id : RunId) (run other : Run) (reason : Text) (now : Time)
    → IsSound s
    → Dict.get run_id s.runs ≡ some run
    → Dict.get id s.runs ≡ some other
    → ((fail_run_tree run_id reason now s).0 ≡ ok tt)
      × (Dict.get id (fail_run_tree run_id reason now s).1.runs
          ≡ some (end run.root_id RunStatus.failed reason now other))
      × ((cancel_run_tree run_id reason now s).0 ≡ ok tt)
      × (Dict.get id (cancel_run_tree run_id reason now s).1.runs
          ≡ some (end run.root_id RunStatus.cancelled reason now other))
unfolding fail_run_tree cancel_run_tree
run_tree-ended s run_id id run other reason now k known found = (
  rw known,
  rw known (finish_tree-get run.root_id RunStatus.failed reason now s id other k found),
  rw known,
  rw known (finish_tree-get run.root_id RunStatus.cancelled reason now s id other k found),
)
