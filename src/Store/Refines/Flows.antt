-- ===== src/Store/Refines/Flows.antt =====
-- Uploading flows is a sequence of changes of the abstract machine.
use neorc.Prelude.{string_eq, Bool, true, false, List, [], ◌∷◌}
use neorc.Prelude.Dict
use neorc.Prelude.Dict.{Dict}
use neorc.Errors.{Result, ok, err}
use neorc.Json.{Text}
use neorc.Runs.{RunId, Time, StoredFlow, RunStatus, Libraries}
use neorc.Runs.Uploads.{check_uploads}
use neorc.Store.{Store, finish_tree}
use neorc.Store.Flows.{finish_trees, store_upload, store_new, store_flows, roots_of}
use neorc.Store.Changes.{on_flows, Trace, here, next}
use neorc.Store.Sound.{IsSound}
use neorc.Store.Sound.Changes.{Trace-IsSound}
use neorc.Store.Refines.Runs.{cancelling, finish_tree-Trace}

module _ {s : Store} (k : IsSound s) where
  finish_trees-Trace :
      (roots : List RunId) (reason : Text) (now : Time) (t : Store)
      → Trace s t
      → Trace s (finish_trees roots reason now t)
  unfolding finish_trees
  finish_trees-Trace [] reason now t trace = trace
  finish_trees-Trace (root ∷ rest) reason now t trace =
      finish_trees-Trace rest reason now (finish_tree root RunStatus.cancelled reason now t) (
        finish_tree-Trace root RunStatus.cancelled reason now cancelling t (Trace-IsSound trace k)
          trace)

  store_upload-Trace :
      (reason : Text) (now : Time) (upload : StoredFlow) (t : Store)
      → Trace s t
      → Trace s (store_upload reason now upload t)
  unfolding store_upload
  store_upload-Trace reason now upload t trace =
      finish_trees-Trace (roots_of upload.definition.name (Dict.values t.runs)) reason now _
        (next trace (on_flows _))

  store_new-Trace :
      (reason : StoredFlow → Text) (now : Time) (uploads : List StoredFlow) (results : List Bool)
      (t : Store)
      → Trace s t
      → Trace s (store_new reason now uploads results t)
  unfolding store_new
  store_new-Trace reason now (u ∷ us) (true ∷ rs) t trace =
      store_new-Trace reason now us rs _ (store_upload-Trace (reason u) now u t trace)
  store_new-Trace reason now (u ∷ us) (false ∷ rs) t trace =
      store_new-Trace reason now us rs t trace
  store_new-Trace reason now [] rs t trace = trace
  store_new-Trace reason now (u ∷ us) [] t trace = trace

  pub store_flows-Trace :
      (libraries : Libraries) (reason : StoredFlow → Text) (now : Time) (uploads : List StoredFlow)
      → Trace s (store_flows libraries reason now uploads s).1
  unfolding store_flows
  store_flows-Trace libraries reason now uploads = go (check_uploads libraries _ uploads)
    where
      go :
          (r : Result (List Bool))
          → Trace s
              (elim r as (λ _. Result (List Bool) × Store) [
                | err e ↦ (err e, s)
                | ok results ↦ (ok results, store_new reason now uploads results s)
              ]).1
      go (ok results) = store_new-Trace reason now uploads results s here
      go (err e) = here
