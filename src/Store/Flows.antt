-- ===== src/Store/Flows.antt =====
-- neorc_core/local/_memory_store.py: uploading flows and reading them.
use neorc.Prelude.{
  String, string_eq, nat_eq, ◌==◌, ◌&&◌, Bool, true, false, Option, none, some, List, [], ◌∷◌, ◌++◌,
  ltb, if◌then◌else◌,
}
use neorc.Prelude.Dict
use neorc.Prelude.Dict.{Dict}
use neorc.Errors.{ok, err, flow_not_found}
use neorc.Json.{Text}
use neorc.Flow.Definition.{Version, version_lt}
use neorc.Flow.RunState.{string_lt}
use neorc.Runs.{RunId, Time, StoredFlow, Run, RunStatus, is_active, Libraries}
use neorc.Runs.Uploads.{version_key, check_uploads}
use neorc.Store.{Store, Op, gets, flow_of, version_of, finish_tree}

-- `sorted` of a set of ids.
insert_id : RunId → List RunId → List RunId
insert_id x [] = x ∷ []
insert_id x (y ∷ ys) =
    let later = insert_id x ys in
    if x == y then y ∷ ys else if ltb y x then y ∷ later else x ∷ y ∷ ys

-- The roots of the active runs of a flow.
unfoldable pub roots_of : String → List Run → List RunId
unfolding insert_id
roots_of name [] = []
roots_of name (run ∷ rest) =
    let roots = roots_of name rest in
    if (run.flow == name) && is_active run.status then insert_id run.root_id roots else roots

unfoldable pub finish_trees : List RunId → Text → Time → Store → Store
finish_trees [] reason now s = s
finish_trees (root_id ∷ rest) reason now s =
    finish_trees rest reason now (finish_tree root_id RunStatus.cancelled reason now s)

-- The `reason` that an upload gives is a message: an argument.
unfoldable pub store_upload : Text → Time → StoredFlow → Store → Store
unfolding roots_of finish_trees
store_upload reason now upload s =
    let name = upload.definition.name in
    let versions : Dict Version StoredFlow = elim (Dict.get name s.flows) [
      | none ↦ []
      | some v ↦ v
    ] in
    let stored : Store = record s {
      flows = Dict.set name (Dict.set upload.definition.version upload versions) s.flows;
    } in
    finish_trees (roots_of name (Dict.values s.runs)) reason now stored

unfoldable pub store_new : (StoredFlow → Text) → Time → List StoredFlow → List Bool → Store → Store
unfolding store_upload
store_new reason now (upload ∷ uploads) (true ∷ results) s =
    store_new reason now uploads results (store_upload (reason upload) now upload s)
store_new reason now (upload ∷ uploads) (false ∷ results) s = store_new reason now uploads results s
store_new reason now _ _ s = s

-- `{name: list(versions.values()) for name, versions in self._flows.items()}`
unfoldable pub stored_lists : Dict String (Dict Version StoredFlow) → Dict String (List StoredFlow)
stored_lists [] = []
stored_lists ((name, versions) ∷ rest) = (name, Dict.values versions) ∷ stored_lists rest

unfoldable pub store_flows :
    Libraries → (StoredFlow → Text) → Time → List StoredFlow → Op (List Bool)
unfolding stored_lists check_uploads store_new
store_flows libraries reason now uploads s =
    elim (check_uploads libraries (stored_lists s.flows) uploads) [
      | err e ↦ (err e, s)
      | ok results ↦ (ok results, store_new reason now uploads results s)
    ]

unfoldable pub get_flow : String → Option Version → Op StoredFlow
unfolding flow_of
get_flow = flow_of

insert_name :
    String × Dict Version StoredFlow
    → Dict String (Dict Version StoredFlow)
    → Dict String (Dict Version StoredFlow)
insert_name x [] = x ∷ []
insert_name (a, v) ((b, w) ∷ rest) =
    let later = insert_name (a, v) rest in
    if string_lt b a then (b, w) ∷ later else (a, v) ∷ (b, w) ∷ rest

-- `sorted(self._flows.items())`, by name.
sorted_flows : Dict String (Dict Version StoredFlow) → Dict String (Dict Version StoredFlow)
unfolding insert_name string_lt
sorted_flows [] = []
sorted_flows (x ∷ rest) = insert_name x (sorted_flows rest)

latest_each : Dict String (Dict Version StoredFlow) → List StoredFlow
unfolding version_of
latest_each [] = []
latest_each ((name, versions) ∷ rest) =
    elim (version_of none versions) [ none ↦ [] | some f ↦ f ∷ [] ] ++ latest_each rest

unfoldable pub latest_flows : Op (List StoredFlow)
unfolding sorted_flows latest_each
latest_flows = gets (λ s. latest_each (sorted_flows s.flows))

insert_version : Version × StoredFlow → Dict Version StoredFlow → Dict Version StoredFlow
insert_version x [] = x ∷ []
insert_version (a, v) ((b, w) ∷ rest) =
    let later = insert_version (a, v) rest in
    if version_lt a b then (b, w) ∷ later else (a, v) ∷ (b, w) ∷ rest

-- `sorted(versions, reverse=True)`
newest_first : Dict Version StoredFlow → Dict Version StoredFlow
unfolding insert_version version_lt
newest_first [] = []
newest_first (x ∷ rest) = insert_version x (newest_first rest)

unfoldable pub flow_versions : String → Op (List StoredFlow)
unfolding newest_first
flow_versions name s = (
  elim (Dict.get name s.flows) [
    | none ↦ err flow_not_found
    | some [] ↦ err flow_not_found
    | some (v ∷ vs) ↦ ok (Dict.values (newest_first (v ∷ vs)))
  ],
  s,
)
