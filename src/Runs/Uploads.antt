-- ===== src/Runs/Uploads.antt =====
-- neorc_core/_runs.py: which uploads are new versions to store.
use neorc.Prelude.{
  String, ◌==◌, string_eq, list_eq, nat_eq, Eq, ◌≡◌, ◌↔◌, Bool, true, false, Option, none, some,
  List, [], ◌∷◌, map, arith, if◌then◌else◌, nat_beq_iff,
}
use neorc.Prelude.Dict
use neorc.Prelude.Dict.{Dict}
use neorc.Errors.{Result, ok, err, flow_version, flow_definition, ◌>>=◌, ◌>>◌}
use neorc.Json.{JsonValue}
use neorc.Flow.Definition.{Version, version_lt, version_eq, FlowDefinition}
use neorc.Flow.Walk.{contains}
use neorc.Flow.Validation.Flows.{validate_flow_set}
use neorc.Runs.{StoredFlow, Libraries}

pub version_eq_iff : (v w : Version) → (version_eq v w ≡ true) ↔ (v ≡ w)
unfolding version_eq
version_eq_iff v w =
    ground
      (arith, nat_beq_iff v.major w.major, nat_beq_iff v.minor w.minor, nat_beq_iff v.patch w.patch)

instance abbrev pub version_key : Eq Version
version_key = record { beq = version_eq; beq_iff = version_eq_iff }

-- `max(versions)`, the first of equal ones.
unfoldable pub max_version : Option Version → List Version → Option Version
max_version highest [] = highest
max_version none (v ∷ vs) = max_version (some v) vs
max_version (some h) (v ∷ vs) = max_version (some (if version_lt h v then v else h)) vs

-- `{flow.version: flow for flow in stored}`
by_version : List StoredFlow → Dict Version StoredFlow → Dict Version StoredFlow
by_version [] d = d
by_version (f ∷ fs) d = by_version fs (Dict.set f.definition.version f d)

unfoldable pub check_upload : Libraries → List StoredFlow → FlowDefinition → JsonValue → Result Bool
unfolding by_version max_version
check_upload libraries stored definition content =
    let versions = by_version stored [] in
    elim (Dict.get definition.version versions) [
      | some same ↦
          if libraries.dumps_sorted same.content == libraries.dumps_sorted content
          then ok false
          else err flow_version
      | none ↦ elim (max_version none (Dict.keys versions)) [
        | none ↦ ok true
        | some highest ↦ if version_lt definition.version highest then err flow_version else ok true
      ]
    ]

module _ (libraries : Libraries) where
  check_each : Dict String (List StoredFlow) → List StoredFlow → Result (List Bool)
  unfolding check_upload
  check_each stored [] = ok []
  check_each stored (u ∷ us) = do
    is_new ←
        check_upload libraries
          (elim (Dict.get u.definition.name stored) [ none ↦ [] | some versions ↦ versions ])
          u.definition u.content
    rest ← check_each stored us
    ok (is_new ∷ rest)

  -- `max(versions, key=lambda flow: flow.version, default=None)`
  highest_of : Option StoredFlow → List StoredFlow → Option StoredFlow
  highest_of best [] = best
  highest_of none (f ∷ fs) = highest_of (some f) fs
  highest_of (some b) (f ∷ fs) =
      highest_of (some (if version_lt b.definition.version f.definition.version then f else b)) fs

  latest_of :
      Dict String (List StoredFlow) → Dict String FlowDefinition → Dict String FlowDefinition
  unfolding highest_of
  latest_of [] latest = latest
  latest_of ((name, versions) ∷ rest) latest = latest_of rest (elim (highest_of none versions) [
    | none ↦ latest
    | some highest ↦ Dict.set name highest.definition latest
  ])

  add_new : List StoredFlow → List Bool → Dict String FlowDefinition → Dict String FlowDefinition
  add_new (u ∷ us) (true ∷ news) latest =
      add_new us news (Dict.set u.definition.name u.definition latest)
  add_new (u ∷ us) (false ∷ news) latest = add_new us news latest
  add_new _ _ latest = latest

  any_twice : List String → Bool
  unfolding contains
  any_twice [] = false
  any_twice (x ∷ xs) = if contains xs x then true else any_twice xs

  unfoldable pub check_uploads :
      Dict String (List StoredFlow) → List StoredFlow → Result (List Bool)
  unfolding check_each latest_of add_new any_twice validate_flow_set
  check_uploads stored uploads = do
    results ← check_each stored uploads
    let latest = add_new uploads results (latest_of stored [])
    if any_twice (map (λ u. u.definition.name) uploads) then err flow_definition else ok tt
    validate_flow_set (Dict.values latest)
    ok results
