-- ===== src/Manager/Starting.antt =====
-- Starting a run on the latest version while others use the store.
use neorc.Prelude.{
  ℕ, zero, suc, String, nat_eq, string_eq, ◌≡◌, refl, sym, subst, inl, inr, Option, none,
  Bool-cases,
}
use neorc.Prelude.Dict
use neorc.Prelude.Dict.{Dict}
use neorc.Errors.{Result, ok, err, flow_version}
use neorc.Json.{JsonValue}
use neorc.Flow.RunState.{Address}
use neorc.Runs.{RunId, Time, StoredFlow, Run, Libraries}
use neorc.Store.{Store}
use neorc.Store.Port.{memory}
use neorc.Store.Flows.{get_flow}
use neorc.Store.Runs.{start_run}
use neorc.Store.Raising.{start_run-raises}
use neorc.Store.Requests.{start, perform, Later, now_itself, after}
use neorc.Manager.Calls.{Op, lift, raise}
use neorc.Manager.Checks.{Services, check_inputs}
use neorc.Manager.Flows.{retry, is_flow_version, attempt, attempts, start_latest}
use neorc.Manager.Reading.{read-after, get_flow-Reads}

pub Later-trans : {l : Libraries} {s t u : Store} → Later l s t → Later l t u → Later l s u
Later-trans p now_itself = p
Later-trans p (after r now q fresh) = after r now (Later-trans p q) fresh

-- What others do meanwhile: requests, none of which draws this id.
pub record IsHarmless (l : Libraries) (fresh : RunId) (others : ℕ → Store → Store) : Type 0 where
  pub requests : (n : ℕ) (s : Store) → Later l s (others n s)
  pub unused :
      (n : ℕ) (s : Store) → Dict.get fresh s.runs ≡ none → Dict.get fresh (others n s).runs ≡ none

module _ (l : Libraries) (services : Services) (flow : String) (inputs : Dict String JsonValue)
    (parent : Option RunId) (a : Option Address) (fresh : RunId) (now : Time)
    (others : ℕ → Store → Store) (harmless : IsHarmless l fresh others) where
  start_run-Later :
      (stored : StoredFlow) (s : Store)
      → Dict.get fresh s.runs ≡ none
      → Later l s (start_run l flow stored.definition.version inputs parent a fresh now s).1
  unfolding perform
  start_run-Later stored s absent =
      after (start flow stored.definition.version inputs parent a fresh) now now_itself absent

  -- The state that a retry leaves, where the start was made from `t`.
  retry-Later :
      (stored : StoredFlow) (again : Op Store Run) (s t : Store)
      → Later l s t
      → Dict.get fresh t.runs ≡ none
      → Later l t (again t).1
      → (r : Result Run)
      → (start_run l flow stored.definition.version inputs parent a fresh now t).0 ≡ r
      → Later l s
          (retry again r
            (start_run l flow stored.definition.version inputs parent a fresh now t).1).1
  retry-Later stored again s t before absent h (ok run) e =
      Later-trans before (start_run-Later stored t absent)
  retry-Later stored again s t before absent h (err e) p = elim (Bool-cases (is_flow_version e)) [
    | inr other ↦ rw other (Later-trans before (start_run-Later stored t absent))
    | inl replaced ↦ rw replaced (
        Later-trans before (
          subst (λ u. Later l t (again u).1)
            (sym
              (start_run-raises l flow stored.definition.version inputs parent a fresh now t e p))
            h))
  ]

  attempt-Later :
      (left : ℕ) (again : Op Store Run) (s : Store)
      → ((t : Store) → Dict.get fresh t.runs ≡ none → Later l t (again t).1)
      → Dict.get fresh s.runs ≡ none
      → Later l s (attempt (memory l) services flow inputs parent a fresh now others left again s).1
  unfolding attempt
  attempt-Later left again s h absent =
      read-after (λ t. Later l s t) (get_flow flow none) _ s (get_flow-Reads flow none) now_itself
        (λ stored _.
          read-after (λ t. Later l s t)
            (lift (check_inputs services.written stored.definition inputs)) _ s (λ t. refl)
            now_itself
            (λ u _.
              retry-Later stored again s (others left s) (harmless.requests left s)
                (harmless.unused left s absent) (h (others left s) (harmless.unused left s absent))
                (start_run l flow stored.definition.version inputs parent a fresh now
                  (others left s)).0
                refl))

  attempts-Later :
      (left : ℕ) (s : Store)
      → Dict.get fresh s.runs ≡ none
      → Later l s (attempts (memory l) services flow inputs parent a fresh now others left s).1
  unfolding attempts
  attempts-Later zero s absent =
      attempt-Later zero (raise flow_version) s (λ t h. now_itself) absent
  attempts-Later (suc left) s absent =
      attempt-Later (suc left)
        (attempts (memory l) services flow inputs parent a fresh now others left) s
        (λ t h. attempts-Later left t h) absent

  pub start_latest-Later :
      (s : Store)
      → Dict.get fresh s.runs ≡ none
      → Later l s (start_latest (memory l) services flow inputs parent a fresh now others s).1
  unfolding start_latest
  start_latest-Later s absent = attempts-Later 2 s absent
