-- ===== src/Manager/Inputs.antt =====
-- The inputs of a run are those of the version that it runs, even when others replace the version
-- while the run is being started.
use neorc.Prelude.{
  ℕ, zero, suc, String, nat_eq, string_eq, ◌≡◌, refl, sym, ◌∙◌, ap, subst, inl, inr, true, false,
  none, if◌then◌else◌, Bool-cases, arith, ==_iff, &&-eq-true,
}
use neorc.Prelude.Dict
use neorc.Prelude.Dict.{Dict}
use neorc.Errors.{Result, ok, err, flow_version, ok-injective}
use neorc.Json.{JsonValue}
use neorc.Flow.Definition.{Version, version_eq}
use neorc.Runs.{RunId, Time, StoredFlow, Run, Libraries}
use neorc.Store
use neorc.Store.{Store, flow_of}
use neorc.Store.Port.{memory}
use neorc.Store.Flows.{get_flow}
use neorc.Store.Runs
use neorc.Store.Runs.{add_run}
use neorc.Store.Raising.{start_run-raises}
use neorc.Manager.Calls.{Op, lift, raise}
use neorc.Manager.Checks.{Services, check_inputs, check_lookup}
use neorc.Manager.Checks.Fitting.{IsAccepted, check_inputs-IsAccepted}
use neorc.Manager.Flows.{retry, is_flow_version, attempt, attempts, start_latest, start_run}
use neorc.Manager.Reading.{read-returns, get_flow-Reads}

-- The store at which an attempt that `left` others may follow begins, three in all: the one that the
-- call began at, or what others made of an earlier attempt's.
pub data IsAttempt (others : ℕ → Store → Store) (s : Store) : ℕ → Store → Type 0 where
  at_start : IsAttempt others s 2 s
  at_retry :
      {left : ℕ} {t : Store}
      → IsAttempt others s (suc left) t
      → IsAttempt others s left (others (suc left) t)

pub IsSameVersion : Version → Version → Type 0
IsSameVersion v w = (v.major ≡ w.major) × (v.minor ≡ w.minor) × (v.patch ≡ w.patch)

version_eq-IsSameVersion : (v w : Version) → version_eq v w ≡ true → IsSameVersion v w
unfolding version_eq IsSameVersion
version_eq-IsSameVersion v w h =
    let (front, patch) = &&-eq-true _ _ h in
    let (major, minor) = &&-eq-true _ _ front in
    (
      (==_iff v.major w.major).0 major,
      (==_iff v.minor w.minor).0 minor,
      (==_iff v.patch w.patch).0 patch,
    )

-- From the store `t` to `s'`, a run of the flow's latest version was added, and nothing else.
pub IsStarted : String → Version → Dict String JsonValue → Run → Store → Store → Type 0
IsStarted flow version inputs run t s' =
    (latest : StoredFlow) × ((get_flow flow none t).0 ≡ ok latest)
    × IsSameVersion version latest.definition.version
    × (run.flow ≡ flow)
    × (run.version ≡ version)
    × (run.inputs ≡ inputs)
    × (s'.runs ≡ Dict.set run.id run t.runs)
    × (s'.tasks ≡ t.tasks)
    × (s'.flows ≡ t.flows)

module _ (l : Libraries) (flow : String) (inputs : Dict String JsonValue) (fresh : RunId)
    (now : Time) where
  added :
      (version : Version) (s s' : Store) (run : Run) (latest : StoredFlow)
      → (get_flow flow none s).0 ≡ ok latest
      → IsSameVersion version latest.definition.version
      → add_run fresh fresh flow version inputs none none now s ≡ (ok run, s')
      → IsStarted flow version inputs run s s'
  unfolding add_run IsStarted
  added version s s' run latest found same h =
      let r = ok-injective (ap (λ x. x.0) h) in
      let kept = add_run fresh fresh flow version inputs none none now s in
      (
        latest,
        found,
        same,
        sym (ap (λ x. x.flow) r),
        sym (ap (λ x. x.version) r),
        sym (ap (λ x. x.inputs) r),
        sym (ap (λ x. x.1.runs) h) ∙ ap (λ x. Dict.set x.id x s.runs) r,
        sym (ap (λ x. x.1.tasks) h),
        sym (ap (λ x. x.1.flows) h),
      )

  started :
      (version : Version) (s s' : Store) (run : Run)
      → Runs.start_run l flow version inputs none none fresh now s ≡ (ok run, s')
      → IsStarted flow version inputs run s s'
  unfolding Runs.start_run get_flow
  started version s s' run h = go (flow_of flow none s).0 refl h
    where
      when :
          (latest : StoredFlow)
          → (flow_of flow none s).0 ≡ ok latest
          → (if version_eq version latest.definition.version
                then add_run fresh fresh flow version inputs none none now
                else Store.lift (err flow_version))
              s
            ≡ (ok run, s')
          → IsStarted flow version inputs run s s'
      when latest found p = elim (Bool-cases (version_eq version latest.definition.version)) [
        | inl same ↦
            added version s s' run latest found (version_eq-IsSameVersion _ _ same) (rw same at p)
        | inr newer ↦ absurd (ground arith)
      ]

      go :
          (r : Result StoredFlow)
          → (flow_of flow none s).0 ≡ r
          → Store.continue r
              (λ latest.
                if version_eq version latest.definition.version
                then add_run fresh fresh flow version inputs none none now
                else Store.lift (err flow_version))
              s
            ≡ (ok run, s')
          → IsStarted flow version inputs run s s'
      go (ok latest) found p = when latest found p
      go (err e) found p = absurd (ground arith)

module _ (l : Libraries) (services : Services) (flow : String) (inputs : Dict String JsonValue)
    (fresh : RunId) (now : Time) (others : ℕ → Store → Store) where
  -- An attempt that began at `t` accepted the inputs for the latest version there, and that version
  -- was still the latest at what others made of `t`, where the run was added.
  IsChecked : Store → Store → Run → Type 0
  IsChecked s s' run =
      (left : ℕ) × (t : Store) × (stored : StoredFlow) × IsAttempt others s left t
      × ((get_flow flow none t).0 ≡ ok stored)
      × IsAccepted services.written stored.definition inputs
      × IsStarted flow stored.definition.version inputs run (others left t) s'

  attempted : StoredFlow → Store → Result Run × Store
  attempted stored t = Runs.start_run l flow stored.definition.version inputs none none fresh now t

  retried :
      {P : Type 0} (stored : StoredFlow) (again : Op Store Run) (t s' : Store) (run : Run)
      → (IsStarted flow stored.definition.version inputs run t s' → P)
      → (again t ≡ (ok run, s') → P)
      → (r : Result Run) → (attempted stored t).0 ≡ r
      → retry again r (attempted stored t).1 ≡ (ok run, s')
      → P
  unfolding attempted
  retried stored again t s' run now_started later (ok first) e h = now_started (
      started l flow inputs fresh now stored.definition.version t s' run
        (ap (λ r. (r, (attempted stored t).1)) e ∙ h))
  retried stored again t s' run now_started later (err x) e h =
      elim (Bool-cases (is_flow_version x)) [
        | inr other ↦ absurd (refused other)
        | inl replaced ↦ later (
            subst (λ u. again u ≡ (ok run, s'))
              (start_run-raises l flow stored.definition.version inputs none none fresh now t x e)
              (sym (goes_on replaced) ∙ h))
      ]
    where
      goes_on :
          is_flow_version x ≡ true
          → retry again (err x) (attempted stored t).1 ≡ again (attempted stored t).1
      goes_on replaced = rw replaced refl

      refused : is_flow_version x ≡ false → ⊥
      refused other =
          let same : retry again (err x) (attempted stored t).1 ≡ (err x, (attempted stored t).1) =
            rw other refl in
          let p : err x ≡ ok run = ap (λ r. r.0) (sym same ∙ h) in absurd (ground arith)

  attempt-IsChecked :
      (left : ℕ) (next : Op Store Run) (s t s' : Store) (run : Run)
      → IsAttempt others s left t
      → (next (others left t) ≡ (ok run, s') → IsChecked s s' run)
      → attempt (memory l) services flow inputs none none fresh now others left next t
        ≡ (ok run, s')
      → IsChecked s s' run
  unfolding attempt IsChecked attempted
  attempt-IsChecked left next s t s' run reached later h =
      let (stored, read, h') =
        read-returns (get_flow flow none) _ t s' run (get_flow-Reads flow none) h in
      let (checked, passed, h'') =
        read-returns (lift (check_inputs services.written stored.definition inputs)) _ t s' run
          (λ u. refl) h' in
      let fits = check_inputs-IsAccepted services.written stored.definition inputs passed in
      retried stored next (others left t) s' run
        (λ fine. (left, t, stored, reached, read, fits, fine)) later
        (attempted stored (others left t)).0 refl h''

  attempts-IsChecked :
      (left : ℕ) (s t s' : Store) (run : Run)
      → IsAttempt others s left t
      → attempts (memory l) services flow inputs none none fresh now others left t ≡ (ok run, s')
      → IsChecked s s' run
  unfolding attempts
  attempts-IsChecked zero s t s' run reached h =
      attempt-IsChecked zero (raise flow_version) s t s' run reached (λ p. absurd (ground arith)) h
  attempts-IsChecked (suc left) s t s' run reached h =
      attempt-IsChecked (suc left)
        (attempts (memory l) services flow inputs none none fresh now others left) s t s' run
        reached (λ p. attempts-IsChecked left s (others (suc left) t) s' run (at_retry reached) p) h

  -- Where start_run returns a run, one of its three attempts, which began at the store that the call
  -- began at or at what others had made of it by then, found a latest version of the flow there that
  -- accepts the inputs: every declared one is given, and every given one is declared, of its type and
  -- a value. That very version was still the latest when the run was added to what others had made of
  -- that store meanwhile; the run is of that flow, version and inputs, and nothing else of the runs,
  -- the tasks and the flows changed.
  pub start_run-checked :
      (s s' : Store) (run : Run)
      → start_run (memory l) services flow inputs fresh now others s ≡ (ok run, s')
      → (left : ℕ) × (t : Store) × (stored : StoredFlow) × IsAttempt others s left t
        × ((get_flow flow none t).0 ≡ ok stored)
        × IsAccepted services.written stored.definition inputs
        × IsStarted flow stored.definition.version inputs run (others left t) s'
  unfolding start_run start_latest IsChecked
  start_run-checked s s' run h =
      let (checked, named, h') = read-returns (lift (check_lookup flow)) _ s s' run (λ u. refl) h in
      attempts-IsChecked 2 s s s' run at_start h'
