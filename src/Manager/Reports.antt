-- ===== src/Manager/Reports.antt =====
-- What the manager keeps of a report.
use neorc.Prelude.{
  ℕ, String, string_eq, nat_eq, ◌≡◌, refl, sym, ◌∙◌, ap, subst, ◌≤◌, Option, some, inl, inr,
  Bool-cases, arith, ◌⊎◌, if◌then◌else◌,
}
use neorc.Errors.{Result, ok, err, ok-injective, >>=-eq-ok}
use neorc.Json.{JsonValue}
use neorc.Runs.{Time, Task, Libraries}
use neorc.Store.{Store}
use neorc.Store.Port.{memory}
use neorc.Store.Tasks.{Report, success, failure, finish_task, finished_by, final_status}
use neorc.Prelude.Dict
use neorc.Prelude.Dict.Keyed.{get-set_self}
use neorc.Prelude.{Option-cases}
use neorc.Task.{TaskId, TaskStatus, allowed}
use neorc.Values.{Value, decode, encode, max_value_depth, ensure_fits, utf8_length}
use neorc.Values.Sizes.{ensure_fits_bounds}
use neorc.Manager.Calls.{lift}
use neorc.Manager.Reading.{read-returns, ensure_on_queue-Reads}
use neorc.Manager.Checks.{Services, checked_result, max_payload_bytes}
use neorc.Manager.Working.{recorded, is_invalid_value, report_finished, ensure_on_queue}

-- A reported result is kept in its encoded form, which fits, or it is recorded as a failure.
recorded-cases :
    (services : Services) (result : JsonValue) (kept : Report)
    → recorded services (success result) ≡ ok kept
    → (kept ≡ failure (services.invalid_result result))
      ⊎ ((encoded : JsonValue) × (checked_result services result ≡ ok encoded)
          × (kept ≡ success encoded))
unfolding recorded
recorded-cases services result kept h = go (checked_result services result) refl h
  where
    go :
        (r : Result JsonValue)
        → checked_result services result ≡ r
        → (elim r [
          | ok encoded ↦ ok (success encoded)
          | err e ↦
              if is_invalid_value e then ok (failure (services.invalid_result result)) else err e
        ])
          ≡ ok kept
        → (kept ≡ failure (services.invalid_result result))
          ⊎ ((encoded : JsonValue) × (checked_result services result ≡ ok encoded)
              × (kept ≡ success encoded))
    go (ok encoded) e p = inr (encoded, e, ok-injective (sym p))
    go (err e) q p = elim (Bool-cases (is_invalid_value e)) [
      | inl invalid ↦ inl ground arith
      | inr other ↦ absurd (ground arith)
    ]

-- A result that passes the check decodes, and what is kept is that value's encoding, which fits.
checked_result-ok :
    (services : Services) (result encoded : JsonValue)
    → checked_result services result ≡ ok encoded
    → (value : Value) × (decode services.written result max_value_depth ≡ ok value)
      × (encode services.written value ≡ ok encoded)
      × (ensure_fits (services.dumps_json encoded) max_payload_bytes ≡ ok tt)
unfolding checked_result
checked_result-ok services result encoded h =
    let (value, decoded, h') = >>=-eq-ok _ _ h in
    let (again, kept, h'') = >>=-eq-ok _ _ h' in
    let (fits, small, same) = >>=-eq-ok _ _ h'' in
    (
      value,
      decoded,
      subst (λ x. encode services.written value ≡ ok x) (ok-injective same) kept,
      subst (λ x. ensure_fits (services.dumps_json x) max_payload_bytes ≡ ok tt) (ok-injective same)
          small,
    )

pub finish_task-returns :
    (id : TaskId) (report : Report) (now : Time) (s s' : Store) (t : Task)
    → finish_task id report now s ≡ (ok t, s')
    → (task : Task) × (t ≡ finished_by report task now) × (Dict.get id s'.tasks ≡ some t)
unfolding finish_task
finish_task-returns id report now s s' t h = elim (Option-cases (Dict.get id s.tasks)) [
  | inl unknown ↦ absurd (ground arith)
  | inr (task, known) ↦ elim (Bool-cases (allowed task.status (final_status report))) [
    | inr refused ↦ absurd (ground arith)
    | inl fine ↦
        let finished = finished_by report task now in
        let e : (finish_task id report now s).0 ≡ ok finished = rw (known, fine) refl in
        let found : Dict.get id (finish_task id report now s).1.tasks ≡ some finished =
          rw (known, fine) (get-set_self id finished s.tasks) in
        let same : finished ≡ t = ok-injective (sym e ∙ ap (λ r. r.0) h) in
        (
          task,
          sym same,
          subst (λ u. Dict.get id u.tasks ≡ some t) (ap (λ r. r.1) h) (found ∙ ap some same),
        )
  ]
]

module _ (l : Libraries) (services : Services) (fuel : ℕ) where
  -- What a kept report makes of a task.
  kept-result :
      (result : JsonValue) (kept : Report) (task t : Task) (now : Time)
      → recorded services (success result) ≡ ok kept
      → t ≡ finished_by kept task now
      → (t.status ≡ TaskStatus.failed)
        ⊎ ((value : Value) × (size : ℕ) × (decode services.written result max_value_depth
              ≡ ok value)
            × (encode services.written value ≡ ok t.result)
            × (utf8_length (services.dumps_json t.result) ≡ some size)
            × (size ≤ max_payload_bytes))
  unfolding finished_by
  kept-result result kept task t now h e = elim (recorded-cases services result kept h) [
    | inl failed ↦ inl (ap (λ u. u.status) e ∙ ap (λ k. (finished_by k task now).status) failed)
    | inr (encoded, checked, same) ↦
        let (value, decoded, fine, small) = checked_result-ok services result encoded checked in
        let (size, known, bounded) =
          ensure_fits_bounds (services.dumps_json encoded) max_payload_bytes small in
        let r : encoded ≡ t.result =
          sym (ap (λ u. u.result) e ∙ ap (λ k. (finished_by k task now).result) same) in
        inr (
          value,
          size,
          decoded,
          subst (λ x. encode services.written value ≡ ok x) r fine,
          subst (λ x. utf8_length (services.dumps_json x) ≡ some size) r known,
          bounded,
        )
  ]

  -- A report of a result that the manager accepts leaves the task in the store as failed, or with the
  -- encoding of the value that the result decodes to, at most MAX_PAYLOAD_BYTES long in UTF-8.
  pub report_finished_bounds :
      (id : TaskId) (result : JsonValue) (queue : Option String) (now : Time) (s s' : Store)
      (t : Task)
      → report_finished (memory l) services fuel id (success result) queue now s ≡ (ok t, s')
      → (Dict.get id s'.tasks ≡ some t)
        × ((t.status ≡ TaskStatus.failed)
            ⊎ ((value : Value) × (size : ℕ) × (decode services.written result max_value_depth
                  ≡ ok value)
                × (encode services.written value ≡ ok t.result)
                × (utf8_length (services.dumps_json t.result) ≡ some size)
                × (size ≤ max_payload_bytes)))
  unfolding report_finished
  report_finished_bounds id result queue now s s' t h =
      let (same, e, h') =
        read-returns (ensure_on_queue (memory l) services fuel id queue) _ s s' t
          (ensure_on_queue-Reads l services fuel id queue) h in
      let (kept, e', h'') =
        read-returns (lift (recorded services (success result))) _ s s' t (λ u. refl) h' in
      let (task, finished, found) = finish_task-returns id kept now s s' t h'' in
      (found, kept-result result kept task t now e' finished)
