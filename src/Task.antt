-- ===== src/Task.antt =====
-- neorc_core/_task.py: a task's lifecycle, the same in every store.
use neorc.Prelude.{ℕ, Bool, true, false, if◌then◌else◌}
use neorc.Errors.{Result, ok, err, task_state}

abbrev pub TaskId : Type 0
TaskId = ℕ

pub data TaskStatus : Type 0 where
  pending received running succeeded failed : TaskStatus

-- Membership in `TERMINAL_STATUSES`.
abbrev pub is_terminal : TaskStatus → Bool
is_terminal TaskStatus.succeeded = true
is_terminal TaskStatus.failed = true
is_terminal _ = false

-- Membership in `LEASED_STATUSES`.
abbrev pub is_leased : TaskStatus → Bool
is_leased TaskStatus.received = true
is_leased TaskStatus.running = true
is_leased _ = false

-- `target in _ALLOWED_TRANSITIONS[current]`
unfoldable pub allowed : TaskStatus → TaskStatus → Bool
allowed TaskStatus.pending TaskStatus.received = true
allowed TaskStatus.pending _ = false
allowed TaskStatus.received TaskStatus.running = true
allowed TaskStatus.received TaskStatus.succeeded = true
allowed TaskStatus.received TaskStatus.failed = true
allowed TaskStatus.received _ = false
allowed TaskStatus.running TaskStatus.running = true
allowed TaskStatus.running TaskStatus.succeeded = true
allowed TaskStatus.running TaskStatus.failed = true
allowed TaskStatus.running _ = false
allowed TaskStatus.succeeded _ = false
allowed TaskStatus.failed _ = false

unfoldable pub ensure_transition : TaskStatus → TaskStatus → Result (Unit {0})
unfolding allowed
ensure_transition current target = if allowed current target then ok tt else err task_state
