-- ===== src/Monitor/Runs.antt =====
-- The rows of `monitoring_runs` and the statements on them: `ClaimExecution` and `FailRun` of
-- internal/monitor/store.go, the last statement of `CompleteRun` of internal/monitor/complete.go.
-- Times are milliseconds. A claim reads two clocks, the service's `now` and the database's `db_now`.
-- Its transaction holds the row lock on the run and the advisory lock on the domain (`locked`: whether
-- the lock was free), so that claims of one domain do not interleave.
pub mod Steps
pub mod Leases
pub mod Results
pub mod Claims
mod Tests
use domains_checker_infomati.Base.{
  ℕ, suc, ◌+◌, String, List, [], ◌∷◌, Option, none, some, Bool, true, false, not, ◌&&◌, ◌||◌,
  if◌then◌else◌, ◌==◌, leb, ltb, is_some, length,
}
use domains_checker_infomati.Monitor.Complete.{RunStatus, is_running}

pub record RunRow : Type 0 where
  pub id : ℕ
  pub domain : ℕ
  pub status : RunStatus
  pub deadline_at : ℕ
  pub started_at : Option ℕ
  pub completed_at : Option ℕ
  pub worker : Option String
  pub heartbeat_at : Option ℕ
  pub attempts : ℕ
  pub error_code : Option String

-- `MonitorQueueLease` and `OutboxMaxAttempts`.
pub record Policy : Type 0 where
  pub lease : ℕ
  pub max_attempts : ℕ

abbrev pub is_completed : RunStatus → Bool
is_completed RunStatus.completed = true
is_completed _ = false

abbrev pub is_cancelled : RunStatus → Bool
is_cancelled RunStatus.cancelled = true
is_cancelled _ = false

abbrev pub find : ℕ → List RunRow → Option RunRow
find id [] = none
find id (run ∷ t) = if run.id == id then some run else find id t

abbrev pub replace : RunRow → List RunRow → List RunRow
replace row [] = []
replace row (run ∷ t) = if run.id == row.id then row ∷ t else run ∷ replace row t

-- `CHECK (completed_at IS NULL OR started_at IS NOT NULL)`.
abbrev pub is_allowed : RunRow → Bool
is_allowed row = not (is_some row.completed_at) || is_some row.started_at

-- `UPDATE … WHERE id = …`: a row that the constraint forbids is an error.
unfoldable pub save : RunRow → List RunRow → Option (List RunRow)
save row t = if is_allowed row then some (replace row t) else none

-- The heartbeat is younger than the lease.
abbrev pub beats : ℕ → ℕ → Option ℕ → Bool
beats lease now none = false
beats lease now (some heartbeat) = ltb now (heartbeat + lease)

abbrev pub is_active : ℕ → ℕ → RunRow → Bool
is_active lease now run = is_running run.status && beats lease now run.heartbeat_at

unfoldable pub another_active : ℕ → ℕ → ℕ → ℕ → List RunRow → Bool
another_active lease now domain id [] = false
another_active lease now domain id (run ∷ t) =
    (run.domain == domain && not (run.id == id) && is_active lease now run)
    || another_active lease now domain id t

pub data ClaimError : Type 0 where
  not_found run_completed run_expired busy database : ClaimError

pub data Claim : Type 0 where
  claimed : RunRow → Claim
  refused : ClaimError → Claim

-- A statement and the commit, or the error of the database and the rollback.
unfoldable pub commit_row : RunRow → Claim → List RunRow → List RunRow × Claim
commit_row row outcome t = elim (save row t) [
  | none ↦ (t, refused database)
  | some written ↦ (written, outcome)
]

abbrev pub expired_row : ℕ → RunRow → RunRow
expired_row db_now run = record run {
  status = RunStatus.failed;
  completed_at = some db_now;
  error_code = some "RUN_DEADLINE_EXCEEDED";
  worker = none;
  heartbeat_at = none;
}

abbrev pub exhausted_row : ℕ → RunRow → RunRow
exhausted_row db_now run = record run {
  status = RunStatus.failed;
  completed_at = some db_now;
  error_code = some "JOB_DELIVERY_ATTEMPTS_EXHAUSTED";
}

-- `COALESCE(started_at, now())`.
abbrev pub coalesce : Option ℕ → ℕ → Option ℕ
coalesce none fallback = some fallback
coalesce (some t) fallback = some t

abbrev pub claimed_row : ℕ → String → RunRow → RunRow
claimed_row db_now worker run = record run {
  status = RunStatus.running;
  started_at = coalesce run.started_at db_now;
  worker = some worker;
  heartbeat_at = some db_now;
  attempts = run.attempts + 1;
  error_code = none;
}

unfoldable pub claim_row :
    Policy → ℕ → ℕ → String → Bool → RunRow → List RunRow → List RunRow × Claim
claim_row p now db_now worker locked run t =
    if is_completed run.status || is_cancelled run.status
    then (t, refused run_completed)
    else if leb run.deadline_at now
    then commit_row (expired_row db_now run) (refused run_expired) t
    else if is_active p.lease now run
    then (t, refused busy)
    else if not locked
    then (t, refused busy)
    else if another_active p.lease db_now run.domain run.id t
    then (t, refused busy)
    else if leb p.max_attempts run.attempts
    then commit_row (exhausted_row db_now run) (refused run_expired) t
    else commit_row (claimed_row db_now worker run) (claimed (claimed_row db_now worker run)) t

unfoldable pub claim_execution :
    Policy → ℕ → ℕ → ℕ → String → Bool → List RunRow → List RunRow × Claim
claim_execution p now db_now id worker locked t = elim (find id t) [
  | none ↦ (t, refused not_found)
  | some run ↦ claim_row p now db_now worker locked run t
]

abbrev pub failed_row : ℕ → String → RunRow → RunRow
failed_row db_now code run = record run {
  status = RunStatus.failed;
  completed_at = some db_now;
  error_code = some code;
  worker = none;
  heartbeat_at = none;
}

-- `FailRun`: no row, or a completed one, is no error.
unfoldable pub fail_run : ℕ → ℕ → String → List RunRow → Option (List RunRow)
fail_run db_now id code t = elim (find id t) [
  | none ↦ some t
  | some run ↦ if is_completed run.status then some t else save (failed_row db_now code run) t
]

abbrev pub completed_row : ℕ → RunRow → RunRow
completed_row db_now run = record run {
  status = RunStatus.completed;
  completed_at = some db_now;
  worker = none;
  heartbeat_at = none;
  error_code = none;
}

-- The last statement of `CompleteRun`; `none` rolls its whole transaction back.
unfoldable pub finish_run : ℕ → ℕ → List RunRow → Option (List RunRow)
finish_run db_now id t = elim (find id t) [
  | none ↦ none
  | some run ↦ if is_running run.status then save (completed_row db_now run) t else none
]
