-- ===== src/Monitor/Runs/Claims.antt =====
-- What a claim answers, and the run that expires before a worker sees it (internal/monitor/store.go).
use domains_checker_infomati.Base.{
  ℕ, ◌≤◌, ◌<◌, String, List, none, some, Bool, true, false, ◌≡◌, arith,
}
use domains_checker_infomati.Monitor.Complete.{RunStatus}
use domains_checker_infomati.Monitor.Runs.{
  RunRow, Policy, refused, ClaimError, find, claim_execution, claim_row, commit_row, save,
  is_active, another_active, is_completed, is_cancelled,
}

-- A run that a worker may take.
pub record IsFree (p : Policy) (now clock : ℕ) (locked : Bool) (run : RunRow) (t : List RunRow)
    : Type 0 where
  pub unfinished : (is_completed run.status ≡ false) × (is_cancelled run.status ≡ false)
  pub early : now < run.deadline_at
  pub idle : is_active p.lease now run ≡ false
  pub unlocked : locked ≡ true
  pub alone : another_active p.lease clock run.domain run.id t ≡ false
  pub tries : run.attempts < p.max_attempts

abbrev pub outcome_of : {A B : Type 0} → A × B → B
outcome_of r = r.1

-- A queued run that reaches its deadline before a worker has taken it is never marked as failed: its
-- row cannot be written, so every claim from then on ends in an error of the database and leaves the
-- runs as they are.
pub claim_execution-stuck :
    (p : Policy) (now clock id : ℕ) (worker : String) (locked : Bool) (run : RunRow)
    (t : List RunRow)
    → find id t ≡ some run
    → run.status ≡ RunStatus.queued
    → run.started_at ≡ none
    → run.deadline_at ≤ now
    → claim_execution p now clock id worker locked t ≡ (t, refused ClaimError.database)
unfolding claim_execution claim_row commit_row save
claim_execution-stuck p now clock id worker locked run t f queued fresh late = ground arith
