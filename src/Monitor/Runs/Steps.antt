-- ===== src/Monitor/Runs/Steps.antt =====
-- What may happen to the runs, in any order: inserts, claims, failures, completions, and time
-- (internal/monitor/store.go, complete.go, scheduler.go, service.go).
use domains_checker_infomati.Base.{
  ℕ, ◌≤◌, String, List, [], ◌∷◌, none, some, Bool, ◌≡◌, if◌then◌else◌, ◌==◌, is_some, arith, true,
}
use domains_checker_infomati.Monitor.Complete.{RunStatus}
use domains_checker_infomati.Monitor.Runs.{
  RunRow, Policy, find, replace, claim_execution, fail_run, finish_run, save, is_allowed,
}

-- The database's clock, the rows, and the runs whose results were committed, newest first.
pub record State : Type 0 where
  pub clock : ℕ
  pub runs : List RunRow
  pub results : List ℕ

-- A row as the scheduler and the service insert it.
abbrev pub IsNew : RunRow → Type 0
IsNew row =
    (row.status ≡ RunStatus.queued)
    × (row.started_at ≡ none)
    × (row.completed_at ≡ none)
    × (row.heartbeat_at ≡ none)
    × (row.attempts ≡ 0)

pub data Step (p : Policy) : State → State → Type 0 where
  wait : (s : State) (later : ℕ) → s.clock ≤ later → Step p s (record s { clock = later })
  create :
      (s : State) (row : RunRow)
      → IsNew row
      → find row.id s.runs ≡ none
      → Step p s (record s { runs = row ∷ s.runs })
  claim :
      (s : State) (now id : ℕ) (worker : String) (locked : Bool)
      → Step p s (record s { runs = (claim_execution p now s.clock id worker locked s.runs).0 })
  fail :
      (s : State) (id : ℕ) (code : String) (t : List RunRow)
      → fail_run s.clock id code s.runs ≡ some t
      → Step p s (record s { runs = t })
  complete :
      (s : State) (id : ℕ) (t : List RunRow)
      → finish_run s.clock id s.runs ≡ some t
      → Step p s (record s { runs = t; results = id ∷ s.results })

pub data Reach (p : Policy) (s : State) : State → Type 0 where
  here : Reach p s s
  next : {t u : State} → Reach p s t → Step p t u → Reach p s u

abbrev pub empty : State
empty = record { clock = 0; runs = []; results = [] }

pub find-replace :
    (j : ℕ) (row : RunRow) (t : List RunRow)
    → find j (replace row t)
      ≡ (if row.id == j then (if is_some (find j t) then some row else none) else find j t)
find-replace j row [] = ground arith
find-replace j row (run ∷ t) = ground (arith, find-replace j row t)

pub find_id : (j : ℕ) (t : List RunRow) (row : RunRow) → find j t ≡ some row → row.id ≡ j
find_id j [] row h = cc
find_id j (run ∷ t) row h = ground (arith, find_id j t row)

-- A statement either replaces the row of its identifier by an allowed one, or changes nothing.
pub find-save :
    (j : ℕ) (row : RunRow) (t u : List RunRow)
    → save row t ≡ some u
    → (find j u
        ≡ (if row.id == j then (if is_some (find j t) then some row else none) else find j t))
      × (is_allowed row ≡ true)
unfolding save
find-save j row t u h = ground (arith, find-replace j row t)
