-- ===== src/Monitor/Runs/Tests.antt =====
-- Two runs of one domain, claimed and completed (internal/monitor/store.go).
use domains_checker_infomati.Base.{ℕ, List, [], ◌∷◌, none, some, true, ◌≡◌, refl, arith}
use domains_checker_infomati.Monitor.Complete.{RunStatus}
use domains_checker_infomati.Monitor.Runs.{
  RunRow, Policy, claimed, refused, ClaimError, claim_execution, claim_row, commit_row, save,
  finish_run, another_active, claimed_row, completed_row,
}
use domains_checker_infomati.Monitor.Runs.Steps.{
  State, wait, create, claim, complete, Reach, here, next, empty,
}
use domains_checker_infomati.Monitor.Runs.Leases.{Exclusive, Reach-Exclusive}
use domains_checker_infomati.Monitor.Runs.Results.{Counted, Reach-Counted}
use domains_checker_infomati.Monitor.Runs.Claims.{claim_execution-stuck}

abbrev policy : Policy
policy = record { lease = 90; max_attempts = 10 }

abbrev queued : ℕ → RunRow
queued id = record {
  id = id;
  domain = 7;
  status = RunStatus.queued;
  deadline_at = 60;
  started_at = none;
  completed_at = none;
  worker = none;
  heartbeat_at = none;
  attempts = 0;
  error_code = none;
}

abbrev inserted : State
inserted = record { clock = 0; runs = queued 2 ∷ queued 1 ∷ []; results = [] }

reach_inserted : Reach policy empty inserted
reach_inserted =
    next (next here (create empty (queued 1) (ground arith) refl))
      (create (record empty { runs = queued 1 ∷ [] }) (queued 2) (ground arith) refl)

-- The first claim succeeds, the second finds the domain held.
first_claim :
    claim_execution policy 5 5 1 "a" true inserted.runs
    ≡ (queued 2 ∷ claimed_row 5 "a" (queued 1) ∷ [], claimed (claimed_row 5 "a" (queued 1)))
unfolding claim_execution claim_row commit_row save another_active
first_claim = refl

abbrev held : List RunRow
held = queued 2 ∷ claimed_row 5 "a" (queued 1) ∷ []

second_claim : claim_execution policy 6 6 2 "b" true held ≡ (held, refused ClaimError.busy)
unfolding claim_execution claim_row another_active
second_claim = refl

abbrev finished : List RunRow
finished = queued 2 ∷ completed_row 20 (claimed_row 5 "a" (queued 1)) ∷ []

finish : finish_run 20 1 held ≡ some finished
unfolding finish_run save
finish = refl

abbrev over : State
over = record { clock = 20; runs = finished; results = 1 ∷ [] }

reach_over : Reach policy empty over
unfolding claim_execution claim_row commit_row save another_active
reach_over =
    next
      (next
        (next (next reach_inserted (wait inserted 5 (omega arith)))
          (claim (record inserted { clock = 5 }) 5 1 "a" true))
        (wait (record { clock = 5; runs = held; results = [] }) 20 (omega arith)))
      (complete (record { clock = 20; runs = held; results = [] }) 1 finished finish)

Reach-Exclusive_example : Exclusive 90 20 finished
Reach-Exclusive_example = Reach-Exclusive policy reach_over

Reach-Counted_example : Counted policy over
Reach-Counted_example = Reach-Counted reach_over

claim_execution-stuck_example :
    claim_execution policy 60 60 2 "b" true held ≡ (held, refused ClaimError.database)
claim_execution-stuck_example =
    claim_execution-stuck policy 60 60 2 "b" true (queued 2) held refl refl refl (omega arith)
