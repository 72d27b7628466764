-- ===== src/Monitor/Schedule/Tests.antt =====
-- A scheduler with two due schedules, and a manual run (internal/monitor/scheduler.go, service.go).
use domains_checker_infomati.Base.{
  ℕ, ◌+◌, ◌≤◌, List, [], ◌∷◌, Option, none, some, true, false, ◌≡◌, refl, arith, map, if◌then◌else◌,
  ◌==◌,
}
use domains_checker_infomati.Base.Text.{trim_space}
use domains_checker_infomati.Outbox.{enqueue}
use domains_checker_infomati.Monitor.Schedule.{
  ScheduleRow, Board, Setup, returned, invalid_key, insert_run, due_rows, insert_schedule,
  first_rows, advance_schedule, schedule_one, schedule_all, schedule_due, request_run,
  create_manual_run,
}
use domains_checker_infomati.Monitor.Schedule.Synced.{Synced, Grown, schedule_due-Synced}
use domains_checker_infomati.Monitor.Schedule.Again.{create_manual_run-again}

abbrev setup : Setup
setup = record {
  policy_version = "v1";
  run_timeout = 30000;
  batch_size = 1;
  stream = "monitor";
  uuid_text = λ id. if id == 1 then "d1" else "d2";
  rfc3339 = λ time. "2026-11-26T05:00:00Z";
  payload = λ id. "{}";
}

abbrev low : ScheduleRow
low = record {
  id = 1;
  domain_id = 1;
  interval_seconds = 300;
  priority = "low";
  jitter_seconds = 0;
  next_due_at = 1500;
  last_due_at = none;
  last_run_id = none;
  version = 1;
  enabled = true;
  monitoring_enabled = true;
  is_active = true;
}

abbrev critical : ScheduleRow
critical = record low { id = 2; domain_id = 2; priority = "critical"; next_due_at = 2700 }

abbrev idle : Board
idle = record {
  schedules = low ∷ critical ∷ [];
  domains = record { id = 1; is_active = true } ∷ record { id = 2; is_active = false } ∷ [];
  runs = [];
  outbox = record { rows = []; published = [] };
  audit = [];
}

idle-Synced : Synced idle
idle-Synced key = refl

-- The number of new runs, when the schedules are due again and which runs they had.
abbrev outcome : Option (ℕ × Board) → Option (ℕ × List ℕ × List (Option ℕ))
outcome none = none
outcome (some (created, board)) =
    some
      (created, map (λ s. s.next_due_at) board.schedules, map (λ s. s.last_run_id) board.schedules)

-- The batch has room for the critical domain only.
critical_first :
    outcome (schedule_due setup 3000 3100 (λ id. id + 10) (λ id. id + 20) (λ id. false) idle)
    ≡ some (1, 1500 ∷ 303000 ∷ [], none ∷ some 12 ∷ [])
unfolding schedule_due schedule_all schedule_one insert_run enqueue due_rows insert_schedule
    first_rows advance_schedule
critical_first = refl

schedule_due-Synced_example :
    (created : ℕ) × (written : Board) × (schedule_due setup 3000 3100
        (λ id. id + 10)
        (λ id. id + 20)
        (λ id. false)
        idle
      ≡ some (created, written))
    × Synced written
    × Grown created idle written
    × (created ≤ 1)
schedule_due-Synced_example =
    schedule_due-Synced setup 3000 3100 (λ id. id + 10) (λ id. id + 20) (λ id. false) idle
      (omega arith) idle-Synced

blank_key : create_manual_run setup 0 0 7 8 1 5 "  " "CHECK" idle ≡ (idle, invalid_key)
unfolding create_manual_run trim_space
blank_key = refl

abbrev asked : Board
asked = (create_manual_run setup 3000 3100 7 8 1 5 " again " "CHECK" idle).0

asked_lem :
    create_manual_run setup 3000 3100 7 8 1 5 " again " "CHECK" idle ≡ (asked, returned 7 true)
unfolding create_manual_run request_run insert_run enqueue trim_space
asked_lem = refl

create_manual_run-again_example :
    create_manual_run setup 9000 9100 17 18 1 5 " again " "CHECK" asked ≡ (asked, returned 7 false)
create_manual_run-again_example =
    create_manual_run-again setup 3000 3100 7 8 9000 9100 17 18 1 5 " again " "CHECK" idle asked 7
      true (omega arith) asked_lem
