-- ===== src/Monitor/Schedule.antt =====
-- internal/monitor/scheduler.go and service.go: `ScheduleDue` and `createManualRun`, which insert runs
-- and the events that hand them to the workers, in one transaction each. Times are milliseconds; the
-- service's clock is `now`, the database's `db_now`. Of a run the columns that the insert sets are kept.
-- An error of the database rolls everything back and is `none`; the texts of uuids and of times and the
-- new uuids are parameters.
pub mod Synced
pub mod Again
mod Tests
use Prim.Native.String.{len, ◌++◌}
use domains_checker_infomati.Base.{
  ℕ, zero, suc, ◌+◌, ◌*◌, ◌/◌, String, List, [], ◌∷◌, Option, none, some, Bool, true, false, not,
  ◌&&◌, ◌||◌, if◌then◌else◌, ◌==◌, leb, ltb, str_eq,
}
use domains_checker_infomati.Base.Text.{trim_space}
use domains_checker_infomati.Outbox.{Outbox, enqueue}

-- A row of monitor_schedules with the two columns of its domain.
pub record ScheduleRow : Type 0 where
  pub id : ℕ
  pub domain_id : ℕ
  pub interval_seconds : ℕ
  pub priority : String
  pub jitter_seconds : ℕ
  pub next_due_at : ℕ
  pub last_due_at : Option ℕ
  pub last_run_id : Option ℕ
  pub version : ℕ
  pub enabled : Bool
  pub monitoring_enabled : Bool
  pub is_active : Bool

pub record QueuedRun : Type 0 where
  pub id : ℕ
  pub domain_id : ℕ
  pub trigger_type : String
  pub priority : String
  pub deduplication_key : String
  pub policy_version : String
  pub requested_by : Option ℕ
  pub scheduled_for : ℕ
  pub deadline_at : ℕ

pub record MonitoredDomain : Type 0 where
  pub id : ℕ
  pub is_active : Bool

pub record AuditEntry : Type 0 where
  pub action : String
  pub actor : ℕ
  pub run : ℕ
  pub domain : ℕ

-- The tables.
pub record Board : Type 0 where
  pub schedules : List ScheduleRow
  pub domains : List MonitoredDomain
  pub runs : List QueuedRun
  pub outbox : Outbox
  pub audit : List AuditEntry

-- The configuration, and what prints uuids and times; `payload` is the JSON of a job.
pub record Setup : Type 0 where
  pub policy_version : String
  pub run_timeout : ℕ
  pub batch_size : ℕ
  pub stream : String
  pub uuid_text : ℕ → String
  pub rfc3339 : ℕ → String
  pub payload : ℕ → String

abbrev pub find_run : String → List QueuedRun → Option QueuedRun
find_run key [] = none
find_run key (run ∷ runs) = if str_eq run.deduplication_key key then some run else find_run key runs

abbrev pub has_run : String → List QueuedRun → Bool
has_run key [] = false
has_run key (run ∷ runs) = str_eq run.deduplication_key key || has_run key runs

-- `INSERT … ON CONFLICT (deduplication_key) DO NOTHING` under `CHECK (deadline_at > scheduled_for)`, and
-- the event of a run that was inserted.
unfoldable pub insert_run : Setup → ℕ → ℕ → QueuedRun → Board → Option (Bool × Board)
insert_run p db_now event_id run board =
    if not (ltb run.scheduled_for run.deadline_at)
    then none
    else if has_run run.deduplication_key board.runs
    then some (false, board)
    else elim (enqueue db_now event_id ("outbox:" ++ run.deduplication_key) "monitor.run.requested"
        p.stream (p.payload run.id) board.outbox) [
          | none ↦ none
          | some outbox ↦ some (true, record board { runs = run ∷ board.runs; outbox = outbox })
        ]

abbrev pub is_due : ℕ → ScheduleRow → Bool
is_due db_now s = s.enabled && leb s.next_due_at db_now && s.monitoring_enabled && s.is_active

abbrev pub rank : String → ℕ
rank priority = if str_eq priority "critical" then 0 else if str_eq priority "normal" then 1 else 2

abbrev pub precedes : ScheduleRow → ScheduleRow → Bool
precedes a b =
    ltb (rank a.priority) (rank b.priority)
    || (rank a.priority == rank b.priority && leb a.next_due_at b.next_due_at)

unfoldable pub insert_schedule : ScheduleRow → List ScheduleRow → List ScheduleRow
insert_schedule s [] = s ∷ []
insert_schedule s (r ∷ rows) = if precedes s r then s ∷ r ∷ rows else r ∷ insert_schedule s rows

-- The due rows in their order, without those that another transaction locks (`SKIP LOCKED`).
unfoldable pub due_rows : ℕ → (ℕ → Bool) → List ScheduleRow → List ScheduleRow
due_rows db_now skipped [] = []
due_rows db_now skipped (s ∷ rows) =
    let rest = due_rows db_now skipped rows in
    if is_due db_now s && not (skipped s.id) then insert_schedule s rest else rest

-- `LIMIT`.
unfoldable pub first_rows : ℕ → List ScheduleRow → List ScheduleRow
first_rows zero rows = []
first_rows (suc n) [] = []
first_rows (suc n) (s ∷ rows) = s ∷ first_rows n rows

-- `Truncate(time.Second)`.
abbrev pub slot_of : ScheduleRow → ℕ
slot_of s = s.next_due_at / 1000 * 1000

abbrev pub scheduled_key : Setup → ScheduleRow → String
scheduled_key p s =
    "monitor:"
    ++ (p.uuid_text s.domain_id
        ++ (":" ++ (p.rfc3339 (slot_of s) ++ (":" ++ (p.policy_version ++ ":local")))))

abbrev pub scheduled_run : Setup → ℕ → ℕ → ScheduleRow → QueuedRun
scheduled_run p now run_id s = record {
  id = run_id;
  domain_id = s.domain_id;
  trigger_type = "scheduled";
  priority = s.priority;
  deduplication_key = scheduled_key p s;
  policy_version = p.policy_version;
  requested_by = none;
  scheduled_for = slot_of s;
  deadline_at = now + p.run_timeout;
}

-- The update of the schedule with its new due time.
unfoldable pub advance_schedule : ℕ → ScheduleRow → Option ℕ → List ScheduleRow → List ScheduleRow
advance_schedule now s run_id [] = []
advance_schedule now s run_id (r ∷ rows) =
    let rest = advance_schedule now s run_id rows in
    if r.id == s.id
    then record r {
      last_due_at = some (slot_of s);
      last_run_id = elim run_id [ none ↦ r.last_run_id | some id ↦ some id ];
      next_due_at = now + r.interval_seconds * 1000 + r.jitter_seconds * 1000;
      version = suc r.version;
    }
      ∷ rest
    else r ∷ rest

-- The body of the loop, with the new uuids of the run and of its event.
unfoldable pub schedule_one : Setup → ℕ → ℕ → ℕ → ℕ → ScheduleRow → Board → Option (Bool × Board)
schedule_one p now db_now run_id event_id s board =
    elim (insert_run p db_now event_id (scheduled_run p now run_id s) board) [
      | none ↦ none
      | some (created, written) ↦ some (
        created,
        record written {
          schedules =
              advance_schedule now s (if created then some run_id else none) written.schedules;
        },
      )
    ]

unfoldable pub schedule_all :
    Setup → ℕ → ℕ → (ℕ → ℕ) → (ℕ → ℕ) → List ScheduleRow → ℕ → Board → Option (ℕ × Board)
schedule_all p now db_now run_ids event_ids [] created board = some (created, board)
schedule_all p now db_now run_ids event_ids (s ∷ rows) created board =
    elim (schedule_one p now db_now (run_ids s.id) (event_ids s.id) s board) [
      | none ↦ none
      | some (inserted, written) ↦
          schedule_all p now db_now run_ids event_ids rows
            (if inserted then suc created else created) written
    ]

-- `ScheduleDue`: the number of new runs, and the tables after the commit.
unfoldable pub schedule_due :
    Setup → ℕ → ℕ → (ℕ → ℕ) → (ℕ → ℕ) → (ℕ → Bool) → Board → Option (ℕ × Board)
schedule_due p now db_now run_ids event_ids skipped board =
    schedule_all p now db_now run_ids event_ids
      (first_rows p.batch_size (due_rows db_now skipped board.schedules)) 0 board

pub data Manual : Type 0 where
  returned : ℕ → Bool → Manual
  invalid_key domain_not_found domain_inactive database_error : Manual

abbrev pub find_domain : ℕ → List MonitoredDomain → Option MonitoredDomain
find_domain id [] = none
find_domain id (d ∷ domains) = if d.id == id then some d else find_domain id domains

abbrev pub manual_key : Setup → ℕ → ℕ → String → String
manual_key p domain_id user_id key =
    "manual:" ++ (p.uuid_text domain_id ++ (":" ++ (p.uuid_text user_id ++ (":" ++ key))))

abbrev pub manual_row : Setup → ℕ → ℕ → ℕ → ℕ → String → QueuedRun
manual_row p now run_id domain_id user_id key = record {
  id = run_id;
  domain_id = domain_id;
  trigger_type = "manual";
  priority = "critical";
  deduplication_key = key;
  policy_version = p.policy_version;
  requested_by = some user_id;
  scheduled_for = now;
  deadline_at = now + p.run_timeout;
}

-- The insert, and the run that has the key already or the entry of the audit log.
unfoldable pub request_run :
    Setup → ℕ → ℕ → ℕ → ℕ → ℕ → ℕ → String → String → Board → Board × Manual
request_run p now db_now run_id event_id domain_id user_id key action board =
    elim (insert_run p db_now event_id (manual_row p now run_id domain_id user_id key) board) [
      | none ↦ (board, database_error)
      | some (created, written) ↦
          if created
          then (
            record written {
              audit =
                  record { action = action; actor = user_id; run = run_id; domain = domain_id }
                  ∷ written.audit;
            },
            returned run_id true,
          )
          else elim (find_run key board.runs) [
            | none ↦ (board, database_error)
            | some run ↦ (board, returned run.id false)
          ]
    ]

-- `createManualRun`.
unfoldable pub create_manual_run :
    Setup → ℕ → ℕ → ℕ → ℕ → ℕ → ℕ → String → String → Board → Board × Manual
create_manual_run p now db_now run_id event_id domain_id user_id raw action board =
    let key = trim_space raw in
    if str_eq key "" || ltb 200 (len key)
    then (board, invalid_key)
    else elim (find_domain domain_id board.domains) [
      | none ↦ (board, domain_not_found)
      | some d ↦
          if not d.is_active
          then (board, domain_inactive)
          else request_run p now db_now run_id event_id domain_id user_id
              (manual_key p domain_id user_id key) action board
    ]
