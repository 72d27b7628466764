-- ===== src/Outbox.antt =====
-- internal/queue/outbox.go: the outbox of jobs and its dispatcher. Times are milliseconds; the broker,
-- the random jitter and what other dispatchers do in between are parameters.
pub mod Candidates
pub mod Dispatch
pub mod Healthy
pub mod RunOnce
mod Tests
use domains_checker_infomati.Base.{
  ℕ, ◌+◌, ◌*◌, ◌^◌, min, String, List, [], ◌∷◌, map, Option, none, some, Bool, true, false, not,
  ◌&&◌, ◌||◌, if◌then◌else◌, ◌==◌, leb, ltb, str_eq, is_some,
}

-- `outbox_status`.
pub data EventStatus : Type 0 where
  pending dispatching dispatched failed : EventStatus

pub record EventRow : Type 0 where
  pub id : ℕ
  pub idempotency_key : String
  pub event_type : String
  pub stream : String
  pub payload : String
  pub status : EventStatus
  pub attempts : ℕ
  pub available_at : ℕ
  pub locked_at : Option ℕ
  pub locked_by : Option String
  pub dispatched_at : Option ℕ
  pub error_code : Option String
  pub created_at : ℕ

-- The table, and the identifiers of the events that the broker has got, newest first.
pub record Outbox : Type 0 where
  pub rows : List EventRow
  pub published : List ℕ

-- `Dispatcher`.
pub record Dispatcher : Type 0 where
  pub worker : String
  pub batch_size : ℕ
  pub lease : ℕ
  pub max_attempts : ℕ

abbrev pub is_pending : EventStatus → Bool
is_pending EventStatus.pending = true
is_pending _ = false

abbrev pub is_dispatching : EventStatus → Bool
is_dispatching EventStatus.dispatching = true
is_dispatching _ = false

abbrev pub is_dispatched : EventStatus → Bool
is_dispatched EventStatus.dispatched = true
is_dispatched _ = false

abbrev pub is_failed : EventStatus → Bool
is_failed EventStatus.failed = true
is_failed _ = false

abbrev pub find : ℕ → List EventRow → Option EventRow
find id [] = none
find id (row ∷ rows) = if row.id == id then some row else find id rows

abbrev pub has_key : String → List EventRow → Bool
has_key key [] = false
has_key key (row ∷ rows) = str_eq row.idempotency_key key || has_key key rows

-- `EnqueueTx`: a second event with the same key violates the unique constraint.
unfoldable pub enqueue : ℕ → ℕ → String → String → String → String → Outbox → Option Outbox
enqueue now id key event_type stream payload o =
    if has_key key o.rows
    then none
    else some (record o {
      rows =
          record {
            id = id;
            idempotency_key = key;
            event_type = event_type;
            stream = stream;
            payload = payload;
            status = EventStatus.pending;
            attempts = 0;
            available_at = now;
            locked_at = none;
            locked_by = none;
            dispatched_at = none;
            error_code = none;
            created_at = now;
          }
          ∷ o.rows;
    })

-- `locked_at < now() - lease`.
abbrev pub is_stale : ℕ → ℕ → EventRow → Bool
is_stale lease now row = elim row.locked_at [
  | none ↦ false
  | some locked ↦ ltb (locked + lease) now
]

-- The first statement of `claim`: an event whose lease is over waits again.
unfoldable pub requeue : ℕ → ℕ → EventRow → EventRow
requeue lease now row =
    if is_dispatching row.status && is_stale lease now row
    then record row {
      status = EventStatus.pending;
      locked_at = none;
      locked_by = none;
      error_code = some "DISPATCH_LEASE_EXPIRED";
    }
    else row

abbrev pub is_eligible : ℕ → ℕ → EventRow → Bool
is_eligible max_attempts now row =
    is_pending row.status && leb row.available_at now && ltb row.attempts max_attempts

-- `ORDER BY available_at, created_at`.
abbrev pub before : EventRow → EventRow → Bool
before a b =
    ltb a.available_at b.available_at
    || (a.available_at == b.available_at && leb a.created_at b.created_at)

unfoldable pub insert_row : EventRow → List EventRow → List EventRow
insert_row row [] = row ∷ []
insert_row row (r ∷ rows) = if before row r then row ∷ r ∷ rows else r ∷ insert_row row rows

unfoldable pub order_by : List EventRow → List EventRow
order_by [] = []
order_by (r ∷ rows) = insert_row r (order_by rows)

-- The rows that pass the condition and that no other transaction locks (`SKIP LOCKED`).
unfoldable pub waiting : ℕ → ℕ → (ℕ → Bool) → List EventRow → List EventRow
waiting max_attempts now skipped [] = []
waiting max_attempts now skipped (r ∷ rows) =
    if is_eligible max_attempts now r && not (skipped r.id)
    then r ∷ waiting max_attempts now skipped rows
    else waiting max_attempts now skipped rows

-- `LIMIT`.
unfoldable pub limit : ℕ → List EventRow → List EventRow
limit ℕ.zero rows = []
limit (ℕ.suc n) [] = []
limit (ℕ.suc n) (r ∷ rows) = r ∷ limit n rows

-- The `candidates` of the second statement.
unfoldable pub candidates : Dispatcher → ℕ → (ℕ → Bool) → List EventRow → List EventRow
candidates d now skipped rows =
    limit d.batch_size (order_by (waiting d.max_attempts now skipped rows))

unfoldable pub lock : String → ℕ → List EventRow → EventRow → EventRow
lock worker now chosen row =
    if is_some (find row.id chosen)
    then record row {
      status = EventStatus.dispatching;
      locked_at = some now;
      locked_by = some worker;
    }
    else row

-- `claim`: the events of the dispatcher, and the table with them locked.
unfoldable pub claim : Dispatcher → ℕ → (ℕ → Bool) → Outbox → Outbox × List EventRow
claim d now skipped o =
    let waiting_again = map (requeue d.lease now) o.rows in
    let chosen = candidates d now skipped waiting_again in
    (record o { rows = map (lock d.worker now chosen) waiting_again }, chosen)
