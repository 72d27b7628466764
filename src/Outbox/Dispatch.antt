-- ===== src/Outbox/Dispatch.antt =====
-- Delivery of claimed events in internal/queue/outbox.go: `markDispatched`, `markFailure`, `RunOnce`.
use domains_checker_infomati.Base.{
  ℕ, ◌+◌, ◌*◌, ◌^◌, min, String, List, [], ◌∷◌, Option, none, some, Bool, true, false, ◌&&◌,
  if◌then◌else◌, ◌==◌, leb, str_eq,
}
use domains_checker_infomati.Outbox.{
  EventStatus, EventRow, Outbox, Dispatcher, is_dispatching, find, claim,
}

abbrev pub replace : EventRow → List EventRow → List EventRow
replace row [] = []
replace row (r ∷ rows) = if r.id == row.id then row ∷ rows else r ∷ replace row rows

abbrev pub is_held_by : String → EventRow → Bool
is_held_by worker row = elim row.locked_by [ none ↦ false | some holder ↦ str_eq holder worker ]

-- The row of a statement with `WHERE id = $1 AND status = 'dispatching' AND locked_by = $2`.
unfoldable pub held_row : String → ℕ → List EventRow → Option EventRow
held_row worker id rows = elim (find id rows) [
  | none ↦ none
  | some row ↦ if is_dispatching row.status && is_held_by worker row then some row else none
]

abbrev pub dispatched_row : ℕ → EventRow → EventRow
dispatched_row now row = record row {
  status = EventStatus.dispatched;
  dispatched_at = some now;
  locked_at = none;
  locked_by = none;
  error_code = none;
}

-- `LEAST(300, power(2, attempts + 1))` seconds, and the jitter.
unfoldable pub backoff : ℕ → ℕ → ℕ
backoff attempts jitter = min 300 (2 ^ (attempts + 1)) * 1000 + jitter

abbrev pub failed_row : ℕ → ℕ → ℕ → EventRow → EventRow
failed_row max_attempts now jitter row = record row {
  attempts = row.attempts + 1;
  status = if leb max_attempts (row.attempts + 1) then EventStatus.failed else EventStatus.pending;
  available_at = now + backoff row.attempts jitter;
  locked_at = none;
  locked_by = none;
  error_code = some "REDIS_DISPATCH_FAILED";
}

module _ (d : Dispatcher) where
  -- `markDispatched`: no row means that the lease was lost.
  unfoldable pub mark_dispatched : ℕ → ℕ → Outbox → Option Outbox
  mark_dispatched now id o = elim (held_row d.worker id o.rows) [
    | none ↦ none
    | some row ↦ some (record o { rows = replace (dispatched_row now row) o.rows })
  ]

  -- `markFailure`.
  unfoldable pub mark_failure : ℕ → ℕ → ℕ → Outbox → Option Outbox
  mark_failure now jitter id o = elim (held_row d.worker id o.rows) [
    | none ↦ none
    | some row ↦
        some (record o { rows = replace (failed_row d.max_attempts now jitter row) o.rows })
  ]

  -- `XADD`: whether the broker takes the event. What others do before the row is marked follows.
  module _ (now : ℕ) (publish : EventRow → Bool) (jitter : ℕ → ℕ)
      (meanwhile : ℕ → Outbox → Outbox) where
    -- The loop of `RunOnce`: the outbox, the number of dispatched events, and whether it went through.
    unfoldable pub deliver : List EventRow → Outbox → ℕ → Outbox × ℕ × Bool
    deliver [] o n = (o, n, true)
    deliver (event ∷ events) o n = elim (publish event) [
      | true ↦
          let sent = meanwhile event.id (record o { published = event.id ∷ o.published }) in
          elim (mark_dispatched now event.id sent) [
            | none ↦ (sent, n, false)
            | some marked ↦ deliver events marked (n + 1)
          ]
      | false ↦
          let kept = meanwhile event.id o in
          elim (mark_failure now (jitter event.id) event.id kept) [
            | none ↦ (kept, n, false)
            | some marked ↦ deliver events marked n
          ]
    ]

    unfoldable pub run_once : (ℕ → Bool) → Outbox → Outbox × ℕ × Bool
    run_once skipped o = let (claimed, events) = claim d now skipped o in deliver events claimed 0
