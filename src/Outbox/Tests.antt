-- ===== src/Outbox/Tests.antt =====
-- A round of the dispatcher over two events (internal/queue/outbox.go).
use domains_checker_infomati.Base.{
  ℕ, ◌≤◌, String, [], ◌∷◌, Option, none, some, Bool, false, ◌≡◌, refl, arith, ◌==◌,
}
use mathlib.Core.Option
use domains_checker_infomati.Outbox.{
  EventStatus, EventRow, Dispatcher, Outbox, find, enqueue, claim, requeue, candidates, limit,
  order_by, insert_row, waiting, lock,
}
use domains_checker_infomati.Outbox.Dispatch.{
  mark_dispatched, mark_failure, held_row, deliver, run_once, backoff,
}
use domains_checker_infomati.Outbox.Healthy.{IsHealthy}
use domains_checker_infomati.Outbox.RunOnce.{IsFair, run_once-IsHealthy, run_once-count}

abbrev nobody : Outbox
nobody = record { rows = []; published = [] }

abbrev event : ℕ → String → EventRow
event id key = record {
  id = id;
  idempotency_key = key;
  event_type = "monitor.run";
  stream = "jobs";
  payload = "{}";
  status = EventStatus.pending;
  attempts = 0;
  available_at = id;
  locked_at = none;
  locked_by = none;
  dispatched_at = none;
  error_code = none;
  created_at = id;
}

enqueued :
    enqueue 1 1 "k" "monitor.run" "jobs" "{}" nobody
    ≡ some (record nobody { rows = event 1 "k" ∷ [] })
unfolding enqueue
enqueued = refl

enqueued_again :
    enqueue 2 2 "k" "monitor.run" "jobs" "{}" (record nobody { rows = event 1 "k" ∷ [] }) ≡ none
unfolding enqueue
enqueued_again = refl

abbrev dispatcher : Dispatcher
dispatcher = record { worker = "w"; batch_size = 10; lease = 30000; max_attempts = 3 }

abbrev two : Outbox
two = record { rows = event 2 "b" ∷ event 1 "a" ∷ []; published = [] }

-- The broker takes the first event only.
abbrev takes : EventRow → Bool
takes e = e.id == 1

abbrev alone : ℕ → Outbox → Outbox
alone id o = o

abbrev after : Outbox × ℕ × Bool
after = run_once dispatcher 100 takes (λ id. 7) alone (λ id. false) two

status_of : ℕ → Outbox → Option (EventStatus × ℕ × ℕ)
status_of id o =
    Option.map (λ (r : EventRow). (r.status, r.attempts, r.available_at)) (find id o.rows)

first_goes :
    (status_of 1 after.0 ≡ some (EventStatus.dispatched, 0, 1))
    × (status_of 2 after.0 ≡ some (EventStatus.pending, 1, 2107))
    × (after.0.published ≡ 1 ∷ [])
    × (after.1 ≡ 1)
unfolding status_of run_once claim requeue candidates limit order_by insert_row waiting lock deliver
    mark_dispatched mark_failure held_row backoff
first_goes = (refl, refl, refl, refl)

two-IsHealthy : IsHealthy 3 two
two-IsHealthy = record { unique = (refl, (refl, tt)); sound = λ i r f. ground arith }

alone-IsFair : IsFair 3 alone
alone-IsFair = record { keeps = λ id o h. h; recalls = λ id i o h. h }

run_once-IsHealthy_example : IsHealthy 3 after.0
run_once-IsHealthy_example =
    run_once-IsHealthy dispatcher 100 takes (λ id. 7) alone alone-IsFair (λ id. false) two
      two-IsHealthy

run_once-count_example : after.1 ≤ 10
run_once-count_example =
    run_once-count dispatcher 100 takes (λ id. 7) alone alone-IsFair (λ id. false) two
