-- ===== src/Monitor/Schedule/Again.antt =====
-- internal/monitor/service.go: `createManualRun` with the same idempotency key.
use Prim.Native.String.{len, ◌++◌}
use domains_checker_infomati.Base.{
  ℕ, ◌<◌, String, List, [], ◌∷◌, some, Bool, true, false, ◌||◌, ◌≡◌, refl, arith, ltb, str_eq,
  eq_iff, Bool-cases, Option-cases, inl, inr,
}
use domains_checker_infomati.Base.Text.{trim_space}
use domains_checker_infomati.Outbox.{enqueue}
use domains_checker_infomati.Monitor.Schedule.{
  QueuedRun, Board, Setup, returned, find_run, has_run, find_domain, insert_run, manual_key,
  manual_row, request_run, create_manual_run,
}

find_run-has :
    (key : String) (runs : List QueuedRun) (run : QueuedRun)
    → find_run key runs ≡ some run
    → has_run key runs ≡ true
find_run-has key [] run h = absurd (cc h)
find_run-has key (r ∷ runs) run h = elim (Bool-cases (str_eq r.deduplication_key key)) [
  | inl e ↦ rw e refl
  | inr e ↦ ground (arith, find_run-has key runs run)
]

module _ (p : Setup) (enough : 0 < p.run_timeout) (domain_id user_id : ℕ) (key : String) where
  -- The run is found, and nothing is written.
  request_run-found :
      (now db_now run_id event_id : ℕ) (action : String) (board : Board) (run : QueuedRun)
      → find_run key board.runs ≡ some run
      → request_run p now db_now run_id event_id domain_id user_id key action board
        ≡ (board, returned run.id false)
  unfolding request_run insert_run
  request_run-found now db_now run_id event_id action board run found =
      ground (arith, find_run-has key board.runs run found)

  -- Whatever run is returned is in the table under its key.
  request_run-stored :
      (now db_now run_id event_id : ℕ) (action : String) (board next : Board) (id : ℕ)
      (created : Bool)
      → request_run p now db_now run_id event_id domain_id user_id key action board
        ≡ (next, returned id created)
      → (run : QueuedRun) × (find_run key next.runs ≡ some run)
        × (run.id ≡ id)
        × (next.domains ≡ board.domains)
  unfolding request_run insert_run
  request_run-stored now db_now run_id event_id action board next id created h =
      elim (Bool-cases (has_run key board.runs)) [
        | inl old ↦ elim (Option-cases (find_run key board.runs)) [
          | inl missing ↦ absurd (ground arith)
          | inr (run, found) ↦ (run, ground arith, ground arith, ground arith)
        ]
        | inr new ↦
            elim (Option-cases (
              enqueue db_now event_id ("outbox:" ++ key) "monitor.run.requested" p.stream
                (p.payload run_id) board.outbox)) [
                  | inl refused ↦ absurd (ground arith)
                  | inr (outbox, queued) ↦ (
                    manual_row p now run_id domain_id user_id key,
                    ground (arith, (eq_iff key key).1 refl),
                    ground arith,
                    ground arith,
                  )
                ]
      ]

-- A manual run that was returned once is returned again: with a positive run timeout, a further request
-- of the same user for the same domain with the same idempotency key on the tables that the first has
-- left, at any time and with any new uuids, returns its run, as not created, and writes nothing.
pub create_manual_run-again :
    (p : Setup) (now db_now run_id event_id later db_later other_id other_event : ℕ)
    (domain_id user_id : ℕ) (raw action : String) (board next : Board) (id : ℕ) (created : Bool)
    → 0 < p.run_timeout
    → create_manual_run p now db_now run_id event_id domain_id user_id raw action board
      ≡ (next, returned id created)
    → create_manual_run p later db_later other_id other_event domain_id user_id raw action next
      ≡ (next, returned id false)
unfolding create_manual_run
create_manual_run-again p now db_now run_id event_id later db_later other_id other_event domain_id
      user_id raw action board next id created enough h =
    let key = manual_key p domain_id user_id (trim_space raw) in
    elim (Bool-cases (str_eq (trim_space raw) "" || ltb 200 (len (trim_space raw)))) [
      | inl invalid ↦ absurd (ground arith)
      | inr valid ↦ elim (Option-cases (find_domain domain_id board.domains)) [
        | inl missing ↦ absurd (ground arith)
        | inr (d, present) ↦
            let (run, found, same, kept) =
              request_run-stored p enough domain_id user_id key now db_now run_id event_id action
                board next id created (ground arith) in
            let again =
              request_run-found p enough domain_id user_id key later db_later other_id other_event
                action next run found in
            ground (arith, again, same, kept)
      ]
    ]
