-- ===== src/Monitor/Schedule/Synced.antt =====
-- internal/monitor/scheduler.go: `ScheduleDue` keeps the runs and their events together.
use text.Mathlib.TextLemmas.{append_cancel_left}
use Prim.Native.String.{◌++◌}
use domains_checker_infomati.Base.{
  ℕ, zero, suc, ◌+◌, ◌≤◌, ◌<◌, String, List, [], ◌∷◌, none, some, Bool, true, false, not, ◌&&◌,
  ◌||◌, ◌≡◌, refl, sym, ap, ◌∙◌, arith, length, All, if◌then◌else◌, str_eq, eq_iff, Bool-cases,
  Option-cases, inl, inr,
}
use domains_checker_infomati.Outbox.{Outbox, has_key, enqueue}
use domains_checker_infomati.Monitor.Schedule.{
  ScheduleRow, QueuedRun, Board, Setup, has_run, insert_run, is_due, insert_schedule, due_rows,
  first_rows, scheduled_run, advance_schedule, schedule_one, schedule_all, schedule_due,
}

-- A run with the key is there exactly when its event is.
abbrev pub Synced : Board → Type 0
Synced board =
    (key : String) → has_key ("outbox:" ++ key) board.outbox.rows ≡ has_run key board.runs

-- `n` runs and `n` events more.
pub record Grown (n : ℕ) (board written : Board) : Type 0 where
  pub runs : length written.runs ≡ length board.runs + n
  pub events : length written.outbox.rows ≡ length board.outbox.rows + n

outbox_key-same : (a b : String) → str_eq ("outbox:" ++ a) ("outbox:" ++ b) ≡ str_eq a b
outbox_key-same a b = elim (Bool-cases (str_eq a b)) [
  | inl e ↦
      (eq_iff ("outbox:" ++ a) ("outbox:" ++ b)).1 (ap (λ t. "outbox:" ++ t) ((eq_iff a b).0 e))
      ∙ sym e
  | inr e ↦ elim (Bool-cases (str_eq ("outbox:" ++ a) ("outbox:" ++ b))) [
    | inl f ↦ absurd (cc (e, (eq_iff a b).1 (append_cancel_left "outbox:" a b ((eq_iff _ _).0 f))))
    | inr f ↦ f ∙ sym e
  ]
]

enqueue_new :
    (now id : ℕ) (key event_type stream payload : String) (o : Outbox)
    → has_key key o.rows ≡ false
    → (next : Outbox) × (enqueue now id key event_type stream payload o ≡ some next)
      × ((k : String) → has_key k next.rows ≡ (str_eq key k || has_key k o.rows))
      × (length next.rows ≡ length o.rows + 1)
unfolding enqueue
enqueue_new now id key event_type stream payload o fresh =
    elim (Option-cases (enqueue now id key event_type stream payload o)) [
      | inl e ↦ absurd (ground (arith, fresh))
      | inr (next, e) ↦ (next, e, λ k. ground (arith, fresh, e), ground (arith, fresh, e))
    ]

pub insert_run-Synced :
    (p : Setup) (db_now event_id : ℕ) (run : QueuedRun) (board : Board)
    → run.scheduled_for < run.deadline_at
    → Synced board
    → (created : Bool) × (written : Board) × (insert_run p db_now event_id run board
        ≡ some (created, written))
      × Synced written
      × Grown (if created then 1 else 0) board written
unfolding insert_run
insert_run-Synced p db_now event_id run board valid synced =
    elim (Bool-cases (has_run run.deduplication_key board.runs)) [
      | inl old ↦
          (false, board, ground arith, synced, record { runs = omega arith; events = omega arith })
      | inr new ↦
          let (next, queued, keys, longer) =
            enqueue_new db_now event_id ("outbox:" ++ run.deduplication_key) "monitor.run.requested"
              p.stream (p.payload run.id) board.outbox (synced run.deduplication_key ∙ new) in
          (
            true,
            record board { runs = run ∷ board.runs; outbox = next },
            ground (arith, queued),
            λ key.
                keys ("outbox:" ++ key)
                ∙ rw (outbox_key-same run.deduplication_key key, synced key) refl,
            record { runs = omega arith; events = omega (arith, longer) },
          )
    ]

-- Only rows that are due are taken, and no more than the batch.
insert_schedule-All :
    (P : ScheduleRow → Type 0) (s : ScheduleRow) (rows : List ScheduleRow)
    → P s
    → All P rows
    → All P (insert_schedule s rows)
unfolding insert_schedule
insert_schedule-All P s [] h a = (h, tt)
insert_schedule-All P s (r ∷ rows) h (q, a) = ground (arith, insert_schedule-All P s rows h a)

abbrev Past : ℕ → ScheduleRow → Type 0
Past db_now s = s.next_due_at ≤ db_now

due_rows-All :
    (db_now : ℕ) (skipped : ℕ → Bool) (rows : List ScheduleRow)
    → All (Past db_now) (due_rows db_now skipped rows)
unfolding due_rows
due_rows-All db_now skipped [] = tt
due_rows-All db_now skipped (s ∷ rows) =
    let rest = due_rows-All db_now skipped rows in
    elim (Bool-cases (is_due db_now s && not (skipped s.id))) [
      | inl taken ↦ rw (taken, All) (insert_schedule-All (Past db_now) s _ (ground arith) rest)
      | inr left ↦ rw (left, All) rest
    ]

first_rows-All :
    (P : ScheduleRow → Type 0) (n : ℕ) (rows : List ScheduleRow)
    → All P rows
    → All P (first_rows n rows) × (length (first_rows n rows) ≤ n)
unfolding first_rows
first_rows-All P zero rows a = (tt, omega arith)
first_rows-All P (suc n) [] a = (tt, omega arith)
first_rows-All P (suc n) (s ∷ rows) (h, a) =
    let (rest, short) = first_rows-All P n rows a in ((h, rest), omega (arith, short))

module _ (p : Setup) (now db_now : ℕ) (run_ids event_ids : ℕ → ℕ)
    (clocks : db_now < now + p.run_timeout) where
  schedule_one-Synced :
      (run_id event_id : ℕ) (s : ScheduleRow) (board : Board)
      → Past db_now s
      → Synced board
      → (created : Bool) × (written : Board) × (schedule_one p now db_now run_id event_id s board
          ≡ some (created, written))
        × Synced written
        × Grown (if created then 1 else 0) board written
  unfolding schedule_one
  schedule_one-Synced run_id event_id s board past synced =
      let run = scheduled_run p now run_id s in
      let (created, written, done, still, grown) =
        insert_run-Synced p db_now event_id run board (omega arith) synced in
      (
        created,
        record written {
          schedules =
              advance_schedule now s (if created then some run_id else none) written.schedules;
        },
        rw (done, schedule_one) refl,
        still,
        record { runs = grown.runs; events = grown.events },
      )

  schedule_all-Synced :
      (rows : List ScheduleRow) (created : ℕ) (board : Board)
      → All (Past db_now) rows
      → Synced board
      → (more : ℕ) × (written : Board) × (schedule_all p now db_now run_ids event_ids rows created
            board
          ≡ some (created + more, written))
        × Synced written
        × Grown more board written
        × (more ≤ length rows)
  unfolding schedule_all
  schedule_all-Synced [] created board a synced = (
    0,
    board,
    ground arith,
    synced,
    record { runs = omega arith; events = omega arith },
    omega arith,
  )
  schedule_all-Synced (s ∷ rows) created board (past, a) synced =
      let (inserted, written, done, still, grown) =
        schedule_one-Synced (run_ids s.id) (event_ids s.id) s board past synced in
      let (more, last, rest, synced_last, grown_last, short) =
        schedule_all-Synced rows (if inserted then suc created else created) written a still in
      (
        (if inserted then 1 else 0) + more,
        last,
        rw (done, schedule_all) (rest ∙ ap (λ n. some (n, last)) (ground arith)),
        synced_last,
        record {
          runs = omega (arith, grown.runs, grown_last.runs);
          events = omega (arith, grown.events, grown_last.events);
        },
        ground (arith, short),
      )

-- `ScheduleDue` never fails and keeps every run together with its event: where each run of the table has
-- its event in the outbox and each such event its run, and the service's clock is less than the run
-- timeout behind the database's, it returns the number of runs it has created, which is the number of
-- new rows in either table and at most the batch, and each run has its event again.
pub schedule_due-Synced :
    (p : Setup) (now db_now : ℕ) (run_ids event_ids : ℕ → ℕ) (skipped : ℕ → Bool) (board : Board)
    → db_now < now + p.run_timeout
    → Synced board
    → (created : ℕ) × (written : Board) × (schedule_due p now db_now run_ids event_ids skipped board
        ≡ some (created, written))
      × Synced written
      × Grown created board written
      × (created ≤ p.batch_size)
unfolding schedule_due
schedule_due-Synced p now db_now run_ids event_ids skipped board clocks synced =
    let (past, short) =
      first_rows-All (Past db_now) p.batch_size (due_rows db_now skipped board.schedules)
        (due_rows-All db_now skipped board.schedules) in
    let (created, written, done, still, grown, few) =
      schedule_all-Synced p now db_now run_ids event_ids clocks _ 0 board past synced in
    (
      created,
      written,
      done ∙ ap (λ n. some (n, written)) (omega arith),
      still,
      grown,
      omega (arith, few, short),
    )
