-- ===== src/Outbox/RunOnce.antt =====
-- One round of the dispatcher (internal/queue/outbox.go): `RunOnce` keeps the outbox healthy.
use domains_checker_infomati.Base.{
  ℕ, ◌+◌, ◌≤◌, String, List, [], ◌∷◌, map, some, Bool, true, ◌≡◌, sym, subst, arith, Bool-cases,
  Option-cases, inl, inr, length,
}
use domains_checker_infomati.Outbox.{
  EventRow, Dispatcher, Outbox, find, candidates, claim, requeue, lock, order_by, waiting,
  is_dispatching,
}
use domains_checker_infomati.Outbox.Candidates.{Unique, candidates-eligible, length-limit}
use domains_checker_infomati.Outbox.Dispatch.{
  held_row, dispatched_row, failed_row, mark_dispatched, mark_failure, deliver, run_once,
}
use domains_checker_infomati.Outbox.Healthy.{
  has_id, IsSound, IsHealthy, find_id, find-map, Unique-map, replace-IsHealthy, requeue_id,
  requeue-IsSound, lock_id, lock-IsSound,
}

-- Only waiting events that are due and have attempts left are claimed, at most a batch of them.
claim-IsHealthy :
    (d : Dispatcher) (now : ℕ) (skipped : ℕ → Bool) (o : Outbox)
    → IsHealthy d.max_attempts o
    → IsHealthy d.max_attempts (claim d now skipped o).0
unfolding claim
claim-IsHealthy d now skipped o h =
    let back = map (requeue d.lease now) o.rows in
    let chosen = candidates d now skipped back in
    let unique : Unique back =
      Unique-map (requeue d.lease now) (requeue_id d.lease now) o.rows h.unique in
    record {
      unique = Unique-map (lock d.worker now chosen) (lock_id d.worker now chosen) back unique;
      sound = λ i r f.
          let (q, in_back, e) =
            find-map (lock d.worker now chosen) (lock_id d.worker now chosen) i back r f in
          let (s, in_rows, e') =
            find-map (requeue d.lease now) (requeue_id d.lease now) i o.rows q in_back in
          let sound : IsSound d.max_attempts o.published q =
            subst (IsSound d.max_attempts o.published) (sym e')
              (requeue-IsSound d.lease now d.max_attempts o.published s (h.sound i s in_rows)) in
          subst (IsSound d.max_attempts o.published) (sym e) (
            lock-IsSound d.worker now d.max_attempts o.published chosen q
              (λ taken.
                candidates-eligible d now skipped q.id back q unique taken
                  (subst (λ k. find k back ≡ some q) (sym (find_id i back q in_back)) in_back))
              sound);
    }

pub claim-length :
    (d : Dispatcher) (now : ℕ) (skipped : ℕ → Bool) (o : Outbox)
    → length (claim d now skipped o).1 ≤ d.batch_size
unfolding claim candidates
claim-length d now skipped o =
    length-limit d.batch_size
      (order_by (waiting d.max_attempts now skipped (map (requeue d.lease now) o.rows)))

held_row-found :
    (worker : String) (id : ℕ) (rows : List EventRow) (row : EventRow)
    → held_row worker id rows ≡ some row
    → (find id rows ≡ some row) × (is_dispatching row.status ≡ true)
unfolding held_row
held_row-found worker id rows row h = ground arith

module _ (d : Dispatcher) where
  mark_dispatched-IsHealthy :
      (now id : ℕ) (o t : Outbox)
      → has_id id o.published ≡ true
      → mark_dispatched d now id o ≡ some t
      → IsHealthy d.max_attempts o
      → IsHealthy d.max_attempts t
  unfolding mark_dispatched
  mark_dispatched-IsHealthy now id o t sent m h =
      elim (Option-cases (held_row d.worker id o.rows)) [
        | inl e ↦ absurd (ground arith)
        | inr (row, e) ↦
            let (f, held) = held_row-found d.worker id o.rows row e in
            subst (IsHealthy d.max_attempts) (ground arith) (
              replace-IsHealthy d.max_attempts (dispatched_row now row) o
                (ground (arith, h.sound id row f, find_id id o.rows row f)) h)
      ]

  mark_failure-IsHealthy :
      (now jitter id : ℕ) (o t : Outbox)
      → mark_failure d now jitter id o ≡ some t
      → IsHealthy d.max_attempts o
      → IsHealthy d.max_attempts t
  unfolding mark_failure
  mark_failure-IsHealthy now jitter id o t m h = elim (Option-cases (held_row d.worker id o.rows)) [
    | inl e ↦ absurd (ground arith)
    | inr (row, e) ↦
        let (f, held) = held_row-found d.worker id o.rows row e in
        subst (IsHealthy d.max_attempts) (ground arith) (
          replace-IsHealthy d.max_attempts (failed_row d.max_attempts now jitter row) o
            (ground (arith, h.sound id row f)) h)
  ]

publish-IsHealthy :
    (most id : ℕ) (o : Outbox)
    → IsHealthy most o
    → IsHealthy most (record o { published = id ∷ o.published })
publish-IsHealthy most id o h = record {
  unique = h.unique;
  sound = λ i r f.
      let s = h.sound i r f in
      record {
        delivered = λ e. ground (arith, s.delivered e);
        hopeful = s.hopeful;
        given_up = s.given_up;
      };
}

-- What others may do while an event is under way: keep the outbox in order, and forget no delivery.
pub record IsFair (most : ℕ) (meanwhile : ℕ → Outbox → Outbox) : Type 0 where
  pub keeps : (id : ℕ) (o : Outbox) → IsHealthy most o → IsHealthy most (meanwhile id o)
  pub recalls :
      (id i : ℕ) (o : Outbox)
      → has_id i o.published ≡ true
      → has_id i (meanwhile id o).published ≡ true

module _ (d : Dispatcher) (now : ℕ) (publish : EventRow → Bool) (jitter : ℕ → ℕ)
    (meanwhile : ℕ → Outbox → Outbox) (fair : IsFair d.max_attempts meanwhile) where
  deliver-IsHealthy :
      (events : List EventRow) (o : Outbox) (n : ℕ)
      → IsHealthy d.max_attempts o
      → IsHealthy d.max_attempts (deliver d now publish jitter meanwhile events o n).0
  unfolding deliver
  deliver-IsHealthy [] o n h = h
  deliver-IsHealthy (event ∷ events) o n h = elim (Bool-cases (publish event)) [
    | inl e ↦
        let sent : Outbox = meanwhile event.id (record o { published = event.id ∷ o.published }) in
        let sent_healthy : IsHealthy d.max_attempts sent =
          fair.keeps event.id _ (publish-IsHealthy d.max_attempts event.id o h) in
        elim (Option-cases (mark_dispatched d now event.id sent)) [
          | inl lost ↦ rw (e, deliver) (rw (lost, deliver) sent_healthy)
          | inr (marked, m) ↦
              rw (e, deliver)
                (rw (m, deliver)
                  (deliver-IsHealthy events marked (n + 1) (
                    mark_dispatched-IsHealthy d now event.id sent marked
                      (fair.recalls event.id event.id
                        (record o { published = event.id ∷ o.published }) (ground arith))
                      m sent_healthy)))
        ]
    | inr e ↦
        let kept : Outbox = meanwhile event.id o in
        let kept_healthy : IsHealthy d.max_attempts kept = fair.keeps event.id o h in
        elim (Option-cases (mark_failure d now (jitter event.id) event.id kept)) [
          | inl lost ↦ rw (e, deliver) (rw (lost, deliver) kept_healthy)
          | inr (marked, m) ↦
              rw (e, deliver)
                (rw (m, deliver)
                  (deliver-IsHealthy events marked n (
                    mark_failure-IsHealthy d now (jitter event.id) event.id kept marked m
                      kept_healthy)))
        ]
  ]

  -- A round of the dispatcher keeps the outbox in order, whatever the broker takes or refuses and
  -- wherever the round stops, if other dispatchers do: identifiers are unique, every event marked as
  -- dispatched has reached the broker, an event is given up exactly when all its attempts have failed.
  pub run_once-IsHealthy :
      (skipped : ℕ → Bool) (o : Outbox)
      → IsHealthy d.max_attempts o
      → IsHealthy d.max_attempts (run_once d now publish jitter meanwhile skipped o).0
  unfolding run_once
  run_once-IsHealthy skipped o h =
      deliver-IsHealthy (claim d now skipped o).1 (claim d now skipped o).0 0
        (claim-IsHealthy d now skipped o h)

  deliver-count :
      (events : List EventRow) (o : Outbox) (n : ℕ)
      → (deliver d now publish jitter meanwhile events o n).1 ≤ n + length events
  unfolding deliver
  deliver-count [] o n = omega arith
  deliver-count (event ∷ events) o n = elim (Bool-cases (publish event)) [
    | inl e ↦
        elim (Option-cases (
          mark_dispatched d now event.id
            (meanwhile event.id (record o { published = event.id ∷ o.published })))) [
              | inl lost ↦ rw (e, deliver) (rw (lost, deliver) (omega arith))
              | inr (marked, m) ↦
                  rw (e, deliver)
                    (rw (m, deliver) (omega (arith, deliver-count events marked (n + 1))))
            ]
    | inr e ↦
        elim (Option-cases (mark_failure d now (jitter event.id) event.id (meanwhile event.id o))) [
          | inl lost ↦ rw (e, deliver) (rw (lost, deliver) (omega arith))
          | inr (marked, m) ↦
              rw (e, deliver) (rw (m, deliver) (omega (arith, deliver-count events marked n)))
        ]
  ]

  -- A round dispatches at most a batch of events.
  pub run_once-count :
      (skipped : ℕ → Bool) (o : Outbox)
      → (run_once d now publish jitter meanwhile skipped o).1 ≤ d.batch_size
  unfolding run_once
  run_once-count skipped o = omega (
    arith,
    deliver-count (claim d now skipped o).1 (claim d now skipped o).0 0,
    claim-length d now skipped o,
  )
