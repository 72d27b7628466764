-- ===== src/Outbox/Healthy.antt =====
-- The dispatcher keeps the outbox in order, whatever the broker answers (internal/queue/outbox.go).
use domains_checker_infomati.Base.{
  ℕ, ◌<◌, String, List, [], ◌∷◌, map, none, some, Bool, true, false, ◌||◌, ◌≡◌, refl, sym, subst,
  if◌then◌else◌, ◌==◌, is_some, arith, Bool-cases, inl, inr,
}
use domains_checker_infomati.Outbox.{
  EventRow, Outbox, find, is_eligible, requeue, lock, is_failed, is_dispatched,
}
use domains_checker_infomati.Outbox.Candidates.{Unique}
use domains_checker_infomati.Outbox.Dispatch.{replace}

abbrev pub has_id : ℕ → List ℕ → Bool
has_id i [] = false
has_id i (j ∷ js) = j == i || has_id i js

-- A dispatched event has reached the broker, an event that is not given up has attempts left, and one
-- that is given up has used them all.
pub record IsSound (most : ℕ) (published : List ℕ) (r : EventRow) : Type 0 where
  pub delivered : is_dispatched r.status ≡ true → has_id r.id published ≡ true
  pub hopeful : is_failed r.status ≡ false → r.attempts < most
  pub given_up : is_failed r.status ≡ true → r.attempts ≡ most

pub record IsHealthy (most : ℕ) (o : Outbox) : Type 0 where
  pub unique : Unique o.rows
  pub sound : (i : ℕ) (r : EventRow) → find i o.rows ≡ some r → IsSound most o.published r

pub find_id : (i : ℕ) (rows : List EventRow) (r : EventRow) → find i rows ≡ some r → r.id ≡ i
find_id i [] r h = cc
find_id i (s ∷ rows) r h = ground (arith, find_id i rows r)

-- Statements that keep the identifiers.
module _ (f : EventRow → EventRow) (keeps : (r : EventRow) → (f r).id ≡ r.id) where
  find-map-none : (i : ℕ) (rows : List EventRow) → find i rows ≡ none → find i (map f rows) ≡ none
  find-map-none i [] h = refl
  find-map-none i (s ∷ rows) h = ground (arith, keeps s, find-map-none i rows)

  pub find-map :
      (i : ℕ) (rows : List EventRow) (r : EventRow)
      → find i (map f rows) ≡ some r
      → (s : EventRow) × (find i rows ≡ some s) × (r ≡ f s)
  find-map i [] r h = absurd (cc)
  find-map i (s ∷ rows) r h = elim (Bool-cases (s.id == i)) [
    | inl same ↦ (s, ground arith, ground (arith, keeps s))
    | inr other ↦
        let (t, found, e) = find-map i rows r (ground (arith, keeps s)) in (t, ground arith, e)
  ]

  pub Unique-map : (rows : List EventRow) → Unique rows → Unique (map f rows)
  Unique-map [] u = tt
  Unique-map (s ∷ rows) u = (
    subst (λ i. find i (map f rows) ≡ none) (sym (keeps s)) (find-map-none s.id rows u.0),
    Unique-map rows u.1,
  )

find-replace :
    (j : ℕ) (row : EventRow) (rows : List EventRow)
    → find j (replace row rows)
      ≡ (if row.id == j then (if is_some (find j rows) then some row else none) else find j rows)
find-replace j row [] = ground arith
find-replace j row (r ∷ rows) = ground (arith, find-replace j row rows)

Unique-replace : (row : EventRow) (rows : List EventRow) → Unique rows → Unique (replace row rows)
Unique-replace row [] u = tt
Unique-replace row (r ∷ rows) u =
    ground (arith, find-replace r.id row rows, Unique-replace row rows)

pub replace-IsHealthy :
    (most : ℕ) (row : EventRow) (o : Outbox)
    → IsSound most o.published row
    → IsHealthy most o
    → IsHealthy most (record o { rows = replace row o.rows })
replace-IsHealthy most row o s h = record {
  unique = Unique-replace row o.rows h.unique;
  sound = λ i r f. ground (arith, find-replace i row o.rows, h.sound i r);
}

pub requeue_id : (lease now : ℕ) (r : EventRow) → (requeue lease now r).id ≡ r.id
unfolding requeue
requeue_id lease now r = ground arith

pub requeue-IsSound :
    (lease now most : ℕ) (published : List ℕ) (r : EventRow)
    → IsSound most published r
    → IsSound most published (requeue lease now r)
unfolding requeue
requeue-IsSound lease now most published r s = ground (arith, s.hopeful, s.given_up, s.delivered)

pub lock_id :
    (worker : String) (now : ℕ) (chosen : List EventRow) (r : EventRow)
    → (lock worker now chosen r).id ≡ r.id
unfolding lock
lock_id worker now chosen r = ground arith

pub lock-IsSound :
    (worker : String) (now most : ℕ) (published : List ℕ) (chosen : List EventRow) (r : EventRow)
    → (is_some (find r.id chosen) ≡ true → is_eligible most now r ≡ true)
    → IsSound most published r
    → IsSound most published (lock worker now chosen r)
unfolding lock
lock-IsSound worker now most published chosen r e s =
    ground (arith, s.hopeful, s.given_up, s.delivered, e)
