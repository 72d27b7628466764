-- ===== src/Outbox/Candidates.antt =====
-- Which events a dispatcher claims (internal/queue/outbox.go).
use domains_checker_infomati.Base.{
  ℕ, zero, suc, ◌≤◌, List, [], ◌∷◌, none, some, Bool, true, not, ◌&&◌, ◌||◌, ◌≡◌, refl, ◌==◌,
  is_some, arith, length, Bool-cases, ◌∙◌, sym, inl, inr,
}
use domains_checker_infomati.Outbox.{
  EventRow, Dispatcher, find, is_eligible, waiting, insert_row, order_by, limit, candidates,
}

-- No two rows have the same identifier.
abbrev pub Unique : List EventRow → Type 0
Unique [] = Unit {0}
Unique (r ∷ rows) = (find r.id rows ≡ none) × Unique rows

find-insert_row :
    (i : ℕ) (r : EventRow) (rows : List EventRow)
    → is_some (find i (insert_row r rows)) ≡ (r.id == i || is_some (find i rows))
unfolding insert_row
find-insert_row i r [] = ground arith
find-insert_row i r (s ∷ rows) = ground (arith, find-insert_row i r rows)

find-order_by :
    (i : ℕ) (rows : List EventRow) → is_some (find i (order_by rows)) ≡ is_some (find i rows)
unfolding order_by
find-order_by i [] = refl
find-order_by i (r ∷ rows) =
    ground (arith, find-insert_row i r (order_by rows), find-order_by i rows)

find-limit :
    (i n : ℕ) (rows : List EventRow)
    → is_some (find i (limit n rows)) ≡ true
    → is_some (find i rows) ≡ true
unfolding limit
find-limit i zero rows h = cc
find-limit i (suc n) [] h = cc
find-limit i (suc n) (r ∷ rows) h = ground (arith, find-limit i n rows)

pub length-limit : (n : ℕ) (rows : List EventRow) → length (limit n rows) ≤ n
unfolding limit
length-limit zero rows = omega arith
length-limit (suc n) [] = omega arith
length-limit (suc n) (r ∷ rows) = omega (arith, length-limit n rows)

module _ (most now : ℕ) (skipped : ℕ → Bool) where
  waiting-none :
      (i : ℕ) (rows : List EventRow)
      → find i rows ≡ none
      → find i (waiting most now skipped rows) ≡ none
  unfolding waiting
  waiting-none i [] h = refl
  waiting-none i (r ∷ rows) h = ground (arith, waiting-none i rows)

  -- An identifier among the waiting rows is that of an eligible row.
  waiting-eligible :
      (i : ℕ) (rows : List EventRow) (r : EventRow)
      → Unique rows
      → is_some (find i (waiting most now skipped rows)) ≡ true
      → find i rows ≡ some r
      → is_eligible most now r ≡ true
  unfolding waiting
  waiting-eligible i [] r u h f = cc
  waiting-eligible i (s ∷ rows) r u h f = elim (Bool-cases (s.id == i)) [
    | inl same ↦ elim (Bool-cases (is_eligible most now s && not (skipped s.id))) [
      | inl passes ↦ ground arith
      | inr fails ↦ absurd (ground (arith, waiting-none i rows, u.0))
    ]
    | inr other ↦ ground (arith, waiting-eligible i rows r u.1)
  ]

pub candidates-eligible :
    (d : Dispatcher) (now : ℕ) (skipped : ℕ → Bool) (i : ℕ) (rows : List EventRow) (r : EventRow)
    → Unique rows
    → is_some (find i (candidates d now skipped rows)) ≡ true
    → find i rows ≡ some r
    → is_eligible d.max_attempts now r ≡ true
unfolding candidates
candidates-eligible d now skipped i rows r u h f =
    let chosen = waiting d.max_attempts now skipped rows in
    waiting-eligible d.max_attempts now skipped i rows r u
      (sym (find-order_by i chosen) ∙ find-limit i d.batch_size (order_by chosen) h) f
