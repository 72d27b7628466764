-- ===== src/Monitor/Runs/Leases.antt =====
-- Leases exclude: two workers never hold a live claim on runs of one domain
-- (internal/monitor/store.go).
use domains_checker_infomati.Base.{
  ℕ, ◌≤◌, String, List, [], ◌∷◌, some, Bool, true, false, ◌≡◌, arith, refl, subst, Option-cases,
  Bool-cases, inl, inr,
}
use domains_checker_infomati.Monitor.Runs.{
  RunRow, Claim, refused, claimed, run_expired, is_completed, Policy, find, claim_execution,
  claim_row, commit_row, fail_run, finish_run, save, is_active, another_active, claimed_row,
  expired_row, failed_row, completed_row, exhausted_row,
}
use domains_checker_infomati.Monitor.Runs.Steps.{
  State, Step, wait, create, claim, fail, complete, Reach, here, next, empty, find-save,
}

-- No two different runs of one domain are active.
pub record Exclusive (lease clock : ℕ) (t : List RunRow) : Type 0 where
  pub same :
      (i j : ℕ) (a b : RunRow)
      → find i t ≡ some a
      → find j t ≡ some b
      → a.domain ≡ b.domain
      → is_active lease clock a ≡ true
      → is_active lease clock b ≡ true
      → i ≡ j

active_before :
    (lease early late : ℕ) (a : RunRow)
    → early ≤ late
    → is_active lease late a ≡ true
    → is_active lease early a ≡ true
active_before lease early late a h e = ground arith

-- The scan over the rows finds every other active run of the domain.
another_active_sound :
    (lease clock domain id j : ℕ) (t : List RunRow) (b : RunRow)
    → another_active lease clock domain id t ≡ false
    → find j t ≡ some b
    → b.domain ≡ domain
    → is_active lease clock b ≡ true
    → j ≡ id
unfolding another_active
another_active_sound lease clock domain id j [] b h f d e = cc
another_active_sound lease clock domain id j (run ∷ t) b h f d e =
    ground (arith, another_active_sound lease clock domain id j t b)

-- A saved row that is not active excludes nothing.
save-quiet :
    (lease clock : ℕ) (row : RunRow) (t u : List RunRow)
    → save row t ≡ some u
    → is_active lease clock row ≡ false
    → Exclusive lease clock t
    → Exclusive lease clock u
save-quiet lease clock row t u h quiet ex = record {
  same = λ i j a b fi fj d ea eb.
      ground (arith, find-save i row t u, find-save j row t u, ex.same i j a b);
}

save-claimed :
    (lease clock : ℕ) (row : RunRow) (t u : List RunRow)
    → save row t ≡ some u
    → another_active lease clock row.domain row.id t ≡ false
    → Exclusive lease clock t
    → Exclusive lease clock u
save-claimed lease clock row t u h alone ex = record {
  same = λ i j a b fi fj d ea eb. ground (
    arith,
    find-save i row t u,
    find-save j row t u,
    ex.same i j a b,
    another_active_sound lease clock row.domain row.id i t a alone,
    another_active_sound lease clock row.domain row.id j t b alone,
  );
}

commit_row-quiet :
    (lease clock : ℕ) (row : RunRow) (outcome : Claim) (t : List RunRow)
    → is_active lease clock row ≡ false
    → Exclusive lease clock t
    → Exclusive lease clock (commit_row row outcome t).0
unfolding commit_row
commit_row-quiet lease clock row outcome t quiet ex = elim (Option-cases (save row t)) [
  | inl e ↦ rw (e, commit_row) ex
  | inr (u, e) ↦ rw (e, commit_row) (save-quiet lease clock row t u e quiet ex)
]

commit_row-claimed :
    (lease clock : ℕ) (row : RunRow) (outcome : Claim) (t : List RunRow)
    → another_active lease clock row.domain row.id t ≡ false
    → Exclusive lease clock t
    → Exclusive lease clock (commit_row row outcome t).0
unfolding commit_row
commit_row-claimed lease clock row outcome t alone ex = elim (Option-cases (save row t)) [
  | inl e ↦ rw (e, commit_row) ex
  | inr (u, e) ↦ rw (e, commit_row) (save-claimed lease clock row t u e alone ex)
]

module _ (p : Policy) where
  claim_row-Exclusive :
      (now clock : ℕ) (worker : String) (locked : Bool) (run : RunRow) (t : List RunRow)
      → Exclusive p.lease clock t
      → Exclusive p.lease clock (claim_row p now clock worker locked run t).0
  unfolding claim_row
  claim_row-Exclusive now clock worker locked run t ex = ground (
    arith,
    commit_row-quiet p.lease clock (expired_row clock run) (refused run_expired) t refl ex,
    commit_row-quiet p.lease clock (exhausted_row clock run) (refused run_expired) t refl ex,
    λ (alone : another_active p.lease clock run.domain run.id t ≡ false).
        commit_row-claimed p.lease clock (claimed_row clock worker run)
          (claimed (claimed_row clock worker run)) t alone ex,
  )

  claim_execution-Exclusive :
      (now clock id : ℕ) (worker : String) (locked : Bool) (t : List RunRow)
      → Exclusive p.lease clock t
      → Exclusive p.lease clock (claim_execution p now clock id worker locked t).0
  unfolding claim_execution
  claim_execution-Exclusive now clock id worker locked t ex = elim (Option-cases (find id t)) [
    | inl e ↦ rw (e, claim_execution) ex
    | inr (run, e) ↦ rw (e, claim_execution) (claim_row-Exclusive now clock worker locked run t ex)
  ]

  fail_run-Exclusive :
      (clock id : ℕ) (code : String) (t u : List RunRow)
      → fail_run clock id code t ≡ some u
      → Exclusive p.lease clock t
      → Exclusive p.lease clock u
  unfolding fail_run
  fail_run-Exclusive clock id code t u h ex = elim (Option-cases (find id t)) [
    | inl e ↦ subst (Exclusive p.lease clock) (ground arith) ex
    | inr (run, e) ↦ elim (Bool-cases (is_completed run.status)) [
      | inl done ↦ subst (Exclusive p.lease clock) (ground arith) ex
      | inr going ↦ save-quiet p.lease clock (failed_row clock code run) t u (ground arith) refl ex
    ]
  ]

  finish_run-Exclusive :
      (clock id : ℕ) (t u : List RunRow)
      → finish_run clock id t ≡ some u
      → Exclusive p.lease clock t
      → Exclusive p.lease clock u
  unfolding finish_run
  finish_run-Exclusive clock id t u h ex = elim (Option-cases (find id t)) [
    | inl e ↦ absurd (ground arith)
    | inr (run, e) ↦ save-quiet p.lease clock (completed_row clock run) t u (ground arith) refl ex
  ]

  Step-Exclusive :
      {s t : State}
      → Step p s t
      → Exclusive p.lease s.clock s.runs
      → Exclusive p.lease t.clock t.runs
  Step-Exclusive (wait s later h) ex = record {
    same = λ i j a b fi fj d ea eb.
        ex.same i j a b fi fj d (active_before p.lease s.clock later a h ea)
          (active_before p.lease s.clock later b h eb);
  }
  Step-Exclusive (create s row new fresh) ex = record {
    same = λ i j a b fi fj d ea eb. ground (arith, ex.same i j a b);
  }
  Step-Exclusive (claim s now id worker locked) ex =
      claim_execution-Exclusive now s.clock id worker locked s.runs ex
  Step-Exclusive (fail s id code t h) ex = fail_run-Exclusive s.clock id code s.runs t h ex
  Step-Exclusive (complete s id t h) ex = finish_run-Exclusive s.clock id s.runs t h ex

  -- At most one worker holds a live claim on a domain: whatever claims, failures, completions, new runs
  -- and pauses lead there from no runs, two runs of one domain that are both running with a heartbeat
  -- younger than the lease are the same run.
  pub Reach-Exclusive : {s : State} → Reach p empty s → Exclusive p.lease s.clock s.runs
  Reach-Exclusive here = record { same = λ i j a b fi fj d ea eb. cc }
  Reach-Exclusive (next r st) = Step-Exclusive st (Reach-Exclusive r)
