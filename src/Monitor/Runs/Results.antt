-- ===== src/Monitor/Runs/Results.antt =====
-- How often a run is claimed and its results are committed
-- (internal/monitor/store.go, complete.go).
use domains_checker_infomati.Base.{
  ℕ, ◌+◌, ◌≤◌, String, List, [], ◌∷◌, Option, none, some, Bool, true, false, ◌≡◌, if◌then◌else◌,
  ◌==◌, arith, refl, sym, subst, ◌∙◌, Option-cases, Bool-cases, inl, inr,
}
use domains_checker_infomati.Monitor.Runs.{
  RunRow, Policy, Claim, claimed, refused, ClaimError, find, claim_execution, claim_row, commit_row,
  fail_run, finish_run, save, is_allowed, claimed_row, expired_row, exhausted_row, failed_row,
  completed_row, is_completed,
}
use domains_checker_infomati.Monitor.Runs.Steps.{
  State, Step, wait, create, claim, fail, complete, Reach, here, next, empty, find_id, find-save,
}

-- A row in order: a completion was started, and no more claims were made than the policy allows.
pub record IsSound (p : Policy) (run : RunRow) : Type 0 where
  pub allowed : is_allowed run ≡ true
  pub tries : run.attempts ≤ p.max_attempts

abbrev pub count : ℕ → List ℕ → ℕ
count i [] = 0
count i (j ∷ js) = (if j == i then 1 else 0) + count i js

abbrev pub done : Option RunRow → ℕ
done none = 0
done (some run) = if is_completed run.status then 1 else 0

-- The committed results are those of the completed runs, one for each.
pub record Counted (p : Policy) (s : State) : Type 0 where
  pub once : (i : ℕ) → count i s.results ≡ done (find i s.runs)
  pub sound : (i : ℕ) (run : RunRow) → find i s.runs ≡ some run → IsSound p run

-- What a statement on a run that is not completed keeps.
pub record Keeps (p : Policy) (t u : List RunRow) : Type 0 where
  pub ends : (i : ℕ) → done (find i u) ≡ done (find i t)
  pub rows :
      ((i : ℕ) (run : RunRow) → find i t ≡ some run → IsSound p run)
      → (i : ℕ) (run : RunRow) → find i u ≡ some run
      → IsSound p run

Keeps-refl : (p : Policy) (t : List RunRow) → Keeps p t t
Keeps-refl p t = record { ends = λ i. refl; rows = λ h. h }

save-Keeps :
    (p : Policy) (run row : RunRow) (t u : List RunRow)
    → find row.id t ≡ some run
    → is_completed run.status ≡ false
    → is_completed row.status ≡ false
    → row.attempts ≤ p.max_attempts
    → save row t ≡ some u
    → Keeps p t u
save-Keeps p run row t u f before after tries h = record {
  ends = λ i. ground (arith, find-save i row t u);
  rows = λ sound i r e. ground (arith, find-save i row t u, sound i r);
}

commit_row-Keeps :
    (p : Policy) (run row : RunRow) (outcome : Claim) (t : List RunRow)
    → find row.id t ≡ some run
    → is_completed run.status ≡ false
    → is_completed row.status ≡ false
    → row.attempts ≤ p.max_attempts
    → Keeps p t (commit_row row outcome t).0
unfolding commit_row
commit_row-Keeps p run row outcome t f before after tries = elim (Option-cases (save row t)) [
  | inl e ↦ rw (e, commit_row) (Keeps-refl p t)
  | inr (u, e) ↦ rw (e, commit_row) (save-Keeps p run row t u f before after tries e)
]

claim_row-Keeps :
    (p : Policy) (now clock : ℕ) (worker : String) (locked : Bool) (run : RunRow) (t : List RunRow)
    → find run.id t ≡ some run
    → run.attempts ≤ p.max_attempts
    → Keeps p t (claim_row p now clock worker locked run t).0
unfolding claim_row
claim_row-Keeps p now clock worker locked run t f tries = ground (
  arith,
  Keeps-refl p t,
  λ (going : is_completed run.status ≡ false).
      commit_row-Keeps p run (expired_row clock run) (refused ClaimError.run_expired) t f going refl
        tries,
  λ (going : is_completed run.status ≡ false).
      commit_row-Keeps p run (exhausted_row clock run) (refused ClaimError.run_expired) t f going
        refl tries,
  λ (going : is_completed run.status ≡ false) (fewer : run.attempts + 1 ≤ p.max_attempts).
      commit_row-Keeps p run (claimed_row clock worker run) (claimed (claimed_row clock worker run))
        t f going refl fewer,
)

claim_execution-Keeps :
    (p : Policy) (now clock id : ℕ) (worker : String) (locked : Bool) (t : List RunRow)
    → ((i : ℕ) (run : RunRow) → find i t ≡ some run → IsSound p run)
    → Keeps p t (claim_execution p now clock id worker locked t).0
unfolding claim_execution
claim_execution-Keeps p now clock id worker locked t sound = elim (Option-cases (find id t)) [
  | inl e ↦ rw (e, claim_execution) (Keeps-refl p t)
  | inr (run, e) ↦
      rw (e, claim_execution)
        (claim_row-Keeps p now clock worker locked run t
          (subst (λ k. find k t ≡ some run) (sym (find_id id t run e)) e) (sound id run e).tries)
]

fail_run-Keeps :
    (p : Policy) (clock id : ℕ) (code : String) (t u : List RunRow)
    → ((i : ℕ) (run : RunRow) → find i t ≡ some run → IsSound p run)
    → fail_run clock id code t ≡ some u
    → Keeps p t u
unfolding fail_run
fail_run-Keeps p clock id code t u sound h = elim (Option-cases (find id t)) [
  | inl e ↦ subst (Keeps p t) (ground arith) (Keeps-refl p t)
  | inr (run, e) ↦ elim (Bool-cases (is_completed run.status)) [
    | inl over ↦ subst (Keeps p t) (ground arith) (Keeps-refl p t)
    | inr going ↦
        save-Keeps p run (failed_row clock code run) t u (ground (arith, find_id id t run)) going
          refl (sound id run e).tries (ground arith)
  ]
]

finish_run-once :
    (p : Policy) (clock id i : ℕ) (t u : List RunRow)
    → finish_run clock id t ≡ some u
    → done (find i u) ≡ (if id == i then 1 else 0) + done (find i t)
unfolding finish_run
finish_run-once p clock id i t u h = elim (Option-cases (find id t)) [
  | inl e ↦ absurd (ground arith)
  | inr (run, e) ↦ ground (arith, find_id id t run e, find-save i (completed_row clock run) t u)
]

finish_run-IsSound :
    (p : Policy) (clock id : ℕ) (t u : List RunRow)
    → finish_run clock id t ≡ some u
    → ((i : ℕ) (run : RunRow) → find i t ≡ some run → IsSound p run)
    → (i : ℕ) (run : RunRow) → find i u ≡ some run
    → IsSound p run
unfolding finish_run
finish_run-IsSound p clock id t u h sound i r f = elim (Option-cases (find id t)) [
  | inl e ↦ absurd (ground arith)
  | inr (run, e) ↦
      ground (arith, find-save i (completed_row clock run) t u, sound i r, sound id run e)
]

Step-Counted : {p : Policy} {s t : State} → Step p s t → Counted p s → Counted p t
Step-Counted (wait s later h) c = record { once = c.once; sound = c.sound }
Step-Counted (create s row new fresh) c = record {
  once = λ i. ground (arith, c.once i, c.once row.id);
  sound = λ i r f. ground (arith, c.sound i r);
}
Step-Counted {p} (claim s now id worker locked) c =
    let k = claim_execution-Keeps p now s.clock id worker locked s.runs c.sound in
    record { once = λ i. c.once i ∙ sym (k.ends i); sound = k.rows c.sound }
Step-Counted {p} (fail s id code t h) c =
    let k = fail_run-Keeps p s.clock id code s.runs t c.sound h in
    record { once = λ i. c.once i ∙ sym (k.ends i); sound = k.rows c.sound }
Step-Counted {p} (complete s id t h) c = record {
  once = λ i. ground (arith, c.once i, finish_run-once p s.clock id i s.runs t h);
  sound = finish_run-IsSound p s.clock id s.runs t h c.sound;
}

-- Whatever claims, failures, completions, new runs and pauses lead there from no runs: the committed
-- results are those of the completed runs, one for each and none for any other, and no run was claimed
-- more often than the policy allows or ended without having started.
pub Reach-Counted : {p : Policy} {s : State} → Reach p empty s → Counted p s
Reach-Counted here = record { once = λ i. refl; sound = λ i run h. cc }
Reach-Counted (next r st) = Step-Counted st (Reach-Counted r)
