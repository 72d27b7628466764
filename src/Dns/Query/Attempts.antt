-- ===== src/Dns/Query/Attempts.antt =====
-- How often a query is tried, and why no more often (internal/dnscheck/checker.go).
use domains_checker_infomati.Base.{
  ℕ, zero, suc, ◌+◌, ◌≤◌, ◌<◌, ◌≡◌, ◌⊎◌, inl, inr, String, List, [], ◌∷◌, Bool, true, false, not,
  ◌&&◌, ◌||◌, arith, length, leb, if◌then◌else◌, Bool-cases, if_taken, if_skipped, if_both,
}
use domains_checker_infomati.Base.Int.{pos_part}
use domains_checker_infomati.Base.Text.{Text, codes, to_lower, text_eq, trim}
use domains_checker_infomati.Retry.{Policy, normalized}
use domains_checker_infomati.Retry.Delay.{normalized-IsNormal}
use domains_checker_infomati.Dns.Types.{QueryType, ResolverType, Result}
use domains_checker_infomati.Dns.Query.{Exchange, retries, attempt_result, attempts_from, query}

stops :
    (a w : Bool) (m n : ℕ)
    → n ≤ m
    → (not a || leb m n || not w) ≡ true
    → (n ≡ m) ⊎ ((a && w) ≡ false)
stops a w m n h e = ground arith

goes_further :
    (a w : Bool) (m n : ℕ) → (not a || leb m n || not w) ≡ false → (n < m) × ((a && w) ≡ true)
goes_further a w m n e = ground arith

some_attempts : (p : Policy) → 1 ≤ pos_part (normalized p).max_attempts
some_attempts p = let e = (normalized-IsNormal p).attempts in omega (arith, e)

module _ (rcode_text : ℕ → String) (resolver : ResolverType) (endpoint : String)
    (exchange : ℕ → Exchange) (waits : ℕ → Bool) (now : ℕ → ℕ) where
  -- Attempt `n` failed in a way that is worth another one, and the wait after it ended.
  abbrev pub goes_on : ℕ → Bool
  goes_on n = retries rcode_text (exchange n) && waits n

  -- Results numbered from `n` on, each but the last followed by another attempt because it goes on,
  -- the last because the attempts are used up or it does not go on.
  pub data Trail (most : ℕ) : ℕ → List Result → Type 0 where
    last :
        {n : ℕ} {r : Result}
        → r.attempt ≡ n
        → (n ≡ most) ⊎ (goes_on n ≡ false)
        → Trail most n (r ∷ [])
    more :
        {n : ℕ} {r : Result} {rs : List Result}
        → r.attempt ≡ n
        → n < most
        → goes_on n ≡ true
        → Trail most (n + 1) rs
        → Trail most n (r ∷ rs)

  attempt_result-attempt :
      (name : Text) (t : QueryType) (n at : ℕ) (x : Exchange)
      → (attempt_result rcode_text resolver endpoint name t n at x).attempt ≡ n
  unfolding attempt_result
  attempt_result-attempt name t n at x = ground arith

  attempt-Trail :
      (name : Text) (t : QueryType) (most n : ℕ) (rest : List Result)
      → n ≤ most
      → (n < most → Trail most (n + 1) rest)
      → let r = attempt_result rcode_text resolver endpoint name t n (now n) (exchange n) in
        Trail most n (
          if not (retries rcode_text (exchange n)) || leb most n || not (waits n)
          then r ∷ []
          else r ∷ rest)
  attempt-Trail name t most n rest h next =
      let r = attempt_result rcode_text resolver endpoint name t n (now n) (exchange n) in
      let numbered = attempt_result-attempt name t n (now n) (exchange n) in
      let stop = not (retries rcode_text (exchange n)) || leb most n || not (waits n) in
      elim (Bool-cases stop) [
        | inl e ↦
            if_taken (Trail most n) stop (r ∷ []) (r ∷ rest) e
              (last numbered (stops _ _ most n h e))
        | inr e ↦
            let (short, goes) = goes_further _ _ most n e in
            if_skipped (Trail most n) stop (r ∷ []) (r ∷ rest) e
              (more numbered short goes (next short))
      ]

  attempts_from-Trail :
      (name : Text) (t : QueryType) (most left n : ℕ)
      → n + left ≡ most
      → Trail most n
          (attempts_from rcode_text resolver endpoint exchange waits now name t most (suc left) n)
  unfolding attempts_from
  attempts_from-Trail name t most zero n h =
      attempt-Trail name t most n [] (omega (arith, h)) (λ short. absurd (omega (arith, h, short)))
  attempts_from-Trail name t most (suc k) n h =
      attempt-Trail name t most n _ (omega (arith, h))
        (λ short. attempts_from-Trail name t most k (n + 1) (omega (arith, h)))

  Trail-length :
      (most n : ℕ) (rs : List Result)
      → n ≤ most
      → Trail most n rs
      → (1 ≤ length rs) × (n + length rs ≤ most + 1)
  Trail-length most n rs h (last e d) = (omega arith, omega (arith, h))
  Trail-length most n rs h (more {rs = qs} e short goes t) =
      let (one, most') = Trail-length most (n + 1) qs (omega (arith, short)) t in
      (omega arith, omega (arith, most'))

  all_attempts :
      (name : Text) (t : QueryType) (most : ℕ)
      → 1 ≤ most
      → Trail most 1
          (attempts_from rcode_text resolver endpoint exchange waits now name t most most 1)
  all_attempts name t zero h = absurd (omega (arith, h))
  all_attempts name t (suc k) h = attempts_from-Trail name t (suc k) k 1 (omega arith)

  module _ (is_domain_name : Text → Bool) (fqdn : Text → Text) (policy : Policy) where
    abbrev pub most_attempts : ℕ
    most_attempts = pos_part (normalized policy).max_attempts

    -- A query of a valid name follows the policy: its results are numbered from 1 on, each but the
    -- last is an attempt before the maximal one that failed in a way worth another attempt and was
    -- waited after, and the last is the maximal attempt or one that does not go on.
    pub query-Trail :
        (name : Text) (t : QueryType)
        → (not (is_domain_name (to_lower (trim name)))
            || text_eq (to_lower (trim name)) (codes "."))
          ≡ false
        → Trail most_attempts 1 (
            query rcode_text resolver endpoint exchange waits now is_domain_name fqdn policy name t)
    unfolding query
    query-Trail name t valid =
        if_skipped (Trail most_attempts 1) _ _ _ valid
          (all_attempts (fqdn (to_lower (trim name))) t most_attempts (some_attempts policy))

    -- Every query, of a valid name or not, gives at least one result, and at most as many as the
    -- policy has attempts.
    pub query-length :
        (name : Text) (t : QueryType)
        → let rs =
            query rcode_text resolver endpoint exchange waits now is_domain_name fqdn policy name
              t in
          (1 ≤ length rs) × (length rs ≤ most_attempts)
    unfolding query
    query-length name t =
        if_both (λ (rs : List Result). (1 ≤ length rs) × (length rs ≤ most_attempts))
          (not (is_domain_name (to_lower (trim name)))
            || text_eq (to_lower (trim name)) (codes "."))
          _ _ (omega arith, some_attempts policy)
          (let (one, h) =
              Trail-length most_attempts 1 _ (some_attempts policy) (
                all_attempts (fqdn (to_lower (trim name))) t most_attempts
                  (some_attempts policy)) in
            (one, omega (arith, h)))
