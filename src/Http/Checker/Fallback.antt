-- ===== src/Http/Checker/Fallback.antt =====
-- How often a URL is tried, how long the checker waits, and when it falls back to plain HTTP
-- (internal/httpcheck/checker.go).
use Prim.Native.String.{◌++◌ as append}
use domains_checker_infomati.Base.{
  ℕ, zero, suc, ◌+◌, ◌≤◌, ◌<◌, ◌^◌, ◌≡◌, ◌≢◌, ◌⊎◌, inl, inr, refl, String, List, [], ◌∷◌, Option,
  none, some, Bool, true, false, not, ◌||◌, arith, length, leb, last?, if_split, if◌then◌else◌,
  Option-cases, subst, sym,
}
use domains_checker_infomati.Base.Int.{ℤ, pos, pos_part, ltb_ℤ, ◌≤ℤ◌}
use domains_checker_infomati.Base.Text.{trim_space}
use domains_checker_infomati.Retry.{Policy, normalized, delay}
use domains_checker_infomati.Retry.Delay.{
  Draws, IsJitter, normalized-IsNormal, normalized_idem, delay_bounds,
}
use domains_checker_infomati.Http.Types.{ContentMode, Attempt, OriginResult}
use domains_checker_infomati.Http.Requests.{Url, Checked, validate_url}
use domains_checker_infomati.Http.Redirects.Chain.{Checked-cases}
use domains_checker_infomati.Http.Checker.{min_ℤ, wait_time, tries, check_url, falls_back}

clamped :
    (d m : ℤ) (r : ℕ)
    → pos 0 ≤ℤ d
    → d ≤ℤ m
    → let w = if ltb_ℤ d (pos r) then min_ℤ (pos r) m else d in (pos 0 ≤ℤ w) × (w ≤ℤ m)
clamped d m r lo hi = ground arith

-- Whatever the server asks for, the checker waits no longer than the maximal delay of its normalized
-- policy, for a random source that draws from the range it is given, a jitter that stays between 0
-- and its argument, and a maximal delay below the largest int64.
pub wait_time_bounds :
    (rand : ℤ → ℤ) (p : Policy) (n : ℕ) (a : Attempt)
    → Draws rand
    → IsJitter (normalized p).jitter
    → pos_part (normalized p).max_delay + 1 < 2 ^ 63
    → let w = wait_time rand (normalized p) n a in (pos 0 ≤ℤ w) × (w ≤ℤ (normalized p).max_delay)
unfolding wait_time
wait_time_bounds rand p n a d j fits =
    let q = normalized p in
    let e : normalized q ≡ q = (normalized_idem p).1 in
    let fits' : pos_part (normalized q).max_delay + 1 < 2 ^ 63 =
      subst (λ r. pos_part r.max_delay + 1 < 2 ^ 63) (sym e) fits in
    let (lo, hi) = delay_bounds rand q (pos n) d j fits' in
    clamped (delay rand q (pos n)) q.max_delay a.retry_after lo
      (subst (λ r. delay rand q (pos n) ≤ℤ r.max_delay) e hi)

-- Attempts of which each but the last may be retried, and is not the maximal one.
pub data Tried (most : ℕ) : ℕ → List Attempt → Type 0 where
  last : {n : ℕ} {a : Attempt} → n ≤ most → Tried most n (a ∷ [])
  more :
      {n : ℕ} {a : Attempt} {later : List Attempt}
      → n < most
      → a.retryable ≡ true
      → Tried most (n + 1) later
      → Tried most n (a ∷ later)

Tried-length :
    (most n : ℕ) (attempts : List Attempt)
    → Tried most n attempts
    → (1 ≤ length attempts) × (n + length attempts ≤ most + 1)
Tried-length most n attempts (last h) = (omega arith, omega (arith, h))
Tried-length most n attempts (more {later = later} short r t) =
    let (one, h) = Tried-length most (n + 1) later t in (omega arith, omega (arith, h))

goes_on : (a w : Bool) (m n : ℕ) → (not a || leb m n || not w) ≡ false → (n < m) × (a ≡ true)
goes_on a w m n h = ground arith

module _ (parse : String → Checked) (check : Url → ContentMode → ℕ → Option Attempt)
    (waits : ℕ → ℤ → Bool) (rand : ℤ → ℤ) (config_retry : Policy) (now : ℕ)
    (total : (u : Url) (mode : ContentMode) (n : ℕ) → check u mode n ≢ none) where
  abbrev pub IsTried : ℕ → ℕ → Option (List Attempt) → Type 0
  IsTried most n o = (attempts : List Attempt) × (o ≡ some attempts) × Tried most n attempts

  joined :
      (most n : ℕ) (a : Attempt) (rest : Option (List Attempt))
      → n < most
      → a.retryable ≡ true
      → IsTried most (n + 1) rest
      → IsTried most n (elim rest [ none ↦ none | some later ↦ some (a ∷ later) ])
  joined most n a rest short r (later, e, t) = rw e (a ∷ later, refl, more short r t)

  one_try :
      (policy : Policy) (most n : ℕ) (a : Attempt) (rest : Option (List Attempt))
      → n ≤ most
      → (n < most → IsTried most (n + 1) rest)
      → IsTried most n (
          if not a.retryable || leb most n || not (waits n (wait_time rand policy n a))
          then some (a ∷ [])
          else elim rest [ none ↦ none | some later ↦ some (a ∷ later) ])
  one_try policy most n a rest h next =
      if_split (IsTried most n)
        (not a.retryable || leb most n || not (waits n (wait_time rand policy n a))) _ _
        (λ stop. (a ∷ [], refl, last h))
        (λ go. let (short, r) = goes_on _ _ most n go in joined most n a rest short r (next short))

  tries-IsTried :
      (policy : Policy) (u : Url) (mode : ContentMode) (most left n : ℕ)
      → n + left ≡ most
      → IsTried most n
          (tries parse check waits rand config_retry now policy u mode most (suc left) n)
  unfolding tries
  tries-IsTried policy u mode most zero n h = elim (Option-cases (check u mode n)) [
    | inl e ↦ absurd (total u mode n e)
    | inr (a, e) ↦
        rw (e, tries)
          (one_try policy most n a (some []) (omega (arith, h))
            (λ short. absurd (omega (arith, h, short))))
  ]
  tries-IsTried policy u mode most (suc left) n h = elim (Option-cases (check u mode n)) [
    | inl e ↦ absurd (total u mode n e)
    | inr (a, e) ↦
        rw (e, tries)
          (one_try policy most n a _ (omega (arith, h))
            (λ short. tries-IsTried policy u mode most left (n + 1) (omega (arith, h))))
  ]

  abbrev pub most_attempts : ℕ
  most_attempts = pos_part (normalized config_retry).max_attempts

  all_tries :
      (policy : Policy) (u : Url) (mode : ContentMode) (most : ℕ)
      → 1 ≤ most
      → IsTried most 1 (tries parse check waits rand config_retry now policy u mode most most 1)
  all_tries policy u mode zero h = absurd (omega (arith, h))
  all_tries policy u mode (suc left) h = tries-IsTried policy u mode (suc left) left 1 (omega arith)

  some_attempts : 1 ≤ most_attempts
  some_attempts = let e = (normalized-IsNormal config_retry).attempts in omega (arith, e)

  -- A check of a URL, valid or not, gives at least one attempt and at most as many as the policy has,
  -- each but the last one that may be retried, provided every single attempt comes to an end.
  pub check_url-IsTried :
      (raw : String) (mode : ContentMode)
      → IsTried most_attempts 1 (check_url parse check waits rand config_retry now raw mode)
  unfolding check_url
  check_url-IsTried raw mode = elim (Checked-cases (validate_url (parse (trim_space raw)))) [
    | inl (text, e) ↦ rw (e, check_url) (_, refl, last some_attempts)
    | inr (u, e) ↦
        rw (e, check_url) (all_tries (normalized config_retry) u mode most_attempts some_attempts)
  ]

  -- What `CheckDomain` has to give, from the attempts over HTTPS and those over HTTP.
  pub record IsOrigin (hostname : String) (mode : ContentMode) (r : OriginResult) : Type 0 where
    pub https :
        check_url parse check waits rand config_retry now
          (append "https://" (append hostname "/"))
          mode
        ≡ some r.https
    pub fallback :
        r.used_http_fallback ≡ falls_back parse check waits rand config_retry now (last? r.https)
    pub http :
        (r.used_http_fallback ≡ true)
          × (check_url parse check waits rand config_retry now
                (append "http://" (append hostname "/"))
                mode
              ≡ some r.http)
        ⊎ (r.used_http_fallback ≡ false) × (r.http ≡ [])
