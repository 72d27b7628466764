-- ===== src/Http/Checker.antt =====
-- internal/httpcheck/checker.go: `CheckURL` and `CheckDomain`. `parse` is `url.Parse`, `check` is
-- `checkAttempt` by the number of the attempt, `waits` whether the wait after an attempt ended
-- without an error, and `rand` the draw of the jitter.
pub mod Fallback
use Prim.Native.String.{◌++◌ as append}
use domains_checker_infomati.Base.{
  ℕ, zero, suc, ◌+◌, String, List, [], ◌∷◌, Option, none, some, Bool, true, false, not, ◌&&◌, ◌||◌,
  if◌then◌else◌, leb, last?,
}
use domains_checker_infomati.Base.Int.{ℤ, pos, pos_part, ltb_ℤ}
use domains_checker_infomati.Base.Text.{trim_space, trim_final_dot}
use domains_checker_infomati.Netcheck.{Code}
use domains_checker_infomati.Retry.{Policy, normalized, delay}
use domains_checker_infomati.Http.Types.{ContentMode, Attempt, OriginResult}
use domains_checker_infomati.Http.Requests.{Url, Checked, validate_url, should_fallback}
use domains_checker_infomati.Http.Redirects.{fresh_attempt}

abbrev pub min_ℤ : ℤ → ℤ → ℤ
min_ℤ a b = if ltb_ℤ b a then b else a

-- How long `CheckURL` waits after an attempt: as the policy says, or as the server asked for, but for
-- that no longer than the policy's maximum.
unfoldable pub wait_time : (ℤ → ℤ) → Policy → ℕ → Attempt → ℤ
wait_time rand policy n a =
    let d = delay rand policy (pos n) in
    if ltb_ℤ d (pos a.retry_after) then min_ℤ (pos a.retry_after) policy.max_delay else d

module _ (parse : String → Checked) (check : Url → ContentMode → ℕ → Option Attempt)
    (waits : ℕ → ℤ → Bool) (rand : ℤ → ℤ) (config_retry : Policy) (now : ℕ) where
  -- The loop: `left` attempts from the attempt `n` on.
  unfoldable pub tries : Policy → Url → ContentMode → ℕ → ℕ → ℕ → Option (List Attempt)
  unfolding wait_time
  tries policy url mode most zero n = some []
  tries policy url mode most (suc left) n =
      let rest = tries policy url mode most left (n + 1) in
      elim (check url mode n) [
        | none ↦ none
        | some a ↦
            if not a.retryable || leb most n || not (waits n (wait_time rand policy n a))
            then some (a ∷ [])
            else elim rest [ none ↦ none | some later ↦ some (a ∷ later) ]
      ]

  -- `CheckURL`, with the text trimmed before it is parsed.
  unfoldable pub check_url : String → ContentMode → Option (List Attempt)
  unfolding tries
  check_url raw mode =
      let policy = normalized config_retry in
      let most = pos_part policy.max_attempts in
      elim (validate_url (parse (trim_space raw))) [
        | Checked.refused text ↦ some (
            record (fresh_attempt raw 1 now) {
              error_code = Code.normalization_invalid;
              error_message = text;
            }
            ∷ [])
        | Checked.accepted url ↦ tries policy url mode most most 1
      ]

  abbrev pub falls_back : Option Attempt → Bool
  falls_back none = false
  falls_back (some a) = should_fallback a.error_code

  -- The body of `CheckDomain`, on the trimmed host name.
  unfoldable pub check_host : String → ContentMode → Option OriginResult
  check_host hostname mode =
      let secure = check_url (append "https://" (append hostname "/")) mode in
      let plain = check_url (append "http://" (append hostname "/")) mode in
      elim secure [
        | none ↦ none
        | some https ↦
            if not (falls_back (last? https))
            then some (record { https = https; http = []; used_http_fallback = false })
            else elim plain [
              | none ↦ none
              | some http ↦ some (record { https = https; http = http; used_http_fallback = true })
            ]
      ]

  -- `CheckDomain`.
  unfoldable pub check_domain : String → ContentMode → Option OriginResult
  unfolding check_host
  check_domain hostname mode = check_host (trim_space (trim_final_dot hostname)) mode
