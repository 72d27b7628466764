-- ===== src/Classification/Evidence.antt =====
-- internal/classification/classification.go: the failure stage, the reasons and the score of a
-- decision.
use domains_checker_infomati.Base.{
  ℕ, String, List, [], ◌∷◌, ◌++◌, some, Bool, true, false, not, ◌&&◌, ◌||◌, if◌then◌else◌, leb, ◌+◌,
  str_eq, starts_with, has_text,
}
use domains_checker_infomati.Base.Int.{ℤ, pos, pos_part, ◌+ℤ◌, ◌-ℤ◌, ltb_ℤ}
use domains_checker_infomati.Netcheck.{Code, code_text}
use domains_checker_infomati.Status.{Availability, DnsStatus, RedirectStatus}
use domains_checker_infomati.Classification.Decision.{Decision}
use domains_checker_infomati.Dns.Types.{Result, Comparison, code_eq}
use domains_checker_infomati.Classification.Parts.{answered}

-- `failureStage`, by the prefix of the code's text.
unfoldable pub failure_stage : Code → String
unfolding code_text
failure_stage code =
    let text = code_text code in
    if starts_with text "DNS_"
    then "dns"
    else if starts_with text "TCP_" || starts_with text "SSRF_"
    then "tcp"
    else if starts_with text "TLS_"
    then "tls"
    else if starts_with text "HTTP_"
    then "http"
    else if starts_with text "CONTENT_"
    then "content"
    else if code_eq code Code.run_cancelled || code_eq code Code.run_deadline_exceeded
    then "persistence"
    else ""

-- `unique`: no blank text, and the first of equal ones.
unfoldable pub unique_from : List String → List String → List String
unique_from seen [] = []
unique_from seen (value ∷ values) =
    let skipped = unique_from seen values in
    let kept = value ∷ unique_from (value ∷ seen) values in
    if str_eq value "" || has_text value seen then skipped else kept

abbrev pub unique : List String → List String
unique = unique_from []

pub reasons_of : Availability → List String
reasons_of Availability.active = "HTTP_FINAL_SUCCESS" ∷ "CONTENT_VALID" ∷ []
reasons_of Availability.degraded = "PARTIAL_AVAILABILITY" ∷ []
reasons_of Availability.unavailable = "QUALIFYING_FAILURE" ∷ []
reasons_of _ = "EVIDENCE_INCOMPLETE" ∷ []

pub permanent_reason : RedirectStatus → List String
permanent_reason RedirectStatus.permanent = "PERMANENT_REDIRECT" ∷ []
permanent_reason _ = []

pub error_reason : String → List String
error_reason text = if str_eq text "" then [] else text ∷ []

unfoldable pub evidence_reasons : Decision → Comparison → List String
unfolding reasons_of permanent_reason error_reason
evidence_reasons d comparison = unique (
    comparison.reasons
    ++ (reasons_of d.availability
        ++ (permanent_reason d.redirect ++ error_reason (code_text d.error_code))))

unfoldable pub has_conclusive_dns : List Result → Bool
has_conclusive_dns [] = false
has_conclusive_dns (r ∷ rs) = answered (some r) || has_conclusive_dns rs

pub count_code : Code → List Result → ℕ
count_code code [] = 0
count_code code (r ∷ rs) =
    let rest = count_code code rs in
    if code_eq r.error_code code && not (code_eq code Code.no_code) then rest + 1 else rest

unfoldable pub repeated_failure : List Result → Code → Bool
unfolding count_code
repeated_failure results code = leb 2 (count_code code results)

pub base_score : Availability → ℤ
base_score Availability.active = pos 65
base_score Availability.degraded = pos 50
base_score Availability.unavailable = pos 35
base_score _ = pos 20

abbrev pub is_ok : DnsStatus → Bool
is_ok DnsStatus.ok = true
is_ok _ = false

abbrev pub is_discrepancy : DnsStatus → Bool
is_discrepancy DnsStatus.discrepancy = true
is_discrepancy _ = false

abbrev pub bonus : Bool → ℤ → ℤ
bonus true points = points
bonus false points = pos 0

-- `score` on the tests that it makes.
unfoldable pub score_from : Availability → Bool → Bool → Bool → Bool → ℕ
unfolding base_score ◌+ℤ◌ ◌-ℤ◌
score_from availability ok conclusive repeated discrepancy =
    let value =
      base_score availability
      +ℤ bonus ok (pos 10)
      +ℤ bonus conclusive (pos 10)
      +ℤ bonus repeated (pos 5)
      -ℤ bonus discrepancy (pos 10) in
    let floored = if ltb_ℤ value (pos 0) then pos 0 else value in
    pos_part (if ltb_ℤ (pos 99) floored then pos 99 else floored)

-- `score`; its result is never negative, and is kept as a number.
unfoldable pub score : Decision → List Result → List Result → ℕ
unfolding score_from
score d local_dns alternate_dns =
    score_from d.availability (is_ok d.dns) (has_conclusive_dns alternate_dns)
      (repeated_failure local_dns d.error_code) (is_discrepancy d.dns)
