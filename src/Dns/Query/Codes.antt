-- ===== src/Dns/Query/Codes.antt =====
-- Which failures of a query are worth another attempt (internal/dnscheck/checker.go,
-- internal/dnscheck/types.go).
use domains_checker_infomati.Base.{ℕ, ◌≡◌, String, not, ◌||◌, arith, ◌==◌}
use domains_checker_infomati.Base.Text.{Text}
use domains_checker_infomati.Netcheck.{new}
use domains_checker_infomati.Dns.Types.{QueryType, ResolverType, result_error, retryable_code}
use domains_checker_infomati.Dns.Query.{
  Exchange, Message, Outcome, classify_rcode, retries, attempt_result, retryable_error,
}

-- A response is worth another attempt exactly if its code is SERVFAIL (2). The result that is kept of
-- it tells otherwise for every code but NOERROR (0), NXDOMAIN (3) and REFUSED (5): `Err` makes it an
-- error that may be retried.
pub result_error-retryable :
    (rcode_text : ℕ → String) (resolver : ResolverType) (endpoint : String) (name : Text)
    (t : QueryType) (attempt at : ℕ) (x : Exchange) (m : Message)
    → x.outcome ≡ Outcome.message m
    → let r = attempt_result rcode_text resolver endpoint name t attempt at x in
      (retries rcode_text x ≡ (m.rcode == 2))
      × (retryable_error rcode_text (result_error r)
          ≡ not (m.rcode == 0 || m.rcode == 3 || m.rcode == 5))
unfolding retries attempt_result result_error classify_rcode retryable_code new
result_error-retryable rcode_text resolver endpoint name t attempt at x m e = rw e (ground arith)
